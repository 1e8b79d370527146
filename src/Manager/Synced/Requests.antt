-- ===== src/Manager/Synced/Requests.antt =====
-- Every request leaves a manager whose maps and configuration agree.
use oneagent.Prelude.{refl}
use oneagent.Config.Types.{InboundConfig, OutboundConfig, RoutingConfig, KernelConfig, MihomoConfig}
use oneagent.Manager.State.{Manager, State}
use oneagent.Manager.Commit.{update, normalize_kernel_config}
use oneagent.Manager.Requests.{
  ProxyCreateRequest, create_proxy, ForwardCreateRequest, create_forward, upsert_inbound,
  upsert_outbound, set_mihomo, update_mihomo_config, set_routing, update_routing_config,
  update_kernel_config,
}
use oneagent.Manager.Requests.Outcomes.{
  Adds, Forwards, Puts, PutsOutbound, create_proxy-Adds, create_forward-Forwards,
  upsert_inbound-Puts, upsert_outbound_lem,
}
use oneagent.Manager.Synced.{
  IsSynced, add_inbound-IsSynced, add_forward-IsSynced, put_inbound-IsSynced, put_renamed-IsSynced,
}
use oneagent.Manager.Synced.Handlers.{
  Syncs, Syncs-Settled, Syncs-transact, Syncs-bind, Syncs-get, Syncs-commit, Syncs-configure,
}

module _ (s : State) (h : IsSynced s.self) where
  pub Syncs-create_proxy : (req : ProxyCreateRequest) → Syncs (create_proxy req) s
  Syncs-create_proxy req =
      Syncs-Settled (Adds req s) _ s.self h
        (λ m added.
          let (_, i, now, unused, _, name, _, _, e) = added in
          rw e (add_inbound-IsSynced i now s.self (rw name unused) h))
        (create_proxy-Adds req s)

  pub Syncs-create_forward : (req : ForwardCreateRequest) → Syncs (create_forward req) s
  Syncs-create_forward req =
      Syncs-Settled (Forwards req s) _ s.self h
        (λ m added. let (_, unused, e) = added in rw e (add_forward-IsSynced _ _ s.self unused h))
        (create_forward-Forwards req s)

  pub Syncs-upsert_inbound : (given : InboundConfig) → Syncs (upsert_inbound given) s
  Syncs-upsert_inbound given =
      Syncs-Settled (Puts given s) _ s.self h
        (λ m put. let (i, now, _, _, e) = put in rw e (put_inbound-IsSynced i now s.self h))
        (upsert_inbound-Puts given s)

  pub Syncs-upsert_outbound : (given : OutboundConfig) → Syncs (upsert_outbound given) s
  Syncs-upsert_outbound given =
      Syncs-Settled (PutsOutbound given s) _ s.self h
        (λ m put. rw put.1 (put_renamed-IsSynced _ _ _ s.self h)) (upsert_outbound_lem given s)

  pub Syncs-update_mihomo_config : (cfg : MihomoConfig) → Syncs (update_mihomo_config cfg) s
  unfolding update_mihomo_config
  Syncs-update_mihomo_config cfg =
      Syncs-transact (set_mihomo cfg) s h
        (record { inbounds = h.inbounds; outbounds = h.outbounds; rules = h.rules })

  pub Syncs-update_routing_config :
      (routing : RoutingConfig) → Syncs (update_routing_config routing) s
  unfolding update_routing_config
  Syncs-update_routing_config routing =
      Syncs-transact (set_routing routing) s h
        (record { inbounds = h.inbounds; outbounds = h.outbounds; rules = refl })

with_kernel-IsSynced :
    (m : Manager) (cfg : KernelConfig)
    → IsSynced m
    → IsSynced (record m { cfg = record (m.cfg) { kernel = cfg } })
with_kernel-IsSynced m cfg h = record {
  inbounds = h.inbounds;
  outbounds = h.outbounds;
  rules = h.rules;
}

pub Syncs-update_kernel_config :
    (given : KernelConfig) (s : State) → IsSynced s.self → Syncs (update_kernel_config given) s
unfolding update_kernel_config
Syncs-update_kernel_config given s h = Syncs-get _ s (
    Syncs-bind _ _ s (Syncs-configure _ s h) λ u t e.
      let cfg = normalize_kernel_config given in
      let changed : IsSynced (record (t.self) { cfg = record (t.self.cfg) { kernel = cfg } }) =
        with_kernel-IsSynced t.self cfg (rw e (Syncs-configure cfg s h)) in
      Syncs-bind (update (λ m. record m { cfg = record (m.cfg) { kernel = cfg } })) _ t changed
        λ v w same. Syncs-commit s.self w h (rw same changed))
