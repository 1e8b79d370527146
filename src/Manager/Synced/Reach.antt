-- ===== src/Manager/Synced/Reach.antt =====
-- The maps of the manager and its configuration agree at any time of its life.
use oneagent.Prelude.{ℕ, Dict, Bool-cases, inl, inr, ◌==◌, String, refl, Option, lookup}
use oneagent.Config.Types.{OutboundConfig}
use oneagent.Exec.{◌>>=◌, pure}
use oneagent.Platform.{World}
use oneagent.Kernel.{stop}
use oneagent.Manager.Subscriptions.{due_subscription_providers, mark_subscription_updated}
use oneagent.Manager.State.{Manager, State, Method, new_manager}
use oneagent.Manager.Find.{find_inbound, find_outbound}
use oneagent.Manager.Commit.Keeps.{Keeps, Keeps-on_kernel, Keeps-apply_kernel_locked}
use oneagent.Manager.Steps.{
  Request, handle, done, Step, Reach, reload_kernel, stop_kernel, record_health,
}
use oneagent.Manager.Synced.{IsSynced}
use oneagent.Manager.Synced.Handlers.{Syncs, Syncs-bind}
use oneagent.Manager.Synced.Requests.{
  Syncs-create_proxy, Syncs-create_forward, Syncs-upsert_inbound, Syncs-upsert_outbound,
  Syncs-update_mihomo_config, Syncs-update_routing_config, Syncs-update_kernel_config,
}
use oneagent.Manager.Synced.Switches.{
  Syncs-delete_node, Syncs-delete_nodes, Syncs-set_node_enabled, Syncs-set_nodes_enabled,
}
use oneagent.Manager.Synced.Applies.{
  Syncs-apply_config, Syncs-restore_config_history, Syncs-import_outbounds,
}

Syncs-done : {A : Type 0} (m : Method A) (s : State) → Syncs m s → Syncs (done m) s
Syncs-done m s h = Syncs-bind m (λ _. pure tt) s h λ a t same. rw same h

Syncs-Keeps : {A : Type 0} (m : Method A) (s : State) → Keeps m → IsSynced s.self → Syncs m s
Syncs-Keeps m s k h = rw (k.at s) h

marked-IsSynced :
    (m : Manager) (marked : Dict ℕ) → IsSynced m → IsSynced (record m { subscriptions = marked })
marked-IsSynced m marked h = record {
  inbounds = h.inbounds;
  outbounds = h.outbounds;
  rules = h.rules;
}

Syncs-due : (s : State) → IsSynced s.self → Syncs due_subscription_providers s
unfolding due_subscription_providers ◌>>=◌
Syncs-due s h = marked-IsSynced s.self _ h

Syncs-mark :
    (name : String) (s : State) → IsSynced s.self → Syncs (mark_subscription_updated name) s
unfolding mark_subscription_updated ◌>>=◌
Syncs-mark name s h = elim (Bool-cases (name == "")) [
  | inl none_named ↦ rw none_named h
  | inr named ↦ rw named (marked-IsSynced s.self _ h)
]

module _ (parse_link : String → Option OutboundConfig) where
  Syncs-handle : (r : Request) (s : State) → IsSynced s.self → Syncs (handle parse_link r) s
  unfolding handle reload_kernel stop_kernel record_health
  Syncs-handle (Request.apply cfg) s h = Syncs-apply_config parse_link cfg s h
  Syncs-handle (Request.add_proxy req) s h = Syncs-done _ s (Syncs-create_proxy s h req)
  Syncs-handle (Request.add_forward req) s h = Syncs-done _ s (Syncs-create_forward s h req)
  Syncs-handle (Request.put_inbound i) s h = Syncs-done _ s (Syncs-upsert_inbound s h i)
  Syncs-handle (Request.put_outbound o) s h = Syncs-done _ s (Syncs-upsert_outbound s h o)
  Syncs-handle (Request.import_nodes options given) s h =
      Syncs-done _ s (Syncs-import_outbounds parse_link options given s h)
  Syncs-handle (Request.delete node_type name) s h = Syncs-delete_node s h node_type name
  Syncs-handle (Request.delete_all items) s h = Syncs-done _ s (Syncs-delete_nodes s h items)
  Syncs-handle (Request.switch node_type name enabled) s h =
      Syncs-done _ s (Syncs-set_node_enabled s h node_type name enabled)
  Syncs-handle (Request.switch_all items enabled) s h =
      Syncs-done _ s (Syncs-set_nodes_enabled s h items enabled)
  Syncs-handle (Request.set_routing routing) s h = Syncs-update_routing_config s h routing
  Syncs-handle (Request.set_mihomo cfg) s h = Syncs-update_mihomo_config s h cfg
  Syncs-handle (Request.set_kernel cfg) s h = Syncs-update_kernel_config cfg s h
  Syncs-handle (Request.restore_history id) s h = Syncs-restore_config_history parse_link id s h
  Syncs-handle Request.reload s h = Syncs-Keeps _ s Keeps-apply_kernel_locked h
  Syncs-handle Request.halt s h = Syncs-Keeps _ s (Keeps-on_kernel stop) h
  Syncs-handle (Request.probed name health) s h = record {
    inbounds = h.inbounds;
    outbounds = h.outbounds;
    rules = h.rules;
  }
  Syncs-handle Request.due_subscriptions s h = Syncs-done _ s (Syncs-due s h)
  Syncs-handle (Request.fetched name) s h = Syncs-mark name s h

  Step-IsSynced : {s t : State} → Step parse_link s t → IsSynced s.self → IsSynced t.self
  Step-IsSynced (Step.request r) h = Syncs-handle r _ h
  Step-IsSynced (Step.outside kernels world) h = h

  -- At any time of a manager's life, whichever requests it has had and whichever of their calls have
  -- failed, its maps of nodes have under each name the node of that name in its configuration, none
  -- where that has none, and its list of rules is the one of its configuration.
  -- That is the configuration in memory: of the saved file and of the kernel nothing is said.
  pub Reach-IsSynced :
      (config_path : String) (world : World) (s : State)
      → Reach parse_link config_path world s
      → IsSynced s.self
  unfolding new_manager find_inbound find_outbound lookup
  Reach-IsSynced config_path world s Reach.start = record {
    inbounds = λ name. refl;
    outbounds = λ name. refl;
    rules = refl;
  }
  Reach-IsSynced config_path world s (Reach.after h step) =
      Step-IsSynced step (Reach-IsSynced config_path world _ h)
