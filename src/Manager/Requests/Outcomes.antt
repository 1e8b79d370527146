-- ===== src/Manager/Requests/Outcomes.antt =====
-- What each request for a node does: every answer is an error that changed nothing, or the change
-- of the source with a configuration that is valid.
use oneagent.Prelude.{
  ℕ, String, Bool, true, false, ◌≡◌, refl, ◌∙◌, ◌==◌, has, not, ◌&&◌, ◌⊎◌, arith, inl, inr,
}
use oneagent.Config.Types.{InboundConfig, OutboundConfig}
use oneagent.Config.Errors.{Kind, ok}
use oneagent.Config.Inbound.{validate_inbound}
use oneagent.Manager.State.{Manager, State, ensure_traffic_locked, ensure_health_locked}
use oneagent.Manager.Nodes.{Node}
use oneagent.Manager.Nodes.Shown.{node_locked_lem, ensure_traffic_lem}
use oneagent.Certs.Kept.{Certified, materialize-Certified, materialize_name}
use oneagent.Manager.Requests.{
  reply, ensure_node, ProxyCreateRequest, proxy_inbound, create_proxy, add_inbound,
  appended_inbound, forwarded, forward_inbound, or_default, renames, ForwardCreateRequest,
  create_forward, add_forward, put_inbound, inserted_inbound, upsert_inbound, put_renamed,
  upsert_outbound,
}
use oneagent.Manager.Requests.Atomic.{
  Settled, Settled-weaken, Settled-in_world, Settled-refuse_if, Settled-get, Settled-lift,
  Settled-transact,
}
use oneagent.Manager.Requests.Effects.{
  HasPut, put_inbound-HasPut, IsCopy, proxy_inbound-IsCopy, HasAppended, add_inbound-HasAppended,
  AddsForward, add_forward-AddsForward,
}

-- A node that was just ensured is shown.
reply_ensured :
    (now : ℕ) (name : String) (disabled : Bool) (m : Manager) (kind : Kind) (t : State)
    → t.self ≡ ensure_node now name disabled m
    → (n : Node) × (reply name kind t ≡ (ok n, t))
unfolding reply ensure_health_locked
reply_ensured now name disabled m kind t e =
    let (traffic, h) = ensure_traffic_lem now name m in
    let (n, p) = node_locked_lem t.self name kind traffic (rw e h) in (n, rw p refl)

put_inbound-config_path :
    (i : InboundConfig) (now : ℕ) (m : Manager) → (put_inbound i now m).config_path ≡ m.config_path
unfolding put_inbound ensure_health_locked ensure_traffic_locked
put_inbound-config_path i now m = refl

put_inbound_lem :
    (i : InboundConfig) (now : ℕ) (m : Manager)
    → put_inbound i now m ≡ ensure_node now i.name i.disabled (inserted_inbound i m)
unfolding put_inbound
put_inbound_lem i now m = refl

abbrev pub PutsInbound : InboundConfig → State → Manager → Type 0
PutsInbound given s m =
    (i : InboundConfig) × Certified s.world.clock given i
    × (validate_inbound i ≡ ok tt)
    × HasPut i s.self m

-- The change itself
abbrev pub Puts : InboundConfig → State → Manager → Type 0
Puts given s m =
    (i : InboundConfig) × (now : ℕ) × Certified s.world.clock given i
    × (validate_inbound i ≡ ok tt)
    × (m ≡ put_inbound i now s.self)

pub upsert_inbound-Puts :
    (given : InboundConfig) (s : State) → Settled (Puts given s) s.self (upsert_inbound given s)
unfolding upsert_inbound
upsert_inbound-Puts given s = Settled-refuse_if _ _ _ _ s λ _. Settled-refuse_if _ _ _ _ s λ _.
    Settled-refuse_if _ _ _ _ s λ _. Settled-in_world _ _ _ s λ i w em.
      Settled-lift _ _ _ (record s { world = w })
        λ u v.
          Settled-transact _ (put_inbound i) _ (record s { world = w })
            (put_inbound-config_path i _ _)
            (i, _, materialize-Certified given i s.world w em, v, refl)
            λ t e. reply_ensured _ i.name i.disabled _ Kind.inbound t (e ∙ put_inbound_lem i _ _)

-- `UpsertInbound` either fails and changes nothing, or the given inbound, which has only its
-- certificate replaced by files where one was pasted, is valid by itself, stands under its name in
-- the map and in the configuration, where all other nodes and the rules are as they were, and that
-- configuration is valid.
pub upsert_inbound_lem :
    (given : InboundConfig) (s : State)
    → Settled (PutsInbound given s) s.self (upsert_inbound given s)
upsert_inbound_lem given s =
    Settled-weaken (Puts given s) (PutsInbound given s) s.self (upsert_inbound given s)
      (λ m put.
        let (i, now, certified, valid, e) = put in
        (i, certified, valid, rw e (put_inbound-HasPut i now s.self)))
      (upsert_inbound-Puts given s)

add_inbound-config_path :
    (i : InboundConfig) (now : ℕ) (m : Manager) → (add_inbound i now m).config_path ≡ m.config_path
unfolding add_inbound ensure_health_locked ensure_traffic_locked
add_inbound-config_path i now m = refl

add_inbound_lem :
    (i : InboundConfig) (now : ℕ) (m : Manager)
    → add_inbound i now m ≡ ensure_node now i.name i.disabled (appended_inbound i m)
unfolding add_inbound
add_inbound_lem i now m = refl

abbrev pub AddsInbound : ProxyCreateRequest → State → Manager → Type 0
AddsInbound req s m =
    (given i : InboundConfig) × (has req.name s.self.inbounds ≡ false)
    × IsCopy req given
    × Certified s.world.clock given i
    × (validate_inbound i ≡ ok tt)
    × HasAppended i s.self m

-- The change itself
abbrev pub Adds : ProxyCreateRequest → State → Manager → Type 0
Adds req s m =
    (given i : InboundConfig) × (now : ℕ) × (has req.name s.self.inbounds ≡ false)
    × IsCopy req given
    × (i.name ≡ req.name)
    × Certified s.world.clock given i
    × (validate_inbound i ≡ ok tt)
    × (m ≡ add_inbound i now s.self)

pub create_proxy-Adds :
    (req : ProxyCreateRequest) (s : State) → Settled (Adds req s) s.self (create_proxy req s)
unfolding create_proxy
create_proxy-Adds req s = Settled-refuse_if _ _ _ _ s λ _. Settled-refuse_if _ _ _ _ s λ _.
    Settled-get _ _ s (
      Settled-refuse_if _ _ _ _ s λ unused. Settled-in_world _ _ _ s λ i w em.
        let name : i.name ≡ req.name = (materialize_name _ i s.world w em).0 in
        Settled-lift _ _ _ (record s { world = w })
          λ u v.
            Settled-transact _ (add_inbound i) _ (record s { world = w })
              (add_inbound-config_path i _ _)
              (
                proxy_inbound (record req { protocol = or_default req.protocol "socks" }),
                i,
                _,
                unused,
                proxy_inbound-IsCopy req,
                name,
                materialize-Certified _ i s.world w em,
                v,
                refl,
              )
              λ t e.
                rw (← name)
                  (reply_ensured _ i.name i.disabled _ Kind.inbound t (e ∙ add_inbound_lem i _ _)))

-- `CreateProxy` either fails and changes nothing, or no inbound had the name of the request, and an
-- inbound with the fields of the request, less its outbound, with `socks` for an empty protocol and
-- with a pasted certificate replaced by files, is valid by itself and stands in the map and at the
-- end of the configuration, which is valid; the other nodes and the rules are as they were.
pub create_proxy_lem :
    (req : ProxyCreateRequest) (s : State) → Settled (AddsInbound req s) s.self (create_proxy req s)
create_proxy_lem req s =
    Settled-weaken (Adds req s) (AddsInbound req s) s.self (create_proxy req s)
      (λ m added.
        let (given, i, now, unused, copy, name, certified, valid, e) = added in
        (given, i, unused, copy, certified, valid, rw e (add_inbound-HasAppended i now s.self)))
      (create_proxy-Adds req s)

add_forward-config_path :
    (i : InboundConfig) (now : ℕ) (m : Manager) → (add_forward i now m).config_path ≡ m.config_path
unfolding add_forward ensure_health_locked ensure_traffic_locked
add_forward-config_path i now m = refl

add_forward_lem :
    (i : InboundConfig) (now : ℕ) (m : Manager)
    → add_forward i now m ≡ ensure_node now i.name i.disabled (forwarded i m)
unfolding add_forward
add_forward_lem i now m = refl

-- The change itself
abbrev pub Forwards : ForwardCreateRequest → State → Manager → Type 0
Forwards req s m =
    let protocol = or_default req.protocol "tcp" in
    (not (protocol == "tcp") && not (protocol == "udp") ≡ false)
    × (has req.name s.self.inbounds ≡ false)
    × (m ≡ add_forward (forward_inbound req protocol) s.world.clock s.self)

pub create_forward-Forwards :
    (req : ForwardCreateRequest) (s : State)
    → Settled (Forwards req s) s.self (create_forward req s)
unfolding create_forward
create_forward-Forwards req s = Settled-refuse_if _ _ _ _ s λ _. Settled-refuse_if _ _ _ _ s λ _.
    Settled-refuse_if _ _ _ _ s λ _. Settled-refuse_if _ _ _ _ s λ _.
      Settled-refuse_if _ _ _ _ s λ known. Settled-get _ _ s (
        Settled-refuse_if _ _ _ _ s λ unused. Settled-lift _ _ _ s λ u v.
          let i = forward_inbound req (or_default req.protocol "tcp") in
          Settled-transact _ (add_forward i) _ s (add_forward-config_path i _ _)
            (known, unused, refl)
            λ t e. reply_ensured _ req.name false _ Kind.inbound t (e ∙ add_forward_lem i _ _))

-- `CreateForward` either fails and changes nothing, or no inbound had the name of the request, and an
-- inbound with the name, port and target of the request, which forwards udp where the request says
-- udp and tcp where it says tcp or nothing, and a rule from it to `direct`, with the next priority,
-- stand at the ends of the configuration, which is valid; the other nodes are as they were.
pub create_forward_lem :
    (req : ForwardCreateRequest) (s : State)
    → Settled (AddsForward req s) s.self (create_forward req s)
create_forward_lem req s =
    Settled-weaken (Forwards req s) (AddsForward req s) s.self (create_forward req s)
      (λ m added.
        let (known, unused, e) = added in rw e (add_forward-AddsForward req s known unused))
      (create_forward-Forwards req s)

put_renamed-config_path :
    (old : String) (o : OutboundConfig) (now : ℕ) (m : Manager)
    → (put_renamed old o now m).config_path ≡ m.config_path
unfolding put_renamed ensure_health_locked ensure_traffic_locked
put_renamed-config_path old o now m = ground arith

put_renamed_lem :
    (old : String) (o : OutboundConfig) (now : ℕ) (m : Manager)
    → (n : Manager) × (put_renamed old o now m ≡ ensure_node now o.name o.disabled n)
unfolding put_renamed
put_renamed_lem old o now m = (_, refl)

rename_tests :
    (r old new : Bool)
    → r && not old ≡ false
    → r && new ≡ false
    → (r ≡ false) ⊎ ((old ≡ true) × (new ≡ false))
rename_tests true old new h k = inr (ground arith, ground arith)
rename_tests false old new h k = inl refl

abbrev pub PutsOutbound : OutboundConfig → State → Manager → Type 0
PutsOutbound given s m =
    ((renames given.original_name given.name ≡ false)
      ⊎ ((has given.original_name s.self.outbounds ≡ true)
          × (has given.name s.self.outbounds ≡ false)))
    × (m
        ≡ put_renamed given.original_name (record given { original_name = "" }) s.world.clock
            s.self)

-- `UpsertOutbound` either fails and changes nothing, or it makes the change of the source, with a
-- configuration that is valid; if it renames, there was an outbound of the old name and none of the
-- new one.
pub upsert_outbound_lem :
    (given : OutboundConfig) (s : State)
    → Settled (PutsOutbound given s) s.self (upsert_outbound given s)
unfolding upsert_outbound
upsert_outbound_lem given s = Settled-refuse_if _ _ _ _ s λ _. Settled-refuse_if _ _ _ _ s λ _.
    Settled-refuse_if _ _ _ _ s λ _. Settled-refuse_if _ _ _ _ s λ _. Settled-get _ _ s (
      Settled-refuse_if _ _ _ _ s λ old_there. Settled-refuse_if _ _ _ _ s λ new_free.
        let o : OutboundConfig = record given { original_name = "" } in
        Settled-transact _ (put_renamed given.original_name o) _ s
          (put_renamed-config_path given.original_name o _ _)
          (rename_tests _ _ _ old_there new_free, refl)
          λ t e.
            reply_ensured _ o.name o.disabled _ Kind.outbound t
              (e ∙ (put_renamed_lem given.original_name o _ _).1))
