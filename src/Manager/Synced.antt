-- ===== src/Manager/Synced.antt =====
-- The manager holds its nodes and rules twice, in maps for the requests and in the configuration
-- that is saved and applied: when the two agree, and that each change keeps them so.
pub mod Load
pub mod Handlers
pub mod Reach
pub mod Applies
pub mod Switches
pub mod Requests
use oneagent.Prelude.{
  ℕ, String, Bool, true, false, not, ◌≡◌, refl, List, [], ◌∷◌, Option, none, some, ◌==◌,
  if◌then◌else◌, lookup, lookup-insert, lookup-remove, has, arith, eq_iff, Option-cases, inl, inr,
  Bool-cases, ap, ◌∙◌, sym,
}
use oneagent.Config.Types.{InboundConfig, OutboundConfig, RoutingConfig, MihomoConfig}
use oneagent.Config.Errors.{Kind}
use oneagent.Manager.State.{Manager, ensure_traffic_locked, ensure_health_locked}
use oneagent.Manager.Find.{
  find_inbound, find_outbound, find_inbound-name, find_outbound-name, find_inbound-append,
  find_inbound-upsert, find_outbound-upsert, find_inbound-delete, find_outbound-delete,
}
use oneagent.Manager.Requests.{
  ensure_node, add_inbound, add_forward, put_inbound, put_outbound, rename_outbound, put_renamed,
  set_mihomo, set_routing, renames,
}
use oneagent.Manager.Switch.{node_exists, delete_node_locked, set_node_enabled_locked, change_nodes}

pub record IsSynced (m : Manager) : Type 0 where
  pub inbounds : (name : String) → lookup name m.inbounds ≡ find_inbound name m.cfg.inbounds
  pub outbounds : (name : String) → lookup name m.outbounds ≡ find_outbound name m.cfg.outbounds
  pub rules : m.rules ≡ m.cfg.routing.rules

ensure_node-IsSynced :
    (now : ℕ) (name : String) (disabled : Bool) (m : Manager)
    → IsSynced m
    → IsSynced (ensure_node now name disabled m)
unfolding ensure_traffic_locked ensure_health_locked
ensure_node-IsSynced now name disabled m h = record {
  inbounds = h.inbounds;
  outbounds = h.outbounds;
  rules = h.rules;
}

has-none {ℓ} :
    {V : Type ℓ} (o : Option V) → (elim o [ none ↦ false | some _ ↦ true ]) ≡ false → o ≡ none
has-none none h = refl
has-none (some v) h = ground arith

add_inbound-IsSynced :
    (i : InboundConfig) (now : ℕ) (m : Manager)
    → has i.name m.inbounds ≡ false
    → IsSynced m
    → IsSynced (add_inbound i now m)
unfolding add_inbound
add_inbound-IsSynced i now m unused h = ensure_node-IsSynced now i.name i.disabled _ (record {
  inbounds = λ n.
      lookup-insert i.name n i m.inbounds
      ∙ ground (
        arith,
        find_inbound-append n m.cfg.inbounds i,
        h.inbounds n,
        h.inbounds i.name,
        has-none _ unused,
      );
  outbounds = h.outbounds;
  rules = h.rules;
})

put_inbound-IsSynced :
    (i : InboundConfig) (now : ℕ) (m : Manager) → IsSynced m → IsSynced (put_inbound i now m)
unfolding put_inbound
put_inbound-IsSynced i now m h = ensure_node-IsSynced now i.name i.disabled _ (record {
  inbounds = λ n. ground (
    arith,
    lookup-insert i.name n i m.inbounds,
    find_inbound-upsert n m.cfg.inbounds i,
    h.inbounds n,
  );
  outbounds = h.outbounds;
  rules = h.rules;
})

put_outbound-IsSynced :
    (o : OutboundConfig) (now : ℕ) (m : Manager) → IsSynced m → IsSynced (put_outbound o now m)
unfolding put_outbound
put_outbound-IsSynced o now m h = ensure_node-IsSynced now o.name o.disabled _ (record {
  inbounds = h.inbounds;
  outbounds = λ n. ground (
    arith,
    lookup-insert o.name n o m.outbounds,
    find_outbound-upsert n m.cfg.outbounds o,
    h.outbounds n,
  );
  rules = h.rules;
})

add_forward-IsSynced :
    (i : InboundConfig) (now : ℕ) (m : Manager)
    → has i.name m.inbounds ≡ false
    → IsSynced m
    → IsSynced (add_forward i now m)
unfolding add_forward
add_forward-IsSynced i now m unused h = ensure_node-IsSynced now i.name i.disabled _ (record {
  inbounds = λ n.
      lookup-insert i.name n i m.inbounds
      ∙ ground (
        arith,
        find_inbound-append n m.cfg.inbounds i,
        h.inbounds n,
        h.inbounds i.name,
        has-none _ unused,
      );
  outbounds = h.outbounds;
  rules = rw h.rules;
})

rename_outbound-IsSynced :
    (old new : String) (m : Manager) → IsSynced m → IsSynced (rename_outbound old new m)
unfolding rename_outbound
rename_outbound-IsSynced old new m h = record {
  inbounds = h.inbounds;
  outbounds = λ n. ground (
    arith,
    lookup-remove old n m.outbounds,
    find_outbound-delete n old m.cfg.outbounds,
    h.outbounds n,
  );
  rules = rw h.rules;
}

put_renamed-IsSynced :
    (old : String) (o : OutboundConfig) (now : ℕ) (m : Manager)
    → IsSynced m
    → IsSynced (put_renamed old o now m)
unfolding put_renamed
put_renamed-IsSynced old o now m h = put_outbound-IsSynced o now _ (renamed (renames old o.name))
  where
    renamed : (b : Bool) → IsSynced (if b then rename_outbound old o.name m else m)
    renamed true = rename_outbound-IsSynced old o.name m h
    renamed false = h

delete_node_locked-IsSynced :
    (kind : Kind) (name : String) (m : Manager)
    → IsSynced m
    → IsSynced (delete_node_locked kind name m)
unfolding delete_node_locked
delete_node_locked-IsSynced Kind.inbound name m h = record {
  inbounds = λ n. ground (
    arith,
    lookup-remove name n m.inbounds,
    find_inbound-delete n name m.cfg.inbounds,
    h.inbounds n,
  );
  outbounds = h.outbounds;
  rules = rw h.rules;
}
delete_node_locked-IsSynced Kind.outbound name m h = record {
  inbounds = h.inbounds;
  outbounds = λ n. ground (
    arith,
    lookup-remove name n m.outbounds,
    find_outbound-delete n name m.cfg.outbounds,
    h.outbounds n,
  );
  rules = rw h.rules;
}

has-some {ℓ} :
    {V : Type ℓ} (o : Option V)
    → (elim o [ none ↦ false | some _ ↦ true ]) ≡ true
    → (v : V) × (o ≡ some v)
has-some none h = ground arith
has-some (some v) h = (v, refl)

-- A node that the manager has is switched under its own name.
set_node_enabled_locked-IsSynced :
    (now : ℕ) (enabled : Bool) (kind : Kind) (name : String) (m : Manager)
    → node_exists m kind name ≡ true
    → IsSynced m
    → IsSynced (set_node_enabled_locked now enabled kind name m)
unfolding set_node_enabled_locked ensure_health_locked node_exists
set_node_enabled_locked-IsSynced now enabled Kind.inbound name m there h =
    let (i, found) = has-some (lookup name m.inbounds) there in
    let own : i.name ≡ name =
      find_inbound-name name m.cfg.inbounds i (sym (h.inbounds name) ∙ found) in
    record {
      inbounds = λ n. rw found (
          ground (
            arith,
            own,
            lookup-insert name n (record i { disabled = not enabled }) m.inbounds,
            find_inbound-upsert n m.cfg.inbounds (record i { disabled = not enabled }),
            h.inbounds n,
          ));
      outbounds = h.outbounds;
      rules = h.rules;
    }
set_node_enabled_locked-IsSynced now enabled Kind.outbound name m there h =
    let (o, found) = has-some (lookup name m.outbounds) there in
    let own : o.name ≡ name =
      find_outbound-name name m.cfg.outbounds o (sym (h.outbounds name) ∙ found) in
    record {
      inbounds = h.inbounds;
      outbounds = λ n. rw found (
          ground (
            arith,
            own,
            lookup-insert name n (record o { disabled = not enabled }) m.outbounds,
            find_outbound-upsert n m.cfg.outbounds (record o { disabled = not enabled }),
            h.outbounds n,
          ));
      rules = h.rules;
    }
