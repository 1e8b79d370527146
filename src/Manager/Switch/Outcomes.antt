-- ===== src/Manager/Switch/Outcomes.antt =====
-- What the requests that delete or switch nodes do.
use oneagent.Prelude.{
  ℕ, String, Bool, true, not, ◌≡◌, refl, ◌∙◌, ap, List, some, lookup, arith, All, Dict, has,
  lookup-insert, ◌==◌, if◌then◌else◌, Option-cases, inl, inr,
}
use oneagent.Config.Types.{InboundConfig, OutboundConfig}
use oneagent.Config.Errors.{Kind, ok}
use oneagent.Manager.Find.{find_inbound, find_outbound, find_inbound-upsert, find_outbound-upsert}
use oneagent.Manager.Switch.Deleted.{IsDeleted, delete_node_locked-IsDeleted, IsGone}
use oneagent.Manager.State.{Manager, State, Traffic, ensure_health_locked}
use oneagent.Manager.Nodes.{Node}
use oneagent.Manager.Nodes.Shown.{node_locked_lem}
use oneagent.Manager.Requests.{reply}
use oneagent.Manager.Requests.Atomic.{
  Settled, Settled-get, Settled-lift, Settled-transact, Settled-transact_last,
}
use oneagent.Manager.Switch.{
  kind_of, node_exists, delete_node_locked, delete_node, BatchNodeItem, set_node_enabled_locked,
  set_node_enabled,
}
use oneagent.Manager.Switch.Checked.{check_node_lem, IsItem}

delete_node_locked-config_path :
    (kind : Kind) (name : String) (m : Manager)
    → (delete_node_locked kind name m).config_path ≡ m.config_path
unfolding delete_node_locked
delete_node_locked-config_path Kind.inbound name m = refl
delete_node_locked-config_path Kind.outbound name m = refl

abbrev pub Deletes : String → String → State → Manager → Type 0
Deletes node_type name s m =
    (kind : Kind) × (kind_of node_type ≡ some kind)
    × (node_exists s.self kind name ≡ true)
    × IsDeleted kind name s.self m

-- `DeleteNode` either fails and changes nothing, or the node was there and it is gone from the map and
-- from the configuration, where all other nodes stay as they were; of the rules, in the manager and in
-- the configuration, those for the node are gone and the others stay; and the configuration that is
-- left is valid.
pub delete_node_lem :
    (node_type name : String) (s : State)
    → Settled (Deletes node_type name s) s.self (delete_node node_type name s)
unfolding delete_node
delete_node_lem node_type name s = Settled-get _ _ s (
    Settled-lift _ _ _ s λ kind found.
      let (known, there) = check_node_lem s.self node_type name kind found in
      Settled-transact_last _ (λ now. delete_node_locked kind name) s
        (delete_node_locked-config_path kind name s.self)
        (kind, known, there, delete_node_locked-IsDeleted kind name s.self))

reply_tracked :
    (name : String) (kind : Kind) (t : State) (traffic : Traffic)
    → lookup name t.self.traffic ≡ some traffic
    → (n : Node) × (reply name kind t ≡ (ok n, t))
unfolding reply
reply_tracked name kind t traffic h =
    let (n, p) = node_locked_lem t.self name kind traffic h in (n, rw p refl)

-- The node of each item was there and is gone; a node that no item names is there if it was there.
abbrev pub DeletesAll : List BatchNodeItem → State → Manager → Type 0
DeletesAll items s m =
    All
      (λ item.
        (kind : Kind) × (kind_of item.kind ≡ some kind)
        × (node_exists s.self kind item.name ≡ true)
        × IsGone kind item.name m)
      items
    × ((kind : Kind) (name : String)
        → All (λ item. IsItem kind name item → ⊥) items
        → node_exists m kind name ≡ node_exists s.self kind name)

set_node_enabled_locked_lem :
    (now : ℕ) (enabled : Bool) (kind : Kind) (name : String) (m : Manager)
    → ((set_node_enabled_locked now enabled kind name m).config_path ≡ m.config_path)
      × ((set_node_enabled_locked now enabled kind name m).traffic ≡ m.traffic)
unfolding set_node_enabled_locked ensure_health_locked
set_node_enabled_locked_lem now enabled Kind.inbound name m = (refl, refl)
set_node_enabled_locked_lem now enabled Kind.outbound name m = (refl, refl)

-- The second manager is the first with the node `name` switched, in its map and in its configuration.
abbrev pub IsSwitched : Kind → String → Bool → Manager → Manager → Type 0
IsSwitched Kind.inbound name enabled m n =
    (i : InboundConfig) × (lookup name m.inbounds ≡ some i)
    × ((other : String)
        → lookup other n.inbounds ≡ (
            if name == other
            then some (record i { disabled = not enabled })
            else lookup other m.inbounds))
    × ((other : String)
        → find_inbound other n.cfg.inbounds ≡ (
            if i.name == other
            then some (record i { disabled = not enabled })
            else find_inbound other m.cfg.inbounds))
    × (n.outbounds ≡ m.outbounds)
    × (n.cfg ≡ record (m.cfg) { inbounds = n.cfg.inbounds })
    × (n.rules ≡ m.rules)
IsSwitched Kind.outbound name enabled m n =
    (o : OutboundConfig) × (lookup name m.outbounds ≡ some o)
    × ((other : String)
        → lookup other n.outbounds ≡ (
            if name == other
            then some (record o { disabled = not enabled })
            else lookup other m.outbounds))
    × ((other : String)
        → find_outbound other n.cfg.outbounds ≡ (
            if o.name == other
            then some (record o { disabled = not enabled })
            else find_outbound other m.cfg.outbounds))
    × (n.inbounds ≡ m.inbounds)
    × (n.cfg ≡ record (m.cfg) { outbounds = n.cfg.outbounds })
    × (n.rules ≡ m.rules)

-- A node that exists is found.
found_node :
    {V : Type 0} (name : String) (d : Dict V)
    → has name d ≡ true
    → (v : V) × (lookup name d ≡ some v)
found_node name d h = elim (Option-cases (lookup name d)) [
  | inl missing ↦ ground (arith, missing, h)
  | inr (v, found) ↦ (v, found)
]

set_node_enabled_locked-IsSwitched :
    (now : ℕ) (enabled : Bool) (kind : Kind) (name : String) (m : Manager)
    → node_exists m kind name ≡ true
    → IsSwitched kind name enabled m (set_node_enabled_locked now enabled kind name m)
unfolding set_node_enabled_locked ensure_health_locked node_exists
set_node_enabled_locked-IsSwitched now enabled Kind.inbound name m there =
    let (i, found) = found_node name m.inbounds there in
    let next = record i { disabled = not enabled } in
    (
      i,
      found,
      λ other. rw found (lookup-insert name other next m.inbounds),
      λ other. rw found (find_inbound-upsert other m.cfg.inbounds next),
      refl,
      refl,
      refl,
    )
set_node_enabled_locked-IsSwitched now enabled Kind.outbound name m there =
    let (o, found) = found_node name m.outbounds there in
    let next = record o { disabled = not enabled } in
    (
      o,
      found,
      λ other. rw found (lookup-insert name other next m.outbounds),
      λ other. rw found (find_outbound-upsert other m.cfg.outbounds next),
      refl,
      refl,
      refl,
    )

abbrev pub Switches : String → String → Bool → State → Manager → Type 0
Switches node_type name enabled s m =
    (kind : Kind) × (kind_of node_type ≡ some kind)
    × (node_exists s.self kind name ≡ true)
    × IsSwitched kind name enabled s.self m

-- If the node has a traffic entry, `SetNodeEnabled` either fails and changes nothing, or the node
-- was there, it is disabled or not as the request says in the map and in the configuration, all
-- other nodes and the rules are as they were, and that configuration is valid.
pub set_node_enabled_lem :
    (node_type name : String) (enabled : Bool) (s : State) (traffic : Traffic)
    → lookup name s.self.traffic ≡ some traffic
    → Settled (Switches node_type name enabled s) s.self (set_node_enabled node_type name enabled s)
unfolding set_node_enabled
set_node_enabled_lem node_type name enabled s traffic tracked = Settled-get _ _ s (
    Settled-lift _ _ _ s λ kind found.
      let (known, there) = check_node_lem s.self node_type name kind found in
      let (path, same) = set_node_enabled_locked_lem s.world.clock enabled kind name s.self in
      Settled-transact _ (λ now. set_node_enabled_locked now enabled kind name) _ s path
        (
          kind,
          known,
          there,
          set_node_enabled_locked-IsSwitched s.world.clock enabled kind name s.self there,
        )
        λ t e.
          reply_tracked name kind t traffic
            (ap (λ (m : Manager). lookup name m.traffic) e ∙ ap (lookup name) same ∙ tracked))
