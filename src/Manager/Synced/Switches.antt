-- ===== src/Manager/Synced/Switches.antt =====
-- The requests that delete nodes, or switch them on and off, keep the maps and the configuration
-- in step.
use oneagent.Prelude.{
  All-map, ℕ, String, Bool, true, false, ◌≡◌, ◌∙◌, List, [], ◌∷◌, Option, lookup-insert, arith, ap,
  All, some, none, if◌then◌else◌, ◌==◌,
}
use oneagent.Config.Errors.{Kind, ok, bound_ok}
use oneagent.Manager.State.{Manager, State, ensure_health_locked}
use oneagent.Manager.Requests.{reply}
use oneagent.Manager.Switch.{
  BatchNodeItem, node_exists, check_node, check_nodes, change_nodes, delete_node_locked,
  delete_node, delete_nodes, set_node_enabled_locked, set_node_enabled, set_nodes_enabled,
}
use oneagent.Manager.Switch.Checked.{check_node_lem}
use oneagent.Manager.Synced.{
  IsSynced, delete_node_locked-IsSynced, set_node_enabled_locked-IsSynced,
}
use oneagent.Manager.Synced.Handlers.{
  Syncs, Syncs-transact, Syncs-bind, Syncs-get, Syncs-lift, Syncs-refuse_if,
}

drop_nodes-IsSynced :
    (nodes : List (Kind × String)) (m : Manager)
    → IsSynced m
    → IsSynced (change_nodes delete_node_locked nodes m)
unfolding change_nodes
drop_nodes-IsSynced [] m h = h
drop_nodes-IsSynced ((kind, name) ∷ rest) m h =
    drop_nodes-IsSynced rest _ (delete_node_locked-IsSynced kind name m h)

abbrev Exists : Manager → Kind × String → Type 0
Exists m node = node_exists m node.0 node.1 ≡ true

check_nodes-Exists :
    (m : Manager) (items : List BatchNodeItem) (nodes : List (Kind × String))
    → check_nodes m items ≡ ok nodes
    → All (Exists m) nodes
unfolding check_nodes
check_nodes-Exists m [] nodes h = let e : [] ≡ nodes = ground arith in rw (← e) tt
check_nodes-Exists m (item ∷ items) nodes h =
    let (kind, found, more) = bound_ok (check_node m item.kind item.name) _ h in
    let (rest, others, last) = bound_ok (check_nodes m items) _ more in
    let e : (kind, item.name) ∷ rest ≡ nodes = ground arith in
    rw (← e)
      ((check_node_lem m item.kind item.name kind found).1, check_nodes-Exists m items rest others)

inserted :
    {V : Type 0} (v : V) (same : Bool) (o : Option V)
    → (elim o [ none ↦ false | some _ ↦ true ]) ≡ true
    → (elim (if same then some v else o) [ none ↦ false | some _ ↦ true ]) ≡ true
inserted v same o h = ground arith

-- A node that is switched does not take another away.
switched-Exists :
    (now : ℕ) (enabled : Bool) (kind other : Kind) (name there : String) (m : Manager)
    → node_exists m other there ≡ true
    → node_exists (set_node_enabled_locked now enabled kind name m) other there ≡ true
unfolding set_node_enabled_locked node_exists ensure_health_locked
switched-Exists now enabled Kind.inbound Kind.inbound name there m h =
    ap (λ found. elim found [ none ↦ false | some _ ↦ true ])
      (lookup-insert name there _ m.inbounds)
    ∙ inserted _ (name == there) _ h
switched-Exists now enabled Kind.inbound Kind.outbound name there m h = h
switched-Exists now enabled Kind.outbound Kind.inbound name there m h = h
switched-Exists now enabled Kind.outbound Kind.outbound name there m h =
    ap (λ found. elim found [ none ↦ false | some _ ↦ true ])
      (lookup-insert name there _ m.outbounds)
    ∙ inserted _ (name == there) _ h

switch_nodes-IsSynced :
    (now : ℕ) (enabled : Bool) (nodes : List (Kind × String)) (m : Manager)
    → All (Exists m) nodes
    → IsSynced m
    → IsSynced (change_nodes (set_node_enabled_locked now enabled) nodes m)
unfolding change_nodes
switch_nodes-IsSynced now enabled [] m there h = h
switch_nodes-IsSynced now enabled ((kind, name) ∷ rest) m there h =
    switch_nodes-IsSynced now enabled rest _
      (All-map (λ node. switched-Exists now enabled kind node.0 name node.1 m) rest there.1)
      (set_node_enabled_locked-IsSynced now enabled kind name m there.0 h)

module _ (s : State) (h : IsSynced s.self) where
  pub Syncs-delete_node : (node_type name : String) → Syncs (delete_node node_type name) s
  unfolding delete_node
  Syncs-delete_node node_type name = Syncs-get _ s (
      Syncs-lift _ _ s h λ kind found.
        Syncs-transact (λ now. delete_node_locked kind name) s h
          (delete_node_locked-IsSynced kind name s.self h))

  pub Syncs-delete_nodes : (items : List BatchNodeItem) → Syncs (delete_nodes items) s
  unfolding delete_nodes
  Syncs-delete_nodes items = Syncs-refuse_if _ _ _ s h λ _. Syncs-get _ s (
      Syncs-lift _ _ s h λ nodes found.
        let dropped =
          Syncs-transact (λ now. change_nodes delete_node_locked nodes) s h
            (drop_nodes-IsSynced nodes s.self h) in
        Syncs-bind _ _ s dropped λ u t same. rw same dropped)

  pub Syncs-set_node_enabled :
      (node_type name : String) (enabled : Bool) → Syncs (set_node_enabled node_type name enabled) s
  unfolding set_node_enabled reply
  Syncs-set_node_enabled node_type name enabled = Syncs-get _ s (
      Syncs-lift _ _ s h λ kind found.
        let (_, there) = check_node_lem s.self node_type name kind found in
        let switched =
          Syncs-transact (λ now. set_node_enabled_locked now enabled kind name) s h
            (set_node_enabled_locked-IsSynced _ enabled kind name s.self there h) in
        Syncs-bind _ _ s switched λ u t same. rw same switched)

  pub Syncs-set_nodes_enabled :
      (items : List BatchNodeItem) (enabled : Bool) → Syncs (set_nodes_enabled items enabled) s
  unfolding set_nodes_enabled
  Syncs-set_nodes_enabled items enabled = Syncs-refuse_if _ _ _ s h λ _. Syncs-get _ s (
      Syncs-lift _ _ s h λ nodes found.
        let switched =
          Syncs-transact (λ now. change_nodes (set_node_enabled_locked now enabled) nodes) s h
            (switch_nodes-IsSynced _ enabled nodes s.self
              (check_nodes-Exists s.self items nodes found) h) in
        Syncs-bind _ _ s switched λ u t same. Syncs-get _ t (rw same switched))
