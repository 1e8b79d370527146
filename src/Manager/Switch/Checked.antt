-- ===== src/Manager/Switch/Checked.antt =====
-- The nodes of a request on several nodes: they are checked, and then deleted in turn.
use oneagent.Prelude.{String, true, ◌≡◌, refl, ◌∙◌, ap, List, [], ◌∷◌, some, arith, All}
use oneagent.Config.Errors.{Kind, Error, Result, ok, err, ◌>>=◌}
use oneagent.Manager.Switch.Deleted.{
  IsGone, delete_node_locked-IsGone, delete_node_locked-stays, delete_node_locked-exists,
}
use oneagent.Manager.State.{Manager, State}
use oneagent.Manager.Switch.{
  kind_of, node_exists, check_node, delete_node_locked, BatchNodeItem, check_nodes, change_nodes,
}

pub check_node_lem :
    (m : Manager) (node_type name : String) (kind : Kind)
    → check_node m node_type name ≡ ok kind
    → (kind_of node_type ≡ some kind) × (node_exists m kind name ≡ true)
unfolding check_node
check_node_lem m node_type name kind h = ground arith

-- The item names the node.
abbrev pub IsItem : Kind → String → BatchNodeItem → Type 0
IsItem kind name item = (kind_of item.kind ≡ some kind) × (item.name ≡ name)

-- The nodes are those of the items, and the manager has each of them.
abbrev AreChecked : Manager → List BatchNodeItem → List (Kind × String) → Type 0
AreChecked m [] [] = Unit
AreChecked m [] (node ∷ nodes) = ⊥
AreChecked m (item ∷ items) [] = ⊥
AreChecked m (item ∷ items) ((kind, name) ∷ nodes) =
    IsItem kind name item × (node_exists m kind name ≡ true) × AreChecked m items nodes

err_or_ok : {A : Type 0} (e : Error) (a : A) → err e ≡ ok a → ⊥
err_or_ok e a h = ground (arith, h)

ok_injective : {A : Type 0} (a b : A) → ok a ≡ ok b → a ≡ b
ok_injective a b h = ground (arith, h)

module _ (m : Manager) (item : BatchNodeItem) (items : List BatchNodeItem) where
  AreChecked-bind :
      (r : Result Kind) (rest : Result (List (Kind × String))) (nodes : List (Kind × String))
      → check_node m item.kind item.name ≡ r
      → ((given : List (Kind × String)) → rest ≡ ok given → AreChecked m items given)
      → (r >>= λ kind. rest >>= λ others. ok ((kind, item.name) ∷ others)) ≡ ok nodes
      → AreChecked m (item ∷ items) nodes
  AreChecked-bind (err e) rest nodes p q h = absurd (err_or_ok e nodes h)
  AreChecked-bind (ok kind) (err e) nodes p q h = absurd (err_or_ok e nodes h)
  AreChecked-bind (ok kind) (ok rest) nodes p q h =
      let (known, there) = check_node_lem m item.kind item.name kind p in
      rw (← ok_injective _ _ h) ((known, refl), there, q rest refl)

pub check_nodes_lem :
    (m : Manager) (items : List BatchNodeItem) (nodes : List (Kind × String))
    → check_nodes m items ≡ ok nodes
    → AreChecked m items nodes
unfolding check_nodes
check_nodes_lem m [] [] h = tt
check_nodes_lem m [] (node ∷ nodes) h = ground (arith, h)
check_nodes_lem m (item ∷ items) nodes h =
    AreChecked-bind m item items (check_node m item.kind item.name) (check_nodes m items) nodes refl
      (check_nodes_lem m items) h

change_nodes-IsGone :
    (kind : Kind) (name : String) (nodes : List (Kind × String)) (m : Manager)
    → IsGone kind name m
    → IsGone kind name (change_nodes delete_node_locked nodes m)
unfolding change_nodes
change_nodes-IsGone kind name [] m h = h
change_nodes-IsGone kind name ((k, n) ∷ nodes) m h =
    change_nodes-IsGone kind name nodes _ (delete_node_locked-stays kind k name n m h)

-- The nodes were checked in the manager `m`, and some may have been deleted since.
pub change_nodes-All :
    (s : State) (items : List BatchNodeItem) (nodes : List (Kind × String)) (m : Manager)
    → AreChecked s.self items nodes
    → All
        (λ item.
          (kind : Kind) × (kind_of item.kind ≡ some kind)
          × (node_exists s.self kind item.name ≡ true)
          × IsGone kind item.name (change_nodes delete_node_locked nodes m))
        items
unfolding change_nodes
change_nodes-All s [] [] m h = tt
change_nodes-All s [] (node ∷ nodes) m h = absurd h
change_nodes-All s (item ∷ items) [] m h = absurd h
change_nodes-All s (item ∷ items) ((kind, name) ∷ nodes) m ((known, same), there, h) = (
  (
    kind,
    known,
    rw same there,
    rw same (change_nodes-IsGone kind name nodes _ (delete_node_locked-IsGone kind name m)),
  ),
  change_nodes-All s items nodes _ h,
)

pub change_nodes-exists :
    (m0 : Manager) (kind : Kind) (name : String) (items : List BatchNodeItem)
    (nodes : List (Kind × String)) (m : Manager)
    → AreChecked m0 items nodes
    → All (λ item. IsItem kind name item → ⊥) items
    → node_exists (change_nodes delete_node_locked nodes m) kind name ≡ node_exists m kind name
unfolding change_nodes
change_nodes-exists m0 kind name [] [] m h apart = refl
change_nodes-exists m0 kind name [] (node ∷ nodes) m h apart = absurd h
change_nodes-exists m0 kind name (item ∷ items) [] m h apart = absurd h
change_nodes-exists m0 kind name (item ∷ items) ((k, n) ∷ nodes) m ((known, same), there, h)
      (other, apart) =
    change_nodes-exists m0 kind name items nodes _ h apart
    ∙ delete_node_locked-exists kind k name n m
        λ (same_kind, same_name). other (known ∙ ap some same_kind, same ∙ same_name)
