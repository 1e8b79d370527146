-- ===== src/Manager/Switch/Deleted.antt =====
-- What a manager has left of a node that was deleted.
use oneagent.Prelude.{
  String, Bool, true, false, not, ◌&&◌, ◌≡◌, refl, ◌↔◌, List, none, lookup, lookup-remove, All,
  All-select, All-kept, Elem, Elem-select, ◌==◌, if◌then◌else◌, arith, eq_iff, eq_refl,
}
use oneagent.Config.Types.{RoutingRule}
use oneagent.Config.Errors.{Kind}
use oneagent.Manager.State.{Manager}
use oneagent.Manager.Lists.{rule_is_for_inbound, rule_is_for_outbound, delete_rules_for_node}
use oneagent.Manager.Find.{find_inbound, find_outbound, find_inbound-delete, find_outbound-delete}
use oneagent.Manager.Switch.{node_exists, delete_node_locked}

-- The rule is for the node: an inbound by what it matches, an outbound by where it leads.
abbrev pub is_for : Kind → String → RoutingRule → Bool
is_for Kind.inbound name rule = rule_is_for_inbound name rule
is_for Kind.outbound name rule = rule_is_for_outbound name rule

-- The second list has the rules of the first that are not for the node.
abbrev pub LeavesOut : Kind → String → List RoutingRule → List RoutingRule → Type 0
LeavesOut kind name before after =
    (rule : RoutingRule) → Elem rule after ↔ (Elem rule before × (is_for kind name rule ≡ false))

-- The second manager is the first without the node, in its map and in its configuration.
abbrev pub IsDeleted : Kind → String → Manager → Manager → Type 0
IsDeleted Kind.inbound name m n =
    ((other : String)
      → lookup other n.inbounds ≡ (if name == other then none else lookup other m.inbounds))
    × ((other : String)
        → find_inbound other n.cfg.inbounds
          ≡ (if name == other then none else find_inbound other m.cfg.inbounds))
    × (n.outbounds ≡ m.outbounds)
    × (n.cfg.outbounds ≡ m.cfg.outbounds)
    × LeavesOut Kind.inbound name m.rules n.rules
    × LeavesOut Kind.inbound name m.cfg.routing.rules n.cfg.routing.rules
IsDeleted Kind.outbound name m n =
    ((other : String)
      → lookup other n.outbounds ≡ (if name == other then none else lookup other m.outbounds))
    × ((other : String)
        → find_outbound other n.cfg.outbounds
          ≡ (if name == other then none else find_outbound other m.cfg.outbounds))
    × (n.inbounds ≡ m.inbounds)
    × (n.cfg.inbounds ≡ m.cfg.inbounds)
    × LeavesOut Kind.outbound name m.rules n.rules
    × LeavesOut Kind.outbound name m.cfg.routing.rules n.cfg.routing.rules

-- The test of the deletion, by the type of the node
abbrev node_type_of : Kind → String
node_type_of Kind.inbound = "inbound"
node_type_of Kind.outbound = "outbound"

abbrev keeps : String → String → RoutingRule → Bool
keeps node_type name rule =
    not (node_type == "inbound" && rule_is_for_inbound name rule)
    && not (node_type == "outbound" && rule_is_for_outbound name rule)

keeps_lem :
    (kind : Kind) (name : String) (rule : RoutingRule)
    → keeps (node_type_of kind) name rule ≡ not (is_for kind name rule)
keeps_lem Kind.inbound name rule = ground arith
keeps_lem Kind.outbound name rule = ground arith

is_other : (b c : Bool) → c ≡ not b → c ≡ true → b ≡ false
is_other b c e h = ground (arith, e, h)

is_kept : (b c : Bool) → c ≡ not b → b ≡ false → c ≡ true
is_kept b c e h = ground (arith, e, h)

delete_rules_for_node-LeavesOut :
    (kind : Kind) (name : String) (rules : List RoutingRule)
    → LeavesOut kind name rules (delete_rules_for_node rules (node_type_of kind) name)
unfolding delete_rules_for_node
delete_rules_for_node-LeavesOut kind name rules rule =
    let (to, from) = Elem-select (keeps (node_type_of kind) name) rule rules in
    (
      λ there. ((to there).0, is_other _ _ (keeps_lem kind name rule) (to there).1),
      λ (there, other). from (there, is_kept _ _ (keeps_lem kind name rule) other),
    )

pub delete_node_locked-IsDeleted :
    (kind : Kind) (name : String) (m : Manager)
    → IsDeleted kind name m (delete_node_locked kind name m)
unfolding delete_node_locked
delete_node_locked-IsDeleted Kind.inbound name m = (
  λ other. lookup-remove name other m.inbounds,
  λ other. find_inbound-delete other name m.cfg.inbounds,
  refl,
  refl,
  delete_rules_for_node-LeavesOut Kind.inbound name m.rules,
  delete_rules_for_node-LeavesOut Kind.inbound name m.cfg.routing.rules,
)
delete_node_locked-IsDeleted Kind.outbound name m = (
  λ other. lookup-remove name other m.outbounds,
  λ other. find_outbound-delete other name m.cfg.outbounds,
  refl,
  refl,
  delete_rules_for_node-LeavesOut Kind.outbound name m.rules,
  delete_rules_for_node-LeavesOut Kind.outbound name m.cfg.routing.rules,
)

-- The manager does not have the node, and no rule is for it.
abbrev pub IsGone : Kind → String → Manager → Type 0
IsGone kind name m =
    (node_exists m kind name ≡ false)
    × All (λ rule. is_for kind name rule ≡ false) m.rules
    × All (λ rule. is_for kind name rule ≡ false) m.cfg.routing.rules

All-deleted :
    (kind : Kind) (name : String) (rules : List RoutingRule)
    → All
        (λ rule. is_for kind name rule ≡ false)
        (delete_rules_for_node rules (node_type_of kind) name)
unfolding delete_rules_for_node
All-deleted kind name rules =
    All-select (λ rule. is_for kind name rule ≡ false) (keeps (node_type_of kind) name) rules
      λ rule kept. is_other _ _ (keeps_lem kind name rule) kept

-- A deleted node is gone.
pub delete_node_locked-IsGone :
    (kind : Kind) (name : String) (m : Manager) → IsGone kind name (delete_node_locked kind name m)
unfolding delete_node_locked node_exists
delete_node_locked-IsGone Kind.inbound name m = (
  ground (arith, lookup-remove name name m.inbounds, eq_refl name),
  All-deleted Kind.inbound name m.rules,
  All-deleted Kind.inbound name m.cfg.routing.rules,
)
delete_node_locked-IsGone Kind.outbound name m = (
  ground (arith, lookup-remove name name m.outbounds, eq_refl name),
  All-deleted Kind.outbound name m.rules,
  All-deleted Kind.outbound name m.cfg.routing.rules,
)

-- Another deletion does not bring a node back.
delete_node_locked-none :
    (k kind : Kind) (n name : String) (m : Manager)
    → node_exists m k n ≡ false
    → node_exists (delete_node_locked kind name m) k n ≡ false
unfolding delete_node_locked node_exists
delete_node_locked-none Kind.inbound Kind.inbound n name m h =
    ground (arith, lookup-remove name n m.inbounds, h)
delete_node_locked-none Kind.outbound Kind.outbound n name m h =
    ground (arith, lookup-remove name n m.outbounds, h)
delete_node_locked-none Kind.inbound Kind.outbound n name m h = h
delete_node_locked-none Kind.outbound Kind.inbound n name m h = h

delete_node_locked-All :
    (P : RoutingRule → Type 0) (kind : Kind) (name : String) (m : Manager)
    → All P m.rules
    → All P m.cfg.routing.rules
    → All P (delete_node_locked kind name m).rules
      × All P (delete_node_locked kind name m).cfg.routing.rules
unfolding delete_node_locked delete_rules_for_node
delete_node_locked-All P Kind.inbound name m h k =
    (All-kept P _ m.rules h, All-kept P _ m.cfg.routing.rules k)
delete_node_locked-All P Kind.outbound name m h k =
    (All-kept P _ m.rules h, All-kept P _ m.cfg.routing.rules k)

pub delete_node_locked-stays :
    (k kind : Kind) (n name : String) (m : Manager)
    → IsGone k n m
    → IsGone k n (delete_node_locked kind name m)
delete_node_locked-stays k kind n name m (none_there, rules, own) =
    let (kept, own_kept) = delete_node_locked-All _ kind name m rules own in
    (delete_node_locked-none k kind n name m none_there, kept, own_kept)

-- A deletion leaves any other node there.
pub delete_node_locked-exists :
    (k kind : Kind) (n name : String) (m : Manager)
    → ((kind ≡ k) × (name ≡ n) → ⊥)
    → node_exists (delete_node_locked kind name m) k n ≡ node_exists m k n
unfolding delete_node_locked node_exists
delete_node_locked-exists Kind.inbound Kind.inbound n name m apart =
    let other : name ≡ n → ⊥ = λ e. apart (refl, e) in
    ground (arith, lookup-remove name n m.inbounds, eq_iff name n, other)
delete_node_locked-exists Kind.outbound Kind.outbound n name m apart =
    let other : name ≡ n → ⊥ = λ e. apart (refl, e) in
    ground (arith, lookup-remove name n m.outbounds, eq_iff name n, other)
delete_node_locked-exists Kind.inbound Kind.outbound n name m apart = refl
delete_node_locked-exists Kind.outbound Kind.inbound n name m apart = refl
