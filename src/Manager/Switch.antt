-- ===== src/Manager/Switch.antt =====
-- core/manager.go: the requests that delete nodes, or switch them on and off.
pub mod Deleted
pub mod Checked
pub mod Outcomes
use oneagent.Prelude.{
  ℕ, ◌+◌, String, Bool, true, false, not, ◌&&◌, List, [], ◌∷◌, ◌++◌, Option, none, some, ◌==◌,
  if◌then◌else◌, Dict, insert, lookup, remove, has, length,
}
use oneagent.Config.Types.{InboundConfig, OutboundConfig, Config, zero_inbound, zero_outbound}
use oneagent.Config.Errors.{
  Kind, Field, Error, field_required, does_not_exist, bad_node_type, nothing_selected, Result, ok,
  err, ◌>>=◌ as bind,
}
use oneagent.Exec.{Exec, continue, ◌>>=◌, ◌>>◌, pure, raise, lift, get, refuse_if}
use oneagent.Manager.State.{Manager, State, Method, ensure_health_locked}
use oneagent.Manager.Lists.{
  upsert_inbound_config, upsert_outbound_config, delete_inbound_config, delete_outbound_config,
  delete_rules_for_node,
}
use oneagent.Manager.Nodes.{Node, node_locked}
use oneagent.Manager.Requests.{transact, reply}

-- core/api.go: `BatchNodeItem`
pub record BatchNodeItem : Type 0 where
  pub kind : String
  pub name : String

-- `switch nodeType`: the two types that are accepted.
unfoldable pub kind_of : String → Option Kind
kind_of node_type =
    if node_type == "inbound"
    then some Kind.inbound
    else if node_type == "outbound"
    then some Kind.outbound
    else none

unfoldable pub node_exists : Manager → Kind → String → Bool
node_exists m Kind.inbound name = has name m.inbounds
node_exists m Kind.outbound name = has name m.outbounds

-- The case of `DeleteNode` for a node that exists.
unfoldable pub delete_node_locked : Kind → String → Manager → Manager
delete_node_locked Kind.inbound name m = record m {
  inbounds = remove name m.inbounds;
  rules = delete_rules_for_node m.rules "inbound" name;
  cfg = record (m.cfg) {
    inbounds = delete_inbound_config m.cfg.inbounds name;
    routing = record (m.cfg.routing) {
      rules = delete_rules_for_node m.cfg.routing.rules "inbound" name;
    };
  };
}
delete_node_locked Kind.outbound name m = record m {
  outbounds = remove name m.outbounds;
  rules = delete_rules_for_node m.rules "outbound" name;
  cfg = record (m.cfg) {
    outbounds = delete_outbound_config m.cfg.outbounds name;
    routing = record (m.cfg.routing) {
      rules = delete_rules_for_node m.cfg.routing.rules "outbound" name;
    };
  };
}

-- The checks of one node: its type, and that the manager has it.
abbrev check_kind : Manager → String → Option Kind → Result Kind
check_kind m name none = err bad_node_type
check_kind m name (some kind) =
    if node_exists m kind name then ok kind else err (does_not_exist kind name)

unfoldable pub check_node : Manager → String → String → Result Kind
unfolding kind_of node_exists
check_node m node_type name =
    if name == "" then err (field_required Field.name) else check_kind m name (kind_of node_type)

-- `DeleteNode`
unfoldable pub delete_node : String → String → Method (Unit {0})
unfolding check_node transact delete_node_locked
delete_node node_type name = do
  s ← get
  kind ← lift (check_node s.self node_type name)
  transact (λ now. delete_node_locked kind name)

-- The first loop of the requests on several nodes: all are checked before any is changed.
unfoldable pub check_nodes : Manager → List BatchNodeItem → Result (List (Kind × String))
unfolding check_node
check_nodes m [] = ok []
check_nodes m (item ∷ items) =
    bind (check_node m item.kind item.name)
      λ kind. bind (check_nodes m items) λ rest. ok ((kind, item.name) ∷ rest)

-- The second loop.
unfoldable pub change_nodes :
    (Kind → String → Manager → Manager) → List (Kind × String) → Manager → Manager
change_nodes change [] m = m
change_nodes change ((kind, name) ∷ rest) m = change_nodes change rest (change kind name m)

abbrev is_nil {ℓ} : {A : Type ℓ} → List A → Bool
is_nil [] = true
is_nil (x ∷ xs) = false

-- `DeleteNodes`
unfoldable pub delete_nodes : List BatchNodeItem → Method ℕ
unfolding check_nodes transact delete_node_locked change_nodes
delete_nodes items = do
  refuse_if (is_nil items) nothing_selected
  s ← get
  nodes ← lift (check_nodes s.self items)
  transact (λ now. change_nodes delete_node_locked nodes)
  pure (length items)

abbrev or_zero {ℓ} : {A : Type ℓ} → A → Option A → A
or_zero z none = z
or_zero z (some a) = a

abbrev switched_inbound : Manager → String → Bool → InboundConfig
switched_inbound m name enabled = record (or_zero zero_inbound (lookup name m.inbounds)) {
  disabled = not enabled;
}

abbrev switched_outbound : Manager → String → Bool → OutboundConfig
switched_outbound m name enabled = record (or_zero zero_outbound (lookup name m.outbounds)) {
  disabled = not enabled;
}

switch_node : Bool → Kind → String → Manager → Manager
switch_node enabled Kind.inbound name m =
    let inbound = switched_inbound m name enabled in
    record m {
      inbounds = insert name inbound m.inbounds;
      cfg = record (m.cfg) { inbounds = upsert_inbound_config m.cfg.inbounds inbound };
    }
switch_node enabled Kind.outbound name m =
    let outbound = switched_outbound m name enabled in
    record m {
      outbounds = insert name outbound m.outbounds;
      cfg = record (m.cfg) { outbounds = upsert_outbound_config m.cfg.outbounds outbound };
    }

unfoldable pub set_node_enabled_locked : ℕ → Bool → Kind → String → Manager → Manager
unfolding switch_node
set_node_enabled_locked now enabled kind name m =
    ensure_health_locked now name (not enabled) (switch_node enabled kind name m)

-- `SetNodeEnabled`
unfoldable pub set_node_enabled : String → String → Bool → Method Node
unfolding check_node transact reply set_node_enabled_locked
set_node_enabled node_type name enabled = do
  s ← get
  kind ← lift (check_node s.self node_type name)
  transact (λ now. set_node_enabled_locked now enabled kind name)
  reply name kind

show_nodes : Manager → List (Kind × String) → Result (List Node)
show_nodes m [] = ok []
show_nodes m ((kind, name) ∷ rest) =
    bind (node_locked m name kind) λ node. bind (show_nodes m rest) λ nodes. ok (node ∷ nodes)

-- `SetNodesEnabled`
unfoldable pub set_nodes_enabled : List BatchNodeItem → Bool → Method (List Node)
unfolding check_nodes transact set_node_enabled_locked change_nodes show_nodes
set_nodes_enabled items enabled = do
  refuse_if (is_nil items) nothing_selected
  s ← get
  nodes ← lift (check_nodes s.self items)
  transact (λ now. change_nodes (set_node_enabled_locked now enabled) nodes)
  t ← get
  lift (show_nodes t.self nodes)
