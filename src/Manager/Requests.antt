-- ===== src/Manager/Requests.antt =====
-- core/manager.go: the requests that add or change a node, and those that replace a part of the
-- configuration; core/api.go: their bodies.
pub mod Atomic
pub mod Effects
pub mod Outcomes
use oneagent.Prelude.{
  ℕ, ◌+◌, String, Bool, true, false, not, ◌&&◌, ◌||◌, List, [], ◌∷◌, ◌++◌, Option, none, some, ℤ,
  ◌==◌, if◌then◌else◌, Dict, insert, lookup, remove, has, port_ok, ◌+s◌,
}
use oneagent.Config.Types.{
  InboundConfig, OutboundConfig, RoutingRule, RoutingConfig, KernelConfig, MihomoConfig, Config,
  zero_inbound,
}
use oneagent.Config.Errors.{
  Kind, Field, Error, field_required, requires, forward_protocol, already_exists, does_not_exist,
  Result, ok, err,
}
use oneagent.Config.Inbound.{validate_inbound}
use oneagent.Exec.{Exec, continue, ◌>>=◌, ◌>>◌, pure, raise, lift, get, modify, refuse_if}
use oneagent.Certs.{materialize_inbound_certificate_content}
use oneagent.Manager.State.{
  Manager, Snapshot, State, Method, snapshot_locked, in_world, ensure_traffic_locked,
  ensure_health_locked,
}
use oneagent.Manager.Lists.{
  upsert_inbound_config, upsert_outbound_config, delete_outbound_config, rename_routing_outbound,
  next_rule_priority,
}
use oneagent.Manager.Commit.{
  update, commit_with_rollback_locked, configure_kernel_locked, normalize_kernel_config,
}
use oneagent.Manager.Nodes.{Node, node_locked}

-- A handler's frame: a snapshot, the change of the manager at the time `now`, and the commit.
unfoldable pub transact : (ℕ → Manager → Manager) → Method (Unit {0})
transact change s =
    commit_with_rollback_locked (snapshot_locked s.self)
      (record s { self = change s.world.clock s.self })

-- `return m.nodeLocked(name, kind), nil`
unfoldable pub reply : String → Kind → Method Node
reply name kind s = (node_locked s.self name kind, s)

pub record ProxyCreateRequest : Type 0 where
  pub name : String
  pub protocol : String
  pub listen : String
  pub port : ℤ
  pub outbound : String
  pub username : String
  pub uuid : String
  pub password : String
  pub method : String
  pub flow : String
  pub security : String
  pub alter_id : ℤ
  pub tls : Bool
  pub server_name : String
  pub certificate_path : String
  pub key_path : String
  pub certificate_content : String
  pub key_content : String
  pub transport : String
  pub path : String
  pub host : String
  pub private_key : String
  pub short_id : String
  pub reality_handshake_server : String
  pub reality_handshake_port : ℤ
  pub idle_session_check : String
  pub idle_session_timeout : String
  pub min_idle_session : ℤ

abbrev pub proxy_inbound : ProxyCreateRequest → InboundConfig
proxy_inbound req = record zero_inbound {
  name = req.name;
  protocol = req.protocol;
  listen = req.listen;
  port = req.port;
  username = req.username;
  uuid = req.uuid;
  password = req.password;
  method = req.method;
  flow = req.flow;
  security = req.security;
  alter_id = req.alter_id;
  tls = req.tls;
  server_name = req.server_name;
  certificate_path = req.certificate_path;
  key_path = req.key_path;
  certificate_content = req.certificate_content;
  key_content = req.key_content;
  transport = req.transport;
  path = req.path;
  host = req.host;
  private_key = req.private_key;
  short_id = req.short_id;
  reality_handshake_server = req.reality_handshake_server;
  reality_handshake_port = req.reality_handshake_port;
  idle_session_check = req.idle_session_check;
  idle_session_timeout = req.idle_session_timeout;
  min_idle_session = req.min_idle_session;
}

pub record ForwardCreateRequest : Type 0 where
  pub name : String
  pub protocol : String
  pub listen_port : ℤ
  pub target_host : String
  pub target_port : ℤ

abbrev or_default : String → String → String
or_default s d = if s == "" then d else s

-- The entries of a node that exists from now on.
abbrev pub ensure_node : ℕ → String → Bool → Manager → Manager
ensure_node now name disabled m =
    ensure_health_locked now name disabled (ensure_traffic_locked now name m)

abbrev pub appended_inbound : InboundConfig → Manager → Manager
appended_inbound inbound m = record m {
  inbounds = insert inbound.name inbound m.inbounds;
  cfg = record (m.cfg) { inbounds = m.cfg.inbounds ++ inbound ∷ [] };
}

unfoldable pub add_inbound : InboundConfig → ℕ → Manager → Manager
add_inbound inbound now m =
    ensure_node now inbound.name inbound.disabled (appended_inbound inbound m)

-- `CreateProxy`
unfoldable pub create_proxy : ProxyCreateRequest → Method Node
unfolding transact reply add_inbound in_world
create_proxy req = do
  refuse_if (req.name == "") (field_required Field.name)
  refuse_if (not (port_ok req.port)) (field_required Field.port)
  s ← get
  refuse_if (has req.name s.self.inbounds) (already_exists Kind.inbound req.name)
  inbound ← in_world (
      materialize_inbound_certificate_content
        (proxy_inbound (record req { protocol = or_default req.protocol "socks" })))
  lift (validate_inbound inbound)
  transact (add_inbound inbound)
  reply req.name Kind.inbound

abbrev forward_inbound : ForwardCreateRequest → String → InboundConfig
forward_inbound req protocol = record zero_inbound {
  name = req.name;
  protocol = "forward-" +s protocol;
  listen = "0.0.0.0";
  port = req.listen_port;
  target_host = req.target_host;
  target_port = req.target_port;
}

abbrev pub forward_rule : InboundConfig → List RoutingRule → RoutingRule
forward_rule inbound rules = record {
  name = inbound.name +s "-route";
  match_type = "";
  value = "";
  inbound = inbound.name;
  outbound = "direct";
  priority = next_rule_priority rules;
  disabled = false;
}

abbrev pub forwarded : InboundConfig → Manager → Manager
forwarded inbound m =
    let rule = forward_rule inbound m.rules in
    record m {
      inbounds = insert inbound.name inbound m.inbounds;
      rules = m.rules ++ rule ∷ [];
      cfg = record (m.cfg) {
        inbounds = m.cfg.inbounds ++ inbound ∷ [];
        routing = record (m.cfg.routing) { rules = m.cfg.routing.rules ++ rule ∷ [] };
      };
    }

unfoldable pub add_forward : InboundConfig → ℕ → Manager → Manager
add_forward inbound now m = ensure_node now inbound.name inbound.disabled (forwarded inbound m)

-- `CreateForward`
unfoldable pub create_forward : ForwardCreateRequest → Method Node
unfolding transact reply add_forward
create_forward req = do
  refuse_if (req.name == "") (field_required Field.name)
  refuse_if (not (port_ok req.listen_port)) (field_required Field.listen_port)
  refuse_if (req.target_host == "") (field_required Field.target_host)
  refuse_if (not (port_ok req.target_port)) (field_required Field.target_port)
  let protocol = or_default req.protocol "tcp"
  refuse_if (not (protocol == "tcp") && not (protocol == "udp")) forward_protocol
  s ← get
  refuse_if (has req.name s.self.inbounds) (already_exists Kind.inbound req.name)
  lift (validate_inbound (forward_inbound req protocol))
  transact (add_forward (forward_inbound req protocol))
  reply req.name Kind.inbound

abbrev pub inserted_inbound : InboundConfig → Manager → Manager
inserted_inbound inbound m = record m {
  inbounds = insert inbound.name inbound m.inbounds;
  cfg = record (m.cfg) { inbounds = upsert_inbound_config m.cfg.inbounds inbound };
}

unfoldable pub put_inbound : InboundConfig → ℕ → Manager → Manager
put_inbound inbound now m =
    ensure_node now inbound.name inbound.disabled (inserted_inbound inbound m)

-- `UpsertInbound`
unfoldable pub upsert_inbound : InboundConfig → Method Node
unfolding transact reply put_inbound in_world
upsert_inbound given = do
  refuse_if (given.name == "") (field_required Field.name)
  refuse_if (given.protocol == "") (field_required Field.protocol)
  refuse_if (not (port_ok given.port)) (field_required Field.port)
  inbound ← in_world (materialize_inbound_certificate_content given)
  lift (validate_inbound inbound)
  transact (put_inbound inbound)
  reply inbound.name Kind.inbound

abbrev pub inserted_outbound : OutboundConfig → Manager → Manager
inserted_outbound outbound m = record m {
  outbounds = insert outbound.name outbound m.outbounds;
  cfg = record (m.cfg) { outbounds = upsert_outbound_config m.cfg.outbounds outbound };
}

unfoldable pub put_outbound : OutboundConfig → ℕ → Manager → Manager
put_outbound outbound now m =
    ensure_node now outbound.name outbound.disabled (inserted_outbound outbound m)

-- An entry of a map under its new name, where there is one.
abbrev pub move : {V : Type 0} → String → String → Dict V → Dict V
move old new d = elim (lookup old d) [ none ↦ d | some v ↦ remove old (insert new v d) ]

-- The block of `UpsertOutbound` that renames.
unfoldable pub rename_outbound : String → String → Manager → Manager
rename_outbound old new m = record m {
  outbounds = remove old m.outbounds;
  rules = rename_routing_outbound m.rules old new;
  traffic = move old new m.traffic;
  health = move old new m.health;
  cfg = record (m.cfg) {
    outbounds = delete_outbound_config m.cfg.outbounds old;
    routing = record (m.cfg.routing) {
      rules = rename_routing_outbound m.cfg.routing.rules old new;
      default_outbound =
          if m.cfg.routing.default_outbound == old then new else m.cfg.routing.default_outbound;
    };
  };
}

abbrev pub renames : String → String → Bool
renames old new = not (old == "") && not (old == new)

unfoldable pub put_renamed : String → OutboundConfig → ℕ → Manager → Manager
unfolding rename_outbound put_outbound
put_renamed old outbound now m =
    put_outbound outbound now
      (if renames old outbound.name then rename_outbound old outbound.name m else m)

-- `UpsertOutbound`
unfoldable pub upsert_outbound : OutboundConfig → Method Node
unfolding transact reply put_renamed
upsert_outbound given = do
  let old = given.original_name
  let outbound = record given { original_name = "" }
  refuse_if (outbound.name == "") (field_required Field.name)
  refuse_if (outbound.protocol == "") (field_required Field.protocol)
  refuse_if (outbound.address == "") (field_required Field.address)
  refuse_if (not (port_ok outbound.port)) (field_required Field.port)
  s ← get
  refuse_if (renames old outbound.name && not (has old s.self.outbounds))
      (does_not_exist Kind.outbound old)
  refuse_if (renames old outbound.name && has outbound.name s.self.outbounds)
      (already_exists Kind.outbound outbound.name)
  transact (put_renamed old outbound)
  reply outbound.name Kind.outbound

unfoldable pub set_mihomo : MihomoConfig → ℕ → Manager → Manager
set_mihomo cfg now m = record m { cfg = record (m.cfg) { mihomo = cfg } }

-- `UpdateMihomoConfig`
unfoldable pub update_mihomo_config : MihomoConfig → Method (Unit {0})
unfolding transact set_mihomo
update_mihomo_config cfg = transact (set_mihomo cfg)

unfoldable pub set_routing : RoutingConfig → ℕ → Manager → Manager
set_routing routing now m = record m {
  rules = routing.rules;
  cfg = record (m.cfg) { routing = routing };
}

-- `UpdateRoutingConfig`
unfoldable pub update_routing_config : RoutingConfig → Method (Unit {0})
unfolding transact set_routing
update_routing_config routing = transact (set_routing routing)

-- `UpdateKernelConfig`: the kernel is configured behind the snapshot.
unfoldable pub update_kernel_config : KernelConfig → Method (Unit {0})
unfolding normalize_kernel_config
update_kernel_config given = do
  let cfg = normalize_kernel_config given
  s ← get
  configure_kernel_locked cfg
  update (λ m. record m { cfg = record (m.cfg) { kernel = cfg } })
  commit_with_rollback_locked (snapshot_locked s.self)
