-- ===== src/Manager/Requests/Effects.antt =====
-- What the requests that add or put an inbound do to the maps and to the configuration.
use oneagent.Prelude.{
  ℕ, String, false, ◌≡◌, ◌≢◌, refl, sym, ap, ◌∙◌, ◌==◌, has, not, ◌&&◌, ◌⊎◌, arith, eq_iff, inl,
  inr, List, [], ◌∷◌, ◌++◌, some, pos, ◌+s◌, lookup, lookup-insert, if◌then◌else◌, Bool-cases,
}
use oneagent.Config.Types.{InboundConfig, RoutingRule}
use oneagent.Manager.State.{Manager, State, ensure_traffic_locked, ensure_health_locked}
use oneagent.Manager.Lists.{next_rule_priority}
use oneagent.Manager.Find.{find_inbound, find_inbound-upsert}
use oneagent.Manager.Requests.{
  ProxyCreateRequest, proxy_inbound, add_inbound, forward_inbound, forward_rule, or_default,
  ForwardCreateRequest, add_forward, put_inbound,
}

-- The second manager is the first with the inbound under its name, in the map and in the configuration.
abbrev pub HasPut : InboundConfig → Manager → Manager → Type 0
HasPut i m n =
    ((name : String)
      → lookup name n.inbounds ≡ (if i.name == name then some i else lookup name m.inbounds))
    × ((name : String)
        → find_inbound name n.cfg.inbounds
          ≡ (if i.name == name then some i else find_inbound name m.cfg.inbounds))
    × (n.cfg ≡ record (m.cfg) { inbounds = n.cfg.inbounds })
    × (n.outbounds ≡ m.outbounds)
    × (n.rules ≡ m.rules)

pub put_inbound-HasPut :
    (i : InboundConfig) (now : ℕ) (m : Manager) → HasPut i m (put_inbound i now m)
unfolding put_inbound ensure_health_locked ensure_traffic_locked
put_inbound-HasPut i now m = (
  λ name. lookup-insert i.name name i m.inbounds,
  λ name. find_inbound-upsert name m.cfg.inbounds i,
  refl,
  refl,
  refl,
)

-- The inbound has the fields of the request, but for its outbound, and `socks` for its protocol where that is empty. It is not
-- a forward, and it is not disabled.
pub record IsCopy (req : ProxyCreateRequest) (i : InboundConfig) : Type 0 where
  pub name : i.name ≡ req.name
  pub protocol :
      ((req.protocol ≡ "") × (i.protocol ≡ "socks"))
      ⊎ ((req.protocol ≢ "") × (i.protocol ≡ req.protocol))
  pub listen : i.listen ≡ req.listen
  pub port : i.port ≡ req.port
  pub username : i.username ≡ req.username
  pub uuid : i.uuid ≡ req.uuid
  pub password : i.password ≡ req.password
  pub method : i.method ≡ req.method
  pub flow : i.flow ≡ req.flow
  pub security : i.security ≡ req.security
  pub alter_id : i.alter_id ≡ req.alter_id
  pub tls : i.tls ≡ req.tls
  pub server_name : i.server_name ≡ req.server_name
  pub certificate_path : i.certificate_path ≡ req.certificate_path
  pub key_path : i.key_path ≡ req.key_path
  pub certificate_content : i.certificate_content ≡ req.certificate_content
  pub key_content : i.key_content ≡ req.key_content
  pub transport : i.transport ≡ req.transport
  pub path : i.path ≡ req.path
  pub host : i.host ≡ req.host
  pub private_key : i.private_key ≡ req.private_key
  pub short_id : i.short_id ≡ req.short_id
  pub reality_handshake_server : i.reality_handshake_server ≡ req.reality_handshake_server
  pub reality_handshake_port : i.reality_handshake_port ≡ req.reality_handshake_port
  pub idle_session_check : i.idle_session_check ≡ req.idle_session_check
  pub idle_session_timeout : i.idle_session_timeout ≡ req.idle_session_timeout
  pub min_idle_session : i.min_idle_session ≡ req.min_idle_session
  pub outbound : i.outbound ≡ ""
  pub disabled : i.disabled ≡ false
  pub target_host : i.target_host ≡ ""
  pub target_port : i.target_port ≡ pos 0

or_default_lem :
    (s d : String) → ((s ≡ "") × (or_default s d ≡ d)) ⊎ ((s ≢ "") × (or_default s d ≡ s))
or_default_lem s d = elim (Bool-cases (s == "")) [
  | inl e ↦ inl (ground (arith, e, eq_iff s ""), ground (arith, e))
  | inr e ↦ inr (λ same. ground (arith, e, same, eq_iff s ""), ground (arith, e))
]

pub proxy_inbound-IsCopy :
    (req : ProxyCreateRequest)
    → IsCopy req (proxy_inbound (record req { protocol = or_default req.protocol "socks" }))
proxy_inbound-IsCopy req = record {
  name = refl;
  protocol = or_default_lem req.protocol "socks";
  listen = refl;
  port = refl;
  username = refl;
  uuid = refl;
  password = refl;
  method = refl;
  flow = refl;
  security = refl;
  alter_id = refl;
  tls = refl;
  server_name = refl;
  certificate_path = refl;
  key_path = refl;
  certificate_content = refl;
  key_content = refl;
  transport = refl;
  path = refl;
  host = refl;
  private_key = refl;
  short_id = refl;
  reality_handshake_server = refl;
  reality_handshake_port = refl;
  idle_session_check = refl;
  idle_session_timeout = refl;
  min_idle_session = refl;
  outbound = refl;
  disabled = refl;
  target_host = refl;
  target_port = refl;
}

-- The second manager is the first with the inbound under its name in the map, and at the end of the
-- configuration.
abbrev pub HasAppended : InboundConfig → Manager → Manager → Type 0
HasAppended i m n =
    ((name : String)
      → lookup name n.inbounds ≡ (if i.name == name then some i else lookup name m.inbounds))
    × (n.cfg ≡ record (m.cfg) { inbounds = m.cfg.inbounds ++ i ∷ [] })
    × (n.outbounds ≡ m.outbounds)
    × (n.rules ≡ m.rules)

pub add_inbound-HasAppended :
    (i : InboundConfig) (now : ℕ) (m : Manager) → HasAppended i m (add_inbound i now m)
unfolding add_inbound ensure_health_locked ensure_traffic_locked
add_inbound-HasAppended i now m = (λ name. lookup-insert i.name name i m.inbounds, refl, refl, refl)

tcp_or_udp : (p : String) → not (p == "tcp") && not (p == "udp") ≡ false → (p ≡ "tcp") ⊎ (p ≡ "udp")
tcp_or_udp p h = ground (arith, eq_iff p "tcp", eq_iff p "udp")

-- The inbound listens for the request, on all addresses, with its protocol or else with tcp.
pub record IsForward (req : ForwardCreateRequest) (i : InboundConfig) : Type 0 where
  pub name : i.name ≡ req.name
  pub protocol :
      (((req.protocol ≡ "") ⊎ (req.protocol ≡ "tcp")) × (i.protocol ≡ "forward-tcp"))
      ⊎ ((req.protocol ≡ "udp") × (i.protocol ≡ "forward-udp"))
  pub listen : i.listen ≡ "0.0.0.0"
  pub port : i.port ≡ req.listen_port
  pub target_host : i.target_host ≡ req.target_host
  pub target_port : i.target_port ≡ req.target_port
  pub disabled : i.disabled ≡ false

-- The rule sends what comes in at the inbound to `direct`, behind the rules that there are.
pub record IsDirect (name : String) (rules : List RoutingRule) (rule : RoutingRule) : Type 0 where
  pub inbound : rule.inbound ≡ name
  pub outbound : rule.outbound ≡ "direct"
  pub match_type : rule.match_type ≡ ""
  pub value : rule.value ≡ ""
  pub disabled : rule.disabled ≡ false
  pub priority : rule.priority ≡ next_rule_priority rules

-- The second manager is the first with the inbound under its name in the map, and with the inbound and
-- the rule at the ends of the configuration.
abbrev pub HasForward : InboundConfig → RoutingRule → Manager → Manager → Type 0
HasForward i rule m n =
    ((name : String)
      → lookup name n.inbounds ≡ (if i.name == name then some i else lookup name m.inbounds))
    × (n.cfg ≡ record (m.cfg) {
      inbounds = m.cfg.inbounds ++ i ∷ [];
      routing = record (m.cfg.routing) { rules = m.cfg.routing.rules ++ rule ∷ [] };
    })
    × (n.outbounds ≡ m.outbounds)
    × (n.rules ≡ m.rules ++ rule ∷ [])

abbrev pub AddsForward : ForwardCreateRequest → State → Manager → Type 0
AddsForward req s m =
    (i : InboundConfig) × (rule : RoutingRule) × (has req.name s.self.inbounds ≡ false)
    × IsForward req i
    × IsDirect req.name s.self.rules rule
    × HasForward i rule s.self m

forward_protocol_lem :
    (given p : String)
    → or_default given "tcp" ≡ p
    → not (p == "tcp") && not (p == "udp") ≡ false
    → (((given ≡ "") ⊎ (given ≡ "tcp")) × ("forward-" +s p ≡ "forward-tcp"))
      ⊎ ((given ≡ "udp") × ("forward-" +s p ≡ "forward-udp"))
forward_protocol_lem given p e known = elim (tcp_or_udp p known) [
  | inl tcp ↦ inl (empty_or_tcp (e ∙ tcp), ap (λ q. "forward-" +s q) tcp)
  | inr udp ↦ inr (only_udp (e ∙ udp), ap (λ q. "forward-" +s q) udp)
]
  where
    empty_or_tcp : or_default given "tcp" ≡ "tcp" → (given ≡ "") ⊎ (given ≡ "tcp")
    empty_or_tcp h = elim (or_default_lem given "tcp") [
      | inl (e, _) ↦ inl e
      | inr (_, same) ↦ inr (sym same ∙ h)
    ]

    apart : ◌≡◌ {A = String} "tcp" "udp" → ⊥
    apart h = ground (arith, h, eq_iff "tcp" "udp")

    only_udp : or_default given "tcp" ≡ "udp" → given ≡ "udp"
    only_udp h = elim (or_default_lem given "tcp") [
      | inl (_, tcp) ↦ absurd (apart (sym tcp ∙ h))
      | inr (_, same) ↦ sym same ∙ h
    ]

pub add_forward-AddsForward :
    (req : ForwardCreateRequest) (s : State)
    → not (or_default req.protocol "tcp" == "tcp") && not (or_default req.protocol "tcp" == "udp")
      ≡ false
    → has req.name s.self.inbounds ≡ false
    → AddsForward req s
        (add_forward (forward_inbound req (or_default req.protocol "tcp")) s.world.clock s.self)
unfolding add_forward ensure_health_locked ensure_traffic_locked
add_forward-AddsForward req s known unused =
    let i = forward_inbound req (or_default req.protocol "tcp") in
    (
      i,
      forward_rule i s.self.rules,
      unused,
      record {
        name = refl;
        protocol = forward_protocol_lem req.protocol _ refl known;
        listen = refl;
        port = refl;
        target_host = refl;
        target_port = refl;
        disabled = refl;
      },
      record {
        inbound = refl;
        outbound = refl;
        match_type = refl;
        value = refl;
        disabled = refl;
        priority = refl;
      },
      (λ name. lookup-insert i.name name i s.self.inbounds, refl, refl, refl),
    )
