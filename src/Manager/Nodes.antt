-- ===== src/Manager/Nodes.antt =====
-- core/manager.go: the view of the nodes that the manager gives.
pub mod Shown
use oneagent.Prelude.{
  ℕ, ◌+◌, String, Bool, true, false, not, ◌&&◌, ◌||◌, List, [], ◌∷◌, ◌++◌, Option, none, some, ℤ,
  ◌==◌, if◌then◌else◌, Dict, lookup, to_lower, trim_space, contains, string_le,
}
use oneagent.Config.Types.{InboundConfig, OutboundConfig, zero_inbound, zero_outbound}
use oneagent.Config.Errors.{Kind, Error, nil_pointer, Result, ok, err, ◌>>=◌, ◌>>◌}
use oneagent.Manager.State.{Traffic, Health, Manager}

-- The title of a diagnosis; each has one hint.
pub data Diagnosis : Type 0 where
  untested normal stopped bad_fields bad_reality bad_tls timed_out bad_dns refused : Diagnosis
  bad_upstream untestable failed : Diagnosis

any_of : String → List String → Bool
any_of message [] = false
any_of message (word ∷ words) = if contains message word then true else any_of message words

-- The ladder of `diagnoseHealth` over the words of the message.
diagnose_message : String → Diagnosis
diagnose_message message =
    if any_of message ("field" ∷ "字段" ∷ "requires" ∷ "配置校验" ∷ "bad key" ∷ [])
    then bad_fields
    else if any_of message ("reality" ∷ "utls" ∷ "public_key" ∷ "short_id" ∷ [])
    then bad_reality
    else if any_of message ("tls handshake" ∷ "certificate" ∷ "x509" ∷ [])
    then bad_tls
    else if any_of message ("i/o timeout" ∷ "timeout" ∷ "deadline" ∷ [])
    then timed_out
    else if any_of message ("no such host" ∷ "dns" ∷ [])
    then bad_dns
    else if any_of message ("connection refused" ∷ "connect: refused" ∷ [])
    then refused
    else if any_of message ("http 状态异常" ∷ "http status" ∷ "http_" ∷ "502" ∷ [])
    then bad_upstream
    else if any_of message ("unsupported" ∷ "暂不支持" ∷ [])
    then untestable
    else failed

-- `diagnoseHealth`
unfoldable pub diagnose_health : Health → Diagnosis
unfolding to_lower trim_space contains any_of diagnose_message
diagnose_health health =
    let status = to_lower (trim_space health.status) in
    if status == "" || status == "unknown"
    then untested
    else if status == "online"
    then normal
    else if status == "disabled"
    then stopped
    else diagnose_message (to_lower health.last_error)

pub record Node : Type 0 where
  pub name : String
  pub kind : Kind
  pub protocol : String
  pub address : String
  pub port : ℤ
  pub enabled : Bool
  pub status : String
  pub latency_ms : ℕ
  pub last_error : String
  pub diagnosis : Diagnosis
  pub upload_bytes : ℕ
  pub download_bytes : ℕ
  pub updated_at : ℕ

-- `m.health[name]`, with Go's zero value where it is missing.
abbrev pub health_of : Manager → String → Health
health_of m name = elim (lookup name m.health) [
  | none ↦ record { status = ""; latency_ms = 0; last_error = ""; updated_at = 0 }
  | some h ↦ h
]

abbrev inbound_node : InboundConfig → Health → Traffic → Node
inbound_node inbound health traffic = record {
  name = inbound.name;
  kind = Kind.inbound;
  protocol = inbound.protocol;
  address = if inbound.listen == "" then "::" else inbound.listen;
  port = inbound.port;
  enabled = not inbound.disabled;
  status = health.status;
  latency_ms = health.latency_ms;
  last_error = health.last_error;
  diagnosis = diagnose_health health;
  upload_bytes = traffic.upload_bytes;
  download_bytes = traffic.download_bytes;
  updated_at = traffic.updated_at;
}

abbrev outbound_node : OutboundConfig → Health → Traffic → Node
outbound_node outbound health traffic = record {
  name = outbound.name;
  kind = Kind.outbound;
  protocol = outbound.protocol;
  address = outbound.address;
  port = outbound.port;
  enabled = not outbound.disabled;
  status = health.status;
  latency_ms = health.latency_ms;
  last_error = health.last_error;
  diagnosis = diagnose_health health;
  upload_bytes = traffic.upload_bytes;
  download_bytes = traffic.download_bytes;
  updated_at = traffic.updated_at;
}

-- `m.traffic[name]` is a pointer, and is read through.
abbrev traffic_of : Manager → String → Result Traffic
traffic_of m name = elim (lookup name m.traffic) [ none ↦ err (nil_pointer name) | some t ↦ ok t ]

unfoldable pub show_inbound : Manager → String → InboundConfig → Result Node
unfolding diagnose_health
show_inbound m name inbound = do
  traffic ← traffic_of m name
  ok (inbound_node inbound (health_of m name) traffic)

unfoldable pub show_outbound : Manager → String → OutboundConfig → Result Node
unfolding diagnose_health
show_outbound m name outbound = do
  traffic ← traffic_of m name
  ok (outbound_node outbound (health_of m name) traffic)

abbrev or_zero {ℓ} : {A : Type ℓ} → A → Option A → A
or_zero z none = z
or_zero z (some a) = a

-- `nodeLocked`
unfoldable pub node_locked : Manager → String → Kind → Result Node
unfolding show_inbound show_outbound
node_locked m name Kind.inbound =
    show_inbound m name (or_zero zero_inbound (lookup name m.inbounds))
node_locked m name Kind.outbound =
    show_outbound m name (or_zero zero_outbound (lookup name m.outbounds))

-- `sort.Strings` on the keys of a map, with their values.
insert_by_name : {V : Type 0} → String → V → Dict V → Dict V
insert_by_name k v [] = (k, v) ∷ []
insert_by_name k v ((j, w) ∷ m) =
    let later = insert_by_name k v m in
    if string_le k j then (k, v) ∷ (j, w) ∷ m else (j, w) ∷ later

sort_by_name : {V : Type 0} → Dict V → Dict V
sort_by_name [] = []
sort_by_name ((k, v) ∷ m) = insert_by_name k v (sort_by_name m)

show_all : {V : Type 0} → (V → Result Node) → Dict V → Result (List Node)
show_all show [] = ok []
show_all show ((_, v) ∷ m) = do node ← show v; nodes ← show_all show m; ok (node ∷ nodes)

-- `ListNodes`: the inbounds by name, and then the outbounds.
unfoldable pub list_nodes : Manager → Result (List Node)
unfolding insert_by_name sort_by_name show_all show_inbound show_outbound
list_nodes m = do
  ins ← show_all (λ i. show_inbound m i.name i) (sort_by_name m.inbounds)
  outs ← show_all (λ o. show_outbound m o.name o) (sort_by_name m.outbounds)
  ok (ins ++ outs)
