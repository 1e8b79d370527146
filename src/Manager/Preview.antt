-- ===== src/Manager/Preview.antt =====
-- core/manager.go: `PreviewRouting`, which says where a connection would go; core/kernel.go: the order
-- of the rules, and the lists in their values.
pub mod Sorted
pub mod First
use oneagent.Prelude.{
  ℕ, String, Bool, true, false, not, ◌&&◌, ◌||◌, List, [], ◌∷◌, Option, none, some, ℤ, pos, eqℤ,
  ltℤ, ◌==◌, if◌then◌else◌, string_lt, trim_space, to_lower, contains, has_suffix, trim_dot,
  equal_fold, split_commas, join_commas, atoi, leb, eqb, ltb, print_int, ◌+s◌, one_of, select,
}
use oneagent.Config.Types.{RoutingRule, Config}
use oneagent.Config.Routing.{routing_mode, routing_rule_match_type, routing_rule_value}
use oneagent.Manager.Apply.{first_non_empty}

pub record RoutingPreviewRequest : Type 0 where
  pub inbound : String
  pub target : String
  pub protocol : String
  pub port : ℤ

-- Why a connection goes where it goes.
pub data Reason : Type 0 where
  all_direct all_default matched unmatched : Reason

pub record RoutingPreviewResult : Type 0 where
  pub mode : String
  pub inbound : String
  pub target : String
  pub protocol : String
  pub port : ℤ
  pub outbound : String
  pub reason : Reason
  pub matched_rule : String
  pub match_type : String
  pub value : String
  pub priority : ℤ
  -- whether the warning that sing-box ignores GeoIP and Geosite rules is given
  pub geo_warning : Bool

-- The loop of `splitCSV`.
trimmed_parts : List String → List String
trimmed_parts [] = []
trimmed_parts (part ∷ parts) =
    let rest = trimmed_parts parts in if trim_space part == "" then rest else trim_space part ∷ rest

-- `splitCSV`
unfoldable pub split_csv : String → List String
unfolding trimmed_parts split_commas trim_space
split_csv value = trimmed_parts (split_commas value)

-- The loop of `splitInts`.
port_numbers : List String → List ℕ
port_numbers [] = []
port_numbers (part ∷ parts) =
    let rest = port_numbers parts in
    elim (atoi part) [ none ↦ rest | some n ↦ if leb 1 n && leb n 65535 then n ∷ rest else rest ]

-- `splitInts`
unfoldable pub split_ints : String → List ℕ
unfolding port_numbers split_csv atoi
split_ints value = port_numbers (split_csv value)

-- The test of `sortedRoutingRules`.
unfoldable pub rule_less : RoutingRule → RoutingRule → Bool
rule_less a b =
    if eqℤ a.priority b.priority then string_lt a.inbound b.inbound else ltℤ a.priority b.priority

insert_rule : RoutingRule → List RoutingRule → List RoutingRule
insert_rule r [] = r ∷ []
insert_rule r (s ∷ rules) =
    let later = insert_rule r rules in if rule_less s r then s ∷ later else r ∷ s ∷ rules

-- `sortedRoutingRules`. A stable sort has one result; this one inserts from the end.
unfoldable pub sorted_routing_rules : List RoutingRule → List RoutingRule
unfolding insert_rule rule_less
sorted_routing_rules [] = []
sorted_routing_rules (r ∷ rules) = insert_rule r (sorted_routing_rules rules)

-- A loop that returns true at the first value that passes.
unfoldable pub any : {A : Type 0} → (A → Bool) → List A → Bool
any test [] = false
any test (v ∷ values) = if test v then true else any test values

abbrev is_nil : {A : Type 0} → List A → Bool
is_nil [] = true
is_nil (x ∷ xs) = false

-- The package `net` of Go's library: the host of a host and a port, an address of a text, whether a
-- text is a network that has an address, and whether an address is private or of the machine itself.
module _ (Ip : Type 0) (split_host_port : String → Option String) (parse_ip : String → Option Ip)
    (cidr_contains : String → Ip → Bool) (is_private is_loopback : Ip → Bool) where
  preview_target : String → String
  preview_target given =
      let target = to_lower (trim_space given) in
      elim (split_host_port target) [ none ↦ target | some host ↦ host ]

  suffix_matches : String → String → Bool
  suffix_matches target value =
      let suffix = trim_dot (to_lower (trim_space value)) in
      target == suffix || has_suffix target ("." +s suffix)

  -- The body of the case "geosite"
  geosite_matches : String → String → Bool
  geosite_matches target value =
      equal_fold value "cn" && (target == "cn" || has_suffix target ".cn")

  -- The cases "ip_cidr" and "geoip"
  ip_matches : (String → Ip → Bool) → String → List String → Bool
  ip_matches test target values = elim (parse_ip target) [
    | none ↦ false
    | some ip ↦ any (λ value. test value ip) values
  ]

  geoip_matches : String → Ip → Bool
  geoip_matches value ip = equal_fold value "cn" && (is_private ip || is_loopback ip)

  -- The `switch` on the type of the match.
  values_match : String → List String → RoutingPreviewRequest → String → Bool
  values_match match_type values req target =
      if match_type == "inbound"
      then any (λ value. value == req.inbound) values
      else if match_type == "domain"
      then any (λ value. equal_fold (trim_space value) target) values
      else if match_type == "domain_suffix"
      then any (suffix_matches target) values
      else if match_type == "domain_keyword"
      then any (λ value. contains target (to_lower (trim_space value))) values
      else if match_type == "ip_cidr"
      then ip_matches cidr_contains target values
      else if match_type == "port"
      then any (λ n. eqℤ (pos n) req.port) (split_ints (join_commas values))
      else if match_type == "protocol"
      then any (λ value. equal_fold value req.protocol) values
      else if match_type == "geosite"
      then any (geosite_matches target) values
      else if match_type == "geoip"
      then ip_matches geoip_matches target values
      else false

  -- `routingRuleMatches`
  unfoldable pub routing_rule_matches : RoutingRule → RoutingPreviewRequest → Bool
  unfolding split_csv values_match preview_target suffix_matches geosite_matches ip_matches
      geoip_matches any split_ints join_commas equal_fold has_suffix contains to_lower trim_space
      routing_rule_match_type routing_rule_value
  routing_rule_matches rule req =
      let values = split_csv (routing_rule_value rule) in
      if is_nil values
      then false
      else values_match (routing_rule_match_type rule) values req (preview_target req.target)

  -- The loop over the sorted rules, up to its first hit.
  unfoldable pub first_match : RoutingPreviewRequest → List RoutingRule → Option RoutingRule
  unfolding routing_rule_matches
  first_match req [] = none
  first_match req (rule ∷ rules) =
      let rest = first_match req rules in
      if rule.disabled then rest else if routing_rule_matches rule req then some rule else rest

  base_result : Config → RoutingPreviewRequest → String → RoutingPreviewResult
  base_result cfg req mode = record {
    mode = mode;
    inbound = req.inbound;
    target = req.target;
    protocol = req.protocol;
    port = req.port;
    outbound = first_non_empty cfg.routing.default_outbound "direct";
    reason = unmatched;
    matched_rule = "";
    match_type = "";
    value = "";
    priority = pos 0;
    geo_warning = false;
  }

  is_geo_rule : RoutingRule → Bool
  is_geo_rule rule =
      not rule.disabled && one_of (routing_rule_match_type rule) ("geoip" ∷ "geosite" ∷ [])

  hit : RoutingRule → RoutingPreviewResult → RoutingPreviewResult
  hit rule result = record result {
    outbound = rule.outbound;
    matched_rule =
        first_non_empty rule.name (routing_rule_match_type rule +s "-" +s print_int rule.priority);
    match_type = routing_rule_match_type rule;
    value = routing_rule_value rule;
    priority = rule.priority;
    reason = matched;
  }

  preview_rules : Config → RoutingPreviewRequest → RoutingPreviewResult → RoutingPreviewResult
  preview_rules cfg req result =
      let warned = record result {
        geo_warning = cfg.kernel.kind == "sing-box" && any is_geo_rule cfg.routing.rules;
      } in
      elim (first_match req (sorted_routing_rules cfg.routing.rules)) [
        | none ↦ warned
        | some rule ↦ hit rule warned
      ]

  -- `PreviewRouting` of the configuration that the manager has.
  unfoldable pub preview_routing : Config → RoutingPreviewRequest → RoutingPreviewResult
  unfolding routing_mode base_result preview_rules hit is_geo_rule first_match sorted_routing_rules
      any
  preview_routing cfg req =
      let mode = first_non_empty (routing_mode cfg.routing.mode) "rule" in
      let result = base_result cfg req mode in
      if mode == "direct"
      then record result { outbound = "direct"; reason = all_direct }
      else if mode == "global"
      then record result { reason = all_default }
      else preview_rules cfg req result
