-- ===== src/Config/Routing.antt =====
-- core/config.go: the helpers of routing rules, and `normalizeRoutingConfig`.
use oneagent.Prelude.{
  String, Bool, false, not, ◌&&◌, ◌||◌, [], ◌∷◌, ◌==◌, if◌then◌else◌, one_of, to_lower, contains,
  select,
}
use oneagent.Config.Types.{RoutingRule, RoutingConfig}

-- The empty result says that the mode is not supported.
unfoldable pub routing_mode : String → String
routing_mode mode =
    if mode == "" || mode == "rule"
    then "rule"
    else if mode == "global" || mode == "direct"
    then mode
    else ""

unfoldable pub routing_rule_match_type : RoutingRule → String
routing_rule_match_type rule =
    if not (rule.match_type == "")
    then rule.match_type
    else if not (rule.inbound == "")
    then "inbound"
    else "domain_suffix"

unfoldable pub routing_rule_value : RoutingRule → String
routing_rule_value rule =
    if not (rule.value == "")
    then rule.value
    else if routing_rule_match_type rule == "inbound"
    then rule.inbound
    else ""

unfoldable pub is_supported_routing_match_type : String → Bool
unfolding one_of
is_supported_routing_match_type match_type = one_of match_type (
    "inbound" ∷ "domain" ∷ "domain_suffix" ∷ "domain_keyword" ∷ "ip_cidr" ∷ "geoip" ∷ "geosite"
    ∷ "protocol" ∷ "port" ∷ [])

unfoldable pub is_legacy_bypass_overseas_direct_rule : RoutingRule → Bool
unfolding to_lower contains routing_rule_match_type routing_rule_value
is_legacy_bypass_overseas_direct_rule rule =
    if not (rule.outbound == "direct") || not (routing_rule_match_type rule == "domain_suffix")
    then false
    else let value = to_lower (routing_rule_value rule) in
      contains value "google.com" && contains value "youtube.com" && contains value "github.com"

unfoldable pub normalize_routing_config : RoutingConfig → RoutingConfig
unfolding select is_legacy_bypass_overseas_direct_rule
normalize_routing_config routing = record routing {
  mode = if routing.mode == "" then "rule" else routing.mode;
  rules =
      if routing.preset == "bypass_cn"
      then select (λ rule. not (is_legacy_bypass_overseas_direct_rule rule)) routing.rules
      else routing.rules;
}
