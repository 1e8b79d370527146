-- ===== src/Config/Validate.antt =====
-- core/config.go: `Config.Validate`. The sets of names that have been seen are lists.
pub mod Sound
use oneagent.Prelude.{String, not, ◌&&◌, List, [], ◌∷◌, ◌==◌, if◌then◌else◌, one_of, port_ok}
use oneagent.Config.Types.{InboundConfig, OutboundConfig, RoutingRule, Config}
use oneagent.Config.Errors.{
  Kind, Field, invalid_web_port, empty_name, duplicate_name, requires, unsupported_protocol,
  unsupported_mode, missing_default, duplicate_rule, unsupported_match, rule_missing_inbound,
  rule_missing_outbound, rule_requires_value, rule_requires_outbound, Result, ok, ◌>>=◌, ◌>>◌,
  fail_if,
}
use oneagent.Config.Routing.{
  routing_mode, routing_rule_match_type, routing_rule_value, is_supported_routing_match_type,
}
use oneagent.Config.Inbound.{is_supported_inbound_protocol, validate_inbound}
use oneagent.Config.Outbound.{is_supported_outbound_protocol, validate_outbound}

-- One round of the loop over the inbounds.
check_inbound : List String → InboundConfig → Result (Unit {0})
check_inbound seen i = do
  fail_if (i.name == "") (empty_name Kind.inbound)
  fail_if (one_of i.name seen) (duplicate_name Kind.inbound i.name)
  fail_if (i.protocol == "") (requires Kind.inbound i.name Field.protocol)
  fail_if (not (is_supported_inbound_protocol i.protocol))
      (unsupported_protocol Kind.inbound i.name i.protocol)
  fail_if (not (port_ok i.port)) (requires Kind.inbound i.name Field.port)
  validate_inbound i

-- The loop; it returns the names that it has seen.
unfoldable pub check_inbounds : List String → List InboundConfig → Result (List String)
unfolding check_inbound
check_inbounds seen [] = ok seen
check_inbounds seen (i ∷ rest) = do check_inbound seen i; check_inbounds (i.name ∷ seen) rest

check_outbound : List String → OutboundConfig → Result (Unit {0})
check_outbound seen o = do
  fail_if (o.name == "") (empty_name Kind.outbound)
  fail_if (one_of o.name seen) (duplicate_name Kind.outbound o.name)
  fail_if (o.protocol == "") (requires Kind.outbound o.name Field.protocol)
  fail_if (not (is_supported_outbound_protocol o.protocol))
      (unsupported_protocol Kind.outbound o.name o.protocol)
  fail_if (not (port_ok o.port)) (requires Kind.outbound o.name Field.port)
  validate_outbound o

unfoldable pub check_outbounds : List String → List OutboundConfig → Result (List String)
unfolding check_outbound
check_outbounds seen [] = ok seen
check_outbounds seen (o ∷ rest) = do check_outbound seen o; check_outbounds (o.name ∷ seen) rest

module _ (seen_inbound seen_outbound : List String) where
  check_rule_value : RoutingRule → Result (Unit {0})
  check_rule_value rule =
      if routing_rule_match_type rule == "inbound"
      then fail_if (not (one_of (routing_rule_value rule) seen_inbound))
          (rule_missing_inbound (routing_rule_value rule))
      else fail_if (routing_rule_value rule == "") (rule_requires_value rule.name)

  -- The checks of a rule that is enabled.
  check_rule : RoutingRule → Result (Unit {0})
  check_rule rule = do
    fail_if (not (is_supported_routing_match_type (routing_rule_match_type rule)))
        (unsupported_match rule.name (routing_rule_match_type rule))
    check_rule_value rule
    fail_if (rule.outbound == "") (rule_requires_outbound rule.name)
    fail_if (not (rule.outbound == "direct") && not (one_of rule.outbound seen_outbound))
        (rule_missing_outbound rule.outbound)

  unfoldable pub check_rules : List String → List RoutingRule → Result (Unit {0})
  unfolding check_rule check_rule_value
  check_rules seen_names [] = ok tt
  check_rules seen_names (rule ∷ rest) = do
    fail_if (not (rule.name == "") && one_of rule.name seen_names) (duplicate_rule rule.name)
    if rule.disabled then ok tt else check_rule rule
    check_rules (if rule.name == "" then seen_names else rule.name ∷ seen_names) rest

-- `Config.Validate`
unfoldable pub validate : Config → Result (Unit {0})
unfolding one_of port_ok check_inbounds check_outbounds check_rules routing_mode
    routing_rule_match_type routing_rule_value is_supported_routing_match_type validate_inbound
    validate_outbound
validate c = do
  fail_if (not (port_ok c.server.web_port)) (invalid_web_port c.server.web_port)
  seen_inbound ← check_inbounds [] c.inbounds
  seen_outbound ← check_outbounds [] c.outbounds
  fail_if (routing_mode c.routing.mode == "") (unsupported_mode c.routing.mode)
  fail_if
      (not (c.routing.default_outbound == "")
        && not (c.routing.default_outbound == "direct")
        && not (one_of c.routing.default_outbound seen_outbound))
      (missing_default c.routing.default_outbound)
  if routing_mode c.routing.mode == "rule"
      then check_rules seen_inbound seen_outbound [] c.routing.rules
      else ok tt
