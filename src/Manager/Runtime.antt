-- ===== src/Manager/Runtime.antt =====
-- core/manager.go: `enabledRuntime`, the configuration that a kernel is given; core/certs.go: which
-- inbounds get a certificate.
pub mod Closed
use oneagent.Prelude.{
  String, Bool, false, not, ◌&&◌, ◌||◌, List, ◌==◌, if◌then◌else◌, select, one_of,
}
use oneagent.Config.Types.{InboundConfig, OutboundConfig, RoutingRule, RoutingConfig}
use oneagent.Config.Names.{inbound_names, outbound_names}
use oneagent.Config.Routing.{routing_rule_match_type, routing_rule_value}

unfoldable pub enabled_inbounds : List InboundConfig → List InboundConfig
unfolding select
enabled_inbounds inbounds = select (λ i. not i.disabled) inbounds

unfoldable pub enabled_outbounds : List OutboundConfig → List OutboundConfig
unfolding select
enabled_outbounds outbounds = select (λ o. not o.disabled) outbounds

-- The body of the loop over the rules.
unfoldable pub rule_applies : List String → List String → RoutingRule → Bool
unfolding one_of
rule_applies ins outs rule =
    not rule.disabled
    && (not (routing_rule_match_type rule == "inbound") || one_of (routing_rule_value rule) ins)
    && (rule.outbound == "direct" || one_of rule.outbound outs)

unfoldable pub enabled_default : List String → String → String
unfolding one_of
enabled_default outs name =
    if name == "" then "direct" else if name == "direct" || one_of name outs then name else "direct"

unfoldable pub enabled_runtime :
    List InboundConfig
    → List OutboundConfig
    → RoutingConfig
    → List InboundConfig × List OutboundConfig × RoutingConfig
unfolding select enabled_inbounds enabled_outbounds rule_applies enabled_default
enabled_runtime inbounds outbounds routing =
    let ins = enabled_inbounds inbounds in
    let outs = enabled_outbounds outbounds in
    (
      ins,
      outs,
      record {
        mode = routing.mode;
        preset = routing.preset;
        default_outbound = enabled_default (outbound_names outs) routing.default_outbound;
        rules = select (rule_applies (inbound_names ins) (outbound_names outs)) routing.rules;
      },
    )

-- core/certs.go: `needsGeneratedCertificate`
unfoldable pub needs_generated_certificate : InboundConfig → Bool
needs_generated_certificate inbound =
    if inbound.security == "reality"
    then false
    else if not (inbound.certificate_path == "") && not (inbound.key_path == "")
    then false
    else inbound.protocol == "anytls" || inbound.tls
