-- ===== src/Tests/SingBox.antt =====
-- What sing-box is given of a configuration with a rule to an outbound that is disabled.
use oneagent.Prelude.{false, true, [], ◌∷◌, pos, All}
use oneagent.Config.Types.{RoutingRule, RoutingConfig, OutboundConfig, zero_outbound}
use oneagent.Manager.Runtime.{enabled_runtime}
use oneagent.SingBox.Outbounds.{sing_box_outbounds}
use oneagent.SingBox.Outbounds.Tags.{HasTag}
use oneagent.SingBox.Route.{sing_box_rules, route_final}
use oneagent.SingBox.Route.Resolved.{leads_to, sing_box_rules_lem}

abbrev away : RoutingRule
away = record {
  name = "away";
  match_type = "domain";
  value = "example.com";
  inbound = "";
  outbound = "far";
  priority = pos 1;
  disabled = false;
}

abbrev routing : RoutingConfig
routing = record {
  mode = "rule";
  preset = "";
  default_outbound = "near";
  rules = away ∷ record away { name = "here"; outbound = "near" } ∷ [];
}

abbrev near : OutboundConfig
near = record zero_outbound { name = "near"; protocol = "trojan"; address = "a"; port = pos 1 }

abbrev far : OutboundConfig
far = record near { name = "far"; disabled = true }

sing_box_rules_lem_example :
    let (ins, outs, next) = enabled_runtime [] (near ∷ far ∷ []) routing in
    HasTag (route_final next) (sing_box_outbounds outs)
    × All (λ item. HasTag (leads_to item) (sing_box_outbounds outs)) (sing_box_rules next)
sing_box_rules_lem_example = sing_box_rules_lem [] (near ∷ far ∷ []) routing
