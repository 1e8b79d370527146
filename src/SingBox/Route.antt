-- ===== src/SingBox/Route.antt =====
-- core/kernel.go: `singBoxRules`, `routeFinal`, and what `SingBoxKernel.GenerateConfig` encodes.
pub mod Resolved
use oneagent.Prelude.{
  ℕ, String, Bool, true, false, List, [], ◌∷◌, Option, none, some, ℤ, pos, ◌==◌, if◌then◌else◌,
}
use oneagent.Config.Types.{RoutingRule, RoutingConfig}
use oneagent.Config.Routing.{routing_mode, routing_rule_match_type, routing_rule_value}
use oneagent.Links.Values.{
  Any, text, texts, flag, number, list, object, Anys, nil, cons, Fields, end, field,
}
use oneagent.Manager.Preview.{split_csv, split_ints, sorted_routing_rules}
use oneagent.Platform.{RuntimeState}
use oneagent.SingBox.Inbounds.{sing_box_inbounds}
use oneagent.SingBox.Outbounds.{sing_box_outbounds}

-- `routeFinal`
unfoldable pub route_final : RoutingConfig → String
unfolding routing_mode
route_final routing =
    if routing_mode routing.mode == "direct"
    then "direct"
    else if routing.default_outbound == ""
    then "direct"
    else routing.default_outbound

-- []int
numbers : List ℕ → Anys
numbers [] = nil
numbers (n ∷ ns) = cons (number (pos n)) (numbers ns)

matching : RoutingRule → String → Any → Option Fields
matching rule key value = some (field "outbound" (text rule.outbound) (field key value end))

-- The body of the loop for a rule that is enabled; `none` where it goes on to the next rule.
rule_item : RoutingRule → Option Fields
rule_item rule =
    let match_type = routing_rule_match_type rule in
    let values = texts (split_csv (routing_rule_value rule)) in
    if match_type == "inbound"
    then matching rule "inbound" values
    else if match_type == "domain"
    then matching rule "domain" values
    else if match_type == "domain_suffix"
    then matching rule "domain_suffix" values
    else if match_type == "domain_keyword"
    then matching rule "domain_keyword" values
    else if match_type == "ip_cidr"
    then matching rule "ip_cidr" values
    else if match_type == "protocol"
    then matching rule "protocol" values
    else if match_type == "port"
    then matching rule "port" (list (numbers (split_ints (routing_rule_value rule))))
    else none

rule_items : List RoutingRule → List Fields
rule_items [] = []
rule_items (rule ∷ rules) =
    let rest = rule_items rules in
    if rule.disabled then rest else elim (rule_item rule) [ none ↦ rest | some item ↦ item ∷ rest ]

-- `singBoxRules`; a nil slice is the empty list here
unfoldable pub sing_box_rules : RoutingConfig → List Fields
unfolding numbers matching rule_item rule_items routing_mode sorted_routing_rules split_csv
    split_ints
sing_box_rules routing =
    if routing_mode routing.mode == "rule"
    then rule_items (sorted_routing_rules routing.rules)
    else []

-- []map[string]any
objects : List Fields → Anys
objects [] = nil
objects (item ∷ items) = cons (object item) (objects items)

-- The payload of `SingBoxKernel.GenerateConfig`
unfoldable pub sing_box_config : RuntimeState → Fields
unfolding objects sing_box_inbounds sing_box_outbounds sing_box_rules route_final
sing_box_config state =
    field "log" (object (field "level" (text "info") (field "timestamp" (flag true) end))) (
      field "inbounds" (list (objects (sing_box_inbounds state.inbounds))) (
        field "outbounds" (list (objects (sing_box_outbounds state.outbounds))) (
          field "route"
            (object (
              field "rules" (list (objects (sing_box_rules state.routing)))
                (field "final" (text (route_final state.routing)) end)))
            end)))
