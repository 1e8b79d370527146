-- ===== src/Manager/Lists.antt =====
-- core/manager.go: the functions on the lists of the configuration.
use oneagent.Prelude.{
  ◌+◌, String, Bool, not, ◌&&◌, List, [], ◌∷◌, ℤ, pos, negsuc, ltb, ◌-◌, ltℤ, ◌==◌, if◌then◌else◌,
  select,
}
use oneagent.Config.Types.{InboundConfig, OutboundConfig, RoutingRule}
use oneagent.Config.Routing.{routing_rule_match_type, routing_rule_value}

unfoldable pub upsert_inbound_config : List InboundConfig → InboundConfig → List InboundConfig
upsert_inbound_config [] next = next ∷ []
upsert_inbound_config (item ∷ items) next =
    if item.name == next.name then next ∷ items else item ∷ upsert_inbound_config items next

unfoldable pub upsert_outbound_config : List OutboundConfig → OutboundConfig → List OutboundConfig
upsert_outbound_config [] next = next ∷ []
upsert_outbound_config (item ∷ items) next =
    if item.name == next.name then next ∷ items else item ∷ upsert_outbound_config items next

unfoldable pub delete_inbound_config : List InboundConfig → String → List InboundConfig
unfolding select
delete_inbound_config items name = select (λ item. not (item.name == name)) items

unfoldable pub delete_outbound_config : List OutboundConfig → String → List OutboundConfig
unfolding select
delete_outbound_config items name = select (λ item. not (item.name == name)) items

-- The two tests of `deleteRulesForNode`, by the type of the node.
unfoldable pub rule_is_for_inbound : String → RoutingRule → Bool
rule_is_for_inbound name item =
    routing_rule_match_type item == "inbound" && routing_rule_value item == name

unfoldable pub rule_is_for_outbound : String → RoutingRule → Bool
rule_is_for_outbound name item = item.outbound == name

unfoldable pub delete_rules_for_node : List RoutingRule → String → String → List RoutingRule
unfolding select rule_is_for_inbound rule_is_for_outbound
delete_rules_for_node items node_type name =
    select
      (λ item.
        not (node_type == "inbound" && rule_is_for_inbound name item)
        && not (node_type == "outbound" && rule_is_for_outbound name item))
      items

unfoldable pub rename_routing_outbound : List RoutingRule → String → String → List RoutingRule
rename_routing_outbound [] old_name new_name = []
rename_routing_outbound (item ∷ items) old_name new_name =
    record item { outbound = if item.outbound == old_name then new_name else item.outbound }
    ∷ rename_routing_outbound items old_name new_name

-- The loop of `nextRulePriority`.
max_priority : ℤ → List RoutingRule → ℤ
max_priority best [] = best
max_priority best (rule ∷ rules) =
    max_priority (if ltℤ best rule.priority then rule.priority else best) rules

abbrev add_ten : ℤ → ℤ
add_ten (pos n) = pos (n + 10)
add_ten (negsuc n) = if ltb n 10 then pos (9 - n) else negsuc (n - 10)

unfoldable pub next_rule_priority : List RoutingRule → ℤ
unfolding max_priority
next_rule_priority rules = add_ten (max_priority (pos 0) rules)
