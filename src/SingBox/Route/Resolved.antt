-- ===== src/SingBox/Route/Resolved.antt =====
-- Where the rules of sing-box lead to.
use oneagent.Prelude.{
  String, Bool, true, false, ◌||◌, ◌≡◌, refl, ◌↔◌, ◌⊎◌, inl, inr, List, [], ◌∷◌, Option, none, some,
  Elem, All, All-map, All-select, select, one_of, ◌==◌, eq_iff, if◌then◌else◌, arith,
}
use oneagent.Config.Types.{InboundConfig, OutboundConfig, RoutingRule, RoutingConfig}
use oneagent.Config.Names.{inbound_names, outbound_names, Elem-one_of}
use oneagent.Config.Routing.{routing_mode, routing_rule_match_type}
use oneagent.Links.Values.{Any, Fields, at, string_value}
use oneagent.Manager.Runtime.{
  enabled_runtime, enabled_inbounds, enabled_outbounds, rule_applies, enabled_default,
}
use oneagent.Manager.Preview.{sorted_routing_rules}
use oneagent.Manager.Preview.Sorted.{sorted-All}
use oneagent.SingBox.Outbounds.{sing_box_outbounds}
use oneagent.SingBox.Outbounds.Tags.{HasTag, sing_box_outbounds_lem}
use oneagent.SingBox.Route.{sing_box_rules, route_final, rule_item, rule_items, matching}

-- The name is `direct`, or one of the list.
IsKnown : List String → String → Type 0
IsKnown names name = (name ≡ "direct") ⊎ Elem name names

one_of-IsKnown :
    (names : List String) (name : String)
    → (name == "direct" || one_of name names) ≡ true
    → IsKnown names name
unfolding IsKnown
one_of-IsKnown names name h = go (name == "direct") (eq_iff name "direct") h
  where
    go :
        (b : Bool)
        → (b ≡ true) ↔ (name ≡ "direct")
        → (b || one_of name names) ≡ true
        → (name ≡ "direct") ⊎ Elem name names
    go true i h = inl (i.0 refl)
    go false i h = inr (Elem-one_of name names h)

rule_applies-IsKnown :
    (ins outs : List String) (rule : RoutingRule)
    → rule_applies ins outs rule ≡ true
    → IsKnown outs rule.outbound
unfolding rule_applies
rule_applies-IsKnown ins outs rule h = one_of-IsKnown outs rule.outbound (ground (arith, h))

enabled_default-IsKnown :
    (outs : List String) (name : String) → IsKnown outs (enabled_default outs name)
unfolding enabled_default IsKnown
enabled_default-IsKnown outs name =
    go (name == "") (name == "direct" || one_of name outs) (λ e. one_of-IsKnown outs name e)
  where
    go :
        (b c : Bool)
        → (c ≡ true → IsKnown outs name)
        → IsKnown outs (if b then "direct" else if c then name else "direct")
    go true c k = inl refl
    go false true k = k refl
    go false false k = inl refl

route_final-IsKnown :
    (outs : List String) (routing : RoutingConfig)
    → IsKnown outs routing.default_outbound
    → IsKnown outs (route_final routing)
unfolding route_final IsKnown
route_final-IsKnown outs routing h =
    go (routing_mode routing.mode == "direct") (routing.default_outbound == "")
  where
    go :
        (b c : Bool)
        → IsKnown outs (if b then "direct" else if c then "direct" else routing.default_outbound)
    go true c = inl refl
    go false true = inl refl
    go false false = h

-- Where an item leads
abbrev pub leads_to : Fields → String
leads_to item = string_value (at "outbound" item)

module _ (outs : List String) where
  LeadsToKnown : Fields → Type 0
  LeadsToKnown item = IsKnown outs (leads_to item)

  WhenItem : Option Fields → Type 0
  WhenItem none = Unit
  WhenItem (some item) = LeadsToKnown item

  matching-WhenItem :
      (rule : RoutingRule) (key : String) (value : Any)
      → IsKnown outs rule.outbound
      → WhenItem (matching rule key value)
  unfolding matching WhenItem LeadsToKnown at
  matching-WhenItem rule key value h = h

  if-WhenItem :
      (b : Bool) (x y : Option Fields) → WhenItem x → WhenItem y → WhenItem (if b then x else y)
  if-WhenItem true x y h k = h
  if-WhenItem false x y h k = k

  nothing : WhenItem none
  unfolding WhenItem
  nothing = tt

  rule_item-WhenItem : (rule : RoutingRule) → IsKnown outs rule.outbound → WhenItem (rule_item rule)
  unfolding rule_item
  rule_item-WhenItem rule h =
      let kind = routing_rule_match_type rule in
      if-WhenItem (kind == "inbound") _ _ (matching-WhenItem rule "inbound" _ h) (
        if-WhenItem (kind == "domain") _ _ (matching-WhenItem rule "domain" _ h) (
          if-WhenItem (kind == "domain_suffix") _ _ (matching-WhenItem rule "domain_suffix" _ h) (
            if-WhenItem (kind == "domain_keyword") _ _ (matching-WhenItem rule "domain_keyword" _ h)
              (if-WhenItem (kind == "ip_cidr") _ _ (matching-WhenItem rule "ip_cidr" _ h) (
                if-WhenItem (kind == "protocol") _ _ (matching-WhenItem rule "protocol" _ h) (
                  if-WhenItem (kind == "port") _ _ (matching-WhenItem rule "port" _ h) nothing))))))

  add_item :
      (o : Option Fields) (rest : List Fields)
      → WhenItem o
      → All LeadsToKnown rest
      → All LeadsToKnown (elim o [ none ↦ rest | some item ↦ item ∷ rest ])
  unfolding WhenItem
  add_item none rest h k = k
  add_item (some item) rest h k = (h, k)

  rule_items-LeadsToKnown :
      (rules : List RoutingRule)
      → All (λ rule. IsKnown outs rule.outbound) rules
      → All LeadsToKnown (rule_items rules)
  unfolding rule_items
  rule_items-LeadsToKnown [] h = tt
  rule_items-LeadsToKnown (rule ∷ rules) (p, h) =
      skipped rule.disabled (rule_items-LeadsToKnown rules h) (
        add_item (rule_item rule) (rule_items rules) (rule_item-WhenItem rule p)
          (rule_items-LeadsToKnown rules h))
    where
      skipped :
          (b : Bool)
          → All LeadsToKnown (rule_items rules)
          → All LeadsToKnown (elim (rule_item rule) [
            | none ↦ rule_items rules
            | some item ↦ item ∷ rule_items rules
          ])
          → All LeadsToKnown (
              if b then rule_items rules else elim (rule_item rule) [
                | none ↦ rule_items rules
                | some item ↦ item ∷ rule_items rules
              ])
      skipped true h k = h
      skipped false h k = k

  sing_box_rules-LeadsToKnown :
      (routing : RoutingConfig)
      → All (λ rule. IsKnown outs rule.outbound) routing.rules
      → All LeadsToKnown (sing_box_rules routing)
  unfolding sing_box_rules
  sing_box_rules-LeadsToKnown routing h = go (routing_mode routing.mode == "rule") (
      rule_items-LeadsToKnown (sorted_routing_rules routing.rules)
        (sorted-All (λ rule. IsKnown outs rule.outbound) routing.rules h))
    where
      go :
          (b : Bool)
          → All LeadsToKnown (rule_items (sorted_routing_rules routing.rules))
          → All LeadsToKnown (if b then rule_items (sorted_routing_rules routing.rules) else [])
      go true h = h
      go false h = tt

-- Of what `enabledRuntime` leaves of any configuration, sing-box is given no dangling name: every
-- rule that is written for it, and the final route, lead to an outbound that is written too.
pub sing_box_rules_lem :
    (inbounds : List InboundConfig) (outbounds : List OutboundConfig) (routing : RoutingConfig)
    → let (ins, outs, next) = enabled_runtime inbounds outbounds routing in
      HasTag (route_final next) (sing_box_outbounds outs)
      × All (λ item. HasTag (leads_to item) (sing_box_outbounds outs)) (sing_box_rules next)
unfolding enabled_runtime IsKnown LeadsToKnown
sing_box_rules_lem inbounds outbounds routing =
    let outs = enabled_outbounds outbounds in
    let names = outbound_names outs in
    let next : RoutingConfig = record {
      mode = routing.mode;
      preset = routing.preset;
      default_outbound = enabled_default names routing.default_outbound;
      rules = select (rule_applies (inbound_names (enabled_inbounds inbounds)) names) routing.rules;
    } in
    (
      sing_box_outbounds_lem (route_final next) outs
          (route_final-IsKnown names next (enabled_default-IsKnown names routing.default_outbound)),
      All-map (λ item h. sing_box_outbounds_lem (leads_to item) outs h) (sing_box_rules next)
          (sing_box_rules-LeadsToKnown names next (
            All-select (λ rule. IsKnown names rule.outbound) _ routing.rules
              (λ rule e.
                rule_applies-IsKnown (inbound_names (enabled_inbounds inbounds)) names rule e))),
    )
