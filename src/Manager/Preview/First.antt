-- ===== src/Manager/Preview/First.antt =====
-- Which rule `PreviewRouting` of core/manager.go goes by.
use oneagent.Prelude.{
  String, Bool, true, false, ◌≡◌, refl, ap, ◌⊎◌, inl, inr, List, [], ◌∷◌, Option, none, some, ltℤ,
  ◌==◌, All, All-map, Elem, All-Elem, arith, eq_iff, Bool-cases,
}
use oneagent.Config.Types.{RoutingRule, Config}
use oneagent.Config.Errors.{ok}
use oneagent.Config.Names.{outbound_names}
use oneagent.Config.Routing.{routing_mode}
use oneagent.Config.Validate.{validate}
use oneagent.Config.Validate.Sound.{validate_lem}
use oneagent.Manager.Preview.Sorted.{Ordered, Elem-sorted, All-sorted, sorted-Ordered, ltℤ_irrefl}
use oneagent.Manager.Apply.{first_non_empty}
use oneagent.Manager.Preview.{
  RoutingPreviewRequest, RoutingPreviewResult, Reason, sorted_routing_rules, routing_rule_matches,
  first_match, hit, preview_routing,
}

abbrev Known : Config → String → Type 0
Known cfg name = (name ≡ "direct") ⊎ Elem name (outbound_names cfg.outbounds)

default-Known :
    (cfg : Config)
    → validate cfg ≡ ok tt
    → Known cfg (first_non_empty cfg.routing.default_outbound "direct")
default-Known cfg valid = elim (validate_lem cfg valid).default [
  | inl unset ↦ rw unset (inl refl)
  | inr set ↦ elim (Bool-cases (cfg.routing.default_outbound == "")) [
    | inl unset ↦ inl (ground arith)
    | inr given ↦
        let same : first_non_empty cfg.routing.default_outbound "direct"
            ≡ cfg.routing.default_outbound =
          ground arith in
        rw same set
  ]
]

modes :
    (mode : String)
    → (routing_mode mode ≡ "rule")
      ⊎ ((routing_mode mode ≡ "direct")
          ⊎ ((routing_mode mode ≡ "global") ⊎ (routing_mode mode ≡ "")))
unfolding routing_mode
modes mode = ground (arith, eq_iff mode "global", eq_iff mode "direct")

module _ (Ip : Type 0) (split_host_port : String → Option String) (parse_ip : String → Option Ip)
    (cidr_contains : String → Ip → Bool) (is_private is_loopback : Ip → Bool) where
  abbrev matches : RoutingRule → RoutingPreviewRequest → Bool
  matches = routing_rule_matches Ip split_host_port parse_ip cidr_contains is_private is_loopback

  abbrev first : RoutingPreviewRequest → List RoutingRule → Option RoutingRule
  first = first_match Ip split_host_port parse_ip cidr_contains is_private is_loopback

  -- The rule does not apply to the connection.
  abbrev Misses : RoutingPreviewRequest → RoutingRule → Type 0
  Misses req rule = (rule.disabled ≡ true) ⊎ (matches rule req ≡ false)

  -- The rule applies, and no rule of the list that applies has a smaller priority.
  abbrev Chosen : RoutingPreviewRequest → List RoutingRule → RoutingRule → Type 0
  Chosen req rules rule =
      Elem rule rules
      × (rule.disabled ≡ false)
      × (matches rule req ≡ true)
      × All (λ other. Misses req other ⊎ (ltℤ other.priority rule.priority ≡ false)) rules

  Chosen-later :
      (req : RoutingPreviewRequest) (rule other : RoutingRule) (rules : List RoutingRule)
      → Misses req other
      → Chosen req rules rule
      → Chosen req (other ∷ rules) rule
  Chosen-later req rule other rules misses (there, on, match, least) =
      (inr there, on, match, (inl misses, least))

  abbrev Found : RoutingPreviewRequest → List RoutingRule → Option RoutingRule → Type 0
  Found req rules o =
      ((o ≡ none) × All (Misses req) rules)
      ⊎ ((rule : RoutingRule) × (o ≡ some rule) × Chosen req rules rule)

  skip :
      (req : RoutingPreviewRequest) (r : RoutingRule) (rules : List RoutingRule)
      (o : Option RoutingRule)
      → Misses req r
      → Found req rules o
      → Found req (r ∷ rules) o
  skip req r rules o misses (inl (e, all)) = inl (e, (misses, all))
  skip req r rules o misses (inr (rule, e, chosen)) =
      inr (rule, e, Chosen-later req rule r rules misses chosen)

  first_match_lem :
      (req : RoutingPreviewRequest) (rules : List RoutingRule)
      → Ordered rules
      → Found req rules (first req rules)
  unfolding first_match
  first_match_lem req [] h = inl (refl, tt)
  first_match_lem req (r ∷ rules) (least, h) =
      let later = first_match_lem req rules h in
      elim (Bool-cases r.disabled) [
        | inl off ↦
            let same : first req (r ∷ rules) ≡ first req rules = ground arith in
            rw same (skip req r rules _ (inl off) later)
        | inr on ↦ elim (Bool-cases (matches r req)) [
          | inr misses ↦
              let same : first req (r ∷ rules) ≡ first req rules = ground arith in
              rw same (skip req r rules _ (inr misses) later)
          | inl match ↦ inr (
            r,
            ground arith,
            (
              inl refl,
              on,
              match,
              (inr (ltℤ_irrefl r.priority), All-map (λ s le. inr le) rules least),
            ),
          )
        ]
      ]

  Found-sorted :
      (req : RoutingPreviewRequest) (rules : List RoutingRule) (o : Option RoutingRule)
      → Found req (sorted_routing_rules rules) o
      → Found req rules o
  Found-sorted req rules o (inl (e, all)) = inl (e, All-sorted _ rules all)
  Found-sorted req rules o (inr (rule, e, chosen)) =
      let (there, on, match, least) = chosen in
      inr (rule, e, (Elem-sorted rule rules there, on, match, All-sorted _ rules least))

  -- What an answer of the preview says in the mode `rule`.
  abbrev pub Answers : Config → RoutingPreviewRequest → RoutingPreviewResult → Type 0
  Answers cfg req result =
      (All (Misses req) cfg.routing.rules
        × (result.outbound ≡ first_non_empty cfg.routing.default_outbound "direct")
        × (result.reason ≡ Reason.unmatched))
      ⊎ ((rule : RoutingRule) × Chosen req cfg.routing.rules rule
          × (result.outbound ≡ rule.outbound)
          × (result.priority ≡ rule.priority)
          × (result.reason ≡ Reason.matched))

  Found-Answers :
      (cfg : Config) (req : RoutingPreviewRequest) (base : RoutingPreviewResult)
      (o : Option RoutingRule)
      → base.outbound ≡ first_non_empty cfg.routing.default_outbound "direct"
      → base.reason ≡ Reason.unmatched
      → Found req cfg.routing.rules o
      → Answers cfg req (elim o [
        | none ↦ base
        | some rule ↦ hit Ip split_host_port parse_ip cidr_contains is_private is_loopback rule base
      ])
  unfolding preview_routing
  Found-Answers cfg req base none outbound reason (inl (e, all)) = inl (all, outbound, reason)
  Found-Answers cfg req base none outbound reason (inr (rule, e, chosen)) = ground arith
  Found-Answers cfg req base (some r) outbound reason (inl (e, all)) = ground arith
  Found-Answers cfg req base (some r) outbound reason (inr (rule, e, chosen)) =
      let same : r ≡ rule = ground arith in
      inr (
        rule,
        chosen,
        ap (λ (x : RoutingRule). x.outbound) same,
        ap (λ (x : RoutingRule). x.priority) same,
        refl,
      )

  -- In the mode `rule` the preview goes by an enabled rule of the configuration that matches the
  -- connection, and no other enabled rule that matches has a smaller priority; where no enabled rule
  -- matches it goes by the default outbound, which is `direct` where none is set.
  pub preview_routing_lem :
      (cfg : Config) (req : RoutingPreviewRequest)
      → routing_mode cfg.routing.mode ≡ "rule"
      → Answers cfg req
          (preview_routing Ip split_host_port parse_ip cidr_contains is_private is_loopback cfg req)
  unfolding preview_routing
  preview_routing_lem cfg req ruled =
      let found = Found-sorted req cfg.routing.rules _ (
        first_match_lem req (sorted_routing_rules cfg.routing.rules)
          (sorted-Ordered cfg.routing.rules)) in
      rw ruled (Found-Answers cfg req _ _ refl refl found)

  rule-Known :
      (cfg : Config) (req : RoutingPreviewRequest) (rule : RoutingRule)
      → validate cfg ≡ ok tt
      → routing_mode cfg.routing.mode ≡ "rule"
      → Chosen req cfg.routing.rules rule
      → Known cfg rule.outbound
  rule-Known cfg req rule valid ruled chosen =
      elim (All-Elem _ rule cfg.routing.rules ((validate_lem cfg valid).rules ruled) chosen.0) [
        | inl off ↦ ground (arith, chosen.1)
        | inr (to, supported, from) ↦ to
      ]

  abbrev preview : Config → RoutingPreviewRequest → RoutingPreviewResult
  preview = preview_routing Ip split_host_port parse_ip cidr_contains is_private is_loopback

  preview_direct :
      (cfg : Config) (req : RoutingPreviewRequest)
      → routing_mode cfg.routing.mode ≡ "direct"
      → (preview cfg req).outbound ≡ "direct"
  unfolding preview_routing
  preview_direct cfg req e = rw e refl

  preview_global :
      (cfg : Config) (req : RoutingPreviewRequest)
      → routing_mode cfg.routing.mode ≡ "global"
      → (preview cfg req).outbound ≡ first_non_empty cfg.routing.default_outbound "direct"
  unfolding preview_routing
  preview_global cfg req e = rw e refl

  -- Of a valid configuration the preview names `direct` or an outbound that the configuration has.
  pub preview_routing-valid :
      (cfg : Config) (req : RoutingPreviewRequest)
      → validate cfg ≡ ok tt
      → let result =
          preview_routing Ip split_host_port parse_ip cidr_contains is_private is_loopback cfg
            req in
        (result.outbound ≡ "direct") ⊎ Elem result.outbound (outbound_names cfg.outbounds)
  preview_routing-valid cfg req valid = elim (modes cfg.routing.mode) [
    | inl ruled ↦ elim (preview_routing_lem cfg req ruled) [
      | inl (all, same, reason) ↦ rw same (default-Known cfg valid)
      | inr (rule, chosen, same, priority, reason) ↦
          rw same (rule-Known cfg req rule valid ruled chosen)
    ]
    | inr (inl direct) ↦ inl (preview_direct cfg req direct)
    | inr (inr (inl global)) ↦ rw (preview_global cfg req global) (default-Known cfg valid)
    | inr (inr (inr unknown)) ↦ absurd ((validate_lem cfg valid).mode unknown)
  ]
