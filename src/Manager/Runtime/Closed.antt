-- ===== src/Manager/Runtime/Closed.antt =====
-- What `enabledRuntime` gives to a kernel refers to nothing that it leaves out.
use oneagent.Prelude.{
  Elem, String, true, false, ◌||◌, ◌≡◌, ◌≢◌, ◌⊎◌, inl, inr, List, ◌==◌, one_of, All, All-select,
  arith, eq_iff, Bool-cases,
}
use oneagent.Config.Types.{InboundConfig, OutboundConfig, RoutingRule, RoutingConfig}
use oneagent.Config.Names.{Elem-one_of, inbound_names, outbound_names}
use oneagent.Config.Routing.{routing_rule_match_type, routing_rule_value}
use oneagent.Manager.Runtime.{rule_applies, enabled_default, enabled_runtime}

-- A rule that is enabled, from an inbound that is there, or from none, to `direct` or to an
-- outbound that is there.
abbrev pub Runs : List String → List String → RoutingRule → Type 0
Runs ins outs rule =
    (rule.disabled ≡ false)
    × ((routing_rule_match_type rule ≢ "inbound") ⊎ Elem (routing_rule_value rule) ins)
    × ((rule.outbound ≡ "direct") ⊎ Elem rule.outbound outs)

named_or :
    (name other : String) (names : List String)
    → (name == other) || one_of name names ≡ true
    → (name ≡ other) ⊎ Elem name names
named_or name other names h = elim (Bool-cases (name == other)) [
  | inl same ↦ inl ((eq_iff name other).0 same)
  | inr differs ↦ inr (Elem-one_of name names (ground arith))
]

rule_applies-Runs :
    (ins outs : List String) (rule : RoutingRule)
    → rule_applies ins outs rule ≡ true
    → Runs ins outs rule
unfolding rule_applies
rule_applies-Runs ins outs rule h =
    (ground arith, source, named_or rule.outbound "direct" outs (ground arith))
  where
    source : (routing_rule_match_type rule ≢ "inbound") ⊎ Elem (routing_rule_value rule) ins
    source = elim (Bool-cases (routing_rule_match_type rule == "inbound")) [
      | inl from ↦ inr (Elem-one_of _ ins (ground arith))
      | inr other ↦ inl (ground (arith, eq_iff (routing_rule_match_type rule) "inbound"))
    ]

enabled_default_lem :
    (outs : List String) (name : String)
    → (enabled_default outs name ≡ "direct") ⊎ Elem (enabled_default outs name) outs
unfolding enabled_default
enabled_default_lem outs name = elim (Bool-cases (name == "")) [
  | inl unset ↦ inl (ground arith)
  | inr set ↦ elim (Bool-cases ((name == "direct") || one_of name outs)) [
    | inr unknown ↦ inl (ground arith)
    | inl known ↦
        let same : enabled_default outs name ≡ name = ground arith in
        rw same (named_or name "direct" outs known)
  ]
]

-- What a kernel is given is closed: no inbound, outbound or rule in it is disabled, a rule for an
-- inbound names one that is in it, and each rule and the default lead to `direct` or to an outbound
-- that is in it.
pub enabled_runtime_lem :
    (inbounds : List InboundConfig) (outbounds : List OutboundConfig) (routing : RoutingConfig)
    → let (ins, outs, next) = enabled_runtime inbounds outbounds routing in
      All (λ (i : InboundConfig). i.disabled ≡ false) ins
      × All (λ (o : OutboundConfig). o.disabled ≡ false) outs
      × ((next.default_outbound ≡ "direct") ⊎ Elem next.default_outbound (outbound_names outs))
      × All (Runs (inbound_names ins) (outbound_names outs)) next.rules
unfolding enabled_runtime
enabled_runtime_lem inbounds outbounds routing = (
  All-select _ _ inbounds (λ i on. ground arith),
  All-select _ _ outbounds (λ o on. ground arith),
  enabled_default_lem _ routing.default_outbound,
  All-select _ _ routing.rules (rule_applies-Runs _ _),
)
