-- ===== src/Config/Validate/Sound.antt =====
-- What `Config.Validate` of core/config.go promises of a configuration that it accepts.
use oneagent.Prelude.{
  Elem, ℕ, ◌≤◌, String, Bool, true, false, not, ◌&&◌, ◌≡◌, ◌≢◌, refl, ◌∙◌, sym, ap, ◌⊎◌, inl, inr,
  List, [], ◌∷◌, ◌==◌, if◌then◌else◌, one_of, ℤ, pos, negsuc, port_ok, All, arith, eq_iff,
  Bool-cases,
}
use oneagent.Config.Types.{InboundConfig, OutboundConfig, RoutingRule, Config}
use oneagent.Config.Errors.{
  missing_default, unsupported_mode, invalid_web_port, duplicate_rule, fail_if, ◌>>◌, ◌>>=◌, Error,
  Result, ok, both_ok, bound_ok,
}
use oneagent.Config.Routing.{
  routing_mode, routing_rule_match_type, routing_rule_value, is_supported_routing_match_type,
}
use oneagent.Config.Names.{Elem-one_of, Distinct, inbound_names, outbound_names}
use oneagent.Config.Inbound.{validate_inbound}
use oneagent.Config.Outbound.{validate_outbound}
use oneagent.Config.Validate.{
  check_inbound, check_inbounds, check_outbound, check_outbounds, check_rule, check_rules, validate,
}

abbrev pub IsPort : ℤ → Type 0
IsPort port = (n : ℕ) × (port ≡ pos n) × (1 ≤ n) × (n ≤ 65535)

pub IsPort-port_ok : (port : ℤ) → port_ok port ≡ true → IsPort port
unfolding port_ok
IsPort-port_ok (pos n) h = (n, refl, ground arith, ground arith)
IsPort-port_ok (negsuc n) h = ground arith

abbrev pub GoodInbound : InboundConfig → Type 0
GoodInbound i = (i.name ≢ "") × IsPort i.port × (validate_inbound i ≡ ok tt)

abbrev pub GoodOutbound : OutboundConfig → Type 0
GoodOutbound o = (o.name ≢ "") × IsPort o.port × (validate_outbound o ≡ ok tt)

abbrev names_after : List String → List String → List String
names_after seen [] = seen
names_after seen (name ∷ names) = names_after (name ∷ seen) names

check_inbound_lem :
    (seen : List String) (i : InboundConfig)
    → check_inbound seen i ≡ ok tt
    → (one_of i.name seen ≡ false)
      × (i.name ≢ "")
      × (port_ok i.port ≡ true)
      × (validate_inbound i ≡ ok tt)
unfolding check_inbounds
check_inbound_lem seen i h = ground (arith, eq_iff i.name "")

check_outbound_lem :
    (seen : List String) (o : OutboundConfig)
    → check_outbound seen o ≡ ok tt
    → (one_of o.name seen ≡ false)
      × (o.name ≢ "")
      × (port_ok o.port ≡ true)
      × (validate_outbound o ≡ ok tt)
unfolding check_outbounds
check_outbound_lem seen o h = ground (arith, eq_iff o.name "")

-- The loops see every name, and refuse one that they have seen.
check_inbounds_lem :
    (seen seen' : List String) (items : List InboundConfig)
    → check_inbounds seen items ≡ ok seen'
    → Distinct seen (inbound_names items)
      × All GoodInbound items
      × (seen' ≡ names_after seen (inbound_names items))
unfolding check_inbounds
check_inbounds_lem seen seen' [] h = (tt, tt, ground arith)
check_inbounds_lem seen seen' (i ∷ items) h =
    let (first, others) = both_ok (check_inbound seen i) (check_inbounds (i.name ∷ seen) items) h in
    let (fresh, named, port, valid) = check_inbound_lem seen i first in
    let (distinct, good, names) = check_inbounds_lem (i.name ∷ seen) seen' items others in
    ((fresh, distinct), ((named, IsPort-port_ok i.port port, valid), good), names)

check_outbounds_lem :
    (seen seen' : List String) (items : List OutboundConfig)
    → check_outbounds seen items ≡ ok seen'
    → Distinct seen (outbound_names items)
      × All GoodOutbound items
      × (seen' ≡ names_after seen (outbound_names items))
unfolding check_outbounds
check_outbounds_lem seen seen' [] h = (tt, tt, ground arith)
check_outbounds_lem seen seen' (o ∷ items) h =
    let (first, others) =
      both_ok (check_outbound seen o) (check_outbounds (o.name ∷ seen) items) h in
    let (fresh, named, port, valid) = check_outbound_lem seen o first in
    let (distinct, good, names) = check_outbounds_lem (o.name ∷ seen) seen' items others in
    ((fresh, distinct), ((named, IsPort-port_ok o.port port, valid), good), names)

Elem-names_after :
    (x : String) (seen names : List String)
    → Elem x (names_after seen names)
    → Elem x seen ⊎ Elem x names
Elem-names_after x seen [] h = inl h
Elem-names_after x seen (name ∷ names) h = elim (Elem-names_after x (name ∷ seen) names h) [
  | inl (inl e) ↦ inr (inl e)
  | inl (inr old) ↦ inl old
  | inr later ↦ inr (inr later)
]

Elem-seen :
    (x : String) (names : List String) → one_of x (names_after [] names) ≡ true → Elem x names
Elem-seen x names h = elim (Elem-names_after x [] names (Elem-one_of x _ h)) [
  | inl none_seen ↦ absurd none_seen
  | inr there ↦ there
]

-- What a rule that is enabled refers to.
abbrev pub GoodRule : Config → RoutingRule → Type 0
GoodRule c rule =
    (rule.disabled ≡ true)
    ⊎ (((rule.outbound ≡ "direct") ⊎ Elem rule.outbound (outbound_names c.outbounds))
        × (is_supported_routing_match_type (routing_rule_match_type rule) ≡ true)
        × ((routing_rule_match_type rule ≢ "inbound")
            ⊎ Elem (routing_rule_value rule) (inbound_names c.inbounds)))

check_rule_lem :
    (ins outs : List String) (rule : RoutingRule)
    → check_rule ins outs rule ≡ ok tt
    → ((rule.outbound ≡ "direct") ⊎ (one_of rule.outbound outs ≡ true))
      × (is_supported_routing_match_type (routing_rule_match_type rule) ≡ true)
      × ((routing_rule_match_type rule ≢ "inbound") ⊎ (one_of (routing_rule_value rule) ins ≡ true))
unfolding check_rules
check_rule_lem ins outs rule h =
    ground (arith, eq_iff rule.outbound "direct", eq_iff (routing_rule_match_type rule) "inbound")

-- The names that the loops have seen are those of the configuration.
rule-names :
    (c : Config) (rule : RoutingRule)
    → check_rule
        (names_after [] (inbound_names c.inbounds))
        (names_after [] (outbound_names c.outbounds))
        rule
      ≡ ok tt
    → GoodRule c rule
rule-names c rule h =
    let (to, kind, from) = check_rule_lem _ _ rule h in inr (target to, kind, source from)
  where
    target :
        (rule.outbound ≡ "direct")
          ⊎ (one_of rule.outbound (names_after [] (outbound_names c.outbounds)) ≡ true)
        → (rule.outbound ≡ "direct") ⊎ Elem rule.outbound (outbound_names c.outbounds)
    target (inl direct) = inl direct
    target (inr seen) = inr (Elem-seen _ _ seen)

    source :
        (routing_rule_match_type rule ≢ "inbound")
          ⊎ (one_of (routing_rule_value rule) (names_after [] (inbound_names c.inbounds)) ≡ true)
        → (routing_rule_match_type rule ≢ "inbound")
          ⊎ Elem (routing_rule_value rule) (inbound_names c.inbounds)
    source (inl other) = inl other
    source (inr seen) = inr (Elem-seen _ _ seen)

check_rules_lem :
    (c : Config) (seen : List String) (rules : List RoutingRule)
    → check_rules
        (names_after [] (inbound_names c.inbounds))
        (names_after [] (outbound_names c.outbounds))
        seen
        rules
      ≡ ok tt
    → All (GoodRule c) rules
unfolding check_rules
check_rules_lem c seen [] h = tt
check_rules_lem c seen (rule ∷ rules) h =
    let ins = names_after [] (inbound_names c.inbounds) in
    let outs = names_after [] (outbound_names c.outbounds) in
    let checked = if rule.disabled then ok tt else check_rule ins outs rule in
    let later = check_rules ins outs (if rule.name == "" then seen else rule.name ∷ seen) rules in
    let (_, checks) =
      both_ok (fail_if (not (rule.name == "") && one_of rule.name seen) (duplicate_rule rule.name))
        (checked >> later) h in
    let (first, others) = both_ok checked later checks in
    (
      elim (Bool-cases rule.disabled) [
        | inl off ↦ inl off
        | inr on ↦ rule-names c rule (ground (arith, on, first))
      ],
      check_rules_lem c (if rule.name == "" then seen else rule.name ∷ seen) rules others,
    )

pub record IsValid (c : Config) : Type 0 where
  pub web_port : IsPort c.server.web_port
  pub distinct_inbounds : Distinct [] (inbound_names c.inbounds)
  pub distinct_outbounds : Distinct [] (outbound_names c.outbounds)
  pub inbounds : All GoodInbound c.inbounds
  pub outbounds : All GoodOutbound c.outbounds
  pub mode : routing_mode c.routing.mode ≢ ""
  pub default :
      (c.routing.default_outbound ≡ "")
      ⊎ ((c.routing.default_outbound ≡ "direct")
          ⊎ Elem c.routing.default_outbound (outbound_names c.outbounds))
  pub rules : routing_mode c.routing.mode ≡ "rule" → All (GoodRule c) c.routing.rules

abbrev fail_default : String → List String → Result (Unit {0})
fail_default default seen =
    fail_if (not (default == "") && not (default == "direct") && not (one_of default seen))
      (missing_default default)

unseen_default :
    (default : String) (seen : List String)
    → fail_default default seen ≡ ok tt
    → (default ≡ "") ⊎ ((default ≡ "direct") ⊎ (one_of default seen ≡ true))
unseen_default default seen h = ground (arith, eq_iff default "", eq_iff default "direct")

abbrev routing_checks : Config → List String → List String → Result (Unit {0})
routing_checks c ins outs =
    fail_if (routing_mode c.routing.mode == "") (unsupported_mode c.routing.mode)
    >> (fail_default c.routing.default_outbound outs
        >> (if routing_mode c.routing.mode == "rule"
            then check_rules ins outs [] c.routing.rules
            else ok tt))

routing_checks_lem :
    (c : Config) (ins outs : List String)
    → routing_checks c ins outs ≡ ok tt
    → (routing_mode c.routing.mode ≢ "")
      × ((c.routing.default_outbound ≡ "")
          ⊎ ((c.routing.default_outbound ≡ "direct")
              ⊎ (one_of c.routing.default_outbound outs ≡ true)))
      × (routing_mode c.routing.mode ≡ "rule" → check_rules ins outs [] c.routing.rules ≡ ok tt)
routing_checks_lem c ins outs h =
    let (known, rest) =
      both_ok (fail_if (routing_mode c.routing.mode == "") (unsupported_mode c.routing.mode)) _ h in
    let (default, rules) = both_ok (fail_default c.routing.default_outbound outs) _ rest in
    (
      ground (arith, eq_iff (routing_mode c.routing.mode) ""),
      unseen_default _ outs default,
      λ ruled. ground (arith, ruled, eq_iff (routing_mode c.routing.mode) "rule"),
    )

-- A configuration that `Validate` accepts has a port for its web interface, no name twice among
-- its inbounds or among its outbounds, items with a name and a port that their own checks accept,
-- and a known routing mode; its default outbound is empty, direct or one that it has; and in the
-- mode `rule` each rule that is enabled has a supported match, leads to an outbound that the
-- configuration has or to `direct`, and one that matches an inbound names one that it has.
pub validate_lem : (c : Config) → validate c ≡ ok tt → IsValid c
unfolding validate
validate_lem c h =
    let (web, items) =
      both_ok (fail_if (not (port_ok c.server.web_port)) (invalid_web_port c.server.web_port)) _
        h in
    let (ins, seen_in, after) =
      bound_ok (check_inbounds [] c.inbounds)
        (λ ins. check_outbounds [] c.outbounds >>= routing_checks c ins) items in
    let (outs, seen_out, routing) =
      bound_ok (check_outbounds [] c.outbounds) (routing_checks c ins) after in
    let (distinct_in, good_in, ins_are) = check_inbounds_lem [] ins c.inbounds seen_in in
    let (distinct_out, good_out, outs_are) = check_outbounds_lem [] outs c.outbounds seen_out in
    let (mode, default, rules) = routing_checks_lem c ins outs routing in
    record {
      web_port = IsPort-port_ok c.server.web_port (web_lem _ (port_ok c.server.web_port) web);
      distinct_inbounds = distinct_in;
      distinct_outbounds = distinct_out;
      inbounds = good_in;
      outbounds = good_out;
      mode = mode;
      default = elim default [
        | inl e ↦ inl e
        | inr (inl e) ↦ inr (inl e)
        | inr (inr seen) ↦
            inr (inr (Elem-seen _ _ (sym (ap (one_of c.routing.default_outbound) outs_are) ∙ seen)))
      ];
      rules = λ ruled. check_rules_lem c [] c.routing.rules (
          ap
            (λ names.
              check_rules names (names_after [] (outbound_names c.outbounds)) [] c.routing.rules)
            (sym ins_are)
          ∙ ap (λ names. check_rules ins names [] c.routing.rules) (sym outs_are)
          ∙ rules ruled);
    }
  where
    web_lem : (e : Error) (b : Bool) → fail_if (not b) e ≡ ok tt → b ≡ true
    web_lem e b h = ground arith
