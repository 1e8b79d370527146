-- ===== src/Manager/Preview/Sorted.antt =====
-- The order of the rules, core/kernel.go: `sortedRoutingRules`, which the preview and the generators go by.
use oneagent.Prelude.{
  true, false, ◌≡◌, ◌⊎◌, inl, inr, List, [], ◌∷◌, ℤ, pos, negsuc, ltℤ, eqℤ, All, All-map, Elem,
  arith, Bool-cases,
}
use oneagent.Config.Types.{RoutingRule}
use oneagent.Manager.Preview.{rule_less, insert_rule, sorted_routing_rules}

-- The sort keeps the rules.
Elem-insert_rule :
    (r x : RoutingRule) (rules : List RoutingRule)
    → Elem x (insert_rule r rules)
    → Elem x (r ∷ rules)
unfolding sorted_routing_rules
Elem-insert_rule r x [] h = h
Elem-insert_rule r x (s ∷ rules) h = ground (arith, Elem-insert_rule r x rules)

pub Elem-sorted :
    (x : RoutingRule) (rules : List RoutingRule)
    → Elem x (sorted_routing_rules rules)
    → Elem x rules
unfolding sorted_routing_rules
Elem-sorted x [] h = h
Elem-sorted x (r ∷ rules) h = elim (Elem-insert_rule r x (sorted_routing_rules rules) h) [
  | inl same ↦ inl same
  | inr later ↦ inr (Elem-sorted x rules later)
]

All-insert_rule :
    (P : RoutingRule → Type 0) (r : RoutingRule) (rules : List RoutingRule)
    → All P (insert_rule r rules)
    → P r × All P rules
unfolding sorted_routing_rules
All-insert_rule P r [] h = h
All-insert_rule P r (s ∷ rules) h = ground (arith, All-insert_rule P r rules)

pub All-sorted :
    (P : RoutingRule → Type 0) (rules : List RoutingRule)
    → All P (sorted_routing_rules rules)
    → All P rules
unfolding sorted_routing_rules
All-sorted P [] h = tt
All-sorted P (r ∷ rules) h =
    let (first, rest) = All-insert_rule P r (sorted_routing_rules rules) h in
    (first, All-sorted P rules rest)

-- Not after: no rule of the list has a smaller priority.
abbrev pub Least : RoutingRule → List RoutingRule → Type 0
Least r rules = All (λ s. ltℤ s.priority r.priority ≡ false) rules

abbrev pub Ordered : List RoutingRule → Type 0
Ordered [] = Unit
Ordered (r ∷ rules) = Least r rules × Ordered rules

ltℤ_trans : (a b c : ℤ) → ltℤ b a ≡ false → ltℤ c b ≡ false → ltℤ c a ≡ false
ltℤ_trans (pos a) (pos b) (pos c) h k = ground arith
ltℤ_trans (pos a) (pos b) (negsuc c) h k = ground arith
ltℤ_trans (pos a) (negsuc b) c h k = ground arith
ltℤ_trans (negsuc a) (pos b) (pos c) h k = ground arith
ltℤ_trans (negsuc a) (pos b) (negsuc c) h k = ground arith
ltℤ_trans (negsuc a) (negsuc b) (pos c) h k = ground arith
ltℤ_trans (negsuc a) (negsuc b) (negsuc c) h k = ground arith

pub ltℤ_irrefl : (a : ℤ) → ltℤ a a ≡ false
ltℤ_irrefl (pos a) = ground arith
ltℤ_irrefl (negsuc a) = ground arith

eqℤ_lt : (a b : ℤ) → eqℤ a b ≡ true → (ltℤ a b ≡ false) × (ltℤ b a ≡ false)
eqℤ_lt (pos a) (pos b) h = ground arith
eqℤ_lt (pos a) (negsuc b) h = ground arith
eqℤ_lt (negsuc a) (pos b) h = ground arith
eqℤ_lt (negsuc a) (negsuc b) h = ground arith

ltℤ_asym : (a b : ℤ) → ltℤ a b ≡ true → ltℤ b a ≡ false
ltℤ_asym (pos a) (pos b) h = ground arith
ltℤ_asym (pos a) (negsuc b) h = ground arith
ltℤ_asym (negsuc a) (pos b) h = ground arith
ltℤ_asym (negsuc a) (negsuc b) h = ground arith

-- The test goes by the priority first.
rule_less_lem :
    (a b : RoutingRule)
    → ((rule_less a b ≡ true) × (ltℤ b.priority a.priority ≡ false))
      ⊎ ((rule_less a b ≡ false) × (ltℤ a.priority b.priority ≡ false))
unfolding rule_less
rule_less_lem a b = elim (Bool-cases (eqℤ a.priority b.priority)) [
  | inl same ↦
      let (le, ge) = eqℤ_lt a.priority b.priority same in
      elim (Bool-cases (rule_less a b)) [ inl less ↦ inl (less, ge) | inr other ↦ inr (other, le) ]
  | inr differs ↦ elim (Bool-cases (ltℤ a.priority b.priority)) [
    | inl less ↦ inl (ground arith, ltℤ_asym a.priority b.priority less)
    | inr other ↦ inr (ground arith, other)
  ]
]

Least-insert_rule :
    (r x : RoutingRule) (rules : List RoutingRule)
    → ltℤ x.priority r.priority ≡ false
    → Least r rules
    → Least r (insert_rule x rules)
unfolding sorted_routing_rules
Least-insert_rule r x [] h k = (h, tt)
Least-insert_rule r x (s ∷ rules) h (first, k) = elim (Bool-cases (rule_less s x)) [
  | inl less ↦ rw less (first, Least-insert_rule r x rules h k)
  | inr other ↦ rw other (h, (first, k))
]

insert_rule-Ordered :
    (r : RoutingRule) (rules : List RoutingRule) → Ordered rules → Ordered (insert_rule r rules)
unfolding sorted_routing_rules
insert_rule-Ordered r [] h = (tt, tt)
insert_rule-Ordered r (s ∷ rules) (least, h) = elim (rule_less_lem s r) [
  | inl (less, le) ↦ rw less (Least-insert_rule s r rules le least, insert_rule-Ordered r rules h)
  | inr (other, le) ↦ rw other (
    (le, All-map (λ t u. ltℤ_trans r.priority s.priority t.priority le u) rules least),
    (least, h),
  )
]

pub sorted-Ordered : (rules : List RoutingRule) → Ordered (sorted_routing_rules rules)
unfolding sorted_routing_rules
sorted-Ordered [] = tt
sorted-Ordered (r ∷ rules) =
    insert_rule-Ordered r (sorted_routing_rules rules) (sorted-Ordered rules)

insert_rule-All :
    (P : RoutingRule → Type 0) (r : RoutingRule) (rules : List RoutingRule)
    → P r
    → All P rules
    → All P (insert_rule r rules)
unfolding insert_rule
insert_rule-All P r [] p h = (p, tt)
insert_rule-All P r (s ∷ rules) p (q, h) = ground (arith, p, q, h, insert_rule-All P r rules p h)

pub sorted-All :
    (P : RoutingRule → Type 0) (rules : List RoutingRule)
    → All P rules
    → All P (sorted_routing_rules rules)
unfolding sorted_routing_rules
sorted-All P [] h = tt
sorted-All P (r ∷ rules) (p, h) =
    insert_rule-All P r (sorted_routing_rules rules) p (sorted-All P rules h)
