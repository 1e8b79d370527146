-- ===== src/Config/Names.antt =====
-- Lists of names: of the nodes of a configuration, and when a name stands in a list.
use oneagent.Prelude.{
  String, true, false, ◌≡◌, refl, inl, inr, List, [], ◌∷◌, one_of, Elem, arith, eq_iff,
}
use oneagent.Config.Types.{InboundConfig, OutboundConfig}

abbrev pub inbound_names : List InboundConfig → List String
inbound_names [] = []
inbound_names (i ∷ items) = i.name ∷ inbound_names items

abbrev pub outbound_names : List OutboundConfig → List String
outbound_names [] = []
outbound_names (o ∷ items) = o.name ∷ outbound_names items

pub Elem-one_of : (x : String) (ys : List String) → one_of x ys ≡ true → Elem x ys
unfolding one_of
Elem-one_of x [] h = ground arith
Elem-one_of x (y ∷ ys) h = ground (arith, eq_iff x y, Elem-one_of x ys)

pub one_of-Elem : (x : String) (ys : List String) → Elem x ys → one_of x ys ≡ true
unfolding one_of
one_of-Elem x [] h = absurd h
one_of-Elem x (y ∷ ys) (inl e) = rw (one_of, (eq_iff x y).1 e) refl
one_of-Elem x (y ∷ ys) (inr h) = ground (arith, one_of-Elem x ys h)

-- No name stands twice in the list, or in the list and among those that were seen.
abbrev pub Distinct : List String → List String → Type 0
Distinct seen [] = Unit
Distinct seen (name ∷ names) = (one_of name seen ≡ false) × Distinct (name ∷ seen) names
