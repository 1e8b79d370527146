-- ===== src/Links/Text/Names.antt =====
-- The names that `uniqueOutbounds` gives.
use mathlib.Core.Path.{ap₂}
use text.Mathlib.TextPositions.{len-append}
use oneagent.Prelude.{
  ℕ, suc, ◌≤◌, String, false, ◌≡◌, refl, ap, ◌∙◌, List, [], ◌∷◌, arith, byte_length, map, Dict,
  insert, lookup, lookup-insert, eq_iff, one_of, All, ltb, itoa, ◌+s◌, if◌then◌else◌, ◌==◌,
}
use oneagent.Config.Types.{OutboundConfig}
use oneagent.Config.Names.{outbound_names, Distinct}
use oneagent.Links.Texts.{sanitize_node_name}
use oneagent.Links.Texts.Bytes.{cut_bytes-bounded}
use oneagent.Links.Text.{unique_loop, unique_outbounds, base_name, count_of, numbered, counted}

-- The outbound without its name
abbrev pub unnamed : OutboundConfig → OutboundConfig
unnamed o = record o { name = "" }

abbrev pub HasShortName : OutboundConfig → Type 0
HasShortName o = byte_length o.name ≤ 80

abbrev pub base_names : List OutboundConfig → List String
base_names [] = []
base_names (o ∷ items) = base_name o ∷ base_names items

unique_loop-unnamed :
    (seen : Dict ℕ) (items : List OutboundConfig)
    → map unnamed (unique_loop seen items) ≡ map unnamed items
unfolding unique_loop
unique_loop-unnamed seen [] = refl
unique_loop-unnamed seen (o ∷ items) =
    ap (λ rest. unnamed o ∷ rest) (unique_loop-unnamed (counted (base_name o) seen) items)

unique_loop-short :
    (seen : Dict ℕ) (items : List OutboundConfig) → All HasShortName (unique_loop seen items)
unfolding unique_loop sanitize_node_name
unique_loop-short seen [] = tt
unique_loop-short seen (o ∷ items) =
    (cut_bytes-bounded 80 _, unique_loop-short (counted (base_name o) seen) items)

-- `uniqueOutbounds` gives the outbounds in their order, unchanged but for their names, and these have
-- at most 80 bytes.
pub unique_outbounds_lem :
    (items : List OutboundConfig)
    → (map unnamed (unique_outbounds items) ≡ map unnamed items)
      × All HasShortName (unique_outbounds items)
unfolding unique_outbounds
unique_outbounds_lem items = (unique_loop-unnamed [] items, unique_loop-short [] items)

-- No name outside the list has been counted.
Uncounted : List String → Dict ℕ → Type 0
Uncounted names seen = (name : String) → one_of name names ≡ false → count_of name seen ≡ 0

Uncounted-insert :
    (names : List String) (seen : Dict ℕ) (name : String) (n : ℕ)
    → Uncounted names seen
    → Uncounted (name ∷ names) (insert name n seen)
unfolding Uncounted one_of
Uncounted-insert names seen name n h other e =
    ground
      (arith, e, h other, lookup-insert name other n seen, eq_iff name other, eq_iff other name)

first_name : (name : String) (count : ℕ) → count ≡ 0 → numbered name count ≡ name
first_name name count e = ground (arith, e)

unique_loop-names :
    (names : List String) (seen : Dict ℕ) (items : List OutboundConfig)
    → Uncounted names seen
    → Distinct names (base_names items)
    → outbound_names (unique_loop seen items) ≡ map sanitize_node_name (base_names items)
unfolding unique_loop Uncounted
unique_loop-names names seen [] h d = refl
unique_loop-names names seen (o ∷ items) h (new, d) =
    ap₂ (λ x rest. sanitize_node_name x ∷ rest)
      (first_name (base_name o) (count_of (base_name o) seen) (h (base_name o) new))
      (unique_loop-names (base_name o ∷ names) (counted (base_name o) seen) items
        (Uncounted-insert names seen (base_name o) _ h) d)

-- Where the outbounds have different names, each keeps its own, cleaned and cut.
pub unique_outbounds-names :
    (items : List OutboundConfig)
    → Distinct [] (base_names items)
    → outbound_names (unique_outbounds items) ≡ map sanitize_node_name (base_names items)
unfolding unique_outbounds Uncounted lookup
unique_outbounds-names items d = unique_loop-names [] [] items (λ name e. refl) d

suffix_differs : (name : String) → (name == (name +s "-2")) ≡ false
suffix_differs name = ground (
  arith,
  eq_iff name (name +s "-2"),
  len-append name "-2",
  λ (e : name ≡ (name +s "-2")). ap byte_length e,
)

numbered_twice : (a : String) (n : ℕ) → n ≡ 1 → numbered a n ≡ a +s "-2"
unfolding itoa
numbered_twice a n e = rw e refl

count_second : (a b : String) → b ≡ a → count_of b (counted a []) ≡ 1
unfolding lookup insert
count_second a b e = ground (arith, e, eq_iff a b)

count_third :
    (a b c : String) (seen : Dict ℕ)
    → (a == c) ≡ false
    → b ≡ a
    → count_of c seen ≡ 0
    → count_of c (counted b seen) ≡ 0
count_third a b c seen n e h = ground (
  arith,
  n,
  e,
  h,
  lookup-insert b c (if ltb 0 (count_of b seen) then suc (count_of b seen) else 1) seen,
)

second_name : (a b : String) → b ≡ a → numbered b (count_of b (counted a [])) ≡ a +s "-2"
second_name a b e = rw e (numbered_twice a _ (count_second a a refl))

third_name :
    (a b c : String)
    → b ≡ a
    → c ≡ a +s "-2"
    → numbered c (count_of c (counted b (counted a []))) ≡ a +s "-2"
unfolding lookup
third_name a b c e f =
    let differs : (a == c) ≡ false = rw f (suffix_differs a) in
    first_name c _
      (count_third a b c (counted a []) differs e (count_third a a c [] differs refl refl))
    ∙ f

-- Where two outbounds have one name and a third has that name with `-2` behind it, the second and
-- the third get the same name.
pub unique_outbounds-collision :
    (a b c : OutboundConfig)
    → base_name b ≡ base_name a
    → base_name c ≡ base_name a +s "-2"
    → outbound_names (unique_outbounds (a ∷ b ∷ c ∷ []))
      ≡ sanitize_node_name (base_name a)
        ∷ sanitize_node_name (base_name a +s "-2")
        ∷ sanitize_node_name (base_name a +s "-2")
        ∷ []
unfolding unique_outbounds unique_loop lookup
unique_outbounds-collision a b c e f =
    ap₂ (λ y z. sanitize_node_name (base_name a) ∷ sanitize_node_name y ∷ sanitize_node_name z ∷ [])
      (second_name (base_name a) (base_name b) e)
      (third_name (base_name a) (base_name b) (base_name c) e f)
