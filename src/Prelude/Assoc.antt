-- ===== src/Prelude/Assoc.antt =====
-- Go's map[string]T as an association list. A list holds the entries in one of the orders in which
-- `range` may visit them.
use Prim.Native.String.{String}
use mathlib.Core.Path.{◌≡◌, refl}
use mathlib.Core.Bool.{Bool, true, false}
use mathlib.Core.Option.{Option, none, some}
use mathlib.Core.List.{List, [], ◌∷◌}
use native.Mathlib.Omega.{arith}
use text.Mathlib.Text.{◌==◌}
use text.Mathlib.TextEquality.{eq_iff}
use oneagent.Prelude.Tests.{if◌then◌else◌}

abbrev pub Dict {ℓ} : Type ℓ → Type ℓ
Dict V = List (String × V)

module _ {ℓ} {V : Type ℓ} where
  -- value, ok := d[name]
  unfoldable pub lookup : String → Dict V → Option V
  lookup name [] = none
  lookup name ((i, value) ∷ d) = if i == name then some value else lookup name d

  abbrev pub has : String → Dict V → Bool
  has name d = elim (lookup name d) [ none ↦ false | some _ ↦ true ]

  -- d[name] = value
  unfoldable pub insert : String → V → Dict V → Dict V
  insert name value [] = (name, value) ∷ []
  insert name value ((i, old) ∷ d) =
      let later = insert name value d in if i == name then (name, value) ∷ d else (i, old) ∷ later

  -- delete(d, name)
  unfoldable pub remove : String → Dict V → Dict V
  remove name [] = []
  remove name ((i, value) ∷ d) =
      let later = remove name d in if i == name then later else (i, value) ∷ later

  pub lookup-insert :
      (name other : String) (value : V) (d : Dict V)
      → lookup other (insert name value d) ≡ (if name == other then some value else lookup other d)
  unfolding lookup insert
  lookup-insert name other value [] = refl
  lookup-insert name other value ((i, old) ∷ d) =
      ground
        (arith, lookup-insert name other value d, eq_iff i name, eq_iff name other, eq_iff i other)

  pub lookup-remove :
      (name other : String) (d : Dict V)
      → lookup other (remove name d) ≡ (if name == other then none else lookup other d)
  unfolding lookup remove
  lookup-remove name other [] = ground arith
  lookup-remove name other ((i, old) ∷ d) =
      ground (arith, lookup-remove name other d, eq_iff i name, eq_iff name other, eq_iff i other)

pub ruleset dict_laws = (lookup-insert, lookup-remove)
