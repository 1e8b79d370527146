-- ===== src/Prelude/Lists.antt =====
-- Lists measured by native numbers, and predicates on all items.
use Prim.Native.Nat.{ℕ, zero, suc, ◌+◌, ◌≤◌}
use mathlib.Core.Path.{◌≡◌, refl, ap, ◌∙◌}
use mathlib.Core.Logic.{◌⊎◌, inl, inr, ◌↔◌}
use mathlib.Core.Bool.{Bool, true, false}
use mathlib.Core.List.{List, [], ◌∷◌, ◌++◌}
use native.Mathlib.Omega.{arith}
use oneagent.Prelude.Tests.{if◌then◌else◌}

module _ {ℓ} {A : Type ℓ} where
  abbrev pub length : List A → ℕ
  length [] = 0
  length (x ∷ xs) = suc (length xs)

  abbrev pub take : ℕ → List A → List A
  take zero xs = []
  take (suc n) [] = []
  take (suc n) (x ∷ xs) = x ∷ take n xs

  -- The loop that keeps the items for which the test holds.
  unfoldable pub select : (A → Bool) → List A → List A
  select p [] = []
  select p (x ∷ xs) = let rest = select p xs in if p x then x ∷ rest else rest

  pub length-append : (xs ys : List A) → length (xs ++ ys) ≡ length xs + length ys
  length-append [] ys = omega arith
  length-append (x ∷ xs) ys = omega (arith, length-append xs ys)

  pub length-select : (p : A → Bool) (xs : List A) → length (select p xs) ≤ length xs
  unfolding select
  length-select p [] = omega arith
  length-select p (x ∷ xs) = ground (arith, length-select p xs)

module _ {ℓ} {A : Type ℓ} where
  pub length-take-le : (n : ℕ) (xs : List A) → length (take n xs) ≤ n
  length-take-le zero xs = omega arith
  length-take-le (suc n) [] = omega arith
  length-take-le (suc n) (x ∷ xs) = omega (arith, length-take-le n xs)

module _ {ℓ κ} {A : Type ℓ} where
  abbrev pub All : (A → Type κ) → List A → Type κ
  All P [] = Unit
  All P (x ∷ xs) = P x × All P xs

  pub All-append : (P : A → Type κ) (xs ys : List A) → All P xs → All P ys → All P (xs ++ ys)
  All-append P [] ys _ k = k
  All-append P (x ∷ xs) ys (p, h) k = (p, All-append P xs ys h k)

  -- What the test implies holds of all items that are kept.
  pub All-select :
      (P : A → Type κ) (p : A → Bool) (xs : List A)
      → ((x : A) → p x ≡ true → P x)
      → All P (select p xs)
  unfolding select
  All-select P p [] f = tt
  All-select P p (x ∷ xs) f = ground (arith, f x, All-select P p xs f)

module _ {ℓ} {A : Type ℓ} where
  -- What holds of all items holds of those that are kept.
  pub All-kept : (P : A → Type 0) (p : A → Bool) (xs : List A) → All P xs → All P (select p xs)
  unfolding select
  All-kept P p [] h = tt
  All-kept P p (x ∷ xs) (a, h) = ground (arith, a, All-kept P p xs h)

module _ {A : Type 0} where
  -- The item stands in the list.
  abbrev pub Elem : A → List A → Type 0
  Elem x [] = ⊥
  Elem x (y ∷ ys) = (x ≡ y) ⊎ Elem x ys

  -- What a test keeps.
  pub Elem-select :
      (p : A → Bool) (x : A) (xs : List A) → Elem x (select p xs) ↔ (Elem x xs × (p x ≡ true))
  unfolding select
  Elem-select p x [] = (λ e. absurd e, λ (e, _). absurd e)
  Elem-select p x (y ∷ ys) = go (p y) refl (Elem-select p x ys)
    where
      both : (b : Bool) → b ≡ true → b ≡ false → ⊥
      both b h k = ground (arith, h, k)

      go :
          (b : Bool)
          → p y ≡ b
          → (Elem x (select p ys) ↔ (Elem x ys × (p x ≡ true)))
          → Elem x (if b then y ∷ select p ys else select p ys)
            ↔ (((x ≡ y) ⊎ Elem x ys) × (p x ≡ true))
      go true e (to, from) = (
        λ there. elim there [
          | inl same ↦ (inl same, ap p same ∙ e)
          | inr later ↦ (inr (to later).0, (to later).1)
        ],
        λ (there, kept). elim there [ inl same ↦ inl same | inr later ↦ inr (from (later, kept)) ],
      )
      go false e (to, from) = (
        λ there. (inr (to there).0, (to there).1),
        λ (there, kept). elim there [
          | inl same ↦ absurd (both (p x) kept (ap p same ∙ e))
          | inr later ↦ from (later, kept)
        ],
      )

  pub All-map : {P Q : A → Type 0} (f : (a : A) → P a → Q a) (xs : List A) → All P xs → All Q xs
  All-map f [] h = tt
  All-map f (x ∷ xs) (p, h) = (f x p, All-map f xs h)

  pub All-Elem : (P : A → Type 0) (x : A) (xs : List A) → All P xs → Elem x xs → P x
  All-Elem P x [] h none_there = absurd none_there
  All-Elem P x (y ∷ ys) (p, h) (inl e) = rw e p
  All-Elem P x (y ∷ ys) (p, h) (inr later) = All-Elem P x ys h later
