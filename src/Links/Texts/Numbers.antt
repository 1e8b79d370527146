-- ===== src/Links/Texts/Numbers.antt =====
-- A number that is printed is read back.
use Prim.Native.Char.{Char, code}
use Prim.Native.String.{String, [], ◌∷◌}
use Prim.Native.String.compare
use Prim.Native.Nat.{ℕ, zero, suc, ◌+◌, ◌*◌, ◌/◌, ◌%◌, ◌<◌}
use oneagent.Prelude.{
  Option, some, ◌≡◌, refl, ap, ◌∙◌, Bool, true, false, arith, ltb, leb, if◌then◌else◌, itoa,
  itoa_loop, digit, atoi_loop, digits, pos, atoi_signed, signed, not_below, digit_of,
}
use oneagent.Links.Values.{parse_port}

digit_of-digit : (n : ℕ) → n < 10 → digit_of (digit n) ≡ some n
unfolding digit
digit_of-digit zero h = refl
digit_of-digit (suc zero) h = refl
digit_of-digit (suc (suc zero)) h = refl
digit_of-digit (suc (suc (suc zero))) h = refl
digit_of-digit (suc (suc (suc (suc zero)))) h = refl
digit_of-digit (suc (suc (suc (suc (suc zero))))) h = refl
digit_of-digit (suc (suc (suc (suc (suc (suc zero)))))) h = refl
digit_of-digit (suc (suc (suc (suc (suc (suc (suc zero))))))) h = refl
digit_of-digit (suc (suc (suc (suc (suc (suc (suc (suc zero)))))))) h = refl
digit_of-digit (suc (suc (suc (suc (suc (suc (suc (suc (suc zero))))))))) h = refl
digit_of-digit (suc (suc (suc (suc (suc (suc (suc (suc (suc (suc n)))))))))) h =
    absurd (omega (arith, h))

atoi_step : (m n : ℕ) (s : String) → n < 10 → atoi_loop m (digit n ∷ s) ≡ atoi_loop (m * 10 + n) s
unfolding atoi_loop
atoi_step m n s h = rw (atoi_loop, digit_of-digit n h) refl

-- Reading starts at 0 and has read the number when it comes to what stands behind it.
atoi-itoa_loop :
    (fuel n : ℕ) (s : String) → n < fuel → atoi_loop 0 (itoa_loop fuel n s) ≡ atoi_loop n s
unfolding itoa_loop
atoi-itoa_loop zero n s h = absurd (omega (arith, h))
atoi-itoa_loop (suc fuel) n s h =
    go (ltb n 10) refl (λ l. atoi-itoa_loop fuel (n / 10) (digit (n % 10) ∷ s) l)
  where
    go :
        (b : Bool)
        → ltb n 10 ≡ b
        → (n / 10 < fuel
            → atoi_loop 0 (itoa_loop fuel (n / 10) (digit (n % 10) ∷ s))
              ≡ atoi_loop (n / 10) (digit (n % 10) ∷ s))
        → atoi_loop 0 (if b then digit n ∷ s else itoa_loop fuel (n / 10) (digit (n % 10) ∷ s))
          ≡ atoi_loop n s
    go true e ih = atoi_step 0 n s (ground (arith, e)) ∙ ap (λ m. atoi_loop m s) (omega arith)
    go false e ih =
        ih (ground (arith, e, h))
        ∙ atoi_step (n / 10) (n % 10) s (omega arith)
        ∙ ap (λ m. atoi_loop m s) (omega arith)

-- A text begins with a digit.
abbrev BeginsWithDigit : String → Type 0
BeginsWithDigit [] = ⊥
BeginsWithDigit (c ∷ s) = leb b'0' (code c) ≡ true

digit-leb : (n : ℕ) → n < 10 → leb b'0' (code (digit n)) ≡ true
digit-leb n h = ground (arith, digit_of-digit n h)

itoa_loop-BeginsWithDigit :
    (fuel n : ℕ) (s : String) → n < fuel → BeginsWithDigit (itoa_loop fuel n s)
unfolding itoa_loop
itoa_loop-BeginsWithDigit zero n s h = absurd (omega (arith, h))
itoa_loop-BeginsWithDigit (suc fuel) n s h =
    go (ltb n 10) refl (λ l. itoa_loop-BeginsWithDigit fuel (n / 10) (digit (n % 10) ∷ s) l)
  where
    go :
        (b : Bool)
        → ltb n 10 ≡ b
        → (n / 10 < fuel → BeginsWithDigit (itoa_loop fuel (n / 10) (digit (n % 10) ∷ s)))
        → BeginsWithDigit (if b then digit n ∷ s else itoa_loop fuel (n / 10) (digit (n % 10) ∷ s))
    go true e ih = digit-leb n (ground (arith, e))
    go false e ih = ih (ground (arith, e, h))

small_number : (n : ℕ) (o : Option ℕ) → o ≡ some n → n < 65536 → signed not_below o ≡ (pos n, true)
unfolding signed not_below
small_number n o e l = rw e (ground (arith, l))

unsigned :
    (c : Char) (s : String)
    → leb b'0' (code c) ≡ true
    → atoi_signed (c ∷ s) ≡ signed not_below (digits (c ∷ s))
unfolding atoi_signed
unsigned c s h = ground (arith, h)

digits_read :
    (s : String)
    → BeginsWithDigit s
    → (n : ℕ) → atoi_loop 0 s ≡ some n
    → n < 65536
    → parse_port s ≡ pos n
unfolding parse_port digits
digits_read [] h n e l = absurd h
digits_read (c ∷ s) h n e l =
    let read : atoi_signed (c ∷ s) ≡ (pos n, true) = unsigned c s h ∙ small_number n _ e l in
    rw (parse_port, compare.cons-nil c s) (ap (λ r. r.0) read)

-- The port of a link is read as it was printed.
pub parse_port-itoa : (n : ℕ) → n < 65536 → parse_port (itoa n) ≡ pos n
unfolding itoa atoi_loop
parse_port-itoa n h =
    digits_read (itoa n) (itoa_loop-BeginsWithDigit (suc n) n "" (omega arith)) n
      (atoi-itoa_loop (suc n) n "" (omega arith)) h
