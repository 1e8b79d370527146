-- ===== src/Subscription/Texts/Padded.antt =====
-- The length of a text that is padded for base64.
use oneagent.Prelude.{
  ℕ, zero, suc, ◌-◌, ◌%◌, String, Bool, true, false, ◌≡◌, refl, ◌+s◌, if◌then◌else◌, eqb, drop_char,
  byte_length, arith,
}
use text.Mathlib.TextPositions.{len-append}
use oneagent.Subscription.Texts.{padding, normalize_base64}

padding-length : (n : ℕ) → byte_length (padding n) ≡ n
unfolding padding
padding-length zero = refl
padding-length (suc n) = omega (arith, len-append "=" (padding n), padding-length n)

padded :
    (value : String)
    → byte_length (
          if eqb (byte_length value % 4) 0
          then value
          else value +s padding (4 - byte_length value % 4))
        % 4
      ≡ 0
padded value = go (eqb (byte_length value % 4) 0) refl
  where
    go :
        (b : Bool)
        → eqb (byte_length value % 4) 0 ≡ b
        → byte_length (if b then value else value +s padding (4 - byte_length value % 4)) % 4 ≡ 0
    go true e = ground (arith, e)
    go false e = omega (
      arith,
      len-append value (padding (4 - byte_length value % 4)),
      padding-length (4 - byte_length value % 4),
    )

-- What `normalizeBase64` gives has a number of bytes that base64 can have, a multiple of four.
pub normalize_base64_lem : (given : String) → byte_length (normalize_base64 given) % 4 ≡ 0
unfolding normalize_base64
normalize_base64_lem given = padded (drop_char 13 (drop_char 10 given))
