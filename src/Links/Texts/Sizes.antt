-- ===== src/Links/Texts/Sizes.antt =====
-- What cleaning and decoding a text does to its size.
use Prim.Native.String.{[], ◌∷◌}
use oneagent.Prelude.{
  ℕ, ◌≤◌, ◌<◌, String, Bool, ◌≡◌, ◌≢◌, List, Option, some, trim_space, trim, trim_left, trim_right,
  drop_char, eqb, eq_iff, arith, All,
}
use oneagent.Links.Texts.{size, clean_base64, first_decoded, decode_base64_string}

trim_right-size : (p : ℕ → Bool) (s : String) → size (trim_right p s) ≤ size s
unfolding trim_right size
trim_right-size p [] = omega arith
trim_right-size p (c ∷ s) = ground (arith, trim_right-size p s)

trim_left-size : (p : ℕ → Bool) (s : String) → size (trim_left p s) ≤ size s
unfolding trim_left size
trim_left-size p [] = omega arith
trim_left-size p (c ∷ s) = ground (arith, trim_left-size p s)

drop_char-size : (d : ℕ) (s : String) → size (drop_char d s) ≤ size s
unfolding drop_char size
drop_char-size d [] = omega arith
drop_char-size d (c ∷ s) = ground (arith, drop_char-size d s)

pub trim_space-size : (s : String) → size (trim_space s) ≤ size s
unfolding trim_space trim
trim_space-size s = omega (arith, trim_right-size _ (trim_left _ s), trim_left-size _ s)

clean_base64-size : (s : String) → size (clean_base64 s) ≤ size s
unfolding clean_base64
clean_base64-size s = omega (
  arith,
  trim_space-size s,
  drop_char-size 10 (trim_space s),
  drop_char-size 13 (drop_char 10 (trim_space s)),
  trim_right-size (λ c. eqb c b'=') (drop_char 13 (drop_char 10 (trim_space s))),
)

-- Base64 writes three bytes as four characters: what it decodes a text to is shorter.
abbrev pub IsShrinking : (String → Option String) → Type 0
IsShrinking decode = (s t : String) → decode s ≡ some t → t ≢ "" → size t < size s

first_decoded-size :
    (decodings : List (String → Option String))
    → All IsShrinking decodings
    → (s t : String) → first_decoded decodings s ≡ some t
    → size t < size s
unfolding first_decoded
first_decoded-size List.[] h s t e = ground (arith, e)
first_decoded-size (List.◌∷◌ decode decodings) (h, later) s t e =
    ground (arith, e, h s t, first_decoded-size decodings later s t, eq_iff t "")

pub decode_base64_string-size :
    (decodings : List (String → Option String))
    → All IsShrinking decodings
    → (s t : String) → decode_base64_string decodings s ≡ some t
    → size t < size s
unfolding decode_base64_string
decode_base64_string-size decodings h s t e =
    omega (arith, first_decoded-size decodings h (clean_base64 s) t e, clean_base64-size s)
