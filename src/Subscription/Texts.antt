-- ===== src/Subscription/Texts.antt =====
-- core/subscription.go: texts of a subscription.
pub mod Padded
use Prim.Native.Char.{Char, code}
use Prim.Native.String.{[], ◌∷◌}
use oneagent.Prelude.{
  ℕ, zero, suc, ◌-◌, ◌%◌, String, Bool, true, false, Option, none, some, ◌+s◌, ◌==◌, if◌then◌else◌,
  eqb, trim_space, drop_char, has_prefix, byte_length,
}

-- strings.Repeat("=", n)
unfoldable pub padding : ℕ → String
padding zero = ""
padding (suc n) = "=" +s padding n

-- `normalizeBase64`
unfoldable pub normalize_base64 : String → String
unfolding drop_char padding
normalize_base64 given =
    let value = drop_char 13 (drop_char 10 given) in
    let rest = byte_length value % 4 in if eqb rest 0 then value else value +s padding (4 - rest)

-- What stands behind the last of these characters
unfoldable pub after_last : ℕ → String → Option String
after_last d [] = none
after_last d (c ∷ s) = elim (after_last d s) [
  | none ↦ if eqb (code c) d then some s else none
  | some rest ↦ some rest
]

-- What stands before the first `://`
abbrev put_before : Char → Option String → Option String
put_before c none = none
put_before c (some s) = some (c ∷ s)

unfoldable pub before_scheme_end : String → Option String
unfolding has_prefix
before_scheme_end [] = none
before_scheme_end (c ∷ s) =
    let rest = before_scheme_end s in
    if has_prefix (c ∷ s) "://" then some "" else put_before c rest

scheme_name : Option String → String
scheme_name none = "node"
scheme_name (some scheme) = scheme

fragment_or : String → Option String → String
fragment_or other none = other
fragment_or other (some rest) = if trim_space rest == "" then other else trim_space rest

-- `uriDisplayName`
unfoldable pub uri_display_name : String → String
unfolding after_last before_scheme_end scheme_name fragment_or trim_space
uri_display_name line = fragment_or (scheme_name (before_scheme_end line)) (after_last b'#' line)
