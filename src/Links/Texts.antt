-- ===== src/Links/Texts.antt =====
-- core/link_parser.go: texts that are cut.
pub mod Sizes
pub mod Bytes
pub mod Numbers
use Prim.Native.Char.{code}
use Prim.Native.String.{[], ◌∷◌}
use oneagent.Prelude.{
  ℕ, suc, String, Bool, ◌&&◌, Option, none, some, List, ◌+s◌, trim_space, trim_right, drop_char,
  byte_length, cut_bytes, replace_newlines, if◌then◌else◌, leb, eqb, ltb, ◌==◌,
}

-- The loop of `leadingNumber`.
unfoldable pub leading_digits : String → String
leading_digits [] = []
leading_digits (c ∷ s) =
    let rest = leading_digits s in if leb b'0' (code c) && leb (code c) b'9' then c ∷ rest else []

-- `sanitizeNodeName`
unfoldable pub sanitize_node_name : String → String
unfolding trim_space
sanitize_node_name name = cut_bytes 80 (replace_newlines (trim_space name))

-- `redactLongInput`
unfoldable pub redact_long_input : String → String
unfolding trim_space
redact_long_input given =
    let value = trim_space given in
    if ltb 160 (byte_length value) then cut_bytes 160 value +s "..." else value

-- `decodeBase64String` before the loop over the encodings
unfoldable pub clean_base64 : String → String
unfolding trim_space drop_char trim_right
clean_base64 value = trim_right (λ c. eqb c b'=') (drop_char 13 (drop_char 10 (trim_space value)))

-- The loop of `decodeBase64String`, over what each of the encodings makes of a text.
first_decoded : List (String → Option String) → String → Option String
first_decoded List.[] value = none
first_decoded (List.◌∷◌ decode decodings) value =
    let rest = first_decoded decodings value in
    elim (decode value) [
      | none ↦ rest
      | some decoded ↦ if decoded == "" then rest else some decoded
    ]

-- `decodeBase64String`, of the functions DecodeString of its four encodings
unfoldable pub decode_base64_string : List (String → Option String) → String → Option String
unfolding clean_base64 first_decoded
decode_base64_string decodings value = first_decoded decodings (clean_base64 value)

-- The number of characters, from which loops take their fuel.
unfoldable pub size : String → ℕ
size [] = 0
size (c ∷ s) = suc (size s)
