-- ===== src/Links/Values.antt =====
-- core/link_parser.go: values of decoded JSON and YAML, and how the parsers read them.
use oneagent.Prelude.{
  String, Bool, true, false, ◌||◌, List, [], ◌∷◌, Option, none, some, ℤ, pos, ◌==◌, if◌then◌else◌,
  trim_space, to_lower, equal_fold, join_commas, atoi_signed, one_of,
}
use oneagent.Links.Texts.{leading_digits}

mutual
  -- Go's `any`. A float64 is a number by the integer that `int` makes of it; a stringer is a value
  -- that has a method String (YAML decodes a date to one), by the text that this gives.
  pub data Any : Type 0 where
    null other : Any
    text : String → Any
    stringer : String → Any
    number : ℤ → Any
    flag : Bool → Any
    texts : List String → Any
    list : Anys → Any
    object : Fields → Any

  -- []any
  pub data Anys : Type 0 where
    nil : Anys
    cons : Any → Anys → Anys

  -- map[string]any
  pub data Fields : Type 0 where
    end : Fields
    field : String → Any → Fields → Fields

-- d[key], which is nil where the key is missing
unfoldable pub at : String → Fields → Any
at key end = null
at key (field name value rest) = if name == key then value else at key rest

-- value.(map[string]any)
abbrev pub as_object : Any → Option Fields
as_object (object d) = some d
as_object _ = none

-- value.([]any)
abbrev pub as_list : Any → Option Anys
as_list (list items) = some items
as_list _ = none

-- `firstNonEmpty`
unfoldable pub first_text : List String → String
first_text [] = ""
first_text (value ∷ values) = let rest = first_text values in if value == "" then rest else value

-- `stringValue`
abbrev pub string_value : Any → String
string_value (text s) = s
string_value (stringer s) = s
string_value _ = ""

-- The loop of `stringListValue`.
string_parts : Anys → List String
string_parts nil = []
string_parts (cons item items) =
    let rest = string_parts items in
    if string_value item == "" then rest else string_value item ∷ rest

-- `stringListValue`
unfoldable pub string_list_value : Any → String
unfolding string_parts join_commas
string_list_value (text s) = s
string_list_value (texts parts) = join_commas parts
string_list_value (list items) = join_commas (string_parts items)
string_list_value _ = ""

-- `atoiDefault`
unfoldable pub atoi_default : String → ℤ → ℤ
unfolding atoi_signed
atoi_default value fallback =
    let (n, fits) = atoi_signed value in
    if value == "" then fallback else if fits then n else fallback

-- `parsePort`, of a port that url.Parse lets through: digits, or nothing
unfoldable pub parse_port : String → ℤ
unfolding atoi_signed
parse_port port = if port == "" then pos 0 else (atoi_signed port).0

-- `leadingNumber`
unfoldable pub leading_number : String → String
unfolding leading_digits trim_space
leading_number value = leading_digits (trim_space value)

-- `intValue`
unfoldable pub int_value : Any → ℤ
unfolding atoi_default leading_number
int_value (number n) = n
int_value (text s) = atoi_default (leading_number s) (pos 0)
int_value _ = pos 0

-- `boolValue`
unfoldable pub bool_value : Any → Bool
unfolding equal_fold
bool_value (flag b) = b
bool_value (text s) = s == "1" || equal_fold s "true"
bool_value _ = false

-- `firstNonEmptyAny`
abbrev passed_over : Any → Bool
passed_over null = true
passed_over (text s) = s == ""
passed_over _ = false

unfoldable pub first_any : List Any → Any
first_any [] = null
first_any (value ∷ values) =
    let rest = first_any values in if passed_over value then rest else value

-- `normalizeLinkProtocol`
unfoldable pub normalize_link_protocol : String → String
unfolding one_of
normalize_link_protocol scheme =
    if scheme == "hy2"
    then "hysteria2"
    else if scheme == "ss"
    then "shadowsocks"
    else if one_of scheme ("http2" ∷ "http3" ∷ "https" ∷ "naive" ∷ [])
    then "naive"
    else if one_of scheme ("naive+https" ∷ "naive+quic" ∷ [])
    then "naive"
    else if scheme == "shadowtls"
    then "shadowtls"
    else scheme

-- `normalizeYAMLProtocol`
unfoldable pub normalize_yaml_protocol : String → String
normalize_yaml_protocol value =
    if value == "ss" then "shadowsocks" else if value == "socks5" then "socks" else value

-- `xtlsFlow`
unfoldable pub xtls_flow : String → String
unfolding one_of trim_space to_lower
xtls_flow value =
    let key = to_lower (trim_space value) in
    if one_of key ("2" ∷ "vision" ∷ "xtls-rprx-vision" ∷ [])
    then "xtls-rprx-vision"
    else if one_of key ("1" ∷ "direct" ∷ "xtls-rprx-direct" ∷ [])
    then "xtls-rprx-direct"
    else trim_space value
