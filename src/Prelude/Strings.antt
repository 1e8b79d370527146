-- ===== src/Prelude/Strings.antt =====
-- The package `strings` of Go's library, as far as the program uses it. Texts are valid UTF-8, and
-- walked by characters; letters outside ASCII keep their case.
use Prim.Native.Nat.{ℕ, suc, zero, ◌+◌, ◌*◌, ◌-◌, ◌/◌, ◌%◌}
use Prim.Native.Char.{Char, code}
use Prim.Native.String
use Prim.Native.String.{String, [], ◌∷◌, char_at, compare, slice, len}
use mathlib.Core.Bool.{Bool, true, false, ◌&&◌, ◌||◌}
use mathlib.Core.Option.{Option, none, some}
use mathlib.Core.List.{List, [], ◌∷◌}
use text.Mathlib.Text.{is_le, is_lt, ◌==◌}
use oneagent.Prelude.Tests.{ltb, leb, eqb, if◌then◌else◌}

infixr 65 ◌+s◌
abbrev pub ◌+s◌ : String → String → String
s +s t = String.◌++◌ s t

abbrev pub is_empty : String → Bool
is_empty [] = true
is_empty (c ∷ s) = false

-- Go's `<=` and `<` on strings
abbrev pub string_le : String → String → Bool
string_le s t = is_le (compare s t)

abbrev pub string_lt : String → String → Bool
string_lt s t = is_lt (compare s t)

-- unicode.IsSpace
is_space : ℕ → Bool
is_space c =
    (leb 9 c && leb c 13)
    || eqb c 32
    || eqb c 0x85
    || eqb c 0xa0
    || eqb c 0x1680
    || (leb 0x2000 c && leb c 0x200a)
    || eqb c 0x2028
    || eqb c 0x2029
    || eqb c 0x202f
    || eqb c 0x205f
    || eqb c 0x3000

unfoldable pub trim_left : (ℕ → Bool) → String → String
trim_left p [] = []
trim_left p (c ∷ s) = let rest = trim_left p s in if p (code c) then rest else c ∷ s

-- strings.TrimRight(s, cutset), where the test is whether a character stands in the cutset
unfoldable pub trim_right : (ℕ → Bool) → String → String
trim_right p [] = []
trim_right p (c ∷ s) =
    let rest = trim_right p s in if p (code c) && is_empty rest then [] else c ∷ rest

-- strings.Trim(s, cutset)
unfoldable pub trim : (ℕ → Bool) → String → String
unfolding trim_left trim_right
trim p s = trim_right p (trim_left p s)

-- strings.TrimSpace
unfoldable pub trim_space : String → String
unfolding trim is_space
trim_space s = trim is_space s

abbrev lower : Char → Char
lower c =
    if leb b'A' (code c) && leb (code c) b'Z'
    then char_at "abcdefghijklmnopqrstuvwxyz" (code c - b'A')
    else c

-- strings.ToLower
unfoldable pub to_lower : String → String
to_lower [] = []
to_lower (c ∷ s) = lower c ∷ to_lower s

-- strings.HasPrefix
unfoldable pub has_prefix : String → String → Bool
has_prefix s [] = true
has_prefix [] (d ∷ t) = false
has_prefix (c ∷ s) (d ∷ t) = eqb (code c) (code d) && has_prefix s t

-- strings.Contains
unfoldable pub contains : String → String → Bool
unfolding has_prefix
contains [] t = is_empty t
contains (c ∷ s) t = has_prefix (c ∷ s) t || contains s t

-- strings.HasSuffix
unfoldable pub has_suffix : String → String → Bool
has_suffix [] t = is_empty t
has_suffix (c ∷ s) t = (c ∷ s) == t || has_suffix s t

-- strings.TrimPrefix(s, ".")
abbrev pub trim_dot : String → String
trim_dot [] = []
trim_dot (c ∷ s) = if eqb (code c) b'.' then s else c ∷ s

-- strings.EqualFold
unfoldable pub equal_fold : String → String → Bool
unfolding to_lower
equal_fold s t = to_lower s == to_lower t

-- strings.Split(s, ",")
to_first : Char → List String → List String
to_first c [] = (c ∷ []) ∷ []
to_first c (part ∷ parts) = (c ∷ part) ∷ parts

unfoldable pub split_commas : String → List String
unfolding to_first
split_commas [] = [] ∷ []
split_commas (c ∷ s) =
    let rest = split_commas s in if eqb (code c) b',' then [] ∷ rest else to_first c rest

-- strings.Fields(s)
words : String → List String
unfolding to_first
words [] = [] ∷ []
words (c ∷ s) = let rest = words s in if is_space (code c) then [] ∷ rest else to_first c rest

non_empty : List String → List String
non_empty [] = []
non_empty (part ∷ parts) = let rest = non_empty parts in if is_empty part then rest else part ∷ rest

unfoldable pub fields : String → List String
unfolding words non_empty is_space
fields s = non_empty (words s)

-- strings.Split(s, "\n")
unfoldable pub split_lines : String → List String
unfolding to_first
split_lines [] = [] ∷ []
split_lines (c ∷ s) =
    let rest = split_lines s in if eqb (code c) 10 then [] ∷ rest else to_first c rest

-- strings.ReplaceAll(s, "c", "") of one character
unfoldable pub drop_char : ℕ → String → String
drop_char d [] = []
drop_char d (c ∷ s) = let rest = drop_char d s in if eqb (code c) d then rest else c ∷ rest

-- strings.TrimPrefix(s, t) of a text t of one character
unfoldable pub trim_first : ℕ → String → String
trim_first d [] = []
trim_first d (c ∷ s) = if eqb (code c) d then s else c ∷ s

-- strings.TrimSuffix(s, t) of a text t of one character
unfoldable pub trim_last : ℕ → String → String
trim_last d [] = []
trim_last d (c ∷ s) =
    let rest = trim_last d s in if eqb (code c) d && is_empty s then [] else c ∷ rest

-- What stands before the first character that passes, and behind it: strings.SplitN(s, "c", 2)
abbrev prefixed : Char → String × String → String × String
prefixed c (before, after) = (c ∷ before, after)

unfoldable pub cut_at : ℕ → String → Option (String × String)
cut_at d [] = none
cut_at d (c ∷ s) =
    let rest = cut_at d s in
    if eqb (code c) d
    then some ([], s)
    else elim rest [ none ↦ none | some p ↦ some (prefixed c p) ]

-- strings.Join(parts, ",")
unfoldable pub join_commas : List String → String
join_commas [] = ""
join_commas (part ∷ []) = part
join_commas (part ∷ next ∷ parts) = part +s "," +s join_commas (next ∷ parts)

-- strconv.Atoi of a text without a minus sign, less its refusal of a number that does not fit in 64 bits.
abbrev pub digit_of : Char → Option ℕ
digit_of c = if leb b'0' (code c) && leb (code c) b'9' then some (code c - b'0') else none

unfoldable pub atoi_loop : ℕ → String → Option ℕ
atoi_loop n [] = some n
atoi_loop n (c ∷ s) = elim (digit_of c) [ none ↦ none | some d ↦ atoi_loop (n * 10 + d) s ]

unfoldable pub digits : String → Option ℕ
unfolding atoi_loop
digits [] = none
digits (c ∷ s) = atoi_loop 0 (c ∷ s)

unfoldable pub atoi : String → Option ℕ
unfolding atoi_loop digits
atoi [] = none
atoi (c ∷ s) = if eqb (code c) b'+' then digits s else digits (c ∷ s)

-- strconv.Itoa of a number that is not negative. A number has no more digits than its fuel.
unfoldable pub digit : ℕ → Char
digit d = char_at "0123456789" d

unfoldable pub itoa_loop : ℕ → ℕ → String → String
itoa_loop zero n acc = acc
itoa_loop (suc fuel) n acc =
    let rest = itoa_loop fuel (n / 10) (digit (n % 10) ∷ acc) in
    if ltb n 10 then digit n ∷ acc else rest

unfoldable pub itoa : ℕ → String
unfolding itoa_loop digit
itoa n = itoa_loop (suc n) n ""

-- strings.ReplaceAll(s, "\n", " ")
replace_newline : Char → Char
replace_newline c = if eqb (code c) 10 then " " else c

unfoldable pub replace_newlines : String → String
unfolding replace_newline
replace_newlines [] = []
replace_newlines (c ∷ s) = replace_newline c ∷ replace_newlines s

-- `s[:n]` where the text is longer than n bytes. A character that the cut falls into is dropped;
-- Go keeps its first bytes.
abbrev pub cut_bytes : ℕ → String → String
cut_bytes n s = slice s 0 n

-- len(s)
abbrev pub byte_length : String → ℕ
byte_length s = len s
