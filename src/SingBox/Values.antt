-- ===== src/SingBox/Values.antt =====
-- core/kernel.go: the maps of a generated configuration, and the helpers that fill them.
use oneagent.Prelude.{
  String, Bool, not, ◌&&◌, ◌≡◌, refl, List, [], ◌∷◌, none, some, ℤ, pos, ltℤ, eqℤ, ◌==◌,
  if◌then◌else◌, ◌+s◌, trim_space, cut_at, print_int, atoi_signed, arith, eq_iff,
}
use oneagent.Links.Values.{Any, text, list, object, nil, cons, Fields, end, field, at, string_value}
use oneagent.Manager.Preview.{split_csv}

-- d[key] = value
unfoldable pub set : String → Any → Fields → Fields
set key value end = field key value end
set key value (field name old rest) =
    let later = set key value rest in
    if name == key then field key value rest else field name old later

pub at-set :
    (key other : String) (value : Any) (d : Fields)
    → at other (set key value d) ≡ (if key == other then value else at other d)
unfolding set at
at-set key other value end = refl
at-set key other value (field name old rest) =
    ground
      (arith, at-set key other value rest, eq_iff name key, eq_iff key other, eq_iff name other)

-- What an item is called
abbrev pub tag_of : Fields → String
tag_of item = string_value (at "tag" item)

-- `addOptional`
abbrev pub add_optional : String → String → Fields → Fields
add_optional key value target = if value == "" then target else set key (text value) target

-- A list of one map: []map[string]any{…}
abbrev pub one : Fields → Any
one item = list (cons (object item) nil)

-- `firstNonZero` of two values
abbrev pub first_non_zero : ℤ → ℤ → ℤ
first_non_zero a b = if eqℤ a (pos 0) then b else a

-- Whether a range is written with a colon
is_range : ℤ × Bool → ℤ × Bool → Bool
is_range (left, left_read) (right, right_read) =
    left_read
    && right_read
    && ltℤ (pos 0) left
    && ltℤ (pos 0) right
    && not (ltℤ right left)
    && not (ltℤ (pos 65535) right)

range_or : String → ℤ × Bool → ℤ × Bool → String
range_or part left right =
    if is_range left right then print_int left.0 +s ":" +s print_int right.0 else part

-- The body of the loop of `singBoxPortRanges`.
port_range : String → String
port_range part = elim (cut_at b'-' part) [
  | none ↦ part
  | some (left, right) ↦
      range_or part (atoi_signed (trim_space left)) (atoi_signed (trim_space right))
]

port_ranges : List String → List String
port_ranges [] = []
port_ranges (part ∷ parts) = port_range part ∷ port_ranges parts

-- `singBoxPortRanges`
unfoldable pub sing_box_port_ranges : String → List String
unfolding is_range range_or port_range port_ranges split_csv cut_at atoi_signed trim_space print_int
sing_box_port_ranges value = port_ranges (split_csv value)
