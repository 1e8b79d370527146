-- ===== src/Prelude/Int.antt =====
-- Go's `int`, as an integer. No value of the program comes near the ends of 64 bits but by
-- arithmetic that is written out where it happens.
use Prim.Native.Nat.{ℕ, zero, suc}
use mathlib.Core.Bool.{Bool, true, false, ◌&&◌}
use mathlib.Core.Option.{Option, none, some}
use Prim.Native.String.{[], ◌∷◌}
use Prim.Native.Char.{code}
use Prim.Native.String.{String}
use oneagent.Prelude.Strings.{itoa, ◌+s◌, digits}
use oneagent.Prelude.Tests.{ltb, leb, eqb, if◌then◌else◌}

-- `negsuc n` is -(n + 1).
pub data ℤ : Type 0 where
  pos : ℕ → ℤ
  negsuc : ℕ → ℤ

abbrev pub ltℤ : ℤ → ℤ → Bool
ltℤ (pos a) (pos b) = ltb a b
ltℤ (pos a) (negsuc b) = false
ltℤ (negsuc a) (pos b) = true
ltℤ (negsuc a) (negsuc b) = ltb b a

abbrev pub eqℤ : ℤ → ℤ → Bool
eqℤ (pos a) (pos b) = eqb a b
eqℤ (negsuc a) (negsuc b) = eqb a b
eqℤ (pos a) (negsuc b) = false
eqℤ (negsuc a) (pos b) = false

-- `!(port < 1 || port > 65535)`
unfoldable pub port_ok : ℤ → Bool
port_ok (pos n) = leb 1 n && leb n 65535
port_ok (negsuc n) = false

-- `%d`
unfoldable pub print_int : ℤ → String
print_int (pos n) = itoa n
print_int (negsuc n) = "-" +s itoa (suc n)

-- strconv.Atoi: its value, which is cut off at the ends of 64 bits, and whether it gives no error. A
-- text that is too long for 64 bits and goes on with a character that is no digit has the value 0 here.
unfoldable pub not_below : ℕ → ℤ × Bool
not_below n = if ltb n 9223372036854775808 then (pos n, true) else (pos 9223372036854775807, false)

not_above : ℕ → ℤ × Bool
not_above zero = (pos 0, true)
not_above (suc n) =
    if ltb n 9223372036854775808 then (negsuc n, true) else (negsuc 9223372036854775807, false)

unfoldable pub signed : (ℕ → ℤ × Bool) → Option ℕ → ℤ × Bool
signed bounded none = (pos 0, false)
signed bounded (some n) = bounded n

unfoldable pub atoi_signed : String → ℤ × Bool
unfolding not_below not_above signed digits
atoi_signed [] = (pos 0, false)
atoi_signed (c ∷ s) =
    if eqb (code c) b'-'
    then signed not_above (digits s)
    else if eqb (code c) b'+'
    then signed not_below (digits s)
    else signed not_below (digits (c ∷ s))
