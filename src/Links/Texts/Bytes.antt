-- ===== src/Links/Texts/Bytes.antt =====
-- A text that was cut is no longer than the cut.
use Prim.Native.Char.{Char, len_utf8}
use Prim.Native.String.{[], ◌∷◌, slice, len, fits}
use Prim.Native.String.len
use Prim.Native.String.slice
use Prim.Native.Nat.{compare, Ordering}
use oneagent.Prelude.{ℕ, ◌≤◌, ◌-◌, String, ◌≡◌, refl, ap, arith, cut_bytes, byte_length}

fits-bounded :
    (n : ℕ) (c : Char) (s : String) (o : Ordering)
    → compare (len_utf8 c) n ≡ o
    → len s ≤ n - len_utf8 c
    → len (fits o c s) ≤ n
fits-bounded n c s Ordering.lt e h = ground (arith, e, h, len.cons c s)
fits-bounded n c s Ordering.eq e h = ground (arith, e, h, len.cons c s)
fits-bounded n c s Ordering.gt e h = omega (arith, len.nil)

pub cut_bytes-bounded : (n : ℕ) (s : String) → byte_length (cut_bytes n s) ≤ n
cut_bytes-bounded n [] = omega (arith, ap len (slice.nil 0 n), len.nil)
cut_bytes-bounded n (c ∷ s) = omega (
  arith,
  ap len (slice.cons-zero c s n),
  fits-bounded n c (slice s 0 (n - len_utf8 c)) (compare (len_utf8 c) n) refl
      (cut_bytes-bounded (n - len_utf8 c) s),
)
