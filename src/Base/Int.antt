-- ===== src/Base/Int.antt =====
-- Go's `int64`. `negsuc n` is -(n + 1). The values that reach the code come from lengths and from
-- `strconv.ParseInt`, and the only arithmetic on them is bounded, so no wrap-around is written out.
use Prim.Native.Nat.{ℕ}
use mathlib.Core.Bool.{Bool, true, false}
use omnistash.Base.Tests.{ltb, eqb}

pub data ℤ : Type 0 where
  pos : ℕ → ℤ
  negsuc : ℕ → ℤ

abbrev pub is_neg : ℤ → Bool
is_neg (pos n) = false
is_neg (negsuc n) = true

-- `n == z` for a length `n`
abbrev pub eq_int : ℕ → ℤ → Bool
eq_int n (pos m) = eqb n m
eq_int n (negsuc m) = false

-- `y < z`
abbrev pub lt_int : ℤ → ℤ → Bool
lt_int (pos a) (pos b) = ltb a b
lt_int (pos a) (negsuc b) = false
lt_int (negsuc a) (pos b) = true
lt_int (negsuc a) (negsuc b) = ltb b a
