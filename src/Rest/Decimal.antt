-- ===== src/Rest/Decimal.antt =====
-- Decimal numbers of headers: `strconv.FormatInt`, and `strconv.ParseInt` in base 10 with 64 bits.
use Prim.Native.Nat.{◌/◌, ◌%◌}
use omnistash.Base.{ℕ, zero, suc, ◌+◌, ◌-◌, ◌*◌, ◌≤◌, ◌<◌, ◌≡◌, ◌≢◌, ap, Bool, true, ◌&&◌}
use omnistash.Base.{Option, none, some, [], ◌∷◌, eqb, ltb, leb, if◌then◌else◌, arith}
use omnistash.Base.Int.{ℤ, pos, negsuc}
use omnistash.Rest.Paths.{Text}

-- 2 ^ 63
abbrev pub int64_end : ℕ
int64_end = 9223372036854775808

abbrev pub is_digit : ℕ → Bool
is_digit c = leb b'0' c && leb c b'9'

abbrev pub all_digits : Text → Bool
all_digits [] = true
all_digits (c ∷ s) = is_digit c && all_digits s

-- The number that digits spell behind `n`.
pub value : ℕ → Text → ℕ
value n [] = n
value n (c ∷ s) = value (n * 10 + (c - b'0')) s

-- The loop that prints the digits from the last to the first.
digits : ℕ → ℕ → Text → Text
digits zero n out = out
digits (suc fuel) n out =
    let rest = digits fuel (n / 10) ((b'0' + n % 10) ∷ out) in if eqb n 0 then out else rest

unfoldable pub format_nat : ℕ → Text
unfolding digits
format_nat n = if eqb n 0 then b'0' ∷ [] else digits n n []

-- `FormatInt(z, 10)`
abbrev pub format_int : ℤ → Text
format_int (pos n) = format_nat n
format_int (negsuc n) = b'-' ∷ format_nat (suc n)

-- `ParseInt` of digits: out of range it returns the largest number beside an error.
unfoldable pub saturated : Text → ℕ
unfolding value
saturated s = let n = value 0 s in if ltb n int64_end then n else int64_end - 1

abbrev unsigned : Text → Option ℤ
unsigned [] = none
unsigned (c ∷ s) =
    if all_digits (c ∷ s) && ltb (value 0 (c ∷ s)) int64_end
    then some (pos (value 0 (c ∷ s)))
    else none

abbrev negated : ℕ → ℤ
negated zero = pos 0
negated (suc n) = negsuc n

abbrev negative : Text → Option ℤ
negative [] = none
negative (c ∷ s) =
    if all_digits (c ∷ s) && leb (value 0 (c ∷ s)) int64_end
    then some (negated (value 0 (c ∷ s)))
    else none

-- `ParseInt(s, 10, 64)`, `none` for an error
unfoldable pub parse_int : Text → Option ℤ
unfolding value
parse_int [] = none
parse_int (c ∷ s) =
    if eqb c b'-' then negative s else if eqb c b'+' then unsigned s else unsigned (c ∷ s)

value-digits : (fuel n : ℕ) (out : Text) → n ≤ fuel → value 0 (digits fuel n out) ≡ value n out
unfolding digits value
value-digits zero n out h = ap (λ m. value m out) (omega arith)
value-digits (suc fuel) n out h = ground (arith, value-digits fuel (n / 10) ((b'0' + n % 10) ∷ out))

all_digits-digits :
    (fuel n : ℕ) (out : Text) → all_digits out ≡ true → all_digits (digits fuel n out) ≡ true
unfolding digits
all_digits-digits zero n out h = h
all_digits-digits (suc fuel) n out h =
    ground (arith, all_digits-digits fuel (n / 10) ((b'0' + n % 10) ∷ out))

digits-ne-nil : (fuel n : ℕ) (out : Text) → out ≢ [] → digits fuel n out ≢ []
unfolding digits
digits-ne-nil zero n out h = h
digits-ne-nil (suc fuel) n out h =
    ground (arith, digits-ne-nil fuel (n / 10) ((b'0' + n % 10) ∷ out))

pub value-format_nat : (n : ℕ) → value 0 (format_nat n) ≡ n
unfolding format_nat value
value-format_nat n = ground (arith, value-digits n n [])

pub all_digits-format_nat : (n : ℕ) → all_digits (format_nat n) ≡ true
unfolding format_nat
all_digits-format_nat n = ground (arith, all_digits-digits n n [])

pub format_nat-ne-nil : (n : ℕ) → format_nat n ≢ []
unfolding format_nat digits
format_nat-ne-nil zero = λ h. cc
format_nat-ne-nil (suc n) = ground (arith, digits-ne-nil n (suc n / 10) ((b'0' + suc n % 10) ∷ []))

-- A number of 64 bits is read back from its print.
pub saturated-format_nat : (n : ℕ) → n < int64_end → saturated (format_nat n) ≡ n
unfolding saturated
saturated-format_nat n h = ground (arith, value-format_nat n)

pub saturated-lt : (s : Text) → saturated s < int64_end
unfolding saturated
saturated-lt s = ground arith
