-- ===== src/Decimal.antt =====
-- Python's `decimal.Decimal` under the default context: a coefficient over a power of ten, exact
-- sums and products rounded half-even to 28 significant digits, division and `quantize`.
-- Exponents have no bound here, and a value does not remember how many zeros it was written with
-- above the point; neither shows in a comparison.
pub mod Sign
use portfolio_analytics_api.Common.{
  ◌≡◌, Bool-cases, ◌<◌, ◌≤◌, arith, inr, inl, ℕ, zero, suc, ◌+◌, ◌-◌, ◌*◌, ◌/◌, ◌%◌, ◌^◌, Bool,
  true, false, not, ◌&&◌, ◌||◌, Option, none, some, if◌then◌else◌, leb, ltb, ◌==◌,
}
use portfolio_analytics_api.Common.Int.{
  ℤ, pos, negsuc, ◌+ℤ◌, ◌*ℤ◌, neg, magnitude, is_negative, signed, leb_ℤ, eq_ℤ,
}
use native.Mathlib.Numerals.{unary_clauses}
use mathlib.Core.Bool.{xor}

-- `finite c s` is c / 10 ^ s.
pub data Decimal : Type 0 where
  finite : ℤ → ℕ → Decimal
  infinite : Bool → Decimal
  nan : Decimal

-- `getcontext().prec`
abbrev pub precision : ℕ
precision = 28

digits_from : ℕ → ℕ → ℕ
digits_from zero n = 1
digits_from (suc fuel) n = elim (ltb n 10) [ true ↦ 1 | false ↦ suc (digits_from fuel (n / 10)) ]

-- The number of decimal digits; a number has no more digits than its value.
unfoldable pub digit_count : ℕ → ℕ
unfolding digits_from
digit_count n = digits_from n n

digits_from_small : (fuel n : ℕ) → ltb n 10 ≡ true → digits_from (suc fuel) n ≡ 1
unfolding digits_from
digits_from_small fuel n h = ground arith

digits_from_large :
    (fuel n : ℕ) → ltb n 10 ≡ false → digits_from (suc fuel) n ≡ suc (digits_from fuel (n / 10))
unfolding digits_from
digits_from_large fuel n h = ground arith

ten_times : (n k : ℕ) → n / 10 < k → n < k * 10
ten_times n k h = omega arith

digits_from-bound : (fuel n : ℕ) → n ≤ fuel → n < 10 ^ digits_from fuel n
unfolding digits_from
digits_from-bound zero n h = ground arith
digits_from-bound (suc fuel) n h = elim (Bool-cases (ltb n 10)) [
  | inl small ↦ rw (digits_from_small fuel n small) (ground arith)
  | inr large ↦
      let rest = digits_from-bound fuel (n / 10) (ground arith) in
      rw (digits_from_large fuel n large)
        (simp unary_clauses (ten_times n (10 ^ digits_from fuel (n / 10)) rest))
]

-- A number has no more digits than `digit_count` says: its fuel is enough.
pub digit_count-bound : (n : ℕ) → n < 10 ^ digit_count n
unfolding digit_count
digit_count-bound n = digits_from-bound n n (ground arith)

-- n / d to the nearest integer, a tie to the even one.
unfoldable pub divide_half_even : ℕ → ℕ → ℕ
divide_half_even n d =
    let q = n / d in
    let twice = 2 * (n % d) in if ltb d twice || (twice == d && q % 2 == 1) then q + 1 else q

-- n / 10 ^ s cut to 28 significant digits.
round_magnitude : ℕ → ℕ → ℕ × ℕ
unfolding digit_count divide_half_even
round_magnitude n s =
    let excess = digit_count n - precision in
    let q = divide_half_even n (10 ^ excess) in
    if excess == 0 then (n, s) else (q * 10 ^ (excess - s), s - excess)

unfoldable pub round : ℤ → ℕ → Decimal
unfolding round_magnitude
round c s = let (n, t) = round_magnitude (magnitude c) s in finite (signed (is_negative c) n) t

-- The coefficient of c / 10 ^ s when it is written with s + k decimals.
abbrev pub rescale : ℤ → ℕ → ℤ
rescale c k = c *ℤ pos (10 ^ k)

-- `a + b`
unfoldable pub add : Decimal → Decimal → Decimal
unfolding round ◌+ℤ◌ ◌*ℤ◌
add (finite a s) (finite b t) = round (rescale a (t - s) +ℤ rescale b (s - t)) (s + (t - s))
add _ _ = nan

unfoldable pub negate : Decimal → Decimal
unfolding round
negate (finite a s) = round (neg a) s
negate (infinite negative) = infinite (not negative)
negate nan = nan

-- `a - b`
unfoldable pub sub : Decimal → Decimal → Decimal
unfolding round ◌+ℤ◌ ◌*ℤ◌
sub (finite a s) (finite b t) = round (rescale a (t - s) +ℤ neg (rescale b (s - t))) (s + (t - s))
sub _ _ = nan

-- `a * b`
unfoldable pub mul : Decimal → Decimal → Decimal
unfolding round ◌*ℤ◌
mul (finite a s) (finite b t) = round (a *ℤ b) (s + t)
mul _ _ = nan

-- `a / b`: enough digits of the quotient, one more that is 1 if the rest is not zero, and
-- one rounding. Division by zero raises in Python; here it gives `nan`.
unfoldable pub div : Decimal → Decimal → Decimal
unfolding digit_count round
div (finite a s) (finite b t) =
    let n = magnitude a in
    let d = magnitude b in
    let shift = digit_count d + precision + 1 + t in
    let q = n * 10 ^ shift / d in
    let r = n * 10 ^ shift % d in
    let c = q * 10 + (if r == 0 then 0 else 1) in
    if d == 0
    then nan
    else round (signed (xor (is_negative a) (is_negative b)) c) (shift + 1 + s - t)
div _ _ = nan

unfoldable pub is_finite : Decimal → Bool
is_finite (finite _ _) = true
is_finite _ = false

-- `a <= b`, on finite values the comparison of a * 10 ^ t and b * 10 ^ s. A comparison with a
-- NaN raises in Python; every caller has tested `is_finite` first.
unfoldable pub le : Decimal → Decimal → Bool
unfolding ◌*ℤ◌
le (finite a s) (finite b t) = leb_ℤ (rescale a t) (rescale b s)
le (infinite negative) (finite _ _) = negative
le (finite _ _) (infinite negative) = not negative
le (infinite m) (infinite n) = m || not n
le _ _ = false

-- `a < b`
unfoldable pub lt : Decimal → Decimal → Bool
unfolding ◌*ℤ◌
lt (finite a s) (finite b t) = not (leb_ℤ (rescale b s) (rescale a t))
lt (infinite negative) (finite _ _) = negative
lt (finite _ _) (infinite negative) = not negative
lt (infinite m) (infinite n) = m && not n
lt _ _ = false

-- `a == b`
unfoldable pub eq : Decimal → Decimal → Bool
unfolding ◌*ℤ◌
eq (finite a s) (finite b t) = eq_ℤ (rescale a t) (rescale b s)
eq (infinite true) (infinite true) = true
eq (infinite false) (infinite false) = true
eq _ _ = false

-- `value < 0`, `value <= 0` and `value != 0`
unfoldable pub below_zero : Decimal → Bool
below_zero (finite c _) = is_negative c
below_zero (infinite negative) = negative
below_zero nan = false

unfoldable pub not_above_zero : Decimal → Bool
not_above_zero (finite c _) = leb_ℤ c (pos 0)
not_above_zero (infinite negative) = negative
not_above_zero nan = false

unfoldable pub nonzero : Decimal → Bool
nonzero (finite c _) = not (eq_ℤ c (pos 0))
nonzero _ = true

-- `Decimal(0)`
abbrev pub zero_decimal : Decimal
zero_decimal = finite (pos 0) 0

-- `Decimal(1)`
abbrev pub one_decimal : Decimal
one_decimal = finite (pos 1) 0

-- `value.quantize(Decimal(1).scaleb(-places))` of a finite value; `none` is `InvalidOperation`.
unfoldable pub quantize : Decimal → ℕ → Option Decimal
unfolding digit_count divide_half_even
quantize (finite c s) places =
    let n = divide_half_even (magnitude c * 10 ^ (places - s)) (10 ^ (s - places)) in
    if ltb precision (digit_count n) then none else some (finite (signed (is_negative c) n) places)
quantize _ places = none
