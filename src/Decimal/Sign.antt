-- ===== src/Decimal/Sign.antt =====
-- Finiteness and signs of decimal results, with the operations shut for the clients.
use mathlib.Core.Bool.{xor}
use portfolio_analytics_api.Common.{ℕ, ◌+◌, ◌≡◌, true, false, refl, arith}
use portfolio_analytics_api.Common.Int.{eq_ℤ, ℤ, pos, negsuc, ◌+ℤ◌}
use portfolio_analytics_api.Decimal.{
  rescale, eq, Decimal, finite, infinite, nan, add, sub, mul, is_finite, below_zero, not_above_zero,
  nonzero, zero_decimal,
}

abbrev pub IsFinite : Decimal → Type 0
IsFinite d = is_finite d ≡ true

abbrev pub IsNonNegative : Decimal → Type 0
IsNonNegative d = IsFinite d × (below_zero d ≡ false)

abbrev pub IsPositive : Decimal → Type 0
IsPositive d = IsFinite d × (not_above_zero d ≡ false)

pub add-IsFinite : (a b : Decimal) → IsFinite a → IsFinite b → IsFinite (add a b)
unfolding add is_finite
add-IsFinite (finite a s) (finite b t) h k = refl
add-IsFinite (finite a s) (infinite _) h k = k
add-IsFinite (finite a s) nan h k = k
add-IsFinite (infinite _) b h k = ground arith
add-IsFinite nan b h k = ground arith

pub sub-IsFinite : (a b : Decimal) → IsFinite a → IsFinite b → IsFinite (sub a b)
unfolding sub is_finite
sub-IsFinite (finite a s) (finite b t) h k = refl
sub-IsFinite (finite a s) (infinite _) h k = k
sub-IsFinite (finite a s) nan h k = k
sub-IsFinite (infinite _) b h k = ground arith
sub-IsFinite nan b h k = ground arith

pub mul-IsFinite : (a b : Decimal) → IsFinite a → IsFinite b → IsFinite (mul a b)
unfolding mul is_finite
mul-IsFinite (finite a s) (finite b t) h k = refl
mul-IsFinite (finite a s) (infinite _) h k = k
mul-IsFinite (finite a s) nan h k = k
mul-IsFinite (infinite _) b h k = ground arith
mul-IsFinite nan b h k = ground arith

pub positive→IsNonNegative : (d : Decimal) → IsPositive d → IsNonNegative d
unfolding is_finite below_zero not_above_zero
positive→IsNonNegative (finite (pos n) s) h = (refl, refl)
positive→IsNonNegative (finite (negsuc n) s) h = ground arith
positive→IsNonNegative (infinite _) h = ground arith
positive→IsNonNegative nan h = ground arith

pub nonzero→IsPositive : (d : Decimal) → IsNonNegative d → nonzero d ≡ true → IsPositive d
unfolding is_finite below_zero not_above_zero nonzero
nonzero→IsPositive (finite (pos n) s) h k = ground arith
nonzero→IsPositive (finite (negsuc n) s) h k = ground arith
nonzero→IsPositive (infinite _) h k = ground arith
nonzero→IsPositive nan h k = ground arith

pub zero-IsNonNegative : IsNonNegative zero_decimal
unfolding is_finite below_zero
zero-IsNonNegative = (refl, refl)

pos_add : (n m : ℕ) → pos n +ℤ pos m ≡ pos (n + m)
unfolding ◌+ℤ◌
pos_add n m = ground arith

-- Rounding keeps the sign, so a sum of values that are not negative is not negative.
pub add-IsNonNegative :
    (a b : Decimal) → IsNonNegative a → IsNonNegative b → IsNonNegative (add a b)
unfolding add is_finite below_zero xor
add-IsNonNegative (finite (pos n) s) (finite (pos m) t) h k = (refl, rw pos_add refl)
add-IsNonNegative (finite (pos n) s) (finite (negsuc m) t) h k = ground arith
add-IsNonNegative (finite (pos n) s) (infinite _) h k = ground arith
add-IsNonNegative (finite (pos n) s) nan h k = ground arith
add-IsNonNegative (finite (negsuc n) s) b h k = ground arith
add-IsNonNegative (infinite _) b h k = ground arith
add-IsNonNegative nan b h k = ground arith

eq_ℤ_refl : (a : ℤ) → eq_ℤ a a ≡ true
eq_ℤ_refl a = ground arith

-- A finite decimal equals itself.
pub eq_refl : (d : Decimal) → IsFinite d → eq d d ≡ true
unfolding eq is_finite
eq_refl (finite a s) h = eq_ℤ_refl (rescale a s)
eq_refl (infinite _) h = ground arith
eq_refl nan h = ground arith
