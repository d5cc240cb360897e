-- ===== src/Decimal.antt =====
-- Python's `decimal.Decimal` in the context of backend/app/services/risk/policy_core.py, which is
-- also the default context: 28 digits, ROUND_HALF_EVEN. Values are finite (the contracts of the
-- program refuse infinities and NaN), and -0 is 0. The exponent is counted from Etiny, the least
-- exponent of the context, and has no upper bound. `none` stands for a trapped signal
-- (InvalidOperation, DivisionByZero), which Python raises.
pub mod Order
pub mod Exact
pub mod Sums
pub mod Rounding
pub mod Tests
use aigold_trader.Base.{
  List, [], ◌∷◌, ℕ, zero, suc, ◌+◌, ◌-◌, ◌*◌, ◌/◌, ◌%◌, ◌^◌, Bool, ◌&&◌, not, Option, none, some,
  ltb, leb, ◌==◌, if◌then◌else◌, ℤ, pos, negsuc, sub_ℕ, ◌+ℤ◌, ◌-ℤ◌, ◌*ℤ◌, ltb_ℤ,
}

-- The value is coefficient * 10 ^ (exponent - origin).
pub record Decimal : Type 0 where
  pub coefficient : ℤ
  pub exponent : ℕ

-- -Etiny = 999999 + 28 - 1.
unfoldable pub origin : ℕ
origin = 1000026

abbrev pub prec : ℕ
prec = 28

-- `Decimal("...")` with `places` digits behind the point.
unfoldable pub dec : ℤ → ℕ → Decimal
unfolding origin
dec c places = record { coefficient = c; exponent = origin - places }

-- `Decimal(n)` of an integer.
unfoldable pub of_int : ℤ → Decimal
unfolding dec
of_int c = dec c 0

-- `Decimal("0")`
unfoldable pub zero_dec : Decimal
unfolding of_int
zero_dec = of_int (pos 0)

abbrev pub magnitude : ℤ → ℕ
magnitude (pos n) = n
magnitude (negsuc n) = suc n

-- The sign of the first with the magnitude of the second.
abbrev pub with_sign : ℤ → ℕ → ℤ
with_sign (pos _) m = pos m
with_sign (negsuc _) m = sub_ℕ 0 m

abbrev pub scale : ℤ → ℕ → ℤ
scale (pos n) k = pos (n * k)
scale (negsuc n) k = sub_ℕ 0 (suc n * k)

-- Two coefficients at the smaller of two exponents.
abbrev pub aligned : Decimal → Decimal → ℤ
aligned a b = scale a.coefficient (10 ^ (a.exponent - b.exponent))

infix 50 ◌<ᵈ◌ ◌≤ᵈ◌
-- Comparisons are exact.
unfoldable pub ◌<ᵈ◌ : Decimal → Decimal → Bool
a <ᵈ b = ltb_ℤ (aligned a b) (aligned b a)

unfoldable pub ◌≤ᵈ◌ : Decimal → Decimal → Bool
unfolding ◌<ᵈ◌
a ≤ᵈ b = not (b <ᵈ a)

unfoldable pub eq_dec : Decimal → Decimal → Bool
unfolding ◌≤ᵈ◌
eq_dec a b = a ≤ᵈ b && b ≤ᵈ a

-- Python's `min` and `max` keep the first of equal values.
unfoldable pub min_dec : Decimal → Decimal → Decimal
unfolding ◌<ᵈ◌
min_dec a b = if b <ᵈ a then b else a

unfoldable pub max_dec : Decimal → Decimal → Decimal
unfolding ◌<ᵈ◌
max_dec a b = if a <ᵈ b then b else a

-- The length of the decimal numeral; n is fuel enough, since n / 10 < n.
unfoldable pub digits_fuel : ℕ → ℕ → ℕ
digits_fuel zero n = 1
digits_fuel (suc f) n = let rest = digits_fuel f (n / 10) in if ltb n 10 then 1 else rest + 1

unfoldable pub digit_count : ℕ → ℕ
unfolding digits_fuel
digit_count n = digits_fuel n n

-- n / 10 ^ k, rounded half to even.
unfoldable pub round_half_even : ℕ → ℕ → ℕ
round_half_even n k =
    let q = n / 10 ^ k in
    let twice = 2 * (n % 10 ^ k) in
    if ltb twice (10 ^ k) then q else if ltb (10 ^ k) twice then q + 1 else q + q % 2

-- `_fix`: a result with too many digits is rounded; a carry into a new digit drops the last zero.
abbrev pub drop_carry : ℤ → ℕ → ℕ → Decimal
drop_carry c q e =
    if ltb prec (digit_count q)
    then record { coefficient = with_sign c (q / 10); exponent = e + 1 }
    else record { coefficient = with_sign c q; exponent = e }

unfoldable pub fix : ℤ → ℕ → Decimal
unfolding digit_count round_half_even
fix c e =
    let k = digit_count (magnitude c) - prec in
    if leb k 0
    then record { coefficient = c; exponent = e }
    else drop_carry c (round_half_even (magnitude c) k) (e + k)

abbrev pub lower : ℕ → ℕ → ℕ
lower a b = if leb a b then a else b

infixl 65 ◌+ᵈ◌ ◌-ᵈ◌
infixl 70 ◌*ᵈ◌
unfoldable pub ◌+ᵈ◌ : Decimal → Decimal → Decimal
unfolding fix ◌+ℤ◌
a +ᵈ b = fix (aligned a b +ℤ aligned b a) (lower a.exponent b.exponent)

unfoldable pub ◌-ᵈ◌ : Decimal → Decimal → Decimal
unfolding fix ◌-ℤ◌
a -ᵈ b = fix (aligned a b -ℤ aligned b a) (lower a.exponent b.exponent)

-- A product below Etiny is rounded up to it.
unfoldable pub ◌*ᵈ◌ : Decimal → Decimal → Decimal
unfolding fix ◌*ℤ◌ origin
a *ᵈ b =
    let e = a.exponent + b.exponent in
    let c = a.coefficient *ℤ b.coefficient in
    fix (with_sign c (round_half_even (magnitude c) (origin - e))) (e - origin)

unfoldable pub neg_dec : Decimal → Decimal
unfolding fix ◌-ℤ◌
neg_dec a = fix (pos 0 -ℤ a.coefficient) a.exponent

unfoldable pub abs_dec : Decimal → Decimal
unfolding fix
abs_dec a = fix (pos (magnitude a.coefficient)) a.exponent

-- Trailing zeros of an exact quotient go, as far as the ideal exponent.
unfoldable pub strip_zeros : ℕ → ℕ → ℕ → ℕ → ℕ × ℕ
strip_zeros zero q e ideal = (q, e)
strip_zeros (suc f) q e ideal =
    let rest = strip_zeros f (q / 10) (e + 1) ideal in
    if ltb e ideal && q % 10 == 0 then rest else (q, e)

-- The quotient of two magnitudes to 29 digits or more, the last digit made odd if it is inexact.
abbrev pub sticky : ℕ → ℕ → ℕ
sticky q r = if r == 0 then q else if q % 5 == 0 then q + 1 else q

-- `__truediv__`. With `up = len(b) + 29` and `down = len(a)` the shift is up - down.
abbrev pub quotient : Decimal → Decimal → Decimal
quotient a b =
    let n = magnitude a.coefficient in
    let m = magnitude b.coefficient in
    let up = digit_count m + prec + 1 in
    let down = digit_count n in
    let num = n * 10 ^ (up - down) in
    let den = m * 10 ^ (down - up) in
    let top = a.exponent + origin + down in
    let sign = a.coefficient *ℤ b.coefficient in
    let q = sticky (num / den) (num % den) in
    let (s, e) =
      if num % den == 0
      then strip_zeros q q (top - b.exponent - up) (a.exponent + origin - b.exponent)
      else (q, top - b.exponent - up) in
    fix (with_sign sign s) e

unfoldable pub divided : Decimal → Decimal → Decimal
unfolding fix ◌*ℤ◌ strip_zeros origin
divided a b =
    if magnitude a.coefficient == 0
    then record { coefficient = pos 0; exponent = a.exponent + origin - b.exponent }
    else quotient a b

unfoldable pub div_dec : Decimal → Decimal → Option Decimal
unfolding divided
div_dec a b = if magnitude b.coefficient == 0 then none else some (divided a b)

-- `a.quantize(Decimal("1E-places"))`.
abbrev pub rescaled : ℤ → ℕ → ℕ → ℤ
rescaled c e target = with_sign c (round_half_even (magnitude c * 10 ^ (e - target)) (target - e))

unfoldable pub quantize : ℕ → Decimal → Option Decimal
unfolding digit_count round_half_even origin
quantize places a =
    let target = origin - places in
    let c = rescaled a.coefficient a.exponent target in
    if ltb prec (digit_count (magnitude c))
    then none
    else some (record { coefficient = c; exponent = target })

-- `int(a)` truncates towards zero.
unfoldable pub to_int : Decimal → ℤ
unfolding origin
to_int a =
    with_sign a.coefficient
      (magnitude a.coefficient * 10 ^ (a.exponent - origin) / 10 ^ (origin - a.exponent))

-- `sum(values, Decimal("0"))`
unfoldable pub sum_dec : Decimal → List Decimal → Decimal
sum_dec start [] = start
sum_dec start (d ∷ ds) = sum_dec (start +ᵈ d) ds
