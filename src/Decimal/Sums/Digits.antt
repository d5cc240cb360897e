-- ===== src/Decimal/Sums/Digits.antt =====
-- The digits that a sum of decimals needs.
use native.Mathlib.Nat.{pow-suc, mul_comm}
use aigold_trader.Base.{
  ℕ, zero, suc, ◌+◌, ◌-◌, ◌*◌, ◌/◌, ◌^◌, ◌≤◌, ◌<◌, ◌≡◌, sym, ap, ◌∙◌, inl, inr, arith, ltb, leb,
  lt→ltb, le→leb, ltb→lt, ltb_false→le, Bool-cases, if_true, ℤ, pos, negsuc, pos_part, neg_part,
}
use aigold_trader.Decimal.{magnitude, prec, digits_fuel, digit_count, fix}
use aigold_trader.Decimal.Order.{mul_mono, pow-add, pow-pos}

-- A number below 10 ^ (k + 1) has at most k + 1 digits, for whatever fuel.
digits_fuel-le : (f k n : ℕ) → n < 10 ^ suc k → digits_fuel f n ≤ suc k
unfolding digits_fuel
digits_fuel-le zero k n h = omega arith
digits_fuel-le (suc f) zero n h = rw (lt→ltb n 10 h) (omega arith)
digits_fuel-le (suc f) (suc k) n h = elim (Bool-cases (ltb n 10)) [
  | inl e ↦ rw e (omega arith)
  | inr e ↦ rw e (omega (arith, digits_fuel-le f k (n / 10) (tenth k n h)))
]
  where
    tenth : (k n : ℕ) → n < 10 ^ suc (suc k) → n / 10 < 10 ^ suc k
    tenth k n h =
        let e : 10 ^ suc (suc k) ≡ 10 ^ suc k * 10 = pow-suc 10 (suc k) in omega (arith, h, e)

digit_count-le : (n : ℕ) → n < 10 ^ 28 → digit_count n ≤ 28
unfolding digit_count
digit_count-le n h = digits_fuel-le n 27 n h

pub fix_exact :
    (c : ℤ) (e : ℕ) → magnitude c < 10 ^ 28 → fix c e ≡ record { coefficient = c; exponent = e }
unfolding fix
fix_exact c e h = if_true (leb (digit_count (magnitude c) - prec) 0) _ _ (
    let small = digit_count-le (magnitude c) h in
    le→leb (digit_count (magnitude c) - prec) 0 (omega (arith, small)))

pub add_mul : (x y m : ℕ) → (x + y) * m ≡ x * m + y * m
add_mul x y m = omega arith

pub magnitude_parts : (c : ℤ) → magnitude c ≡ pos_part c + neg_part c
magnitude_parts (pos n) = omega arith
magnitude_parts (negsuc n) = omega arith

pow_mono : (u e : ℕ) → u ≤ e → 10 ^ u ≤ 10 ^ e
pow_mono u e h =
    let d : u + (e - u) ≡ e = omega (arith, h) in
    let split : 10 ^ e ≡ 10 ^ u * 10 ^ (e - u) =
      ap (λ (n : ℕ). 10 ^ n) (sym d) ∙ pow-add 10 u (e - u) in
    grind (arith, split, pow-pos (e - u), pow-pos u)

-- A number of units of 10 ^ e that is below m units of 10 ^ u is below m.
pub below_units : (p m u e : ℕ) → u ≤ e → p * 10 ^ e < m * 10 ^ u → p < m
below_units p m u e h k = elim (Bool-cases (ltb p m)) [
  | inl l ↦ ltb→lt p m l
  | inr g ↦ absurd (
      let a : m * 10 ^ u ≤ p * 10 ^ u = mul_mono m p (10 ^ u) (ltb_false→le p m g) in
      let b : p * 10 ^ u ≤ p * 10 ^ e =
        rw (mul_comm p (10 ^ u), mul_comm p (10 ^ e))
          (mul_mono (10 ^ u) (10 ^ e) p (pow_mono u e h)) in
      omega (arith, a, b, k))
]
