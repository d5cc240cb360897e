-- ===== src/Decimal/Rounding.antt =====
-- `quantize` does not carry a value past a bound that has no more places.
use native.Mathlib.Nat.{mod-lt, div-add-mod', mul_assoc}
use aigold_trader.Base.{
  ℕ, suc, ◌+◌, ◌-◌, ◌*◌, ◌/◌, ◌%◌, ◌^◌, ◌≤◌, ◌<◌, ◌≡◌, refl, sym, ap, ◌∙◌, inl, inr, arith, ltb,
  ltb→lt, ltb_false→le, lt→ltb, Bool-cases, if◌then◌else◌, if_true, ℤ, pos, negsuc, parts_disjoint,
  pos_part, ◌≤ℤ◌, some,
}
use aigold_trader.Decimal.{
  Decimal, magnitude, with_sign, round_half_even, rescaled, quantize, origin, prec, digit_count,
}
use aigold_trader.Decimal.Order.{rank, rank_def, pos_part-scale, mul_mono, pow-add, pow-pos}
use aigold_trader.Decimal.Exact.{quantize_exact, fits}
use aigold_trader.Decimal.Sums.{worth}

at_most : (a b p : ℕ) → 0 < p → a * p ≤ b * p → a ≤ b
at_most a b p h k = elim (Bool-cases (ltb b a)) [
  | inl l ↦ absurd (omega (arith, h, k, mul_mono (suc b) a p (ltb→lt b a l)))
  | inr g ↦ ltb_false→le b a g
]

round_at : (n p : ℕ) → ℕ
round_at n p =
    let twice = 2 * (n % p) in
    if ltb twice p then n / p else if ltb p twice then n / p + 1 else n / p + n / p % 2

round-le_next : (n p : ℕ) → round_at n p ≤ n / p + 1
unfolding round_at
round-le_next n p = ground arith

round-exact : (n p : ℕ) → n % p ≡ 0 → 0 < p → round_at n p ≡ n / p
unfolding round_at
round-exact n p z h =
    if_true (ltb (2 * (n % p)) p) _ _ (lt→ltb (2 * (n % p)) p (omega (arith, z, h)))

round-le : (n m p : ℕ) → 0 < p → n ≤ m * p → round_at n p ≤ m
round-le n m p h k =
    let split = div-add-mod' n p in
    let small = mod-lt n h in
    elim (Bool-cases (ltb (n / p) m)) [
      | inl l ↦ omega (arith, round-le_next n p, ltb→lt (n / p) m l)
      | inr g ↦
          let low = mul_mono m (n / p) p (ltb_false→le (n / p) m g) in
          let none_over : n % p ≡ 0 = omega (arith, split, k, low) in
          let top : n / p ≤ m = at_most (n / p) m p h (omega (arith, split, k)) in
          omega (arith, round-exact n p none_over h, top)
    ]

round_half_even-at : (n k : ℕ) → round_half_even n k ≡ round_at n (10 ^ k)
unfolding round_half_even round_at
round_half_even-at n k = refl

pos_part-with_sign : (c : ℤ) (m : ℕ) → pos_part (with_sign c m) ≤ m
pos_part-with_sign (pos n) m = omega arith
pos_part-with_sign (negsuc n) m = ground arith

with_sign-negsuc : (n m : ℕ) → pos_part (with_sign (negsuc n) m) ≡ 0
with_sign-negsuc n m = ground arith

-- The value in units of 10 ^ t, where it is not fine enough to be exact.
coarse :
    (c : ℤ) (e t m : ℕ) → e ≤ t → pos_part c * 10 ^ e ≤ m * 10 ^ t → pos_part (rescaled c e t) ≤ m
coarse (negsuc n) e t m h k =
    omega
      (arith, with_sign-negsuc n (round_half_even (magnitude (negsuc n) * 10 ^ (e - t)) (t - e)))
coarse (pos n) e t m h k =
    let join : t - e + e ≡ t = omega (arith, h) in
    let split : 10 ^ t ≡ 10 ^ (t - e) * 10 ^ e =
      ap (λ (x : ℕ). 10 ^ x) (sym join) ∙ pow-add 10 (t - e) e in
    let wide : m * 10 ^ t ≡ m * 10 ^ (t - e) * 10 ^ e =
      ap (λ x. m * x) split ∙ sym (mul_assoc m (10 ^ (t - e)) (10 ^ e)) in
    let less = at_most n (m * 10 ^ (t - e)) (10 ^ e) (pow-pos e) (omega (arith, k, wide)) in
    let none_left : e - t ≡ 0 = omega (arith, h) in
    let one : n * 10 ^ (e - t) ≡ n = ap (λ (x : ℕ). n * 10 ^ x) none_left ∙ omega arith in
    let rounded =
      round-le (n * 10 ^ (e - t)) m (10 ^ (t - e)) (pow-pos (t - e)) (omega (arith, one, less)) in
    omega (arith, round_half_even-at (n * 10 ^ (e - t)) (t - e), rounded)

worth-le : (d b : Decimal) → rank d ≤ℤ rank b → worth d ≤ worth b
worth-le d b h = elim (parts_disjoint (rank d)) [
  | inl z ↦ omega (arith, z)
  | inr z ↦ omega (arith, z, h)
]

worth_def : (d : Decimal) → worth d ≡ pos_part d.coefficient * 10 ^ d.exponent
worth_def d = ap pos_part (rank_def d) ∙ pos_part-scale d.coefficient (10 ^ d.exponent)

-- A bound with no more places than are kept bounds the rounded value too.
pub quantize-le :
    (places : ℕ) (d b q : Decimal)
    → origin - places ≤ b.exponent
    → rank d ≤ℤ rank b
    → quantize places d ≡ some q
    → worth q ≤ worth b
unfolding quantize
quantize-le places d b q fine h e = elim (Bool-cases (ltb d.exponent (origin - places))) [
  | inl l ↦
      let t : ℕ = origin - places in
      let m : ℕ = pos_part b.coefficient * 10 ^ (b.exponent - t) in
      let same =
        fits (ltb prec (digit_count (magnitude (rescaled d.coefficient d.exponent t))))
          (record { coefficient = rescaled d.coefficient d.exponent t; exponent = t }) q e in
      let join : b.exponent - t + t ≡ b.exponent = omega (arith, fine) in
      let split : 10 ^ b.exponent ≡ 10 ^ (b.exponent - t) * 10 ^ t =
        ap (λ (x : ℕ). 10 ^ x) (sym join) ∙ pow-add 10 (b.exponent - t) t in
      let wide : worth b ≡ m * 10 ^ t =
        worth_def b
        ∙ ap (λ x. pos_part b.coefficient * x) split
        ∙ sym (mul_assoc (pos_part b.coefficient) (10 ^ (b.exponent - t)) (10 ^ t)) in
      let few =
        coarse d.coefficient d.exponent t m (le_of_lt d.exponent t (ltb→lt d.exponent t l))
          (omega (arith, worth-le d b h, worth_def d, wide)) in
      let value : worth q ≡ pos_part (rescaled d.coefficient d.exponent t) * 10 ^ t =
        ap worth (sym same)
        ∙ worth_def (record { coefficient = rescaled d.coefficient d.exponent t; exponent = t }) in
      omega (
        arith,
        value,
        wide,
        mul_mono (pos_part (rescaled d.coefficient d.exponent t)) m (10 ^ t) few,
      )
  | inr g ↦
      let exact =
        quantize_exact places d q (omega (arith, ltb_false→le d.exponent (origin - places) g)) e in
      omega (arith, ap pos_part exact, worth-le d b h)
]
  where
    le_of_lt : (a b : ℕ) → a < b → a ≤ b
    le_of_lt a b h = omega arith
