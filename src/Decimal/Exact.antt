-- ===== src/Decimal/Exact.antt =====
-- Where `quantize` rounds nothing away.
use native.Mathlib.Nat.{mul_assoc}
use aigold_trader.Base.{
  eq_of_parts, none, some, ℕ, ◌+◌, ◌-◌, ◌*◌, ◌^◌, ◌≤◌, ◌≡◌, refl, sym, ap, ◌∙◌, Bool, true, false,
  arith, ltb, if◌then◌else◌, ℤ, pos, negsuc, pos_part, neg_part,
}
use aigold_trader.Decimal.{
  Decimal, magnitude, with_sign, scale, origin, prec, digit_count, round_half_even, rescaled,
  quantize,
}
use aigold_trader.Decimal.Order.{rank, rank_def, pos_part-scale, neg_part-scale, pow-add}

round_half_even-zero : (n : ℕ) → round_half_even n 0 ≡ n
unfolding round_half_even
round_half_even-zero n = ground arith

with_sign-magnitude : (c : ℤ) (k : ℕ) → with_sign c (magnitude c * k) ≡ scale c k
with_sign-magnitude (pos n) k = refl
with_sign-magnitude (negsuc n) k = refl

-- Trailing zeros are added, where the exponent is no less than the target.
pub rescaled_exact : (c : ℤ) (e t : ℕ) → t ≤ e → rescaled c e t ≡ scale c (10 ^ (e - t))
rescaled_exact c e t h =
    let z : t - e ≡ 0 = omega (arith, h) in
    ap (λ k. with_sign c (round_half_even (magnitude c * 10 ^ (e - t)) k)) z
    ∙ ap (with_sign c) (round_half_even-zero (magnitude c * 10 ^ (e - t)))
    ∙ with_sign-magnitude c (10 ^ (e - t))

scale-scale : (c : ℤ) (j k : ℕ) → scale (scale c j) k ≡ scale c (j * k)
scale-scale c j k = eq_of_parts (scale (scale c j) k) (scale c (j * k)) (
    rw
      (
        pos_part-scale (scale c j) k,
        pos_part-scale c j,
        pos_part-scale c (j * k),
        neg_part-scale (scale c j) k,
        neg_part-scale c j,
        neg_part-scale c (j * k),
        mul_assoc (pos_part c) j k,
        mul_assoc (neg_part c) j k,
      )
      refl)

rank-rescaled :
    (c : ℤ) (e t : ℕ)
    → t ≤ e
    → rank (record { coefficient = rescaled c e t; exponent = t })
      ≡ rank (record { coefficient = c; exponent = e })
rank-rescaled c e t h =
    let back : e - t + t ≡ e = omega (arith, h) in
    rank_def (record { coefficient = rescaled c e t; exponent = t })
    ∙ ap (λ d. scale d (10 ^ t)) (rescaled_exact c e t h)
    ∙ scale-scale c (10 ^ (e - t)) (10 ^ t)
    ∙ ap (scale c) (sym (pow-add 10 (e - t) t) ∙ ap (λ (n : ℕ). 10 ^ n) back)
    ∙ sym (rank_def (record { coefficient = c; exponent = e }))

pub fits : (b : Bool) (d q : Decimal) → (if b then none else some d) ≡ some q → d ≡ q
fits true d q h = cc
fits false d q h = cc

-- A value with at most as many places as are asked for keeps its value.
pub quantize_exact :
    (places : ℕ) (d q : Decimal)
    → origin ≤ d.exponent + places
    → quantize places d ≡ some q
    → rank q ≡ rank d
unfolding quantize
quantize_exact places d q h e =
    let t : ℕ = origin - places in
    let near : t ≤ d.exponent = omega (arith, h) in
    let same =
      fits (ltb prec (digit_count (magnitude (rescaled d.coefficient d.exponent t))))
        (record { coefficient = rescaled d.coefficient d.exponent t; exponent = t }) q e in
    ap rank (sym same) ∙ rank-rescaled d.coefficient d.exponent t near
