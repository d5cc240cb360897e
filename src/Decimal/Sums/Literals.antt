-- ===== src/Decimal/Sums/Literals.antt =====
-- The values of the decimals that are written out.
use native.Mathlib.Nat.{mul_assoc}
use aigold_trader.Base.{
  ℕ, suc, ◌+◌, ◌-◌, ◌*◌, ◌^◌, ◌≤◌, ◌<◌, ◌≡◌, sym, ap, ◌∙◌, arith, pos, pos_part, neg_part,
}
use aigold_trader.Decimal.{dec, origin}
use aigold_trader.Decimal.Order.{
  rank_def, pos_part-scale, neg_part-scale, mul_mono, pow-add, pow-pos,
}
use aigold_trader.Decimal.Sums.{bound, IsNonNegative, worth}

-- The values of literals.
pub four-le-origin : 4 ≤ origin
unfolding origin
four-le-origin = omega arith

pub dec-IsNonNegative : (c places : ℕ) → IsNonNegative (dec (pos c) places)
unfolding dec
dec-IsNonNegative c places =
    ap neg_part (rank_def (dec (pos c) places))
    ∙ neg_part-scale (pos c) (10 ^ (origin - places))
    ∙ omega arith

pub below_bound : (w x v b : ℕ) → w ≡ x * v → suc x * v ≤ b → 0 < v → w < b
below_bound w x v b e h p = omega (arith, e, h, p)

pub dec-bound :
    (c places : ℕ)
    → places ≤ 4
    → c * 10 ^ (4 - places) < 10 ^ 28
    → worth (dec (pos c) places) < bound (origin - 4)
unfolding dec
dec-bound c places h k =
    let value : worth (dec (pos c) places) ≡ c * 10 ^ (origin - places) =
      ap pos_part (rank_def (dec (pos c) places))
      ∙ pos_part-scale (pos c) (10 ^ (origin - places)) in
    let join : 4 - places + (origin - 4) ≡ origin - places = omega (arith, h, four-le-origin) in
    let split : 10 ^ (origin - places) ≡ 10 ^ (4 - places) * 10 ^ (origin - 4) =
      ap (λ (x : ℕ). 10 ^ x) (sym join) ∙ pow-add 10 (4 - places) (origin - 4) in
    let wide : c * 10 ^ (origin - places) ≡ c * 10 ^ (4 - places) * 10 ^ (origin - 4) =
      ap (λ x. c * x) split ∙ sym (mul_assoc c (10 ^ (4 - places)) (10 ^ (origin - 4))) in
    let below : suc (c * 10 ^ (4 - places)) * 10 ^ (origin - 4) ≤ 10 ^ 28 * 10 ^ (origin - 4) =
      mul_mono (suc (c * 10 ^ (4 - places))) (10 ^ 28) (10 ^ (origin - 4)) k in
    below_bound (worth (dec (pos c) places)) (c * 10 ^ (4 - places)) (10 ^ (origin - 4))
      (bound (origin - 4)) (value ∙ wide) below (pow-pos (origin - 4))
