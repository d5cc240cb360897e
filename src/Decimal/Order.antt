-- ===== src/Decimal/Order.antt =====
-- The order of decimals is the order of one integer for each: the value in units of the least
-- exponent.
use native.Mathlib.Nat.{pow-suc, pow-zero, zero-add, suc-add, mul_assoc}
use aigold_trader.Base.{
  eq_of_parts, Option, none, some, ◌==◌, lt→ltb, le→ltb_false, ltb→lt, ltb_false→le, ℕ, zero, suc,
  ◌+◌, ◌-◌, ◌*◌, ◌^◌, ◌≤◌, ◌<◌, ◌≡◌, refl, sym, ap, ◌∙◌, ◌⊎◌, inl, inr, Bool, true, false, not,
  arith, ltb, leb, if◌then◌else◌, tests, Bool-cases, ℤ, pos, negsuc, pos_part, neg_part, ltb_ℤ,
  ◌≤ℤ◌,
}
use aigold_trader.Decimal.{
  magnitude, zero_dec, div_dec, divided, Decimal, scale, aligned, ◌<ᵈ◌, ◌≤ᵈ◌, min_dec, max_dec,
  lower,
}

pub rank : Decimal → ℤ
rank d = scale d.coefficient (10 ^ d.exponent)

pub rank_def : (d : Decimal) → rank d ≡ scale d.coefficient (10 ^ d.exponent)
unfolding rank
rank_def d = refl

pub pos_part-scale : (c : ℤ) (k : ℕ) → pos_part (scale c k) ≡ pos_part c * k
pos_part-scale (pos n) k = refl
pos_part-scale (negsuc n) k = ground arith

pub neg_part-scale : (c : ℤ) (k : ℕ) → neg_part (scale c k) ≡ neg_part c * k
neg_part-scale (pos n) k = omega arith
neg_part-scale (negsuc n) k = ground arith

pub pow-add : (b m n : ℕ) → b ^ (m + n) ≡ b ^ m * b ^ n
pow-add b zero n = rw (zero-add n, pow-zero b) (omega arith)
pow-add b (suc m) n = rw (suc-add m n, pow-suc b (m + n), pow-suc b m, pow-add b m n) (omega arith)

pub pow-pos : (n : ℕ) → 0 < 10 ^ n
pow-pos zero = omega arith
pow-pos (suc n) = rw (pow-suc 10 n) (omega (arith, pow-pos n))

pub mul_mono : (x y m : ℕ) → x ≤ y → x * m ≤ y * m
mul_mono x y m h = grind arith

mul-lt : (x y m : ℕ) → x < y → 0 < m → x * m < y * m
mul-lt x y m h p = omega (arith, mul_mono (suc x) y m h)

ltb-mul : (x y m : ℕ) → 0 < m → ltb (x * m) (y * m) ≡ ltb x y
ltb-mul x y m p = elim (Bool-cases (ltb x y)) [
  | inl e ↦ rw e (lt→ltb (x * m) (y * m) (mul-lt x y m (ltb→lt x y e) p))
  | inr e ↦ rw e (le→ltb_false (x * m) (y * m) (mul_mono y x m (ltb_false→le x y e)))
]

pow-split : (m n : ℕ) → 10 ^ (m - n) * 10 ^ lower m n ≡ 10 ^ m
pow-split m n =
    let e : m - n + lower m n ≡ m = ground arith in
    sym (pow-add 10 (m - n) (lower m n)) ∙ ap (λ (k : ℕ). 10 ^ k) e

pub lower_comm : (m n : ℕ) → lower m n ≡ lower n m
lower_comm m n = ground arith

-- Aligning by the difference of the exponents and then by the smaller one is the rank.
module _ (a b : Decimal) where
  abbrev unit : ℕ
  unit = 10 ^ lower a.exponent b.exponent

  pub pos_part-rank : pos_part (rank a) ≡ pos_part (aligned a b) * unit
  unfolding rank
  pos_part-rank = rw (
    pos_part-scale a.coefficient (10 ^ a.exponent),
    pos_part-scale a.coefficient (10 ^ (a.exponent - b.exponent)),
    mul_assoc (pos_part a.coefficient) (10 ^ (a.exponent - b.exponent)) unit,
    pow-split a.exponent b.exponent,
  )

  pub neg_part-rank : neg_part (rank a) ≡ neg_part (aligned a b) * unit
  unfolding rank
  neg_part-rank = rw (
    neg_part-scale a.coefficient (10 ^ a.exponent),
    neg_part-scale a.coefficient (10 ^ (a.exponent - b.exponent)),
    mul_assoc (neg_part a.coefficient) (10 ^ (a.exponent - b.exponent)) unit,
    pow-split a.exponent b.exponent,
  )

-- A comparison of decimals is a comparison of their ranks.
pub lt-rank : (a b : Decimal) → (a <ᵈ b) ≡ ltb_ℤ (rank a) (rank b)
unfolding ◌<ᵈ◌
lt-rank a b =
    let k : ℕ = 10 ^ lower a.exponent b.exponent in
    let e : 10 ^ lower b.exponent a.exponent ≡ k =
      ap (λ (n : ℕ). 10 ^ n) (lower_comm b.exponent a.exponent) in
    sym (
      cc (
        ltb-mul (pos_part (aligned a b) + neg_part (aligned b a))
            (pos_part (aligned b a) + neg_part (aligned a b)) k
            (pow-pos (lower a.exponent b.exponent)),
        add_mul (pos_part (aligned a b)) (neg_part (aligned b a)) k,
        add_mul (pos_part (aligned b a)) (neg_part (aligned a b)) k,
        pos_part-rank a b,
        neg_part-rank a b,
        pos_part-rank b a,
        neg_part-rank b a,
        e,
      ))
  where
    add_mul : (x y m : ℕ) → (x + y) * m ≡ x * m + y * m
    add_mul x y m = omega arith

-- The orders as orders of numbers, which `omega` reads.
pub lt→rank : (a b : Decimal) → (a <ᵈ b) ≡ true → ¬ (rank b ≤ℤ rank a)
lt→rank a b h = omega (tests, sym (lt-rank a b) ∙ h)

pub lt_false→rank : (a b : Decimal) → (a <ᵈ b) ≡ false → rank b ≤ℤ rank a
lt_false→rank a b h = omega (tests, sym (lt-rank a b) ∙ h)

pub rank→lt : (a b : Decimal) → ¬ (rank b ≤ℤ rank a) → (a <ᵈ b) ≡ true
rank→lt a b h = lt-rank a b ∙ omega (tests, h)

pub rank→lt_false : (a b : Decimal) → rank b ≤ℤ rank a → (a <ᵈ b) ≡ false
rank→lt_false a b h = lt-rank a b ∙ omega (tests, h)

pub le→rank : (a b : Decimal) → (a ≤ᵈ b) ≡ true → rank a ≤ℤ rank b
unfolding ◌≤ᵈ◌
le→rank a b h = lt_false→rank b a (ground arith)

pub le_false→rank : (a b : Decimal) → (a ≤ᵈ b) ≡ false → ¬ (rank a ≤ℤ rank b)
unfolding ◌≤ᵈ◌
le_false→rank a b h = lt→rank b a (ground arith)

pub rank→le : (a b : Decimal) → rank a ≤ℤ rank b → (a ≤ᵈ b) ≡ true
unfolding ◌≤ᵈ◌
rank→le a b h = rw (rank→lt_false b a h)

pub ruleset dec_order =
    (arith, lt→rank, lt_false→rank, le→rank, le_false→rank, rank→lt, rank→lt_false, rank→le)

pub min_dec-le : (a b : Decimal) → (rank (min_dec a b) ≤ℤ rank a) × (rank (min_dec a b) ≤ℤ rank b)
unfolding min_dec
min_dec-le a b = elim (Bool-cases (b <ᵈ a)) [
  | inl e ↦ rw e (omega (arith, lt→rank b a e), omega arith)
  | inr e ↦ rw e (omega arith, omega (arith, lt_false→rank b a e))
]

pub max_dec-ge : (a b : Decimal) → (rank a ≤ℤ rank (max_dec a b)) × (rank b ≤ℤ rank (max_dec a b))
unfolding max_dec
max_dec-ge a b = elim (Bool-cases (a <ᵈ b)) [
  | inl e ↦ rw e (omega (arith, lt→rank a b e), omega arith)
  | inr e ↦ rw e (omega arith, omega (arith, lt_false→rank a b e))
]

pub lt_irrefl : (a : Decimal) → (a <ᵈ a) ≡ false
lt_irrefl a = rank→lt_false a a (omega arith)

-- Zero has rank 0, whatever its exponent.
pub rank-zero : (d : Decimal) → d.coefficient ≡ pos 0 → rank d ≡ pos 0
unfolding rank
rank-zero d e = rw e (eq_of_parts _ _ (omega arith))

coefficient-zero_dec : zero_dec.coefficient ≡ pos 0
unfolding zero_dec
coefficient-zero_dec = refl

pub rank-zero_dec : rank zero_dec ≡ pos 0
rank-zero_dec = rank-zero zero_dec coefficient-zero_dec

magnitude-zero : (c : ℤ) → (magnitude c == 0) ≡ true → c ≡ pos 0
magnitude-zero (pos n) h = ground arith
magnitude-zero (negsuc n) h = ground arith

not_zero : (b : Decimal) → (b ≤ᵈ zero_dec) ≡ false → (magnitude b.coefficient == 0) ≡ false
not_zero b h = elim (Bool-cases (magnitude b.coefficient == 0)) [
  | inl e ↦
      let z : rank b ≡ pos 0 = rank-zero b (magnitude-zero b.coefficient e) in
      absurd (le_false→rank b zero_dec h (rw (z, rank-zero_dec) (omega arith)))
  | inr e ↦ e
]

div-divided :
    (a b : Decimal) → (magnitude b.coefficient == 0) ≡ false → div_dec a b ≡ some (divided a b)
unfolding div_dec
div-divided a b e = rw e

-- A division by a positive number is not trapped.
pub div-pos : (a b : Decimal) → (b ≤ᵈ zero_dec) ≡ false → (q : Decimal) × (div_dec a b ≡ some q)
div-pos a b h = (divided a b, div-divided a b (not_zero b h))

pub min_dec-ge :
    (a b c : Decimal) → rank c ≤ℤ rank a → rank c ≤ℤ rank b → rank c ≤ℤ rank (min_dec a b)
unfolding min_dec
min_dec-ge a b c h k = elim (Bool-cases (b <ᵈ a)) [ inl e ↦ rw e k | inr e ↦ rw e h ]

pub min_dec-lt : (a b : Decimal) → (b <ᵈ a) ≡ true → min_dec a b ≡ b
unfolding min_dec
min_dec-lt a b h = rw h

pub min_dec-ge_self : (a b : Decimal) → (b <ᵈ a) ≡ false → min_dec a b ≡ a
unfolding min_dec
min_dec-ge_self a b h = rw h
