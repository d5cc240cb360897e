-- ===== src/Decimal/Sums.antt =====
-- Where sums and differences of decimals are not rounded.
pub mod Literals
pub mod Digits
use aigold_trader.Base.{
  ℕ, ◌+◌, ◌-◌, ◌*◌, ◌^◌, ◌≤◌, ◌<◌, ◌≡◌, ap, ◌∙◌, inl, inr, arith, parts_disjoint, ℤ, pos_part,
  neg_part, ◌+ℤ◌, ◌-ℤ◌, sum_of, ◌≤ℤ◌, +ℤ_parts, -ℤ_parts, List, [], ◌∷◌, All,
}
use aigold_trader.Decimal.{Decimal, magnitude, scale, aligned, lower, ◌+ᵈ◌, ◌-ᵈ◌, sum_dec}
use aigold_trader.Decimal.Order.{
  rank, rank_def, pos_part-scale, neg_part-scale, pos_part-rank, neg_part-rank, lower_comm,
}
use aigold_trader.Decimal.Sums.Digits.{fix_exact, add_mul, magnitude_parts, below_units}

-- The exponent is at least u, so that the value is a number of units of 10 ^ u.
abbrev pub IsFine : ℕ → Decimal → Type 0
IsFine u d = u ≤ d.exponent

-- The values that fit in 28 digits of units of 10 ^ u.
abbrev pub bound : ℕ → ℕ
bound u = 10 ^ 28 * 10 ^ u

magnitude-sum :
    (x y : ℤ) (m : ℕ)
    → pos_part x + pos_part y < m
    → neg_part x + neg_part y < m
    → magnitude (x +ℤ y) < m
magnitude-sum x y m h k =
    let p = +ℤ_parts x y in
    let q = magnitude_parts (x +ℤ y) in
    elim (parts_disjoint (x +ℤ y)) [
      | inl z ↦ omega (arith, p, q, z)
      | inr z ↦ omega (arith, p, q, z)
    ]

magnitude-difference :
    (x y : ℤ) (m : ℕ)
    → pos_part x + neg_part y < m
    → neg_part x + pos_part y < m
    → magnitude (x -ℤ y) < m
magnitude-difference x y m h k =
    let p = -ℤ_parts x y in
    let q = magnitude_parts (x -ℤ y) in
    elim (parts_disjoint (x -ℤ y)) [
      | inl z ↦ omega (arith, p, q, z)
      | inr z ↦ omega (arith, p, q, z)
    ]

module _ (u : ℕ) (a b : Decimal) (fa : IsFine u a) (fb : IsFine u b) where
  abbrev least : ℕ
  least = lower a.exponent b.exponent

  fine_lower : u ≤ least
  fine_lower = ground arith

  same_unit : 10 ^ lower b.exponent a.exponent ≡ 10 ^ least
  same_unit = ap (λ (n : ℕ). 10 ^ n) (lower_comm b.exponent a.exponent)

  -- A sum of parts in units of the rank is one in units of the aligned coefficients.
  in_units :
      (p q x y : ℕ)
      → p ≡ x * 10 ^ least
      → q ≡ y * 10 ^ lower b.exponent a.exponent
      → p + q < bound u
      → x + y < 10 ^ 28
  in_units p q x y f g h =
      let k : q ≡ y * 10 ^ least = g ∙ ap (λ t. y * t) same_unit in
      below_units (x + y) (10 ^ 28) u least fine_lower (
        let d : (x + y) * 10 ^ least ≡ x * 10 ^ least + y * 10 ^ least = add_mul x y (10 ^ least) in
        omega (arith, d, f, k, h))

  abbrev unaligned : ℤ → Decimal
  unaligned c = record { coefficient = c; exponent = least }

  abbrev Parts : Decimal → ℕ → ℕ → Type 0
  Parts d p n = IsFine u d × (pos_part (rank d) + n ≡ neg_part (rank d) + p)

  sides-worth :
      (c : ℤ) (d : Decimal) (p n : ℕ)
      → d ≡ record { coefficient = c; exponent = least }
      → pos_part c + n ≡ neg_part c + p
      → Parts d (p * 10 ^ least) (n * 10 ^ least)
  sides-worth c d p n e h =
      let k : ℕ = 10 ^ least in
      let r : rank d ≡ scale c k = ap rank e ∙ rank_def (unaligned c) in
      let x : pos_part (rank d) ≡ pos_part c * k = ap pos_part r ∙ pos_part-scale c k in
      let y : neg_part (rank d) ≡ neg_part c * k = ap neg_part r ∙ neg_part-scale c k in
      let z : (pos_part c + n) * k ≡ (neg_part c + p) * k = ap (λ t. t * k) h in
      (
        rw (ap (λ z. z.exponent) e) fine_lower,
        omega (arith, x, y, z, add_mul (pos_part c) n k, add_mul (neg_part c) p k),
      )

  -- A sum that fits in 28 digits of the finest unit is not rounded.
  pub +ᵈ_parts :
      pos_part (rank a) + pos_part (rank b) < bound u
      → neg_part (rank a) + neg_part (rank b) < bound u
      → IsFine u (a +ᵈ b)
        × (pos_part (rank (a +ᵈ b)) + neg_part (rank a) + neg_part (rank b)
            ≡ neg_part (rank (a +ᵈ b)) + pos_part (rank a) + pos_part (rank b))
  unfolding ◌+ᵈ◌
  +ᵈ_parts h k =
      let x = aligned a b in
      let y = aligned b a in
      let pa = pos_part-rank a b in
      let pb = pos_part-rank b a in
      let na = neg_part-rank a b in
      let nb = neg_part-rank b a in
      let small =
        magnitude-sum x y (10 ^ 28) (in_units _ _ _ _ pa pb h) (in_units _ _ _ _ na nb k) in
      let (fine, q) =
        sides-worth (x +ℤ y) (a +ᵈ b) (pos_part x + pos_part y) (neg_part x + neg_part y)
          (fix_exact (x +ℤ y) least small) (omega (arith, +ℤ_parts x y)) in
      let pb2 = pb ∙ ap (λ t. pos_part y * t) same_unit in
      let nb2 = nb ∙ ap (λ t. neg_part y * t) same_unit in
      (
        fine,
        omega (
          arith,
          q,
          pa,
          pb2,
          na,
          nb2,
          add_mul (pos_part x) (pos_part y) (10 ^ least),
          add_mul (neg_part x) (neg_part y) (10 ^ least),
        ),
      )

  -- So too a difference.
  pub -ᵈ_parts :
      pos_part (rank a) + neg_part (rank b) < bound u
      → neg_part (rank a) + pos_part (rank b) < bound u
      → IsFine u (a -ᵈ b)
        × (pos_part (rank (a -ᵈ b)) + neg_part (rank a) + pos_part (rank b)
            ≡ neg_part (rank (a -ᵈ b)) + pos_part (rank a) + neg_part (rank b))
  unfolding ◌-ᵈ◌
  -ᵈ_parts h k =
      let x = aligned a b in
      let y = aligned b a in
      let pa = pos_part-rank a b in
      let pb = pos_part-rank b a in
      let na = neg_part-rank a b in
      let nb = neg_part-rank b a in
      let small =
        magnitude-difference x y (10 ^ 28) (in_units _ _ _ _ pa nb h) (in_units _ _ _ _ na pb k) in
      let (fine, q) =
        sides-worth (x -ℤ y) (a -ᵈ b) (pos_part x + neg_part y) (neg_part x + pos_part y)
          (fix_exact (x -ℤ y) least small) (omega (arith, -ℤ_parts x y)) in
      let pb2 = pb ∙ ap (λ t. pos_part y * t) same_unit in
      let nb2 = nb ∙ ap (λ t. neg_part y * t) same_unit in
      (
        fine,
        omega (
          arith,
          q,
          pa,
          pb2,
          na,
          nb2,
          add_mul (pos_part x) (neg_part y) (10 ^ least),
          add_mul (neg_part x) (pos_part y) (10 ^ least),
        ),
      )

abbrev pub IsNonNegative : Decimal → Type 0
IsNonNegative d = neg_part (rank d) ≡ 0

abbrev pub worth : Decimal → ℕ
worth d = pos_part (rank d)

-- A sum of values that are not negative is not rounded, if it fits in 28 digits of the finest unit.
pub +ᵈ_worth :
    (u : ℕ) (a b : Decimal)
    → IsFine u a
    → IsFine u b
    → IsNonNegative a
    → IsNonNegative b
    → worth a + worth b < bound u
    → IsFine u (a +ᵈ b) × IsNonNegative (a +ᵈ b) × (worth (a +ᵈ b) ≡ worth a + worth b)
+ᵈ_worth u a b fa fb na nb h =
    let (fine, q) = +ᵈ_parts u a b fa fb h (omega (arith, na, nb, h)) in
    let one : IsNonNegative (a +ᵈ b) = elim (parts_disjoint (rank (a +ᵈ b))) [
      | inl z ↦ omega (arith, q, z, na, nb)
      | inr z ↦ z
    ] in
    (fine, one, omega (arith, q, na, nb, one))

pub sum_dec-worth :
    (u : ℕ) (start : Decimal) (ds : List Decimal)
    → IsFine u start
    → IsNonNegative start
    → All (λ d. IsFine u d × IsNonNegative d) ds
    → worth start + sum_of worth ds < bound u
    → IsFine u (sum_dec start ds)
      × IsNonNegative (sum_dec start ds)
      × (worth (sum_dec start ds) ≡ worth start + sum_of worth ds)
unfolding sum_dec
sum_dec-worth u start [] f n a h = (f, n, omega arith)
sum_dec-worth u start (d ∷ ds) f n a h =
    let (fd, nd) = a.0 in
    let (f2, n2, w) = +ᵈ_worth u start d f fd n nd (omega (arith, h)) in
    let (f3, n3, w3) = sum_dec-worth u (start +ᵈ d) ds f2 n2 a.1 (omega (arith, h, w)) in
    (f3, n3, omega (arith, w, w3))

-- What is at most a difference of two values that are not negative adds up to at most the first.
pub -ᵈ_worth :
    (u : ℕ) (a b c : Decimal)
    → IsFine u a
    → IsFine u b
    → IsNonNegative a
    → IsNonNegative b
    → worth a < bound u
    → worth b < bound u
    → rank c ≤ℤ rank (a -ᵈ b)
    → worth c + worth b ≤ worth a + neg_part (rank c)
-ᵈ_worth u a b c fa fb na nb ha hb h =
    let (_, q) = -ᵈ_parts u a b fa fb (omega (arith, ha, nb)) (omega (arith, hb, na)) in
    omega (arith, q, h, na, nb)
