-- ===== src/Risk/Engine/WithinLimit/Exact.antt =====
-- The sum of the effective percentages of an account is exact.
use aigold_trader.Base.{
  All-true, ℕ, ◌+◌, ◌-◌, ◌≤◌, ◌<◌, ◌≡◌, inl, inr, refl, ap, String, Bool, true, false, ◌&&◌, none,
  List, [], ◌∷◌, map, All, filterb, if_ind, if◌then◌else◌, arith, sum_of, parts_disjoint, ◌≤ℤ◌,
  pos_part, neg_part,
}
use aigold_trader.Decimal.{Decimal, origin, zero_dec, ◌+ᵈ◌, ◌-ᵈ◌, min_dec}
use aigold_trader.Decimal.Order.{rank, rank-zero_dec, min_dec-le}
use aigold_trader.Decimal.Sums.{
  worth, IsFine, IsNonNegative, bound, +ᵈ_worth, -ᵈ_parts, sum_dec-worth,
}
use aigold_trader.Risk.Domain.{RiskPolicy}
use aigold_trader.Risk.Capacity.{
  PortfolioExposureSnapshot, available_account, available_symbol, available_direction, bottleneck,
  target_risk,
}
use aigold_trader.Risk.Portfolio.{
  RiskReservationRecord, is_counted, get_active_reservations, risk_sum,
}
use aigold_trader.Risk.Portfolio.Reservations.Shares.{if_le, sum_of-le}
use aigold_trader.Risk.LiveAdapter.{is_own, only_id, is_effective, effective_rows}
use aigold_trader.Risk.Engine.Limit.{sum_of-filterb, sum_of-pcts}

abbrev pub four_places : ℕ
four_places = origin - 4

abbrev pub IsStored : Decimal → Type 0
IsStored d = IsFine four_places d × IsNonNegative d

-- The least of the values is at most what is left of the account's limit.
pub least-le :
    (x : PortfolioExposureSnapshot) (p : RiskPolicy) (target : Decimal)
    → rank (min_dec (target_risk p target) (bottleneck x p)) ≤ℤ rank (available_account x p)
least-le x p target =
    let (_, b) = min_dec-le (target_risk p target) (bottleneck x p) in
    let (c, _) =
      min_dec-le (min_dec (available_account x p) (available_symbol x p))
        (available_direction x p) in
    let (f, _) = min_dec-le (available_account x p) (available_symbol x p) in omega (arith, b, c, f)

-- What a limit leaves beside what is used bounds the sum of what is used and what is taken.
pub fits_within :
    (most open_risk reserved taken : Decimal) (u : ℕ)
    → IsFine u most
    → IsNonNegative most
    → IsFine u open_risk
    → IsNonNegative open_risk
    → IsFine u reserved
    → IsNonNegative reserved
    → worth most < bound u
    → worth open_risk + worth reserved < bound u
    → 0 < worth taken
    → (IsFine u (most -ᵈ (open_risk +ᵈ reserved))
        → worth taken ≤ worth (most -ᵈ (open_risk +ᵈ reserved)))
    → worth open_risk + worth reserved + worth taken ≤ worth most
fits_within most open_risk reserved taken u fm nm fo no_ fr nr hm hs positive h =
    let total = open_risk +ᵈ reserved in
    let (ft, nt, wt) = +ᵈ_worth u open_risk reserved fo fr no_ nr hs in
    let (fine, q) =
      -ᵈ_parts u most total fm ft (omega (arith, hm, nt)) (omega (arith, nm, hs, wt)) in
    let up = h fine in
    elim (parts_disjoint (rank (most -ᵈ total))) [
      | inl z ↦ absurd (omega (arith, z, up, positive))
      | inr z ↦ omega (arith, z, up, q, nm, nt, wt)
    ]

module _ (p : RiskReservationRecord → Bool) where
  filterb-worth :
      (rows : List RiskReservationRecord)
      → sum_of (λ r. worth r.risk_pct) (filterb p rows) ≤ sum_of (λ r. worth r.risk_pct) rows
  filterb-worth rows =
      let less =
        sum_of-le (λ r. if p r then worth r.risk_pct else 0) (λ r. worth r.risk_pct) rows
          (All-true (λ r. if_le (p r) (worth r.risk_pct)) rows) in
      omega (arith, sum_of-filterb p (λ r. worth r.risk_pct) rows, less)

  All-filterb :
      (P : RiskReservationRecord → Type 0) (rows : List RiskReservationRecord)
      → All P rows
      → All P (filterb p rows)
  All-filterb P [] h = tt
  All-filterb P (r ∷ rows) h =
      if_ind (All P) (p r) (r ∷ filterb p rows) (filterb p rows)
        (λ _. (h.0, All-filterb P rows h.1)) (λ _. All-filterb P rows h.1)

IsStored-pcts :
    (rows : List RiskReservationRecord)
    → All (λ r. IsStored r.risk_pct) rows
    → All IsStored (map (λ r. r.risk_pct) rows)
IsStored-pcts [] h = tt
IsStored-pcts (r ∷ rows) h = (h.0, IsStored-pcts rows h.1)

zero-IsFine : IsFine four_places zero_dec
unfolding zero_dec origin
zero-IsFine = omega arith

-- The sum of the effective reservations is exact.
module _ (candidate : String) (rows : List RiskReservationRecord) (account : String) (now : ℕ)
    (stored : All (λ r. IsStored r.risk_pct) rows)
    (small : sum_of (λ r. worth r.risk_pct) rows < bound four_places) where
  abbrev pub effective : List RiskReservationRecord
  effective = effective_rows candidate (get_active_reservations rows account now none)

  abbrev reserved : ℕ
  reserved = sum_of worth (map (λ r. r.risk_pct) effective)

  pub reserved-le : reserved ≤ sum_of (λ r. worth r.risk_pct) rows
  unfolding effective_rows get_active_reservations
  reserved-le =
      let counted = filterb (is_counted account now none) rows in
      let only = is_effective (only_id (filterb (is_own candidate) counted)) in
      omega (
        arith,
        sum_of-pcts (filterb only counted),
        filterb-worth only counted,
        filterb-worth (is_counted account now none) rows,
      )

  effective-IsStored : All (λ r. IsStored r.risk_pct) effective
  unfolding effective_rows get_active_reservations
  effective-IsStored =
      All-filterb _ (λ r. IsStored r.risk_pct) _
        (All-filterb _ (λ r. IsStored r.risk_pct) rows stored)

  pub reserved_exact :
      IsFine four_places (risk_sum effective)
      × IsNonNegative (risk_sum effective)
      × (worth (risk_sum effective) ≡ reserved)
  unfolding risk_sum
  reserved_exact =
      let zero_worth : worth zero_dec ≡ 0 = ap pos_part rank-zero_dec in
      let (f, n, w) =
        sum_dec-worth four_places zero_dec (map (λ r. r.risk_pct) effective) zero-IsFine
          (ap neg_part rank-zero_dec) (IsStored-pcts effective effective-IsStored)
          (omega (arith, zero_worth, reserved-le, small)) in
      (f, n, omega (arith, w, zero_worth))

pub first_of_three : (a b c : Bool) → (a && b && c) ≡ true → a ≡ true
first_of_three true b c h = refl
first_of_three false b c h = cc

-- The open risk of an account whose evaluation is granted is zero.
