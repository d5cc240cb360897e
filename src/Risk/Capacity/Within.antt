-- ===== src/Risk/Capacity/Within.antt =====
-- Approved percentages of risk/policy_core.py stay within the limits.
use aigold_trader.Base.{ℕ, ◌+◌, ◌≤◌, ◌≡◌, ◌≢◌, inl, inr, Bool, true, false, arith, ◌≤ℤ◌}
use aigold_trader.Decimal.{Decimal, origin, ◌≤ᵈ◌, min_dec}
use aigold_trader.Decimal.Order.{rank, rank→le, min_dec-le}
use aigold_trader.Decimal.Exact.{quantize_exact}
use aigold_trader.Risk.Domain.{ok, RiskPolicy, AccountSnapshot}
use aigold_trader.Risk.Capacity.{
  PortfolioExposureSnapshot, CapacityResult, portfolio_capacity, available_account,
  available_symbol, available_direction, bottleneck, target_risk,
}
use aigold_trader.Risk.Capacity.Limits.{capacity_outcome}

module _ (x : PortfolioExposureSnapshot) (p : RiskPolicy) (requested pct : Decimal)
    (same : rank pct ≡ rank (min_dec (target_risk p requested) (bottleneck x p))) where
  -- What the least value is below, the approved one is below.
  below :
      (c : Decimal)
      → rank (min_dec (target_risk p requested) (bottleneck x p)) ≤ℤ rank c
      → (pct ≤ᵈ c) ≡ true
  below c h = rank→le pct c (rw same h)

  all_below :
      ((pct ≤ᵈ requested) ≡ true)
      × ((pct ≤ᵈ p.max_risk_per_trade_pct) ≡ true)
      × ((pct ≤ᵈ available_account x p) ≡ true)
      × ((pct ≤ᵈ available_symbol x p) ≡ true)
      × ((pct ≤ᵈ available_direction x p) ≡ true)
  all_below =
      let (a, b) = min_dec-le (target_risk p requested) (bottleneck x p) in
      let (c, d) = min_dec-le requested p.max_risk_per_trade_pct in
      let (e, f) =
        min_dec-le (min_dec (available_account x p) (available_symbol x p))
          (available_direction x p) in
      let (g, k) = min_dec-le (available_account x p) (available_symbol x p) in
      (
        below requested (omega (arith, a, c)),
        below p.max_risk_per_trade_pct (omega (arith, a, d)),
        below (available_account x p) (omega (arith, b, e, g)),
        below (available_symbol x p) (omega (arith, b, e, k)),
        below (available_direction x p) (omega (arith, b, f)),
      )

-- Where the least of the request, the limit of a trade and what the limits leave has at most four
-- decimal places, an approved percentage exceeds none of them: neither the request, nor the limit
-- of one trade, nor what is left of the limits of account, symbol and direction.
pub approved_within :
    (x : PortfolioExposureSnapshot) (p : RiskPolicy) (account : AccountSnapshot)
    (requested : Decimal) (now : ℕ) (r : CapacityResult)
    → origin ≤ (min_dec (target_risk p requested) (bottleneck x p)).exponent + 4
    → portfolio_capacity x p account requested now ≡ ok r
    → r.allowed ≡ true
    → ((r.approved_risk_pct ≤ᵈ requested) ≡ true)
      × ((r.approved_risk_pct ≤ᵈ p.max_risk_per_trade_pct) ≡ true)
      × ((r.approved_risk_pct ≤ᵈ available_account x p) ≡ true)
      × ((r.approved_risk_pct ≤ᵈ available_symbol x p) ≡ true)
      × ((r.approved_risk_pct ≤ᵈ available_direction x p) ≡ true)
approved_within x p account requested now r places e given =
    elim (capacity_outcome x p account now requested r e) [
      | inl z ↦ absurd (conflict r.allowed given z.0)
      | inr z ↦ all_below x p requested r.approved_risk_pct (
          quantize_exact 4 (min_dec (target_risk p requested) (bottleneck x p)) r.approved_risk_pct
            places (z.2))
    ]
  where
    conflict : (b : Bool) → b ≡ true → b ≢ false
    conflict b h k = cc
