-- ===== src/Risk/Capacity.antt =====
-- `_portfolio_capacity` of risk/policy_core.py: what the limits of account, symbol and direction
-- leave for one more trade. The reasons are given by their codes.
pub mod Limits
pub mod Within
use aigold_trader.Base.{
  ℕ, ◌+◌, Bool, true, false, Option, none, some, is_some, String, leb, if◌then◌else◌, pos,
}
use aigold_trader.Decimal.{
  Decimal, of_int, zero_dec, ◌<ᵈ◌, ◌≤ᵈ◌, ◌+ᵈ◌, ◌-ᵈ◌, ◌*ᵈ◌, div_dec, min_dec, quantize,
}
use aigold_trader.Risk.Domain.{Raises, ok, ◌>>=◌, lift, Direction, RiskPolicy, AccountSnapshot}
use aigold_trader.Risk.Cooldown.{is_pure_cooldown_active}

pub data PureRiskCode : Type 0 where
  approved approved_reduced position_sized kill_switch_active kill_switch_unknown : PureRiskCode
  data_health_triggered data_health_unknown news_unavailable news_blackout : PureRiskCode
  news_pre_reduction news_post_warning news_post_spread_blocked candidate_terminal : PureRiskCode
  account_stale equity_non_positive daily_loss_limit weekly_loss_limit drawdown_limit : PureRiskCode
  cooldown_active symbol_spec_invalid symbol_spec_stale quote_unavailable quote_stale : PureRiskCode
  spread_excessive plan_status_invalid plan_expired reservation_duplicate : PureRiskCode
  reservation_integrity_unknown unattributed_open_risk concurrent_limit account_capacity :
      PureRiskCode
  symbol_capacity directional_capacity portfolio_reduction per_trade_reduction : PureRiskCode
  position_sizing_failed : PureRiskCode

pub data ReservationIntegrity : Type 0 where
  integrity_ok duplicate_active_reservation integrity_unknown : ReservationIntegrity

pub record PortfolioExposureSnapshot : Type 0 where
  pub symbol : String
  pub direction : Direction
  pub open_risk_pct : Decimal
  pub reserved_risk_pct : Decimal
  pub symbol_risk_pct : Decimal
  pub directional_risk_pct : Decimal
  pub active_reservation_count : ℕ
  pub open_position_count : ℕ
  pub reservation_integrity : ReservationIntegrity

pub record CapacityResult : Type 0 where
  pub allowed : Bool
  pub approved_risk_pct : Decimal
  pub approved_risk_amount : Decimal
  pub exposure_before : Decimal
  pub exposure_after : Decimal
  pub code : Option PureRiskCode
  pub is_reduced : Bool

-- `_risk_amount`: (risk_pct / 100 * equity), to cents.
unfoldable pub risk_amount : Decimal → Decimal → Raises Decimal
risk_amount risk_pct equity = do
  part ← lift (div_dec risk_pct (of_int (pos 100)))
  lift (quantize 2 (part *ᵈ equity))

abbrev pub no_capacity : Decimal → PureRiskCode → CapacityResult
no_capacity total code = record {
  allowed = false;
  approved_risk_pct = zero_dec;
  approved_risk_amount = zero_dec;
  exposure_before = total;
  exposure_after = total;
  code = some code;
  is_reduced = false;
}

-- What the reservations and the open risk rule out before any limit is looked at.
abbrev pub integrity_refusal : ReservationIntegrity → Option PureRiskCode
integrity_refusal integrity_ok = none
integrity_refusal duplicate_active_reservation = some reservation_duplicate
integrity_refusal integrity_unknown = some reservation_integrity_unknown

abbrev pub or_else : Option PureRiskCode → Option PureRiskCode → Option PureRiskCode
or_else (some c) rest = some c
or_else none rest = rest

abbrev pub available_account : PortfolioExposureSnapshot → RiskPolicy → Decimal
available_account x p = p.max_account_risk_pct -ᵈ (x.open_risk_pct +ᵈ x.reserved_risk_pct)

abbrev pub available_symbol : PortfolioExposureSnapshot → RiskPolicy → Decimal
available_symbol x p = p.max_symbol_risk_pct -ᵈ x.symbol_risk_pct

abbrev pub available_direction : PortfolioExposureSnapshot → RiskPolicy → Decimal
available_direction x p = p.max_directional_risk_pct -ᵈ x.directional_risk_pct

-- The refusals in order, up to the one for a full direction.
unfoldable pub capacity_refusal :
    PortfolioExposureSnapshot → RiskPolicy → AccountSnapshot → ℕ → Option PureRiskCode
capacity_refusal x p account now =
    if (is_pure_cooldown_active account p now).0
    then some cooldown_active
    else or_else (integrity_refusal x.reservation_integrity) (
        if zero_dec <ᵈ x.open_risk_pct
        then some unattributed_open_risk
        else if leb p.max_concurrent_trades (x.active_reservation_count + x.open_position_count)
        then some concurrent_limit
        else if available_account x p <ᵈ p.min_risk_per_trade_pct
        then some account_capacity
        else if available_symbol x p <ᵈ p.min_risk_per_trade_pct
        then some symbol_capacity
        else if available_direction x p <ᵈ p.min_risk_per_trade_pct
        then some directional_capacity
        else none)

abbrev pub bottleneck : PortfolioExposureSnapshot → RiskPolicy → Decimal
bottleneck x p =
    min_dec (min_dec (available_account x p) (available_symbol x p)) (available_direction x p)

abbrev pub target_risk : RiskPolicy → Decimal → Decimal
target_risk p requested = min_dec requested p.max_risk_per_trade_pct

-- The approved percentage to four places with the code of a reduction; `none` where the bottleneck
-- is below the least risk of a trade.
unfoldable pub approved_pct :
    PortfolioExposureSnapshot
    → RiskPolicy
    → Decimal
    → Raises (Option (Decimal × Option PureRiskCode))
approved_pct x p requested =
    if bottleneck x p <ᵈ target_risk p requested
    then (if p.min_risk_per_trade_pct ≤ᵈ bottleneck x p
        then (do
          pct ← lift (quantize 4 (bottleneck x p))
          ok (some (pct, some portfolio_reduction)))
        else ok none)
    else do
      pct ← lift (quantize 4 (target_risk p requested))
      ok (some (pct, if pct <ᵈ requested then some per_trade_reduction else none))

abbrev pub granted : Decimal → Decimal → Decimal → Option PureRiskCode → CapacityResult
granted total pct amount code = record {
  allowed = true;
  approved_risk_pct = pct;
  approved_risk_amount = amount;
  exposure_before = total;
  exposure_after = total +ᵈ pct;
  code = code;
  is_reduced = is_some code;
}

unfoldable pub grant :
    Decimal → Decimal → Option (Decimal × Option PureRiskCode) → Raises CapacityResult
grant total equity none = ok (no_capacity total account_capacity)
grant total equity (some (pct, code)) = do
  amount ← risk_amount pct equity
  ok (granted total pct amount code)

abbrev pub by_refusal :
    Option PureRiskCode → Decimal → Raises CapacityResult → Raises CapacityResult
by_refusal (some c) total rest = ok (no_capacity total c)
by_refusal none total rest = rest

unfoldable pub portfolio_capacity :
    PortfolioExposureSnapshot → RiskPolicy → AccountSnapshot → Decimal → ℕ → Raises CapacityResult
portfolio_capacity x p account requested now =
    let total = x.open_risk_pct +ᵈ x.reserved_risk_pct in
    let rest = (do chosen ← approved_pct x p requested; grant total account.equity chosen) in
    by_refusal (capacity_refusal x p account now) total rest
