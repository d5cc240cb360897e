-- ===== src/Risk/LiveAdapter.antt =====
-- risk/live_adapter.py: the input of the pure policy core from the live state. Provenance is left
-- out, and a quote that is there has been validated.
use text.Mathlib.Text.{◌==◌ as str_eq}
use aigold_trader.Base.{
  ℕ, String, Bool, true, not, Option, none, some, List, [], ◌∷◌, length, filterb, if◌then◌else◌, ℤ,
  pos, negsuc,
}
use aigold_trader.Decimal.{Decimal, zero_dec, ◌+ᵈ◌}
use aigold_trader.Risk.Domain.{
  Raises, ok, raised, validation_error, ◌>>=◌, Direction, RiskPolicy, SymbolSpecification,
  AccountSnapshot,
}
use aigold_trader.Risk.Capacity.{
  PortfolioExposureSnapshot, integrity_ok, duplicate_active_reservation,
}
use aigold_trader.Risk.News.{NewsEvent, NewsState, unavailable, available, Quote}
use aigold_trader.Risk.KillSwitch.{KillSwitchState, KillSwitchStatus}
use aigold_trader.Risk.KillSwitch.Triggers.{is_unhealthy}
use aigold_trader.Risk.PolicyCore.Inputs.{
  KillSwitchInputState, switch_active, switch_inactive, switch_unknown, DataHealthInputState,
  LifecycleStatus, SetupCandidate, TradePlan, PureRiskEvaluationInput,
}
use aigold_trader.Risk.PolicyCore.Evaluate.{PureRiskResult}
use aigold_trader.Risk.Portfolio.{
  RiskReservationRecord, has_duplicate, risk_sum, of_symbol, of_direction, same_candidate,
}

-- The news context of strategies.
pub record NewsContext : Type 0 where
  pub calendar_available : Bool
  pub events : List NewsEvent

abbrev pub pure_news_from_live : Option NewsContext → NewsState
pure_news_from_live none = unavailable
pure_news_from_live (some c) = if c.calendar_available then available c.events else unavailable

-- A count below 0 fails the validation of the snapshot.
abbrev pub count_of : ℤ → Raises ℕ
count_of (pos n) = ok n
count_of (negsuc n) = raised validation_error

unfoldable pub baseline_portfolio_snapshot :
    AccountSnapshot → SetupCandidate → TradePlan → Raises PortfolioExposureSnapshot
baseline_portfolio_snapshot account candidate plan = do
  open_positions ← count_of account.open_positions_count
  ok (record {
    symbol = candidate.symbol;
    direction = plan.direction;
    open_risk_pct = account.open_risk_pct;
    reserved_risk_pct = zero_dec;
    symbol_risk_pct = zero_dec;
    directional_risk_pct = zero_dec;
    active_reservation_count = 0;
    open_position_count = open_positions;
    reservation_integrity = integrity_ok;
  })

-- The snapshot of the effective rows.
unfoldable pub exposure_of :
    List RiskReservationRecord
    → AccountSnapshot
    → String
    → Direction
    → ℕ
    → PortfolioExposureSnapshot
unfolding risk_sum has_duplicate
exposure_of rows account symbol direction open_positions = record {
  symbol = symbol;
  direction = direction;
  open_risk_pct = account.open_risk_pct;
  reserved_risk_pct = risk_sum rows;
  symbol_risk_pct = risk_sum (filterb (of_symbol symbol) rows);
  directional_risk_pct = risk_sum (filterb (of_direction direction) rows);
  active_reservation_count = length rows;
  open_position_count = open_positions;
  reservation_integrity =
      if has_duplicate [] rows then duplicate_active_reservation else integrity_ok;
}

abbrev pub is_own : String → RiskReservationRecord → Bool
is_own candidate r = same_candidate r.candidate_id (some candidate)

-- The one row of the candidate; with more than one, none is excluded.
abbrev pub only_id : List RiskReservationRecord → Option String
only_id (r ∷ []) = some r.id
only_id _ = none

abbrev pub is_effective : Option String → RiskReservationRecord → Bool
is_effective none r = true
is_effective (some id) r = not (str_eq r.id id)

unfoldable pub effective_rows : String → List RiskReservationRecord → List RiskReservationRecord
effective_rows candidate rows =
    filterb (is_effective (only_id (filterb (is_own candidate) rows))) rows

-- The snapshot, and the exposure that the fingerprint takes.
unfoldable pub portfolio_snapshot_from_live :
    AccountSnapshot
    → SetupCandidate
    → TradePlan
    → List RiskReservationRecord
    → Raises (PortfolioExposureSnapshot × Decimal)
unfolding exposure_of effective_rows risk_sum
portfolio_snapshot_from_live account candidate plan rows = do
  open_positions ← count_of account.open_positions_count
  ok (
    exposure_of (effective_rows candidate.id rows) account candidate.symbol plan.direction
        open_positions,
    account.open_risk_pct +ᵈ risk_sum (filterb (λ r. not (is_own candidate.id r)) rows),
  )

abbrev pub input_state : KillSwitchStatus → KillSwitchInputState
input_state KillSwitchStatus.active = switch_active
input_state KillSwitchStatus.inactive = switch_inactive
input_state KillSwitchStatus.unknown = switch_unknown

abbrev pub pure_kill_switch_from_live : KillSwitchState → KillSwitchInputState
pure_kill_switch_from_live s = input_state s.state

-- The arguments that the two inputs of an evaluation share.
pub record Evaluation : Type 0 where
  pub as_of : ℕ
  pub candidate : SetupCandidate
  pub plan : TradePlan
  pub account : AccountSnapshot
  pub policy : RiskPolicy
  pub spec : SymbolSpecification
  pub quote : Option Quote
  pub news : Option NewsContext
  pub requested_risk_pct : Option Decimal
  pub candidate_status : LifecycleStatus
  pub candidate_lifecycle_status : Option LifecycleStatus

abbrev pub or_status : Option LifecycleStatus → LifecycleStatus → LifecycleStatus
or_status none s = s
or_status (some t) s = t

unfoldable pub build_live_pure_input :
    Evaluation
    → KillSwitchInputState
    → DataHealthInputState
    → PortfolioExposureSnapshot
    → PureRiskEvaluationInput
build_live_pure_input e kill_switch data_health portfolio = record {
  as_of = e.as_of;
  candidate = e.candidate;
  trade_plan = e.plan;
  account = e.account;
  policy = e.policy;
  symbol_specification = e.spec;
  quote = e.quote;
  news = pure_news_from_live e.news;
  kill_switch = kill_switch;
  data_health = data_health;
  candidate_lifecycle_status = or_status e.candidate_lifecycle_status e.candidate_status;
  caller_requested_risk_pct = e.requested_risk_pct;
  portfolio = portfolio;
}

abbrev pub quote_is_stale : PureRiskResult → Bool
quote_is_stale r = is_unhealthy r.safety_trigger_facts.quote_safety_state
