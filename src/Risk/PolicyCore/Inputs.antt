-- ===== src/Risk/PolicyCore/Inputs.antt =====
-- `PureRiskEvaluationInput` of risk/policy_domain.py and its validation at the public boundary.
use text.Mathlib.Text.{◌==◌ as str_eq}
use aigold_trader.Base.{
  ℕ, String, Bool, true, false, ◌&&◌, not, Option, none, some, pos, leb_ℤ, ltb, all,
}
use aigold_trader.Decimal.{Decimal, zero_dec, ◌<ᵈ◌, ◌≤ᵈ◌, ◌-ᵈ◌, eq_dec}
use aigold_trader.Risk.Domain.{
  Direction, long, short, RiskPolicy, valid_policy, SymbolSpecification, valid_spec,
  AccountSnapshot, valid_account, validate_equity,
}
use aigold_trader.Risk.Capacity.{PortfolioExposureSnapshot}
use aigold_trader.Risk.News.{NewsState, unavailable, available, Quote}

pub data KillSwitchInputState : Type 0 where
  switch_active switch_inactive switch_unknown : KillSwitchInputState

pub data DataHealthInputState : Type 0 where
  healthy degraded triggered health_unknown : DataHealthInputState

pub data LifecycleStatus : Type 0 where
  detected waiting_confirmation ready blocked_context no_trade : LifecycleStatus
  invalidated expired superseded : LifecycleStatus

pub record SetupCandidate : Type 0 where
  pub id : String
  pub symbol : String
  -- `none` is NO_TRADE
  pub direction : Option Direction

pub record TradePlan : Type 0 where
  pub candidate_id : String
  pub symbol : String
  pub direction : Direction
  pub entry_lower : Decimal
  pub entry_upper : Decimal
  pub stop_loss : Decimal
  pub status : String
  pub expires_at : ℕ

pub record PureRiskEvaluationInput : Type 0 where
  pub as_of : ℕ
  pub candidate : SetupCandidate
  pub trade_plan : TradePlan
  pub account : AccountSnapshot
  pub policy : RiskPolicy
  pub symbol_specification : SymbolSpecification
  pub quote : Option Quote
  pub news : NewsState
  pub kill_switch : KillSwitchInputState
  pub data_health : DataHealthInputState
  pub candidate_lifecycle_status : LifecycleStatus
  pub caller_requested_risk_pct : Option Decimal
  pub portfolio : PortfolioExposureSnapshot

abbrev pub same_direction : Direction → Direction → Bool
same_direction long long = true
same_direction short short = true
same_direction _ _ = false

abbrev pub is_direction : Direction → Option Direction → Bool
is_direction d none = false
is_direction d (some e) = same_direction d e

-- `validate_available_quote`
unfoldable pub valid_quote : Option Quote → Bool
valid_quote none = true
valid_quote (some q) =
    zero_dec <ᵈ q.bid && q.bid ≤ᵈ q.ask && zero_dec ≤ᵈ q.spread && eq_dec q.spread (q.ask -ᵈ q.bid)

unfoldable pub valid_exposure : PortfolioExposureSnapshot → Bool
valid_exposure x =
    zero_dec ≤ᵈ x.open_risk_pct
    && zero_dec ≤ᵈ x.reserved_risk_pct
    && zero_dec ≤ᵈ x.symbol_risk_pct
    && zero_dec ≤ᵈ x.directional_risk_pct

-- `event.available_at is not None and event.available_at > as_of`
abbrev pub too_early : ℕ → Option ℕ → Bool
too_early now none = false
too_early now (some t) = ltb now t

abbrev pub known_news : ℕ → NewsState → Bool
known_news now unavailable = true
known_news now (available events) = all (λ e. not (too_early now e.available_at)) events

unfoldable pub validate_semantic_links : PureRiskEvaluationInput → Bool
validate_semantic_links i =
    str_eq i.trade_plan.candidate_id i.candidate.id
    && str_eq i.trade_plan.symbol i.candidate.symbol
    && is_direction i.trade_plan.direction i.candidate.direction
    && str_eq i.portfolio.symbol i.candidate.symbol
    && same_direction i.portfolio.direction i.trade_plan.direction
    && str_eq i.symbol_specification.symbol i.candidate.symbol
    && eq_dec i.portfolio.open_risk_pct i.account.open_risk_pct
    && leb_ℤ (pos i.portfolio.open_position_count) i.account.open_positions_count
    && leb_ℤ i.account.open_positions_count (pos i.portfolio.open_position_count)
    && known_news i.as_of i.news

unfoldable pub valid_input : PureRiskEvaluationInput → Bool
valid_input i =
    valid_account i.account
    && valid_policy i.policy
    && valid_spec i.symbol_specification
    && valid_quote i.quote
    && valid_exposure i.portfolio
    && validate_semantic_links i

-- The snapshot that validation rebuilds: the peak of the account is raised to its equity.
abbrev pub canonical : PureRiskEvaluationInput → PureRiskEvaluationInput
canonical i = record i { account = validate_equity i.account }
