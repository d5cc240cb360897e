-- ===== src/Risk/PolicyCore/Gates.antt =====
-- The checks of `_evaluate_prepared_pure_risk` in risk/policy_core.py that come before any capacity
-- is looked at, each with its code.
use text.Mathlib.Text.{◌==◌ as str_eq}
use aigold_trader.Base.{
  ℕ, ◌+◌, Bool, true, false, ◌&&◌, ◌||◌, not, Option, none, some, List, [], ◌∷◌, ◌++◌, pos, ltb,
  leb, if◌then◌else◌,
}
use aigold_trader.Decimal.{Decimal, of_int, zero_dec, ◌<ᵈ◌, ◌≤ᵈ◌, ◌-ᵈ◌, ◌*ᵈ◌, div_dec, abs_dec}
use aigold_trader.Risk.Domain.{Raises, ok, ◌>>=◌, lift, RiskPolicy, AccountSnapshot, seconds}
use aigold_trader.Risk.Cooldown.{is_pure_cooldown_active}
use aigold_trader.Risk.Capacity.{
  PureRiskCode, kill_switch_active, kill_switch_unknown, data_health_triggered, data_health_unknown,
  candidate_terminal, account_stale, equity_non_positive, daily_loss_limit, weekly_loss_limit,
  drawdown_limit, cooldown_active, symbol_spec_invalid, symbol_spec_stale, unattributed_open_risk,
  quote_unavailable, quote_stale, spread_excessive, plan_status_invalid, plan_expired,
}
use aigold_trader.Risk.News.{Quote}
use aigold_trader.Risk.PolicyCore.Inputs.{
  KillSwitchInputState, switch_active, switch_inactive, switch_unknown, DataHealthInputState,
  triggered, health_unknown, LifecycleStatus, invalidated, expired, superseded,
  PureRiskEvaluationInput,
}

pub data MarketSafetyState : Type 0 where
  available_safe market_unavailable stale spread_blocked post_news_spread_blocked :
      MarketSafetyState

-- `quote_age > policy.quote_freshness_seconds` is read as `timestamp + freshness < as_of`.
unfoldable pub quote_safety : RiskPolicy → ℕ → Option Quote → MarketSafetyState
quote_safety p now none = market_unavailable
quote_safety p now (some q) =
    if ltb (q.timestamp + seconds p.quote_freshness_seconds) now
    then stale
    else if p.max_spread_absolute <ᵈ q.spread
    then spread_blocked
    else available_safe

abbrev pub quote_code : MarketSafetyState → Option PureRiskCode
quote_code market_unavailable = some quote_unavailable
quote_code stale = some quote_stale
quote_code spread_blocked = some spread_excessive
quote_code _ = none

-- A loss reaches the limit, a percentage of the equity.
unfoldable pub loss_breach : Decimal → Decimal → Decimal → Raises Bool
loss_breach pnl limit equity =
    if pnl <ᵈ zero_dec
    then (do part ← lift (div_dec limit (of_int (pos 100))); ok (part *ᵈ equity ≤ᵈ abs_dec pnl))
    else ok false

unfoldable pub drawdown_breach : AccountSnapshot → RiskPolicy → Raises Bool
drawdown_breach a p =
    if zero_dec <ᵈ a.peak_equity && a.equity <ᵈ a.peak_equity
    then (do
      ratio ← lift (div_dec (a.peak_equity -ᵈ a.equity) a.peak_equity)
      ok (p.max_drawdown_pct ≤ᵈ ratio *ᵈ of_int (pos 100)))
    else ok false

abbrev pub kill_switch_code : KillSwitchInputState → Option PureRiskCode
kill_switch_code switch_active = some kill_switch_active
kill_switch_code switch_unknown = some kill_switch_unknown
kill_switch_code switch_inactive = none

abbrev pub data_health_code : DataHealthInputState → Option PureRiskCode
data_health_code triggered = some data_health_triggered
data_health_code health_unknown = some data_health_unknown
data_health_code _ = none

abbrev pub is_terminal : LifecycleStatus → Bool
is_terminal invalidated = true
is_terminal expired = true
is_terminal superseded = true
is_terminal _ = false

-- The three limits on losses, in the order of their computation.
pub record Breaches : Type 0 where
  pub daily_loss_breach : Bool
  pub weekly_loss_breach : Bool
  pub max_drawdown_breach : Bool

unfoldable pub breaches : AccountSnapshot → RiskPolicy → Raises Breaches
breaches a p = do
  daily ← loss_breach a.daily_realized_pnl p.daily_loss_limit_pct a.equity
  weekly ← loss_breach a.weekly_realized_pnl p.weekly_loss_limit_pct a.equity
  drawdown ← drawdown_breach a p
  ok (record {
    daily_loss_breach = daily;
    weekly_loss_breach = weekly;
    max_drawdown_breach = drawdown;
  })

-- A gate that is shut adds its code.
unfoldable pub gate : Bool → PureRiskCode → List PureRiskCode → List PureRiskCode
gate shut code rest = if shut then code ∷ rest else rest

unfoldable pub gate_code : Option PureRiskCode → List PureRiskCode → List PureRiskCode
gate_code (some code) rest = code ∷ rest
gate_code none rest = rest

abbrev pub spec_invalid : PureRiskEvaluationInput → Bool
spec_invalid i =
    let spec = i.symbol_specification in
    spec.tick_size ≤ᵈ zero_dec || spec.tick_value ≤ᵈ zero_dec || spec.contract_size ≤ᵈ zero_dec

-- The gates behind the news.
unfoldable pub later_gates : PureRiskEvaluationInput → Breaches → List PureRiskCode
later_gates i b = gate (is_terminal i.candidate_lifecycle_status) candidate_terminal (
    gate (ltb (i.account.as_of + seconds i.policy.account_freshness_seconds) i.as_of) account_stale
      (gate (i.account.equity ≤ᵈ zero_dec) equity_non_positive (
        gate b.daily_loss_breach daily_loss_limit (
          gate b.weekly_loss_breach weekly_loss_limit (
            gate b.max_drawdown_breach drawdown_limit (
              gate (is_pure_cooldown_active i.account i.policy i.as_of).0 cooldown_active (
                gate (spec_invalid i) symbol_spec_invalid (
                  gate
                    (ltb
                      (i.symbol_specification.observed_at
                        + seconds i.policy.symbol_spec_freshness_seconds)
                      i.as_of)
                    symbol_spec_stale
                    (gate (zero_dec <ᵈ i.account.open_risk_pct) unattributed_open_risk (
                      gate_code (quote_code (quote_safety i.policy i.as_of i.quote)) (
                        gate (not (str_eq i.trade_plan.status "SUGGESTION_ONLY"))
                          plan_status_invalid
                          (gate (leb i.trade_plan.expires_at i.as_of) plan_expired []))))))))))))

-- All the codes that block, those of the news between the two parts.
unfoldable pub blocking_codes :
    PureRiskEvaluationInput → List PureRiskCode → Breaches → List PureRiskCode
blocking_codes i news b =
    gate_code (kill_switch_code i.kill_switch)
      (gate_code (data_health_code i.data_health) (news ++ later_gates i b))
