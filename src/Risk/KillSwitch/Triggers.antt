-- ===== src/Risk/KillSwitch/Triggers.antt =====
-- `evaluate_automatic_triggers` of risk/kill_switch.py with the counters of `data_health_records`.
-- The two dialects of the upsert have one model.
pub mod Counting
pub mod Effect
pub mod Streak
use Prim.Native.String.{count}
use text.Mathlib.Text.{◌==◌ as str_eq}
use aigold_trader.Base.{
  ℕ, ◌+◌, String, Bool, true, false, ◌&&◌, Option, none, some, List, [], ◌∷◌, ◌++◌, ltb, leb, pos,
  if◌then◌else◌,
}
use aigold_trader.Decimal.{of_int, zero_dec, ◌<ᵈ◌, ◌≤ᵈ◌, ◌*ᵈ◌, div_dec, abs_dec}
use aigold_trader.Risk.Domain.{
  Raises, ok, raised, validation_error, ◌>>=◌, lift, RiskPolicy, AccountSnapshot,
}
use aigold_trader.Risk.PolicyCore.Gates.{
  MarketSafetyState, market_unavailable, stale, spread_blocked, drawdown_breach,
}
use aigold_trader.Risk.PolicyCore.Evaluate.{SafetyTriggerFacts}
use aigold_trader.Risk.KillSwitch.{
  KillSwitchTrigger, automatic_daily_loss, automatic_drawdown, automatic_data_health,
  KillSwitchState, activate,
}

pub record DataHealthRow : Type 0 where
  pub provider : String
  pub source : String
  pub consecutive_failures : ℕ
  pub last_failure_at : Option ℕ
  pub last_healthy_at : Option ℕ
  pub updated_at : ℕ

pub record Database : Type 0 where
  pub kill_switch_records : List KillSwitchState
  pub data_health_records : List DataHealthRow

abbrev pub is_row : String → String → DataHealthRow → Bool
is_row provider source r = str_eq r.provider provider && str_eq r.source source

unfoldable pub find_row : String → String → List DataHealthRow → Option DataHealthRow
find_row provider source [] = none
find_row provider source (r ∷ rows) =
    if is_row provider source r then some r else find_row provider source rows

abbrev pub failures_of : Option DataHealthRow → ℕ
failures_of none = 0
failures_of (some r) = r.consecutive_failures

unfoldable pub get_data_health_failures : String → String → List DataHealthRow → ℕ
get_data_health_failures provider source rows = failures_of (find_row provider source rows)

-- `data_health_record_id` accepts a component of 1 to 64 characters.
abbrev pub valid_component : String → Bool
valid_component s = ltb 0 (count s) && leb (count s) 64

abbrev pub fresh_row : String → String → ℕ → DataHealthRow
fresh_row provider source now = record {
  provider = provider;
  source = source;
  consecutive_failures = 0;
  last_failure_at = none;
  last_healthy_at = some now;
  updated_at = now;
}

-- The upsert that leaves an existing row.
abbrev pub insert_missing :
    Option DataHealthRow → DataHealthRow → List DataHealthRow → List DataHealthRow
insert_missing none row rows = rows ++ row ∷ []
insert_missing (some r) row rows = rows

unfoldable pub ensure_row : String → String → ℕ → List DataHealthRow → List DataHealthRow
ensure_row provider source now rows =
    insert_missing (find_row provider source rows) (fresh_row provider source now) rows

abbrev pub failed : ℕ → DataHealthRow → DataHealthRow
failed now r = record r {
  consecutive_failures = r.consecutive_failures + 1;
  last_failure_at = some now;
  updated_at = now;
}

abbrev pub recovered : ℕ → DataHealthRow → DataHealthRow
recovered now r =
    if ltb 0 r.consecutive_failures
    then record r { consecutive_failures = 0; last_healthy_at = some now; updated_at = now }
    else r

unfoldable pub update_row :
    String → String → (DataHealthRow → DataHealthRow) → List DataHealthRow → List DataHealthRow
update_row provider source f [] = []
update_row provider source f (r ∷ rows) =
    if is_row provider source r then f r ∷ rows else r ∷ update_row provider source f rows

-- abs(daily_realized_pnl) / equity * 100 >= limit
unfoldable pub own_daily_breach : AccountSnapshot → RiskPolicy → Raises Bool
own_daily_breach a p =
    if a.daily_realized_pnl <ᵈ zero_dec && zero_dec <ᵈ a.equity
    then (do
      ratio ← lift (div_dec (abs_dec a.daily_realized_pnl) a.equity)
      ok (p.daily_loss_limit_pct ≤ᵈ ratio *ᵈ of_int (pos 100)))
    else ok false

abbrev pub daily_fact : Option SafetyTriggerFacts → AccountSnapshot → RiskPolicy → Raises Bool
daily_fact none a p = own_daily_breach a p
daily_fact (some f) a p = ok f.breached.daily_loss_breach

abbrev pub drawdown_fact : Option SafetyTriggerFacts → AccountSnapshot → RiskPolicy → Raises Bool
drawdown_fact none a p = drawdown_breach a p
drawdown_fact (some f) a p = ok f.breached.max_drawdown_breach

abbrev pub is_unhealthy : MarketSafetyState → Bool
is_unhealthy market_unavailable = true
is_unhealthy stale = true
is_unhealthy spread_blocked = true
is_unhealthy _ = false

abbrev pub stale_fact : Option SafetyTriggerFacts → Bool → Bool
stale_fact none quote_stale = quote_stale
stale_fact (some f) quote_stale = is_unhealthy f.quote_safety_state

-- What a call has at hand: the default version, the clock, the id of a new row, and the version of
-- the policy.
pub record Call : Type 0 where
  pub default_version : String
  pub now : ℕ
  pub record_id : String
  pub version : String

unfoldable pub trigger :
    Call → KillSwitchTrigger → String → Database → Option KillSwitchState × Database
trigger c t by db =
    let (state, rows) =
      activate c.default_version c.now c.record_id t by c.version db.kill_switch_records in
    (some state, record db { kill_switch_records = rows })

-- The counter of one provider and source; the switch is activated at the threshold.
unfoldable pub data_health :
    Call → RiskPolicy → Bool → String → String → Database → Option KillSwitchState × Database
data_health c p quote_stale provider source db =
    let rows = ensure_row provider source c.now db.data_health_records in
    if quote_stale
    then (let after = update_row provider source (failed c.now) rows in
        if leb p.data_health_consecutive_failures (get_data_health_failures provider source after)
        then trigger c automatic_data_health "system_data_health"
            (record db { data_health_records = after })
        else (none, record db { data_health_records = after }))
    else (
      none,
      record db { data_health_records = update_row provider source (recovered c.now) rows },
    )

unfoldable pub health_trigger :
    Call
    → RiskPolicy
    → Bool
    → String
    → String
    → Database
    → Raises (Option KillSwitchState × Database)
health_trigger c p quote_stale provider source db =
    if valid_component provider && valid_component source
    then ok (data_health c p quote_stale provider source db)
    else raised validation_error

-- A trigger whose condition holds, or what comes after it.
unfoldable pub or_trigger :
    Bool
    → Option KillSwitchState × Database
    → Raises (Option KillSwitchState × Database)
    → Raises (Option KillSwitchState × Database)
or_trigger breach fired rest = if breach then ok fired else rest

-- Daily loss, then drawdown, then the health of the data: the first that fires ends the call.
unfoldable pub evaluate_automatic_triggers :
    Call
    → AccountSnapshot
    → RiskPolicy
    → Bool
    → String
    → String
    → Option SafetyTriggerFacts
    → Database
    → Raises (Option KillSwitchState × Database)
evaluate_automatic_triggers c a p quote_stale provider source facts db =
    let health = health_trigger c p (stale_fact facts quote_stale) provider source db in
    let by : String = "system_risk_engine" in
    let later = drawdown_fact facts a p >>= λ drawdown.
    or_trigger (drawdown && zero_dec <ᵈ a.peak_equity) (trigger c automatic_drawdown by db)
      health in
    daily_fact facts a p >>= λ daily.
    or_trigger (daily && zero_dec <ᵈ a.equity) (trigger c automatic_daily_loss by db) later
