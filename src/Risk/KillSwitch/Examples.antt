-- ===== src/Risk/KillSwitch/Examples.antt =====
-- The kill switch at concrete rows.
use aigold_trader.Base.{
  arith, ℕ, ◌+◌, ◌≡◌, ◌⊎◌, refl, String, true, false, ◌&&◌, none, some, is_some, Option, List, [],
  ◌∷◌, leb, if◌then◌else◌, All,
}
use aigold_trader.Decimal.{dec, of_int, zero_dec, ◌<ᵈ◌}
use aigold_trader.Risk.Domain.{ok}
use aigold_trader.Risk.PolicyCore.Gates.{market_unavailable}
use aigold_trader.Risk.PolicyCore.Inputs.{healthy}
use aigold_trader.Risk.PolicyCore.Evaluate.{SafetyTriggerFacts}
use aigold_trader.Risk.KillSwitch.{
  KillSwitchState, active, inactive, unknown, manual, automatic_drawdown, get_state, latest,
  activate, clear, check,
}
use aigold_trader.Risk.KillSwitch.Latest.{IsKnown, activate_in_effect, clear_in_effect}
use aigold_trader.Risk.KillSwitch.Triggers.{
  Database, Call, find_row, get_data_health_failures, ensure_row, update_row, trigger, data_health,
  or_trigger, evaluate_automatic_triggers,
}
use aigold_trader.Risk.KillSwitch.Triggers.Counting.{data_health_counts}
use aigold_trader.Risk.KillSwitch.Triggers.Streak.{
  Evaluated, ReadsActive, evaluate_each, streak_activates,
}
use aigold_trader.Risk.KillSwitch.Triggers.Effect.{triggers_in_effect}
use aigold_trader.Risk.Examples.{policy, account}

-- Cleared at 100, by a clock that was ahead of the present one.
abbrev cleared : KillSwitchState
cleared = record {
  id = "k1";
  state = inactive;
  trigger_type = manual;
  activated_at = 100;
  activated_by = "admin";
  cleared_at = some 100;
  cleared_by = some "admin";
  policy_version = "1";
}

abbrev rows : List KillSwitchState
rows = cleared ∷ []

known : All IsKnown rows
known = ((λ e. cc), tt)

empty_is_unknown : ((check "1" 5 []).0 ≡ true) × ((check "1" 5 []).1.state ≡ unknown)
unfolding check get_state latest
empty_is_unknown = (refl, refl)

activated_behind : (activate "1" 50 "k2" manual "admin" "1" rows).0.activated_at ≡ 101
unfolding activate get_state latest
activated_behind = refl

activate_in_effect_example :
    let done = activate "1" 50 "k2" manual "admin" "1" rows in
    (done.0.state ≡ active) × (get_state "1" 60 done.1 ≡ done.0) × All IsKnown done.1
activate_in_effect_example = activate_in_effect "1" 50 rows known "k2" manual "admin" "1" "1" 60

abbrev pressed : List KillSwitchState
pressed = record cleared { state = active; cleared_at = none; cleared_by = none } ∷ []

pressed-IsKnown : All IsKnown pressed
pressed-IsKnown = ((λ e. cc), tt)

clear_in_effect_example :
    let done = clear "1" 50 "k2" "admin" pressed in
    (done.0.state ≡ inactive) × ((get_state "1" 60 done.1).state ≡ inactive) × All IsKnown done.1
clear_in_effect_example = clear_in_effect "1" 50 pressed pressed-IsKnown "k2" "admin" "1" 60

abbrev call : Call
call = record { default_version = "1"; now = 200; record_id = "k2"; version = "1" }

-- Two failures so far, where three activate the switch.
abbrev db : Database
db = record {
  kill_switch_records = rows;
  data_health_records =
      record {
        provider = "mt5";
        source = "demo";
        consecutive_failures = 2;
        last_failure_at = some 150;
        last_healthy_at = none;
        updated_at = 150;
      }
      ∷ [];
}

data_health_counts_example :
    let (fired, db') = data_health call policy true "mt5" "demo" db in
    let before = get_data_health_failures "mt5" "demo" db.data_health_records in
    (get_data_health_failures "mt5" "demo" db'.data_health_records
      ≡ (if true then before + 1 else 0))
    × (is_some fired ≡ (true && leb policy.data_health_consecutive_failures (before + 1)))
data_health_counts_example = data_health_counts "mt5" "demo" call policy true db

third_failure : is_some (data_health call policy true "mt5" "demo" db).0 ≡ true
unfolding data_health trigger ensure_row find_row update_row get_data_health_failures
third_failure = refl

abbrev facts : SafetyTriggerFacts
facts = record {
  breached = record {
    daily_loss_breach = false;
    weekly_loss_breach = false;
    max_drawdown_breach = true;
  };
  quote_safety_state = market_unavailable;
  data_health_state = healthy;
}

abbrev after : Option KillSwitchState × Database
after = trigger call automatic_drawdown "system_risk_engine" db

drawdown_fires :
    evaluate_automatic_triggers call account policy false "mt5" "demo" (some facts) db ≡ ok after
unfolding evaluate_automatic_triggers or_trigger dec of_int zero_dec ◌<ᵈ◌
drawdown_fires = refl

triggers_in_effect_example :
    ((after.0 ≡ none) × (after.1.kill_switch_records ≡ rows))
    ⊎ ((s : KillSwitchState) × (after.0 ≡ some s)
        × (s.state ≡ active)
        × ((d : String) (now : ℕ) → get_state d now after.1.kill_switch_records ≡ s))
triggers_in_effect_example =
    triggers_in_effect call db known account policy false "mt5" "demo" (some facts) after
      drawdown_fires

-- Three calls with no market, from no failure on.
abbrev no_market : Evaluated
no_market = record {
  call = call;
  account = account;
  quote_stale = true;
  facts = record facts {
    breached = record {
      daily_loss_breach = false;
      weekly_loss_breach = false;
      max_drawdown_breach = false;
    };
  };
}

abbrev quiet : Database
quiet = record db { data_health_records = [] }

streak_activates_example :
    (after : Database) × (evaluate_each policy "mt5" "demo"
        (no_market ∷ no_market ∷ no_market ∷ [])
        quiet
      ≡ ok after)
    × ReadsActive after.kill_switch_records
unfolding get_data_health_failures find_row
streak_activates_example =
    streak_activates policy "mt5" "demo" no_market (no_market ∷ no_market ∷ []) quiet refl
      (refl, (refl, (refl, tt))) known (omega arith)
