-- ===== src/Risk/Examples/Live/Stored.antt =====
-- The tables of an account, and the decision of risk/engine.py on them.
use aigold_trader.Base.{true, none, some, [], ◌∷◌, pos}
use aigold_trader.Decimal.{dec, of_int}
use aigold_trader.Risk.Domain.{approved, long}
use aigold_trader.Risk.KillSwitch
use aigold_trader.Risk.KillSwitch.{KillSwitchState, latest, get_state}
use aigold_trader.Risk.PolicyCore.Inputs.{ready}
use aigold_trader.Risk.Portfolio.{RiskReservationRecord, active}
use aigold_trader.Risk.LiveAdapter.{Evaluation}
use aigold_trader.Risk.Engine.{Tables, RiskDecision, Outside}
use aigold_trader.Risk.Examples.{policy, gold, account, plan, quote}

abbrev pub evaluation : Evaluation
evaluation = record {
  as_of = 1001000000;
  candidate = record { id = "c1"; symbol = "XAUUSD"; direction = some long };
  plan = plan;
  account = account;
  policy = policy;
  spec = gold;
  quote = some quote;
  news = some (record { calendar_available = true; events = [] });
  requested_risk_pct = none;
  candidate_status = ready;
  candidate_lifecycle_status = none;
}

abbrev pub outside : Outside
outside = record {
  call = record { default_version = "v1"; now = 1001000000; record_id = "ks_2"; version = "v1" };
  provider = "mt5";
  source = "mt5_bridge";
  profile_id = "gold_scalper";
  reservation_id = "res_2";
  decision_id = λ r exposure. "dec_2";
  find_existing_decision = λ id. none;
  reason = λ codes. "blocked";
}

abbrev cleared : KillSwitchState
cleared = record {
  id = "ks_1";
  state = KillSwitch.inactive;
  trigger_type = KillSwitch.manual;
  activated_at = 900000000;
  activated_by = "operator";
  cleared_at = some 900000000;
  cleared_by = some "operator";
  policy_version = "v1";
}

-- Half a percent is reserved for another candidate.
abbrev pub earlier_row : RiskReservationRecord
earlier_row = record {
  id = "res_1";
  decision_id = "dec_1";
  account_id = "demo";
  candidate_id = some "c0";
  profile_id = "gold_scalper";
  symbol = "XAUUSD";
  direction = long;
  risk_pct = dec (pos 5000) 4;
  risk_amount = dec (pos 5000) 2;
  position_size = dec (pos 4) 2;
  status = active;
  reserved_at = 990000000;
  reserved_until = 1290000000;
  released_at = none;
  release_reason = none;
}

abbrev pub tables : Tables
tables = record {
  safety = record { kill_switch_records = cleared ∷ []; data_health_records = [] };
  reservations = earlier_row ∷ [];
}

abbrev pub decision : RiskDecision
decision = record {
  id = "dec_2";
  profile_id = "gold_scalper";
  symbol = "XAUUSD";
  direction = long;
  decision = approved;
  requested_risk_pct = dec (pos 100) 2;
  requested_risk_amount = dec (pos 10000) 2;
  approved_risk_pct = dec (pos 10000) 4;
  approved_risk_amount = dec (pos 10000) 2;
  position_size = dec (pos 9) 2;
  stop_distance = of_int (pos 11);
  portfolio_exposure_before = dec (pos 5000) 4;
  portfolio_exposure_after = dec (pos 15000) 4;
  blocked_codes = [];
  warning_codes = [];
  as_of = 1001000000;
  expires_at = 1301000000;
}

abbrev pub new_reservation : RiskReservationRecord
new_reservation = record {
  id = "res_2";
  decision_id = "dec_2";
  account_id = "demo";
  candidate_id = some "c1";
  profile_id = "gold_scalper";
  symbol = "XAUUSD";
  direction = long;
  risk_pct = dec (pos 10000) 4;
  risk_amount = dec (pos 10000) 2;
  position_size = dec (pos 9) 2;
  status = active;
  reserved_at = 1001000000;
  reserved_until = 1301000000;
  released_at = none;
  release_reason = none;
}

abbrev pub after : Tables
after = record {
  safety = record {
    kill_switch_records = cleared ∷ [];
    data_health_records =
        record {
          provider = "mt5";
          source = "mt5_bridge";
          consecutive_failures = 0;
          last_failure_at = none;
          last_healthy_at = some 1001000000;
          updated_at = 1001000000;
        }
        ∷ [];
  };
  reservations = earlier_row ∷ new_reservation ∷ [];
}
