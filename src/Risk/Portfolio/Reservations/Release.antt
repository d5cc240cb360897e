-- ===== src/Risk/Portfolio/Reservations/Release.antt =====
-- risk/portfolio.py: release_candidate_reservations and check_budget_and_reserve.
use text.Mathlib.Text.{◌==◌ as str_eq}
use aigold_trader.Base.{
  ℕ, String, Bool, true, ◌&&◌, Option, none, some, List, length, filterb, map, if◌then◌else◌,
}
use aigold_trader.Decimal.{Decimal}
use aigold_trader.Risk.Domain.{Raises, ok, ◌>>=◌, Direction, RiskPolicy, AccountSnapshot}
use aigold_trader.Risk.Portfolio.{
  RiskReservationRecord, has_status_active, same_candidate, ReservationBudgetCheck,
  check_budget_capacity,
}
use aigold_trader.Risk.Portfolio.Reservations.{Request, release, create_reservation}

abbrev pub of_account : Option String → RiskReservationRecord → Bool
of_account none r = true
of_account (some account) r = str_eq r.account_id account

abbrev pub is_released_for : String → Option String → RiskReservationRecord → Bool
is_released_for candidate account r =
    same_candidate r.candidate_id (some candidate)
    && has_status_active r.status
    && of_account account r

unfoldable pub release_candidate_reservations :
    String
    → ℕ
    → String
    → Option String
    → List RiskReservationRecord
    → List RiskReservationRecord × ℕ
release_candidate_reservations candidate now reason account rows = (
  map (λ r. if is_released_for candidate account r then release now reason r else r) rows,
  length (filterb (is_released_for candidate account) rows),
)

abbrev pub request_for :
    AccountSnapshot
    → RiskPolicy
    → String
    → Direction
    → String
    → String
    → Decimal
    → ℕ
    → ReservationBudgetCheck
    → Request
request_for account policy symbol direction profile decision size now check = record {
  decision_id = decision;
  account_id = account.account_id;
  profile_id = profile;
  symbol = symbol;
  direction = direction;
  risk_pct = check.approved_risk_pct;
  risk_amount = check.approved_risk_amount;
  position_size = size;
  policy = policy;
  now = now;
  candidate_id = none;
  reserved_until_cap = none;
}

unfoldable pub check_budget_and_reserve :
    List RiskReservationRecord
    → AccountSnapshot
    → RiskPolicy
    → String
    → Direction
    → Decimal
    → String
    → String
    → Decimal
    → ℕ
    → String
    → Raises (List RiskReservationRecord × ReservationBudgetCheck)
check_budget_and_reserve rows account policy symbol direction requested profile decision size now
      id =
    do
      check ← check_budget_capacity rows account policy symbol direction requested now none
      let made =
          create_reservation
            (request_for account policy symbol direction profile decision size now check) id rows
            rows
      (if check.allowed then (do written ← made; ok (written.0, check)) else ok (rows, check))
