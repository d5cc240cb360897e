-- ===== src/Risk/Portfolio.antt =====
-- risk/portfolio.py: the rows of `risk_reservations`, the query for the active ones and the check of
-- the budget. A reason is given by its code; the order of the rows is that of the query.
pub mod Budget
pub mod Reservations
pub mod Summary
use text.Mathlib.Text.{◌==◌ as str_eq}
use aigold_trader.Base.{
  ℕ, ◌+◌, String, Bool, true, false, ◌&&◌, ◌||◌, not, Option, none, some, List, [], ◌∷◌, length,
  filterb, any, map, ltb, leb, if◌then◌else◌, ℤ, pos, ◌+ℤ◌, leb_ℤ,
}
use aigold_trader.Decimal.{
  Decimal, of_int, zero_dec, ◌<ᵈ◌, ◌≤ᵈ◌, ◌+ᵈ◌, ◌-ᵈ◌, ◌*ᵈ◌, div_dec, min_dec, quantize, sum_dec,
}
use aigold_trader.Risk.Domain.{
  Raises, ok, ◌>>=◌, lift, Direction, long, short, RiskPolicy, AccountSnapshot, minutes,
}
use aigold_trader.Risk.Cooldown.{before, loss_cooldown}
use aigold_trader.Risk.Capacity.{
  PureRiskCode, cooldown_active, reservation_duplicate, unattributed_open_risk, concurrent_limit,
  account_capacity, symbol_capacity, directional_capacity, portfolio_reduction, per_trade_reduction,
}

pub data ReservationStatus : Type 0 where
  active released expired : ReservationStatus

pub record RiskReservationRecord : Type 0 where
  pub id : String
  pub decision_id : String
  pub account_id : String
  pub candidate_id : Option String
  pub profile_id : String
  pub symbol : String
  pub direction : Direction
  pub risk_pct : Decimal
  pub risk_amount : Decimal
  pub position_size : Decimal
  pub status : ReservationStatus
  pub reserved_at : ℕ
  pub reserved_until : ℕ
  pub released_at : Option ℕ
  pub release_reason : Option String

abbrev pub has_status_active : ReservationStatus → Bool
has_status_active active = true
has_status_active released = false
has_status_active expired = false

abbrev pub is_excluded : Option String → RiskReservationRecord → Bool
is_excluded none r = false
is_excluded (some id) r = str_eq r.id id

abbrev pub is_counted : String → ℕ → Option String → RiskReservationRecord → Bool
is_counted account_id now exclude r =
    str_eq r.account_id account_id
    && has_status_active r.status
    && ltb now r.reserved_until
    && not (is_excluded exclude r)

unfoldable pub get_active_reservations :
    List RiskReservationRecord → String → ℕ → Option String → List RiskReservationRecord
get_active_reservations rows account_id now exclude =
    filterb (is_counted account_id now exclude) rows

-- `if candidate_id`: a text that is there and not empty.
abbrev pub truthy : Option String → Bool
truthy none = false
truthy (some c) = not (str_eq c "")

abbrev pub same_candidate : Option String → Option String → Bool
same_candidate (some c) (some d) = str_eq c d
same_candidate _ _ = false

-- The loop that counts the rows of each candidate stops at the first that is there already.
unfoldable pub has_duplicate : List (Option String) → List RiskReservationRecord → Bool
has_duplicate counted [] = false
has_duplicate counted (r ∷ rows) =
    (truthy r.candidate_id && any (same_candidate r.candidate_id) counted)
    || has_duplicate (r.candidate_id ∷ counted) rows

unfoldable pub risk_sum : List RiskReservationRecord → Decimal
unfolding sum_dec
risk_sum rows = sum_dec zero_dec (map (λ r. r.risk_pct) rows)

abbrev pub same_direction : Direction → Direction → Bool
same_direction long long = true
same_direction short short = true
same_direction _ _ = false

abbrev pub of_symbol : String → RiskReservationRecord → Bool
of_symbol symbol r = str_eq r.symbol symbol

abbrev pub of_direction : Direction → RiskReservationRecord → Bool
of_direction direction r = same_direction r.direction direction

unfoldable pub is_cooldown_active : AccountSnapshot → RiskPolicy → ℕ → Bool × Option ℕ
is_cooldown_active account policy now =
    if before now account.cooldown_until
    then (true, account.cooldown_until)
    else if leb policy.cooldown_consecutive_losses account.consecutive_losses
    then loss_cooldown account.cooldown_until account.last_loss_at
        (minutes policy.cooldown_period_minutes) now
    else (false, none)

pub record ReservationBudgetCheck : Type 0 where
  pub allowed : Bool
  pub approved_risk_pct : Decimal
  pub approved_risk_amount : Decimal
  pub portfolio_exposure_before : Decimal
  pub portfolio_exposure_after : Decimal
  pub reason : Option PureRiskCode
  pub is_reduced : Bool

abbrev pub refuse : Decimal → PureRiskCode → ReservationBudgetCheck
refuse exposure reason = record {
  allowed = false;
  approved_risk_pct = zero_dec;
  approved_risk_amount = zero_dec;
  portfolio_exposure_before = exposure;
  portfolio_exposure_after = exposure;
  reason = some reason;
  is_reduced = false;
}

-- What the rows leave of the limits of account, symbol and direction.
pub record Room : Type 0 where
  pub account : Decimal
  pub symbol : Decimal
  pub direction : Decimal

unfoldable pub room :
    List RiskReservationRecord → AccountSnapshot → RiskPolicy → String → Direction → Room
unfolding risk_sum
room rows account policy symbol direction = record {
  account = policy.max_account_risk_pct -ᵈ (account.open_risk_pct +ᵈ risk_sum rows);
  symbol = policy.max_symbol_risk_pct -ᵈ risk_sum (filterb (of_symbol symbol) rows);
  direction = policy.max_directional_risk_pct -ᵈ risk_sum (filterb (of_direction direction) rows);
}

-- The refusals between the check for duplicates and the choice of the risk, in order.
unfoldable pub budget_refusal :
    List RiskReservationRecord → AccountSnapshot → RiskPolicy → Room → Option PureRiskCode
budget_refusal rows account policy left =
    if zero_dec <ᵈ account.open_risk_pct
    then some unattributed_open_risk
    else if leb_ℤ (pos policy.max_concurrent_trades)
        (pos (length rows) +ℤ account.open_positions_count)
    then some concurrent_limit
    else if left.account <ᵈ policy.min_risk_per_trade_pct
    then some account_capacity
    else if left.symbol <ᵈ policy.min_risk_per_trade_pct
    then some symbol_capacity
    else if left.direction <ᵈ policy.min_risk_per_trade_pct
    then some directional_capacity
    else none

-- The approved percentage with whether and why it is less than the request; `none` for too little.
unfoldable pub approve :
    Room → RiskPolicy → Decimal → Raises (Option (Decimal × Bool × Option PureRiskCode))
approve left policy requested =
    let target = min_dec requested policy.max_risk_per_trade_pct in
    let bottleneck = min_dec (min_dec left.account left.symbol) left.direction in
    if bottleneck <ᵈ target
    then (if policy.min_risk_per_trade_pct ≤ᵈ bottleneck
        then (do
          pct ← lift (quantize 4 bottleneck)
          ok (some (pct, true, some portfolio_reduction)))
        else ok none)
    else do
      pct ← lift (quantize 4 target)
      ok (some (pct, pct <ᵈ requested, if pct <ᵈ requested then some per_trade_reduction else none))

unfoldable pub budget_grant :
    Decimal
    → Decimal
    → Option (Decimal × Bool × Option PureRiskCode)
    → Raises ReservationBudgetCheck
budget_grant total equity none = ok (refuse total account_capacity)
budget_grant total equity (some (pct, is_reduced, reason)) = do
  part ← lift (div_dec pct (of_int (pos 100)))
  amount ← lift (quantize 2 (part *ᵈ equity))
  ok (record {
    allowed = true;
    approved_risk_pct = pct;
    approved_risk_amount = amount;
    portfolio_exposure_before = total;
    portfolio_exposure_after = total +ᵈ pct;
    reason = reason;
    is_reduced = is_reduced;
  })

abbrev pub unless_refused :
    Option PureRiskCode → Decimal → Raises ReservationBudgetCheck → Raises ReservationBudgetCheck
unless_refused (some c) total rest = ok (refuse total c)
unless_refused none total rest = rest

-- `check_budget_capacity` behind the check of the cooldown, over the active rows.
unfoldable pub budget_of :
    List RiskReservationRecord
    → AccountSnapshot
    → RiskPolicy
    → String
    → Direction
    → Decimal
    → Raises ReservationBudgetCheck
budget_of rows account policy symbol direction requested =
    let total = account.open_risk_pct +ᵈ risk_sum rows in
    let left = room rows account policy symbol direction in
    let rest = (do
      chosen ← approve left policy requested
      budget_grant total account.equity chosen) in
    if has_duplicate [] rows
    then ok (refuse total reservation_duplicate)
    else unless_refused (budget_refusal rows account policy left) total rest

unfoldable pub check_budget_capacity :
    List RiskReservationRecord
    → AccountSnapshot
    → RiskPolicy
    → String
    → Direction
    → Decimal
    → ℕ
    → Option String
    → Raises ReservationBudgetCheck
check_budget_capacity rows account policy symbol direction requested now exclude =
    if (is_cooldown_active account policy now).0
    then ok (refuse account.open_risk_pct cooldown_active)
    else budget_of (get_active_reservations rows account.account_id now exclude) account policy
        symbol direction requested
