-- ===== src/Risk/Portfolio/Reservations.antt =====
-- risk/portfolio.py: create_reservation over the rows of `risk_reservations`, with the constraints of
-- models/risk.py. A flush that violates one raises; the table that an insertion meets is an argument
-- of its own, since other transactions may have committed rows after the look for existing ones. The
-- foreign key to the decisions is left out.
pub mod Release
pub mod Table
pub mod Writes
pub mod Select
pub mod Rows
pub mod Positive
pub mod Once
pub mod Released
pub mod Shares
pub mod Worth
use text.Mathlib.Text.{◌==◌ as str_eq}
use aigold_trader.Base.{
  ℕ, ◌+◌, String, Bool, true, ◌&&◌, ◌||◌, not, Option, none, some, List, [], ◌∷◌, ◌++◌, any, map,
  ltb, if◌then◌else◌,
}
use aigold_trader.Decimal.{Decimal, zero_dec, ◌<ᵈ◌}
use aigold_trader.Risk.Domain.{
  Raises, ok, raised, validation_error, integrity_error, ◌>>=◌, Direction, RiskPolicy, seconds,
}
use aigold_trader.Risk.Portfolio.{
  RiskReservationRecord, active, released, has_status_active, truthy, same_candidate,
}

-- The constraints: the ids and the ids of decisions are unique, and of the ACTIVE rows of an account
-- no two are for one candidate.
abbrev pub clashes : RiskReservationRecord → RiskReservationRecord → Bool
clashes r s =
    str_eq r.id s.id
    || str_eq r.decision_id s.decision_id
    || (has_status_active r.status
        && has_status_active s.status
        && str_eq r.account_id s.account_id
        && same_candidate r.candidate_id s.candidate_id)

unfoldable pub consistent : List RiskReservationRecord → Bool
consistent [] = true
consistent (r ∷ rows) = not (any (clashes r) rows) && consistent rows

unfoldable pub flush : List RiskReservationRecord → Raises (List RiskReservationRecord)
flush rows = if consistent rows then ok rows else raised integrity_error

-- The arguments of `create_reservation`.
pub record Request : Type 0 where
  pub decision_id : String
  pub account_id : String
  pub profile_id : String
  pub symbol : String
  pub direction : Direction
  pub risk_pct : Decimal
  pub risk_amount : Decimal
  pub position_size : Decimal
  pub policy : RiskPolicy
  pub now : ℕ
  pub candidate_id : Option String
  pub reserved_until_cap : Option ℕ

abbrev pub capped : ℕ → Option ℕ → ℕ
capped until none = until
capped until (some cap) = if ltb cap until then cap else until

abbrev pub reserved_until : Request → ℕ
reserved_until q = capped (q.now + seconds q.policy.reservation_ttl_seconds) q.reserved_until_cap

abbrev pub new_row : Request → String → RiskReservationRecord
new_row q id = record {
  id = id;
  decision_id = q.decision_id;
  account_id = q.account_id;
  candidate_id = q.candidate_id;
  profile_id = q.profile_id;
  symbol = q.symbol;
  direction = q.direction;
  risk_pct = q.risk_pct;
  risk_amount = q.risk_amount;
  position_size = q.position_size;
  status = active;
  reserved_at = q.now;
  reserved_until = reserved_until q;
  released_at = none;
  release_reason = none;
}

-- The row of the decision is used again, whatever its status.
abbrev pub reuse : Request → RiskReservationRecord → RiskReservationRecord
reuse q r = record r {
  account_id = q.account_id;
  candidate_id = q.candidate_id;
  profile_id = q.profile_id;
  symbol = q.symbol;
  direction = q.direction;
  risk_pct = q.risk_pct;
  risk_amount = q.risk_amount;
  position_size = q.position_size;
  status = active;
  reserved_at = q.now;
  reserved_until = reserved_until q;
  released_at = none;
  release_reason = none;
}

-- The active row of the candidate is given the decision and its values.
abbrev pub replace : Request → RiskReservationRecord → RiskReservationRecord
replace q r = record r {
  decision_id = q.decision_id;
  profile_id = q.profile_id;
  symbol = q.symbol;
  direction = q.direction;
  risk_pct = q.risk_pct;
  risk_amount = q.risk_amount;
  position_size = q.position_size;
  reserved_at = q.now;
  reserved_until = reserved_until q;
}

abbrev pub release : ℕ → String → RiskReservationRecord → RiskReservationRecord
release now reason r = record r {
  status = released;
  released_at = some now;
  release_reason = some reason;
}

-- The row that a SELECT yields first, and an assignment to the row with an id.
unfoldable pub find_row :
    (RiskReservationRecord → Bool) → List RiskReservationRecord → Option RiskReservationRecord
find_row p [] = none
find_row p (r ∷ rows) = if p r then some r else find_row p rows

unfoldable pub update_row :
    String
    → (RiskReservationRecord → RiskReservationRecord)
    → List RiskReservationRecord
    → List RiskReservationRecord
update_row id f rows = map (λ r. if str_eq r.id id then f r else r) rows

abbrev pub of_decision : String → RiskReservationRecord → Bool
of_decision id r = str_eq r.decision_id id

abbrev pub is_active_of : String → Option String → RiskReservationRecord → Bool
is_active_of account candidate r =
    str_eq r.account_id account
    && same_candidate r.candidate_id candidate
    && has_status_active r.status

-- The active row of the request's candidate, looked for only where there is a candidate.
unfoldable pub find_existing : Request → List RiskReservationRecord → Option RiskReservationRecord
unfolding find_row
find_existing q rows =
    if truthy q.candidate_id then find_row (is_active_of q.account_id q.candidate_id) rows else none

-- The RiskReservation that is returned: the validation of its amounts.
unfoldable pub contract : RiskReservationRecord → Raises RiskReservationRecord
contract r =
    if zero_dec <ᵈ r.risk_pct && zero_dec <ᵈ r.risk_amount && zero_dec <ᵈ r.position_size
    then ok r
    else raised validation_error

abbrev pub returning :
    RiskReservationRecord
    → List RiskReservationRecord
    → Raises (List RiskReservationRecord × RiskReservationRecord)
returning r rows = do written ← flush rows; reservation ← contract r; ok (written, reservation)

abbrev pub superseded : String
superseded = "SUPERSEDED_BY_CACHED_DECISION_RECONCILIATION"

abbrev pub conflicts_with : Request → RiskReservationRecord → RiskReservationRecord → Bool
conflicts_with q exact r = is_active_of q.account_id q.candidate_id r && not (str_eq r.id exact.id)

unfoldable pub release_conflicting :
    Request → RiskReservationRecord → List RiskReservationRecord → List RiskReservationRecord
release_conflicting q exact rows =
    if truthy q.candidate_id
    then map (λ r. if conflicts_with q exact r then release q.now superseded r else r) rows
    else rows

unfoldable pub reuse_exact :
    Request
    → RiskReservationRecord
    → List RiskReservationRecord
    → Raises (List RiskReservationRecord × RiskReservationRecord)
unfolding release_conflicting update_row
reuse_exact q exact rows =
    returning (reuse q exact) (update_row exact.id (reuse q) (release_conflicting q exact rows))

unfoldable pub replace_existing :
    Request
    → RiskReservationRecord
    → List RiskReservationRecord
    → Raises (List RiskReservationRecord × RiskReservationRecord)
unfolding update_row
replace_existing q existing rows =
    returning (replace q existing) (update_row existing.id (replace q) rows)

-- The handler of the violated constraint: the savepoint is rolled back, and a row that another
-- transaction has inserted for the candidate is replaced.
abbrev pub after_violation :
    Request
    → Option RiskReservationRecord
    → List RiskReservationRecord
    → Raises (List RiskReservationRecord × RiskReservationRecord)
after_violation q none met = raised integrity_error
after_violation q (some existing) met = replace_existing q existing met

unfoldable pub insert_new :
    Request
    → String
    → List RiskReservationRecord
    → Raises (List RiskReservationRecord × RiskReservationRecord)
unfolding find_existing
insert_new q id met =
    if consistent (met ++ new_row q id ∷ [])
    then (do reservation ← contract (new_row q id); ok (met ++ new_row q id ∷ [], reservation))
    else after_violation q (find_existing q met) met

abbrev pub by_existing :
    Request
    → String
    → Option RiskReservationRecord
    → List RiskReservationRecord
    → List RiskReservationRecord
    → Raises (List RiskReservationRecord × RiskReservationRecord)
by_existing q id none rows met = insert_new q id met
by_existing q id (some existing) rows met = replace_existing q existing rows

abbrev pub by_exact :
    Request
    → String
    → Option RiskReservationRecord
    → List RiskReservationRecord
    → List RiskReservationRecord
    → Raises (List RiskReservationRecord × RiskReservationRecord)
by_exact q id none rows met = by_existing q id (find_existing q rows) rows met
by_exact q id (some exact) rows met = reuse_exact q exact rows

-- `id` is the new id, and `met` the table that an insertion meets.
unfoldable pub create_reservation :
    Request
    → String
    → List RiskReservationRecord
    → List RiskReservationRecord
    → Raises (List RiskReservationRecord × RiskReservationRecord)
unfolding find_row
create_reservation q id rows met =
    by_exact q id (find_row (of_decision q.decision_id) rows) rows met
