-- ===== src/Strategy/Lifecycle/Records.antt =====
-- The stored lifecycle of strategy/lifecycle.py: resolve_candidate_current_lifecycle and
-- apply_terminal_candidate_transition, and the step of strategy/repository.py that ends the candidate
-- before a new one. NotFoundError is `none`. The fingerprints, the order of ids in the database and
-- the texts of the reasons are parameters.
use Prim.Native.String.{◌++◌ as str_append}
use text.Mathlib.Text.{◌==◌ as str_eq}
use aigold_trader.Base.{
  ℕ, ◌≡◌, String, Bool, true, ◌&&◌, ◌||◌, Option, none, some, List, [], ◌∷◌, ◌++◌, ltb, ◌==◌, any,
  filterb, length, if◌then◌else◌,
}
use aigold_trader.Risk.PolicyCore.Inputs.{
  LifecycleStatus, detected, waiting_confirmation, ready, blocked_context, no_trade, invalidated,
  expired, superseded,
}
use aigold_trader.Risk.PolicyCore.Gates.{is_terminal}
use aigold_trader.Risk.Portfolio.{RiskReservationRecord}
use aigold_trader.Risk.Portfolio.Reservations.Release.{release_candidate_reservations}
use aigold_trader.Strategy.Lifecycle.{
  StrategyContext, Candidate, TransitionReason, Transition, transition,
}

-- The digest that makes the ids of transitions. It is a hash, which is taken to tell candidates
-- apart.
pub record Digest : Type 0 where
  pub fingerprint : String → String → LifecycleStatus → LifecycleStatus → String
  pub binds_candidate :
      (c c' x x' : String) (f f' t t' : LifecycleStatus)
      → fingerprint c x f t ≡ fingerprint c' x' f' t'
      → c ≡ c'

-- The payload of a stored transition, with the text of its reason.
pub record StoredTransition : Type 0 where
  pub transition_id : String
  pub of_candidate : String
  pub in_context : String
  pub from_status : LifecycleStatus
  pub to_status : LifecycleStatus
  pub as_of : ℕ
  pub reason_th : String

pub record CandidateTransitionRecord : Type 0 where
  pub id : String
  pub candidate_id : String
  pub row_as_of : ℕ
  pub payload : StoredTransition

pub record TradeCandidateRecord : Type 0 where
  pub id : String
  pub profile_id : String
  pub payload : Candidate

pub record LifecycleTables : Type 0 where
  pub candidates : List TradeCandidateRecord
  pub transitions : List CandidateTransitionRecord
  pub reservations : List RiskReservationRecord

pub record ResolvedCandidateLifecycle : Type 0 where
  pub candidate_id : String
  pub current_status : LifecycleStatus
  pub is_terminal_now : Bool
  pub transition_count : ℕ
  pub latest_transition : Option StoredTransition
  pub reason_th : String
  pub candidate : Candidate

-- `if profile_id`: no profile and the empty text ask for any.
abbrev pub of_profile : Option String → String → Bool
of_profile none profile = true
of_profile (some p) profile = str_eq p "" || str_eq profile p

unfoldable pub find_candidate :
    String → Option String → List TradeCandidateRecord → Option TradeCandidateRecord
find_candidate id profile [] = none
find_candidate id profile (r ∷ rows) =
    let rest = find_candidate id profile rows in
    if str_eq r.id id && of_profile profile r.profile_id then some r else rest

-- `ORDER BY as_of DESC, id DESC`, in the order of ids of the database.
abbrev pub is_after :
    (String → String → Bool) → CandidateTransitionRecord → CandidateTransitionRecord → Bool
is_after id_after r s =
    ltb s.row_as_of r.row_as_of || (r.row_as_of == s.row_as_of && id_after r.id s.id)

abbrev pub later_row :
    (String → String → Bool)
    → CandidateTransitionRecord
    → Option CandidateTransitionRecord
    → CandidateTransitionRecord
later_row id_after r none = r
later_row id_after r (some s) = if is_after id_after r s then r else s

unfoldable pub latest_row :
    (String → String → Bool)
    → String
    → List CandidateTransitionRecord
    → Option CandidateTransitionRecord
latest_row id_after c [] = none
latest_row id_after c (r ∷ rows) =
    let rest = latest_row id_after c rows in
    if str_eq r.candidate_id c then some (later_row id_after r rest) else rest

abbrev pub status_after : Candidate → Option CandidateTransitionRecord → LifecycleStatus
status_after c none = c.candidate_status
status_after c (some r) = r.payload.to_status

abbrev pub reason_after : Option CandidateTransitionRecord → String
reason_after none = ""
reason_after (some r) = r.payload.reason_th

abbrev pub payload_of : Option CandidateTransitionRecord → Option StoredTransition
payload_of none = none
payload_of (some r) = some r.payload

abbrev pub resolved :
    String
    → List CandidateTransitionRecord
    → Option CandidateTransitionRecord
    → Option TradeCandidateRecord
    → Option ResolvedCandidateLifecycle
resolved id rows last none = none
resolved id rows last (some row) = some (record {
  candidate_id = id;
  current_status = status_after row.payload last;
  is_terminal_now = is_terminal (status_after row.payload last);
  transition_count = length (filterb (λ r. str_eq r.candidate_id id) rows);
  latest_transition = payload_of last;
  reason_th = reason_after last;
  candidate = row.payload;
})

unfoldable pub resolve_candidate_current_lifecycle :
    (String → String → Bool)
    → String
    → Option String
    → LifecycleTables
    → Option ResolvedCandidateLifecycle
unfolding find_candidate latest_row
resolve_candidate_current_lifecycle id_after id profile t =
    resolved id t.transitions (latest_row id_after id t.transitions)
      (find_candidate id profile t.candidates)

-- `on_conflict_do_nothing`, where the id is the key.
unfoldable pub insert_transition :
    StoredTransition → List CandidateTransitionRecord → List CandidateTransitionRecord
insert_transition t rows =
    if any (λ r. str_eq r.id t.transition_id) rows
    then rows
    else rows
      ++ record {
        id = t.transition_id;
        candidate_id = t.of_candidate;
        row_as_of = t.as_of;
        payload = t;
      }
        ∷ []

abbrev pub status_name : LifecycleStatus → String
status_name detected = "DETECTED"
status_name waiting_confirmation = "WAITING_CONFIRMATION"
status_name ready = "READY"
status_name blocked_context = "BLOCKED_CONTEXT"
status_name no_trade = "NO_TRADE"
status_name invalidated = "INVALIDATED"
status_name expired = "EXPIRED"
status_name superseded = "SUPERSEDED"

abbrev pub became_terminal : LifecycleStatus → String
became_terminal s = str_append "Candidate became terminal (" (str_append (status_name s) ")")

-- `reason_th or ...`
abbrev pub reason_or : String → String → String
reason_or reason other = if str_eq reason "" then other else reason

-- The transition is inserted, and a terminal one releases the reservations of the candidate.
abbrev pub record_change : StoredTransition → String → LifecycleTables → LifecycleTables
record_change change reason t = record t {
  transitions = insert_transition change t.transitions;
  reservations =
      if is_terminal change.to_status
      then (release_candidate_reservations change.of_candidate change.as_of reason none
          t.reservations).0
      else t.reservations;
}

abbrev pub terminal_change :
    Digest → Candidate → String → LifecycleStatus → ℕ → String → String → StoredTransition
terminal_change d c id target now reason context = record {
  transition_id = d.fingerprint id context c.candidate_status target;
  of_candidate = id;
  in_context = context;
  from_status = c.candidate_status;
  to_status = target;
  as_of = now;
  reason_th = reason;
}

abbrev pub applied :
    Digest
    → String
    → LifecycleStatus
    → ℕ
    → String
    → String
    → LifecycleTables
    → Option TradeCandidateRecord
    → Option (StoredTransition × LifecycleTables)
applied d id target now reason context t none = none
applied d id target now reason context t (some row) =
    let change = terminal_change d row.payload id target now reason context in
    some (change, record_change change (reason_or reason (became_terminal target)) t)

unfoldable pub apply_terminal_candidate_transition :
    Digest
    → String
    → LifecycleStatus
    → ℕ
    → String
    → String
    → LifecycleTables
    → Option (StoredTransition × LifecycleTables)
unfolding find_candidate insert_transition release_candidate_reservations
apply_terminal_candidate_transition d id target now reason context t =
    applied d id target now reason context t (find_candidate id none t.candidates)

-- The payload of a transition that `transition` made.
abbrev pub stored : Digest → (TransitionReason → String) → Transition → StoredTransition
stored d text t = record {
  transition_id = d.fingerprint t.of_candidate t.in_context t.from_status t.to_status;
  of_candidate = t.of_candidate;
  in_context = t.in_context;
  from_status = t.from_status;
  to_status = t.to_status;
  as_of = t.transition_as_of;
  reason_th = text t.reason;
}

abbrev pub with_change :
    Digest → (TransitionReason → String) → Option Transition → LifecycleTables → LifecycleTables
with_change d text none t = t
with_change d text (some change) t =
    record_change (stored d text change) (became_terminal change.to_status) t

-- `_persist_projection`, once the new candidate is stored: the previous one is ended. No current
-- status is given, so that the status in its payload counts.
unfoldable pub end_previous :
    Digest
    → (TransitionReason → String)
    → Candidate
    → StrategyContext
    → Candidate
    → LifecycleTables
    → LifecycleTables
unfolding transition insert_transition release_candidate_reservations
end_previous d text previous context new t =
    with_change d text (transition previous context (some new) none) t
