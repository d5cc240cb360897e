-- ===== src/Strategy/Examples.antt =====
-- Transitions of a concrete candidate.
use aigold_trader.Base.{
  ◌≡◌, ◌⊎◌, refl, String, Bool, Option, true, false, none, some, List, [], ◌∷◌, pos, All, map,
}
use aigold_trader.Decimal.{of_int, dec, ◌≤ᵈ◌, ◌<ᵈ◌}
use aigold_trader.Risk.Domain.{long}
use aigold_trader.Risk.PolicyCore.Inputs.{ready, invalidated, expired}
use aigold_trader.Risk.Portfolio.{RiskReservationRecord, ReservationStatus}
use aigold_trader.Risk.Portfolio.Reservations.Release.{
  is_released_for, release_candidate_reservations,
}
use aigold_trader.Strategy.Lifecycle.Records.{
  Digest, StoredTransition, LifecycleTables, ResolvedCandidateLifecycle, find_candidate, latest_row,
  insert_transition, resolve_candidate_current_lifecycle, apply_terminal_candidate_transition,
}
use aigold_trader.Strategy.Lifecycle.Final.{Change, ended, replaced, make_all, terminal_for_good}
use aigold_trader.Strategy.Lifecycle.{
  StrategyContext, Candidate, Transition, TransitionReason, stop_crossed, status_or, is_settled,
  invalidation, transition,
}
use aigold_trader.Strategy.Lifecycle.Precedence.{Leads, target, transition_cause}

abbrev candidate : Candidate
candidate = record {
  candidate_id = "c1";
  profile_id = "p1";
  strategy_id = "STRAT01";
  candidate_direction = some long;
  candidate_status = ready;
  detected_at = 100;
  candidate_expires_at = 1000;
  candidate_context_id = "m1";
  source_ids = "zone1" ∷ [];
  candidate_plan = some (record { plan_as_of = 100; plan_stop_loss = of_int (pos 1990) });
}

-- The second frame closes below the stop at 360.
abbrev context : StrategyContext
context = record {
  context_id = "x2";
  market_context_id = "m2";
  context_as_of = 400;
  frames =
      record {
        zones = record { object_id = "zone1"; status_text = "ACTIVE"; ended_at = none } ∷ [];
        liquidity = [];
        bars = [];
        frame_seconds = 300;
      }
      ∷ record {
        zones = [];
        liquidity = [];
        bars = record { bar_open_time = 300; bar_close = of_int (pos 1989) } ∷ [];
        frame_seconds = 60;
      }
      ∷ [];
}

abbrev crossed : Transition
crossed = record {
  of_candidate = "c1";
  in_context = "x2";
  from_status = ready;
  to_status = invalidated;
  transition_as_of = 400;
  reason = stop_crossed;
}

crosses : transition candidate context none none ≡ some crossed
unfolding transition invalidation ◌≤ᵈ◌ ◌<ᵈ◌ of_int dec
crosses = refl

transition_cause_example :
    ((is_settled candidate context (status_or none ready) ≡ true)
      × (transition candidate context none none ≡ none))
    ⊎ ((is_settled candidate context (status_or none ready) ≡ false)
        × Leads candidate context none
            (status_or none ready)
            (target (transition candidate context none none)))
transition_cause_example = transition_cause candidate context none none

abbrev earlier_candidate : Candidate
earlier_candidate = record candidate { candidate_id = "c0"; source_ids = [] }

abbrev digest : Digest
digest = record { fingerprint = λ c x f t. c; binds_candidate = λ c c' x x' f f' t t' h. h }

abbrev wording : TransitionReason → String
wording r = "changed"

abbrev by_id : String → String → Bool
by_id a b = false

abbrev held : RiskReservationRecord
held = record {
  id = "r1";
  decision_id = "d1";
  account_id = "a1";
  candidate_id = some "c1";
  profile_id = "p1";
  symbol = "XAUUSD";
  direction = long;
  risk_pct = of_int (pos 1);
  risk_amount = of_int (pos 100);
  position_size = of_int (pos 1);
  status = ReservationStatus.active;
  reserved_at = 0;
  reserved_until = 1000;
  released_at = none;
  release_reason = none;
}

abbrev tables : LifecycleTables
tables = record {
  candidates = record { id = "c1"; profile_id = "p1"; payload = candidate } ∷ [];
  transitions = [];
  reservations = held ∷ [];
}

abbrev later : List Change
later =
    replaced candidate context earlier_candidate ∷ ended "c9" expired 500 "" "manual_or_system" ∷ []

ending : Option (StoredTransition × LifecycleTables)
ending =
    apply_terminal_candidate_transition digest "c1" invalidated 400 "" "manual_or_system" tables

-- The one reservation of the candidate is released with it.
abbrev left : Option (StoredTransition × LifecycleTables) → List ReservationStatus
left none = []
left (some (s, t)) = map (λ r. r.status) t.reservations

released_with_candidate : left ending ≡ ReservationStatus.released ∷ []
unfolding ending apply_terminal_candidate_transition find_candidate insert_transition
    release_candidate_reservations
released_with_candidate = refl

abbrev is_over : Option ResolvedCandidateLifecycle → Bool
is_over none = false
is_over (some r) = r.is_terminal_now

not_over : is_over (resolve_candidate_current_lifecycle by_id "c1" (some "p1") tables) ≡ false
unfolding resolve_candidate_current_lifecycle find_candidate latest_row
not_over = refl

terminal_for_good_example :
    (s : StoredTransition) × (t' : LifecycleTables) × (apply_terminal_candidate_transition digest
        "c1" invalidated 400 "" "manual_or_system" tables
      ≡ some (s, t'))
    × ((r : ResolvedCandidateLifecycle) × (resolve_candidate_current_lifecycle by_id "c1" none
            (make_all digest wording later t')
          ≡ some r)
        × (r.is_terminal_now ≡ true))
    × All (λ r. is_released_for "c1" none r ≡ false) (make_all digest wording later t').reservations
unfolding find_candidate
terminal_for_good_example =
    terminal_for_good digest wording by_id "c1" invalidated 400 "" "manual_or_system" tables
      (record { id = "c1"; profile_id = "p1"; payload = candidate }) refl tt refl later
      (tt, (refl, tt))
