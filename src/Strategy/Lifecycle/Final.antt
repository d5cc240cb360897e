-- ===== src/Strategy/Lifecycle/Final.antt =====
-- That a terminal transition is final in the tables of strategy/lifecycle.py.
pub mod Rows
use aigold_trader.Base.{
  ℕ, ◌≡◌, ap, refl, String, Bool, true, false, Option, none, some, List, [], ◌∷◌, All, if_ind,
}
use aigold_trader.Risk.PolicyCore.Inputs.{LifecycleStatus}
use aigold_trader.Risk.PolicyCore.Gates.{is_terminal}
use aigold_trader.Risk.Portfolio.Reservations.Release.{is_released_for}
use aigold_trader.Risk.Portfolio.Reservations.Released.{none_is_left, stays_released}
use aigold_trader.Strategy.Lifecycle.{
  StrategyContext, Candidate, TransitionReason, Transition, transition,
}
use aigold_trader.Strategy.Lifecycle.Precedence.{transition-terminal}
use aigold_trader.Strategy.Lifecycle.Records.{
  Digest, StoredTransition, TradeCandidateRecord, LifecycleTables, ResolvedCandidateLifecycle,
  find_candidate, resolve_candidate_current_lifecycle, record_change, reason_or, applied,
  became_terminal, terminal_change, apply_terminal_candidate_transition, stored, with_change,
  end_previous,
}
use aigold_trader.Strategy.Lifecycle.Final.Rows.{
  Kept, has_ended, IsMade, insert-Kept, insert_ends, insert_stays, resolved-terminal,
}

-- The changes of the lifecycle that the program makes.
pub data Change : Type 0 where
  ended : String → LifecycleStatus → ℕ → String → String → Change
  replaced : Candidate → StrategyContext → Candidate → Change

-- `apply_terminal_candidate_transition` is called with a terminal status.
abbrev pub IsFinal : Change → Type 0
IsFinal (ended id target now reason context) = is_terminal target ≡ true
IsFinal (replaced previous context new) = Unit

-- A call that raises leaves the tables as they are.
abbrev pub tables_or :
    LifecycleTables → Option (StoredTransition × LifecycleTables) → LifecycleTables
tables_or t none = t
tables_or t (some (s, t')) = t'

unfoldable pub make :
    Digest → (TransitionReason → String) → Change → LifecycleTables → LifecycleTables
make d text (ended id target now reason context) t =
    tables_or t (apply_terminal_candidate_transition d id target now reason context t)
make d text (replaced previous context new) t = end_previous d text previous context new t

unfoldable pub make_all :
    Digest → (TransitionReason → String) → List Change → LifecycleTables → LifecycleTables
make_all d text [] t = t
make_all d text (x ∷ xs) t = make_all d text xs (make d text x t)

module _ (d : Digest) (c : String) where
  -- The candidate is there, has ended, and holds no active reservation.
  pub record HasEnded (row : TradeCandidateRecord) (t : LifecycleTables) : Type 0 where
    pub kept : Kept d t
    pub found : find_candidate c none t.candidates ≡ some row
    pub over : has_ended c t.transitions ≡ true
    pub released : All (λ r. is_released_for c none r ≡ false) t.reservations

  record_change-HasEnded :
      (row : TradeCandidateRecord) (s : StoredTransition) (reason : String) (t : LifecycleTables)
      → IsMade d s
      → HasEnded row t
      → HasEnded row (record_change s reason t)
  record_change-HasEnded row s reason t m h = record {
    kept = insert-Kept d s t.transitions m h.kept;
    found = h.found;
    over = insert_stays d c s t.transitions h.over;
    released =
        if_ind (All (λ r. is_released_for c none r ≡ false)) (is_terminal s.to_status) _ _
          (λ _. stays_released c s.of_candidate s.as_of reason none t.reservations h.released)
          (λ _. h.released);
  }

  with_change-HasEnded :
      (row : TradeCandidateRecord) (text : TransitionReason → String) (o : Option Transition)
      (t : LifecycleTables)
      → ((x : Transition) → o ≡ some x → is_terminal x.to_status ≡ true)
      → HasEnded row t
      → HasEnded row (with_change d text o t)
  with_change-HasEnded row text none t f h = h
  with_change-HasEnded row text (some x) t f h =
      record_change-HasEnded row (stored d text x) (became_terminal x.to_status) t (f x refl, refl)
        h

  applied-HasEnded :
      (row : TradeCandidateRecord) (id : String) (target : LifecycleStatus) (now : ℕ)
      (reason context : String) (t : LifecycleTables) (o : Option TradeCandidateRecord)
      → is_terminal target ≡ true
      → HasEnded row t
      → HasEnded row (tables_or t (applied d id target now reason context t o))
  applied-HasEnded row id target now reason context t none e h = h
  applied-HasEnded row id target now reason context t (some x) e h =
      record_change-HasEnded row (terminal_change d x.payload id target now reason context)
        (reason_or reason (became_terminal target)) t (e, refl) h

  make-HasEnded :
      (row : TradeCandidateRecord) (text : TransitionReason → String) (x : Change)
      (t : LifecycleTables)
      → IsFinal x
      → HasEnded row t
      → HasEnded row (make d text x t)
  unfolding make apply_terminal_candidate_transition end_previous
  make-HasEnded row text (ended id target now reason context) t e h =
      applied-HasEnded row id target now reason context t (find_candidate id none t.candidates) e h
  make-HasEnded row text (replaced previous context new) t e h =
      with_change-HasEnded row text (transition previous context (some new) none) t
        (transition-terminal previous context (some new) none) h

  make_all-HasEnded :
      (row : TradeCandidateRecord) (text : TransitionReason → String) (xs : List Change)
      (t : LifecycleTables)
      → All IsFinal xs
      → HasEnded row t
      → HasEnded row (make_all d text xs t)
  unfolding make_all
  make_all-HasEnded row text [] t e h = h
  make_all-HasEnded row text (x ∷ xs) t e h =
      make_all-HasEnded row text xs (make d text x t) e.1 (make-HasEnded row text x t e.0 h)

-- A terminal transition is final: for a candidate that is in the tables, where every stored
-- transition leads to a terminal status and has the digest of its payload as its id,
-- `apply_terminal_candidate_transition` with a terminal status returns. Whatever transitions the
-- program makes afterwards, the projection of the lifecycle finds the candidate terminal, and none
-- of the reservations that the candidate had is active.
pub terminal_for_good :
    (d : Digest) (text : TransitionReason → String) (id_after : String → String → Bool) (c : String)
    (target : LifecycleStatus) (now : ℕ) (reason context : String) (t : LifecycleTables)
    (row : TradeCandidateRecord)
    → is_terminal target ≡ true
    → Kept d t
    → find_candidate c none t.candidates ≡ some row
    → (later : List Change) → All IsFinal later
    → (s : StoredTransition) × (t' : LifecycleTables) × (apply_terminal_candidate_transition d c
          target now reason context t
        ≡ some (s, t'))
      × ((r : ResolvedCandidateLifecycle) × (resolve_candidate_current_lifecycle id_after c none
              (make_all d text later t')
            ≡ some r)
          × (r.is_terminal_now ≡ true))
      × All (λ r. is_released_for c none r ≡ false) (make_all d text later t').reservations
unfolding apply_terminal_candidate_transition
terminal_for_good d text id_after c target now reason context t row e k f later final =
    let s = terminal_change d row.payload c target now reason context in
    let why = reason_or reason (became_terminal target) in
    let t' = record_change s why t in
    let first : HasEnded d c row t' = record {
      kept = insert-Kept d s t.transitions (e, refl) k;
      found = f;
      over = insert_ends d s t.transitions (e, refl) k;
      released =
          if_ind (All (λ r. is_released_for c none r ≡ false)) (is_terminal target) _ _
            (λ _. none_is_left c now why none t.reservations) (λ n. absurd (apart e n));
    } in
    let last = make_all-HasEnded d c row text later t' final first in
    (
      s,
      t',
      ap (applied d c target now reason context t) f,
      resolved-terminal d id_after c (make_all d text later t') row last.kept last.over last.found,
      last.released,
    )
  where
    apart : {b : Bool} → b ≡ true → b ≡ false → ⊥
    apart p q = cc
