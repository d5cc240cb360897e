-- ===== src/Strategy/Lifecycle.antt =====
-- `transition` of strategy/lifecycle.py. The sources that the evidence of a candidate refers to are
-- given as one list; the id and the text of a transition are left out, a reason stands for the text.
-- Closing times are the opening times and the length of the frame.
pub mod Precedence
pub mod Records
pub mod Final
use text.Mathlib.Text.{◌==◌ as str_eq}
use aigold_trader.Base.{
  ℕ, ◌+◌, String, Bool, false, ◌&&◌, ◌||◌, not, Option, none, some, List, [], ◌∷◌, ltb, leb, any,
  if◌then◌else◌,
}
use aigold_trader.Decimal.{Decimal, ◌≤ᵈ◌}
use aigold_trader.Risk.Domain.{Direction, long}
use aigold_trader.Risk.PolicyCore.Inputs.{LifecycleStatus, invalidated, expired, superseded}
use aigold_trader.Risk.PolicyCore.Gates.{is_terminal}

-- A zone or a liquidity object of an analysis.
pub record AnalysisObject : Type 0 where
  pub object_id : String
  pub status_text : String
  pub ended_at : Option ℕ

pub record Bar : Type 0 where
  pub bar_open_time : ℕ
  pub bar_close : Decimal

pub record Frame : Type 0 where
  pub zones : List AnalysisObject
  pub liquidity : List AnalysisObject
  pub bars : List Bar
  pub frame_seconds : ℕ

pub record StrategyContext : Type 0 where
  pub context_id : String
  pub market_context_id : String
  pub context_as_of : ℕ
  pub frames : List Frame

pub record CandidatePlan : Type 0 where
  pub plan_as_of : ℕ
  pub plan_stop_loss : Decimal

pub record Candidate : Type 0 where
  pub candidate_id : String
  pub profile_id : String
  pub strategy_id : String
  -- `none` is NO_TRADE
  pub candidate_direction : Option Direction
  pub candidate_status : LifecycleStatus
  pub detected_at : ℕ
  pub candidate_expires_at : ℕ
  pub candidate_context_id : String
  pub source_ids : List String
  pub candidate_plan : Option CandidatePlan

pub data TransitionReason : Type 0 where
  source_invalidated stop_crossed lifetime_over revision_replaced : TransitionReason

pub record Transition : Type 0 where
  pub of_candidate : String
  pub in_context : String
  pub from_status : LifecycleStatus
  pub to_status : LifecycleStatus
  pub transition_as_of : ℕ
  pub reason : TransitionReason

abbrev pub ended_by : ℕ → Option ℕ → Bool
ended_by now none = false
ended_by now (some t) = leb t now

abbrev pub is_invalidated : ℕ → AnalysisObject → Bool
is_invalidated now o = str_eq o.status_text "INVALIDATED" && ended_by now o.ended_at

-- `referenced & invalidated`
abbrev pub breaks_evidence : Candidate → ℕ → AnalysisObject → Bool
breaks_evidence c now o = is_invalidated now o && any (str_eq o.object_id) c.source_ids

abbrev pub beyond_stop : Option Direction → Decimal → Decimal → Bool
beyond_stop (some long) close stop = close ≤ᵈ stop
beyond_stop _ close stop = stop ≤ᵈ close

-- A bar that closes after the plan was made, and by now, beyond the stop.
abbrev pub crosses_stop : Candidate → CandidatePlan → ℕ → ℕ → Bar → Bool
crosses_stop c plan now period b =
    let closed_at = b.bar_open_time + period in
    ltb plan.plan_as_of closed_at
    && leb closed_at now
    && beyond_stop c.candidate_direction b.bar_close plan.plan_stop_loss

abbrev pub stop_is_crossed : Candidate → Option CandidatePlan → ℕ → Frame → Bool
stop_is_crossed c none now f = false
stop_is_crossed c (some plan) now f = any (crosses_stop c plan now f.frame_seconds) f.bars

abbrev pub evidence_is_broken : Candidate → ℕ → Frame → Bool
evidence_is_broken c now f =
    any (breaks_evidence c now) f.zones || any (breaks_evidence c now) f.liquidity

-- The loop over the frames: the last reason found stays.
unfoldable pub invalidation :
    Candidate → ℕ → List Frame → Option TransitionReason → Option TransitionReason
invalidation c now [] found = found
invalidation c now (f ∷ fs) found = invalidation c now fs (
    if stop_is_crossed c c.candidate_plan now f
    then some stop_crossed
    else if evidence_is_broken c now f
    then some source_invalidated
    else found)

abbrev pub replaces : Candidate → Option Candidate → Bool
replaces c none = false
replaces c (some r) =
    not (str_eq r.candidate_id c.candidate_id)
    && str_eq r.profile_id c.profile_id
    && str_eq r.strategy_id c.strategy_id

-- The change that is found, once the guards have passed.
abbrev pub change_of :
    Candidate
    → StrategyContext
    → Option Candidate
    → Option TransitionReason
    → Option (LifecycleStatus × TransitionReason)
change_of c ctx replacement (some why) = some (invalidated, why)
change_of c ctx replacement none =
    if leb c.candidate_expires_at ctx.context_as_of
    then some (expired, lifetime_over)
    else if replaces c replacement
    then some (superseded, revision_replaced)
    else none

abbrev pub recorded :
    Candidate
    → StrategyContext
    → LifecycleStatus
    → Option (LifecycleStatus × TransitionReason)
    → Option Transition
recorded c ctx old none = none
recorded c ctx old (some (state, why)) = some (record {
  of_candidate = c.candidate_id;
  in_context = ctx.context_id;
  from_status = old;
  to_status = state;
  transition_as_of = ctx.context_as_of;
  reason = why;
})

-- `current_status or candidate.status`
abbrev pub status_or : Option LifecycleStatus → LifecycleStatus → LifecycleStatus
status_or none s = s
status_or (some s) _ = s

-- Only the two news strategies depend on the whole context.
abbrev pub dependency_id : StrategyContext → String → String
dependency_id ctx strategy =
    if str_eq strategy "STRAT05" || str_eq strategy "STRAT06"
    then ctx.context_id
    else ctx.market_context_id

-- Nothing is looked at: the candidate is terminal, not yet detected, or of this very context.
abbrev pub is_settled : Candidate → StrategyContext → LifecycleStatus → Bool
is_settled c ctx old =
    is_terminal old
    || ltb ctx.context_as_of c.detected_at
    || str_eq (dependency_id ctx c.strategy_id) c.candidate_context_id

unfoldable pub transition :
    Candidate → StrategyContext → Option Candidate → Option LifecycleStatus → Option Transition
transition c ctx replacement current =
    let old = status_or current c.candidate_status in
    if is_settled c ctx old
    then none
    else recorded c ctx old
        (change_of c ctx replacement (invalidation c ctx.context_as_of ctx.frames none))
