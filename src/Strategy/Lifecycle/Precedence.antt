-- ===== src/Strategy/Lifecycle/Precedence.antt =====
-- What ends a candidate in strategy/lifecycle.py, and that it ends once.
use aigold_trader.Base.{
  ℕ, ◌≤◌, ◌<◌, ◌≡◌, ◌≢◌, ◌⊎◌, ◌∙◌, ap, refl, sym, inl, inr, Bool, true, false, ◌||◌, Option, none,
  some, List, [], ◌∷◌, leb, any, length, if◌then◌else◌, arith, tests, Bool-cases, if_ind, if_true,
  if_false, is_some,
}
use aigold_trader.Risk.PolicyCore.Inputs.{
  LifecycleStatus, detected, waiting_confirmation, ready, blocked_context, no_trade, invalidated,
  expired, superseded,
}
use aigold_trader.Risk.PolicyCore.Gates.{is_terminal}
use aigold_trader.Strategy.Lifecycle.{
  Frame, StrategyContext, Candidate, TransitionReason, source_invalidated, stop_crossed, Transition,
  stop_is_crossed, evidence_is_broken, invalidation, replaces, change_of, recorded, status_or,
  is_settled, transition,
}

-- A frame that invalidates: a close beyond the stop, or broken evidence.
abbrev pub invalidates : Candidate → ℕ → Frame → Bool
invalidates c now f = stop_is_crossed c c.candidate_plan now f || evidence_is_broken c now f

found_by :
    (s e : Bool) (found : Option TransitionReason) (a b : TransitionReason)
    → is_some (if s then some a else if e then some b else found) ≡ (is_some found || (s || e))
found_by s e found a b = ground arith

either : (x y z : Bool) → ((x || y) || z) ≡ (x || (y || z))
either x y z = ground arith

invalidation_lem :
    (c : Candidate) (now : ℕ) (frames : List Frame) (found : Option TransitionReason)
    → is_some (invalidation c now frames found) ≡ (is_some found || any (invalidates c now) frames)
unfolding invalidation
invalidation_lem c now [] found = ground arith
invalidation_lem c now (f ∷ fs) found =
    invalidation_lem c now fs _
    ∙ ap (λ b. b || any (invalidates c now) fs)
        (found_by (stop_is_crossed c c.candidate_plan now f) (evidence_is_broken c now f) found
          stop_crossed source_invalidated)
    ∙ either (is_some found) (invalidates c now f) (any (invalidates c now) fs)

module _ (c : Candidate) (ctx : StrategyContext) (replacement : Option Candidate)
    (old : LifecycleStatus) where
  abbrev is_broken : Bool
  is_broken = any (invalidates c ctx.context_as_of) ctx.frames

  -- The status that a change leads to, by the first of the three causes that holds.
  abbrev pub Leads : Option LifecycleStatus → Type 0
  Leads none =
      (any (invalidates c ctx.context_as_of) ctx.frames ≡ false)
      × (ctx.context_as_of < c.candidate_expires_at)
      × (replaces c replacement ≡ false)
  Leads (some invalidated) = any (invalidates c ctx.context_as_of) ctx.frames ≡ true
  Leads (some expired) =
      (any (invalidates c ctx.context_as_of) ctx.frames ≡ false)
      × (c.candidate_expires_at ≤ ctx.context_as_of)
  Leads (some superseded) =
      (any (invalidates c ctx.context_as_of) ctx.frames ≡ false)
      × (ctx.context_as_of < c.candidate_expires_at)
      × (replaces c replacement ≡ true)
  Leads (some _) = ⊥

  abbrev status_of : Option (LifecycleStatus × TransitionReason) → Option LifecycleStatus
  status_of none = none
  status_of (some (s, why)) = some s

  change-Leads :
      (found : Option TransitionReason)
      → is_some found ≡ any (invalidates c ctx.context_as_of) ctx.frames
      → Leads (status_of (change_of c ctx replacement found))
  change-Leads (some why) e = sym e
  change-Leads none e =
      if_ind (λ s. Leads (status_of s)) (leb c.candidate_expires_at ctx.context_as_of) _ _
        (λ h. (sym e, omega (tests, h)))
        λ h.
          if_ind (λ s. Leads (status_of s)) (replaces c replacement) _ _
            (λ r. (sym e, omega (tests, h), r)) (λ r. (sym e, omega (tests, h), r))

abbrev pub target : Option Transition → Option LifecycleStatus
target none = none
target (some t) = some t.to_status

target-recorded :
    (c : Candidate) (ctx : StrategyContext) (old : LifecycleStatus)
    (o : Option (LifecycleStatus × TransitionReason))
    → target (recorded c ctx old o) ≡ status_of c ctx none old o
target-recorded c ctx old none = refl
target-recorded c ctx old (some (s, why)) = refl

-- A candidate that is terminal, is not yet detected or was made from the context itself does not
-- change. Any other goes to INVALIDATED exactly where some frame has a close beyond the stop or
-- has ended what the evidence refers to; else to EXPIRED exactly where its life is over; else to
-- SUPERSEDED exactly where another candidate of its profile and strategy replaces it; and else it
-- does not change.
pub transition_cause :
    (c : Candidate) (ctx : StrategyContext) (replacement : Option Candidate)
    (current : Option LifecycleStatus)
    → let settled = is_settled c ctx (status_or current c.candidate_status) in
      ((settled ≡ true) × (transition c ctx replacement current ≡ none))
      ⊎ ((settled ≡ false)
          × Leads c ctx replacement
              (status_or current c.candidate_status)
              (target (transition c ctx replacement current)))
unfolding transition
transition_cause c ctx replacement current =
    let old = status_or current c.candidate_status in
    let found = invalidation c ctx.context_as_of ctx.frames none in
    elim (Bool-cases (is_settled c ctx old)) [
      | inl h ↦ inl (h, if_true (is_settled c ctx old) _ _ h)
      | inr h ↦
          let led =
            change-Leads c ctx replacement old found
              (invalidation_lem c ctx.context_as_of ctx.frames none) in
          let same =
            ap target (
              if_false (is_settled c ctx old) none
                (recorded c ctx old (change_of c ctx replacement found)) h)
            ∙ target-recorded c ctx old (change_of c ctx replacement found) in
          inr (h, rw same led)
    ]

Leads-terminal :
    (c : Candidate) (ctx : StrategyContext) (replacement : Option Candidate) (old : LifecycleStatus)
    (s : LifecycleStatus)
    → Leads c ctx replacement old (some s)
    → is_terminal s ≡ true
Leads-terminal c ctx replacement old invalidated h = refl
Leads-terminal c ctx replacement old expired h = refl
Leads-terminal c ctx replacement old superseded h = refl
Leads-terminal c ctx replacement old detected h = absurd h
Leads-terminal c ctx replacement old waiting_confirmation h = absurd h
Leads-terminal c ctx replacement old ready h = absurd h
Leads-terminal c ctx replacement old blocked_context h = absurd h
Leads-terminal c ctx replacement old no_trade h = absurd h

-- What is recorded is a terminal status.
pub transition-terminal :
    (c : Candidate) (ctx : StrategyContext) (replacement : Option Candidate)
    (current : Option LifecycleStatus) (t : Transition)
    → transition c ctx replacement current ≡ some t
    → is_terminal t.to_status ≡ true
transition-terminal c ctx replacement current t e =
    elim (transition_cause c ctx replacement current) [
      | inl (settled, none_found) ↦ absurd (other t (sym none_found ∙ e))
      | inr (open_, leads) ↦
          Leads-terminal c ctx replacement (status_or current c.candidate_status) t.to_status
            (rw e at leads)
    ]
  where
    other : (t : Transition) → none ≢ some t
    other t h = cc

abbrev to_or : LifecycleStatus → Option Transition → LifecycleStatus
to_or status none = status
to_or status (some t) = t.to_status

abbrev added : Option Transition → List Transition → List Transition
added none ts = ts
added (some t) ts = t ∷ ts

-- A history of evaluations, each from the status that the one before left.
unfoldable pub follow :
    Candidate → LifecycleStatus → List (StrategyContext × Option Candidate) → List Transition
follow c status [] = []
follow c status ((ctx, replacement) ∷ rest) =
    let change = transition c ctx replacement (some status) in
    added change (follow c (to_or status change) rest)

settled-terminal : (a b d : Bool) → a ≡ true → (a || b || d) ≡ true
settled-terminal a b d h = ground arith

terminal_stays :
    (c : Candidate) (ctx : StrategyContext) (replacement : Option Candidate)
    (status : LifecycleStatus)
    → is_terminal status ≡ true
    → transition c ctx replacement (some status) ≡ none
unfolding transition
terminal_stays c ctx replacement status h =
    if_true (is_settled c ctx status) _ _ (settled-terminal (is_terminal status) _ _ h)

follow_ended :
    (c : Candidate) (status : LifecycleStatus) (history : List (StrategyContext × Option Candidate))
    → is_terminal status ≡ true
    → follow c status history ≡ []
unfolding follow
follow_ended c status [] h = refl
follow_ended c status ((ctx, replacement) ∷ rest) h =
    ap (λ o. added o (follow c (to_or status o) rest)) (terminal_stays c ctx replacement status h)
    ∙ follow_ended c status rest h

-- Over any history of evaluations a candidate changes at most once.
pub ends_once :
    (c : Candidate) (status : LifecycleStatus) (history : List (StrategyContext × Option Candidate))
    → length (follow c status history) ≤ 1
unfolding follow
ends_once c status [] = omega arith
ends_once c status ((ctx, replacement) ∷ rest) =
    evaluated (transition c ctx replacement (some status)) refl (ends_once c status rest)
  where
    evaluated :
        (o : Option Transition)
        → transition c ctx replacement (some status) ≡ o
        → length (follow c status rest) ≤ 1
        → length (added o (follow c (to_or status o) rest)) ≤ 1
    evaluated none e h = h
    evaluated (some t) e h = omega (
      arith,
      ap length (
          follow_ended c t.to_status rest
            (transition-terminal c ctx replacement (some status) t e)),
    )
