-- ===== src/Ai/Budget/Invariant/RunsOut.antt =====
-- The provider attempts of one request run out, whatever the callers of budget.py do.
use aigold_trader.Base.{
  ℕ, ◌+◌, ◌≤◌, ◌≡◌, refl, ap, Bool, true, false, not, ◌||◌, Option, none, some, List, [], ◌∷◌,
  arith, if◌then◌else◌, ltb, leb, pos, pos_part, neg_part, ◌≤ℤ◌, ltb_ℤ, int_laws, inl, inr, if_ind,
  Option-cases, All, All-get_elem?, sum_of, sum_of-set, sum_of-append, length, get_elem?, set,
}
use aigold_trader.Ai.Budget.Domain.{
  ok, Outcome, Resource, attempts, AnalysisBudgetLimits, ModelConfig, ProviderUsage,
  AnalysisReservation, AnalysisBudget, reserved_amounts, add_attempt,
}
use aigold_trader.Ai.Budget.Operations.{
  with_attempt, init, supported_attempts, fresh_reservation, with_reservation, start_attempt,
  mark_in, mark_attempt_started, authorize_in, authorize_additional_attempt, charges_of,
  reconcile_in, reconcile,
}
use aigold_trader.Ai.Budget.Started.{length-le_of_IsBelow}
use aigold_trader.Ai.Budget.Invariant.{held, IsConsistent, IsValid}
use aigold_trader.Ai.Budget.Invariant.Keeps.{reserve-eq}
use aigold_trader.Ai.Budget.Invariant.Attempts.{lacks, authorize_in-eq}
use aigold_trader.Ai.Budget.Invariant.Settles.{exceeds, final_charges, closed, reconcile_in-eq}
use aigold_trader.Ai.Budget.Invariant.Reach.{
  Step, reserves, starts, authorizes, reconciles, Reach, starting, then_step, Reach-IsValid,
  Reach-limits,
}

-- The attempts that a reservation has started, and those of a reservation that has ended.
abbrev pub started : AnalysisReservation → ℕ
started r = length r.started_attempts

abbrev over : AnalysisReservation → ℕ
over r = if r.registered then 0 else started r

-- Every attempt of an ended reservation was charged.
abbrev IsPaid : AnalysisBudget → Type 0
IsPaid b = pos (sum_of over b.reservations) ≤ℤ b.used attempts

started-le : (r : AnalysisReservation) → IsConsistent r → started r ≤ over r + held attempts r
started-le r c =
    let le = length-le_of_IsBelow r.authorized_attempts r.started_attempts c.distinct c.below in
    ground (arith, le)

sum-started-le :
    (rs : List AnalysisReservation)
    → All IsConsistent rs
    → sum_of started rs ≤ sum_of over rs + sum_of (held attempts) rs
sum-started-le [] h = omega arith
sum-started-le (r ∷ rs) h = omega (arith, started-le r h.0, sum-started-le rs h.1)

module _ (h : ℕ) (b : AnalysisBudget) (v : IsValid b) (r : AnalysisReservation)
    (at : get_elem? b.reservations h ≡ some r) (paid : IsPaid b) where
  -- A reservation that stays active changes nothing.
  kept-IsPaid :
      (r' : AnalysisReservation)
      → r.registered ≡ true
      → r'.registered ≡ true
      → pos (sum_of over (set b.reservations h r')) ≤ℤ b.used attempts
  kept-IsPaid r' e e' =
      let at_r : over r ≡ 0 = rw e refl in
      let at_r' : over r' ≡ 0 = rw e' refl in
      omega (int_laws, sum_of-set over b.reservations h r' r at, at_r, at_r', paid)

  consistent_at : IsConsistent r
  consistent_at = All-get_elem? IsConsistent b.reservations h r v.consistent at

  mark_in-IsPaid : (a : ℕ) → IsPaid (mark_in h a r b).1
  mark_in-IsPaid a =
      if_ind (λ (o : Outcome (Unit {0}) × AnalysisBudget). IsPaid o.1) r.terminal _ _
        (λ ended. paid)
        (λ active.
          let registered : r.registered ≡ true = ground (arith, consistent_at.active, active) in
          if_ind (λ (o : Outcome (Unit {0}) × AnalysisBudget). IsPaid o.1)
            (ltb a 1 || ltb r.authorized_attempts a) _ _ (λ refused. paid)
            (λ fits. kept-IsPaid (start_attempt a r) registered registered))

  authorize_in-IsPaid : (c : ModelConfig) → IsPaid (authorize_in h c r b).1
  authorize_in-IsPaid c =
      let refuses =
        r.terminal || not r.registered || leb (c.max_retries + 1) r.authorized_attempts in
      let P = λ (o : Outcome Bool × AnalysisBudget). IsPaid o.1 in
      rw (authorize_in-eq h b v r at c) (
        if_ind P refuses _ _ (λ refused. paid)
          (λ allowed.
            let registered : r.registered ≡ true = ground (arith, allowed) in
            if_ind P _ _ _ (λ lacks. paid)
              (λ fits.
                kept-IsPaid (record r { authorized_attempts = r.authorized_attempts + 1 })
                  registered registered)))

  -- An ended reservation is charged for every attempt that it started.
  charged-ge : (s : Option (ProviderUsage × ℕ)) → started r ≤ final_charges r s attempts
  unfolding charges_of
  charged-ge s =
      if_ind (λ (f : Resource → ℕ). started r ≤ f attempts) (exceeds r s) (reserved_amounts r)
        (charges_of r s)
        (λ e.
          length-le_of_IsBelow r.authorized_attempts r.started_attempts consistent_at.distinct
            consistent_at.below)
        (λ e. counted s)
    where
      counted : (s : Option (ProviderUsage × ℕ)) → started r ≤ charges_of r s attempts
      counted none = omega arith
      counted (some u) = ground arith

  reconcile_in-IsPaid : (s : Option (ProviderUsage × ℕ)) → IsPaid (reconcile_in h r s b).1
  reconcile_in-IsPaid s = rw (reconcile_in-eq h b v r at s) (
      if_ind (λ (o : Outcome Bool × AnalysisBudget). IsPaid o.1) r.terminal _ _ (λ ended. paid)
        (λ active.
          let at_r : over r ≡ 0 = ground (arith, consistent_at.active, active) in
          omega
            (int_laws, sum_of-set over b.reservations h (closed r) r at, at_r, charged-ge s, paid)))

Step-IsPaid : {b c : AnalysisBudget} → Step b c → IsValid b → IsPaid b → IsPaid c
unfolding mark_attempt_started authorize_additional_attempt reconcile with_reservation
Step-IsPaid {b} (reserves now agent c) v p =
    let refused = leb b.deadline now || ltb_ℤ (supported_attempts b c) (pos 1) in
    let r = fresh_reservation b agent (pos_part (supported_attempts b c)) c in
    rw (reserve-eq now agent c b v) (
      if_ind (λ (o : Outcome (Option ℕ) × AnalysisBudget). IsPaid o.1) refused _ _ (λ h. p)
        (λ h. omega (int_laws, sum_of-append over b.reservations (r ∷ []), p)))
Step-IsPaid {b} (starts h a) v p = elim (Option-cases (get_elem? b.reservations h)) [
  | inl e ↦ rw (e, mark_attempt_started) p
  | inr (r, e) ↦ rw (e, mark_attempt_started) (mark_in-IsPaid h b v r e p a)
]
Step-IsPaid {b} (authorizes h c) v p = elim (Option-cases (get_elem? b.reservations h)) [
  | inl e ↦ rw (e, authorize_additional_attempt) p
  | inr (r, e) ↦ rw (e, authorize_additional_attempt) (authorize_in-IsPaid h b v r e p c)
]
Step-IsPaid {b} (reconciles h s) v p = elim (Option-cases (get_elem? b.reservations h)) [
  | inl e ↦ rw (e, reconcile) p
  | inr (r, e) ↦ rw (e, reconcile) (reconcile_in-IsPaid h b v r e p s)
]

Reach-IsPaid : (l : AnalysisBudgetLimits) (b : AnalysisBudget) → Reach l b → IsPaid b
unfolding init
Reach-IsPaid l b (starting now) = omega arith
Reach-IsPaid l b (then_step {b = a} r s) = Step-IsPaid s (Reach-IsValid l a r) (Reach-IsPaid l a r)

-- An entry that is replaced by one with as many attempts or more.
set-grows :
    (rs : List AnalysisReservation) (h : ℕ) (r r' : AnalysisReservation)
    → get_elem? rs h ≡ some r
    → started r ≤ started r'
    → sum_of started rs ≤ sum_of started (set rs h r')
set-grows rs h r r' at le = omega (arith, sum_of-set started rs h r' r at, le)

add_attempt-grows : (a : ℕ) (xs : List ℕ) → length xs ≤ length (add_attempt a xs)
add_attempt-grows a xs = ground arith

abbrev Grows : {A : Type 0} → AnalysisBudget → Outcome A × AnalysisBudget → Type 0
Grows b o = sum_of started b.reservations ≤ sum_of started o.1.reservations

module _ (h : ℕ) (b : AnalysisBudget) (v : IsValid b) (r : AnalysisReservation)
    (at : get_elem? b.reservations h ≡ some r) where
  mark_in-Grows : (a : ℕ) → Grows b (mark_in h a r b)
  mark_in-Grows a =
      if_ind (Grows b) r.terminal _ _ (λ ended. omega arith)
        (λ active.
          if_ind (Grows b) (ltb a 1 || ltb r.authorized_attempts a) _ _ (λ refused. omega arith)
            (λ fits.
              set-grows b.reservations h r (start_attempt a r) at
                (add_attempt-grows a r.started_attempts)))

  authorize_in-Grows : (c : ModelConfig) → Grows b (authorize_in h c r b)
  authorize_in-Grows c = rw (authorize_in-eq h b v r at c) (
      if_ind (Grows b)
        (r.terminal || not r.registered || leb (c.max_retries + 1) r.authorized_attempts) _ _
        (λ refused. omega arith) (λ allowed. roomy (lacks h b v r at)))
    where
      more : Grows b (ok true, with_attempt h r b)
      more =
          set-grows b.reservations h r
            (record r { authorized_attempts = r.authorized_attempts + 1 }) at (omega arith)

      roomy : (x : Bool) → Grows b (if x then (ok false, b) else (ok true, with_attempt h r b))
      roomy true = omega arith
      roomy false = more

  reconcile_in-Grows : (s : Option (ProviderUsage × ℕ)) → Grows b (reconcile_in h r s b)
  reconcile_in-Grows s = rw (reconcile_in-eq h b v r at s) (
      if_ind (Grows b) r.terminal _ _ (λ ended. omega arith)
        (λ active. set-grows b.reservations h r (closed r) at (omega arith)))

Step-grows :
    {b c : AnalysisBudget}
    → Step b c
    → IsValid b
    → sum_of started b.reservations ≤ sum_of started c.reservations
unfolding mark_attempt_started authorize_additional_attempt reconcile with_reservation
Step-grows {b} (reserves now agent c) v =
    let refused = leb b.deadline now || ltb_ℤ (supported_attempts b c) (pos 1) in
    let r = fresh_reservation b agent (pos_part (supported_attempts b c)) c in
    rw (reserve-eq now agent c b v) (
      if_ind (Grows b) refused _ _ (λ h. omega arith)
        (λ h. omega (arith, sum_of-append started b.reservations (r ∷ []))))
Step-grows {b} (starts h a) v = elim (Option-cases (get_elem? b.reservations h)) [
  | inl e ↦ rw (e, mark_attempt_started) (omega arith)
  | inr (r, e) ↦ rw (e, mark_attempt_started) (mark_in-Grows h b v r e a)
]
Step-grows {b} (authorizes h c) v = elim (Option-cases (get_elem? b.reservations h)) [
  | inl e ↦ rw (e, authorize_additional_attempt) (omega arith)
  | inr (r, e) ↦ rw (e, authorize_additional_attempt) (authorize_in-Grows h b v r e c)
]
Step-grows {b} (reconciles h s) v = elim (Option-cases (get_elem? b.reservations h)) [
  | inl e ↦ rw (e, reconcile) (omega arith)
  | inr (r, e) ↦ rw (e, reconcile) (reconcile_in-Grows h b v r e s)
]

-- The provider attempts of a request run out: from any state that the methods can reach, no call of
-- a method lowers the number of attempts that the reservations have started together, and after the
-- call it is at most the greatest number of provider attempts of the request, so that only so many
-- calls start a new one.
pub attempts_run_out :
    (l : AnalysisBudgetLimits) (b c : AnalysisBudget)
    → Reach l b
    → Step b c
    → (sum_of started b.reservations ≤ sum_of started c.reservations)
      × (sum_of started c.reservations ≤ l.max_provider_attempts)
attempts_run_out l b c r step =
    let reached : Reach l c = then_step r step in
    let v = Reach-IsValid l c reached in
    let s = v.balanced attempts in
    let paid = Reach-IsPaid l c reached in
    let le = sum-started-le c.reservations v.consistent in
    let limit = ap (λ m. m.max_provider_attempts) (Reach-limits l c reached) in
    (
      Step-grows step (Reach-IsValid l b r),
      omega (
        int_laws,
        le,
        paid,
        s.within,
        ap pos_part s.reserved_sum,
        ap neg_part s.reserved_sum,
        limit,
      ),
    )
