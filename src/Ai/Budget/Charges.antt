-- ===== src/Ai/Budget/Charges.antt =====
-- What budget.py charges and grants, as formulas of the reservation.
use aigold_trader.Base.{
  ℕ, ◌+◌, ◌-◌, ◌*◌, ◌≤◌, ◌≡◌, refl, true, false, Option, none, some, arith, if◌then◌else◌, ltb, inl,
  inr, Bool-cases, All-get_elem?, length, get_elem?, any-none, get_elem?-set_self,
}
use aigold_trader.Ai.Budget.Domain.{
  ok, raised, usage_exceeded, already_terminal, resource_names, ProviderUsage, ModelConfig,
  AnalysisReservation, AnalysisBudget, required, reserved_amounts,
}
use aigold_trader.Ai.Budget.Started.{length-le_of_IsBelow}
use aigold_trader.Ai.Budget.Operations.{
  charges_of, started_count, measured, reconcile, reconcile_in, reconcile_success,
  reconcile_failure, mark_attempt_started, authorize_additional_attempt, authorize_in,
}
use aigold_trader.Ai.Budget.Invariant.{IsConsistent, IsValid, reserved_amounts-mul}
use aigold_trader.Ai.Budget.Invariant.Settles.{
  exceeds, final_charges, closed, closing, reconcile_in-eq,
}

terminal_at :
    (h : ℕ) (b : AnalysisBudget) (r : AnalysisReservation)
    → get_elem? b.reservations h ≡ some r
    → r.terminal ≡ true
    → (t : Option (ProviderUsage × ℕ)) (a : ℕ) (c : ModelConfig)
    → (reconcile h t b ≡ (ok false, b))
      × (mark_attempt_started h a b ≡ (raised already_terminal, b))
      × (authorize_additional_attempt h c b ≡ (ok false, b))
unfolding reconcile mark_attempt_started authorize_additional_attempt reconcile_in authorize_in
terminal_at h b r at ended t a c = (
  rw (at, reconcile) (simp ended),
  rw (at, mark_attempt_started) (simp ended),
  rw (at, authorize_additional_attempt) (simp ended),
)

module _ (h : ℕ) (b : AnalysisBudget) (v : IsValid b) (r : AnalysisReservation)
    (at : get_elem? b.reservations h ≡ some r) where
  reconcile-eq : (s : Option (ProviderUsage × ℕ)) → reconcile h s b ≡ reconcile_in h r s b
  unfolding reconcile
  reconcile-eq s = rw (at, reconcile)

  started-le : length r.started_attempts ≤ r.authorized_attempts
  started-le =
      let c : IsConsistent r = All-get_elem? IsConsistent b.reservations h r v.consistent at in
      length-le_of_IsBelow r.authorized_attempts r.started_attempts c.distinct c.below

  failure-fits : exceeds r none ≡ false
  unfolding charges_of
  failure-fits =
      any-none (λ n. ltb (reserved_amounts r n) (charges_of r none n)) resource_names
        λ n. rw (reserved_amounts-mul r n) (
          ground (
            arith,
            mul_mono (length r.started_attempts) r.authorized_attempts (required r.per_attempt n)
                started-le,
          ))
    where
      mul_mono : (x y k : ℕ) → x ≤ y → x * k ≤ y * k
      mul_mono x y k le = grind arith

  -- A failed or cancelled call of a valid budget never raises. It ends the reservation, keeps one
  -- full attempt of every resource for each started attempt, and gives the rest back.
  pub reconcile_failure_charges :
      r.terminal ≡ false
      → reconcile_failure h b
        ≡ (ok true, closing h r (λ n. length r.started_attempts * required r.per_attempt n) b)
  unfolding reconcile_failure charges_of
  reconcile_failure_charges active =
      rw (reconcile-eq none, reconcile_in-eq h b v r at none, active, failure-fits)

  -- A success whose measured usage fits the reservation is charged the measured usage of the final
  -- attempt and one full attempt for each other started attempt; the rest is given back. Usage
  -- beyond the reservation raises, and the whole reservation is charged.
  pub reconcile_success_charges :
      (u : ProviderUsage) (input_bytes output_bytes : ℕ)
      → r.terminal ≡ false
      → let s : Option (ProviderUsage × ℕ) = some (u, input_bytes + output_bytes) in
        reconcile_success h u input_bytes output_bytes b ≡ (
          if exceeds r s then (raised usage_exceeded, closing h r (reserved_amounts r) b) else (
            ok true,
            closing h r
                (λ n.
                  (started_count r s - 1) * required r.per_attempt n
                  + measured (u, input_bytes + output_bytes) n)
                b,
          ))
  unfolding reconcile_success charges_of
  reconcile_success_charges u i o active = elim (Bool-cases (exceeds r (some (u, i + o)))) [
    | inl e ↦
        rw (reconcile-eq (some (u, i + o)), reconcile_in-eq h b v r at (some (u, i + o)), active, e)
    | inr e ↦
        rw (reconcile-eq (some (u, i + o)), reconcile_in-eq h b v r at (some (u, i + o)), active, e)
  ]

  ended :
      (s : Option (ProviderUsage × ℕ))
      → r.terminal ≡ false
      → (reconcile h s b).1 ≡ closing h r (final_charges r s) b
  ended s active = rw (reconcile-eq s, reconcile_in-eq h b v r at s, active)

  -- Once reconciled, a reservation is terminal: a second reconciliation returns `False` and charges
  -- nothing, no attempt can start and none can be added.
  pub reconcile_once :
      (s t : Option (ProviderUsage × ℕ)) (a : ℕ) (c : ModelConfig)
      → r.terminal ≡ false
      → let b' = (reconcile h s b).1 in
        (reconcile h t b' ≡ (ok false, b'))
        × (mark_attempt_started h a b' ≡ (raised already_terminal, b'))
        × (authorize_additional_attempt h c b' ≡ (ok false, b'))
  reconcile_once s t a c active = rw (ended s active) (
      terminal_at h (closing h r (final_charges r s) b) (closed r)
        (get_elem?-set_self b.reservations h (closed r) r at) refl t a c)
