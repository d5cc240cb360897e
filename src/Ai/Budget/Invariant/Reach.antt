-- ===== src/Ai/Budget/Invariant/Reach.antt =====
-- Any interleaving of the methods of budget.py, from a new budget on.
use aigold_trader.Base.{
  arith, refl, ap, pos_part, neg_part, ◌∙◌, ℕ, ◌≡◌, ◌≢◌, String, Option, pos, ◌+ℤ◌, ◌≤ℤ◌,
  Option-cases, inl, inr, get_elem?,
}
use aigold_trader.Ai.Budget.Domain.{
  raised, invariant_violated, Resource, AnalysisBudgetLimits, ModelConfig, ProviderUsage,
  AnalysisBudget, limit_of,
}
use aigold_trader.Ai.Budget.Operations.{
  init, finalize_locked, checked, with_reservation, reserve, mark_attempt_started,
  authorize_additional_attempt, reconcile, reconcile_in,
}
use aigold_trader.Ai.Budget.Invariant.{IsValid}
use aigold_trader.Ai.Budget.Invariant.Keeps.{init-IsValid, reserve-IsValid, reserve-eq}
use aigold_trader.Ai.Budget.Invariant.Attempts.{
  mark_attempt_started-IsValid, authorize_additional_attempt-IsValid, authorize_in-eq,
}
use aigold_trader.Ai.Budget.Invariant.Settles.{reconcile-IsValid, reconcile_in-eq}

pub data Step (b : AnalysisBudget) : AnalysisBudget → Type 0 where
  reserves : (now : ℕ) (agent : String) (c : ModelConfig) → Step b (reserve now agent c b).1
  starts : (h a : ℕ) → Step b (mark_attempt_started h a b).1
  authorizes : (h : ℕ) (c : ModelConfig) → Step b (authorize_additional_attempt h c b).1
  reconciles : (h : ℕ) (s : Option (ProviderUsage × ℕ)) → Step b (reconcile h s b).1

pub data Reach (l : AnalysisBudgetLimits) : AnalysisBudget → Type 0 where
  starting : (now : ℕ) → Reach l (init l now)
  then_step : {b c : AnalysisBudget} → Reach l b → Step b c → Reach l c

Step-IsValid : {b c : AnalysisBudget} → Step b c → IsValid b → IsValid c
Step-IsValid {b} (reserves now agent c) v = reserve-IsValid now agent c b v
Step-IsValid {b} (starts h a) v = mark_attempt_started-IsValid h a b v
Step-IsValid {b} (authorizes h c) v = authorize_additional_attempt-IsValid h c b v
Step-IsValid {b} (reconciles h s) v = reconcile-IsValid h s b v

pub Reach-IsValid : (l : AnalysisBudgetLimits) (b : AnalysisBudget) → Reach l b → IsValid b
Reach-IsValid l b (starting now) = init-IsValid l now
Reach-IsValid l b (then_step {b = a} r s) = Step-IsValid s (Reach-IsValid l a r)

-- No method changes the limits.
Step-limits : {b c : AnalysisBudget} → Step b c → c.limits ≡ b.limits
unfolding reserve mark_attempt_started authorize_additional_attempt reconcile reconcile_in
    finalize_locked checked with_reservation
Step-limits {b} (reserves now agent c) = ground arith
Step-limits {b} (starts h a) = ground arith
Step-limits {b} (authorizes h c) = ground arith
Step-limits {b} (reconciles h s) = ground arith

pub Reach-limits : (l : AnalysisBudgetLimits) (b : AnalysisBudget) → Reach l b → b.limits ≡ l
unfolding init
Reach-limits l b (starting now) = refl
Reach-limits l b (then_step {b = a} r s) = Step-limits s ∙ Reach-limits l a r

-- In every state that the methods can reach, in whatever order they are called, each resource has
-- been used and reserved a non-negative amount, and the two together are within the limit of the
-- request.
pub Reach-within :
    (l : AnalysisBudgetLimits) (b : AnalysisBudget) (n : Resource)
    → Reach l b
    → (pos 0 ≤ℤ b.used n)
      × (pos 0 ≤ℤ b.reserved n)
      × (b.used n +ℤ b.reserved n ≤ℤ pos (limit_of l n))
Reach-within l b n r =
    let s = (Reach-IsValid l b r).balanced n in
    (
      s.used_nonneg,
      omega (arith, ap pos_part s.reserved_sum, ap neg_part s.reserved_sum),
      rw (Reach-limits l b r) at s.within,
    )

-- Whatever of the four methods is called in a reachable state, the assertion on the counters does
-- not raise.
pub Reach-asserts :
    (l : AnalysisBudgetLimits) (b : AnalysisBudget) (now h : ℕ) (agent : String) (c : ModelConfig)
    (s : Option (ProviderUsage × ℕ))
    → Reach l b
    → ((reserve now agent c b).0 ≢ raised invariant_violated)
      × ((authorize_additional_attempt h c b).0 ≢ raised invariant_violated)
      × ((reconcile h s b).0 ≢ raised invariant_violated)
unfolding authorize_additional_attempt reconcile
Reach-asserts l b now h agent c s r =
    let v : IsValid b = Reach-IsValid l b r in
    (
      rw (reserve-eq now agent c b v) (ground arith),
      elim (Option-cases (get_elem? b.reservations h)) [
        | inl e ↦ rw (e, authorize_additional_attempt) (cc)
        | inr (x, e) ↦
            rw (e, authorize_additional_attempt) (rw (authorize_in-eq h b v x e c) (ground arith))
      ],
      elim (Option-cases (get_elem? b.reservations h)) [
        | inl e ↦ rw (e, reconcile) (cc)
        | inr (x, e) ↦ rw (e, reconcile) (rw (reconcile_in-eq h b v x e s) (ground arith))
      ],
    )
