-- ===== src/Risk/PolicyCore/Decisions.antt =====
-- What the decisions of risk/policy_core.py guarantee.
use aigold_trader.Base.{
  ◌≡◌, ◌≢◌, ◌⊎◌, ◌∙◌, inl, inr, refl, sym, true, some, List, ◌∷◌, arith, Bool-cases, if_true,
  if_false, ap,
}
use aigold_trader.Decimal.{◌≤ᵈ◌}
use aigold_trader.Risk.Domain.{
  ok, raised, validation_error, ◌>>=◌, bind-ok, ok-injective, blocked, valid_spec,
}
use aigold_trader.Risk.Capacity.{
  PureRiskCode, kill_switch_active, kill_switch_unknown, portfolio_capacity,
}
use aigold_trader.Risk.PolicyCore.Inputs.{
  KillSwitchInputState, switch_active, switch_inactive, switch_unknown, PureRiskEvaluationInput,
  valid_input, canonical,
}
use aigold_trader.Risk.PolicyCore.Gates.{blocking_codes, kill_switch_code}
use aigold_trader.Risk.PolicyCore.Clear.{gate_code-some}
use aigold_trader.Risk.PolicyCore.Evaluate.{
  PureRiskResult, Prepared, prepare, with_capacity, by_blocks, decide, evaluate_prepared,
  evaluate_pure_risk,
}
use aigold_trader.Risk.PolicyCore.Outcomes.{IsGranted, IsRefused, decide_outcome, prepared_breaches}

decide_switch :
    (i : PureRiskEvaluationInput) (v : Prepared) (r : PureRiskResult) (c : PureRiskCode)
    → kill_switch_code i.kill_switch ≡ some c
    → decide i v ≡ ok r
    → (r.decision ≡ blocked) × ((cs : List PureRiskCode) × (r.blocked_codes ≡ c ∷ cs))
unfolding decide blocking_codes
decide_switch i v r c s e =
    let first = ok-injective (
      sym (
        ap
          (λ l. by_blocks i v l (
            portfolio_capacity i.portfolio i.policy i.account v.news.target i.as_of
            >>= with_capacity i v))
          (gate_code-some (kill_switch_code i.kill_switch) c _ s))
      ∙ e) in
    (ap (λ r. r.decision) (sym first), (_, ap (λ r. r.blocked_codes) (sym first)))

valid_spec-ordered :
    (i : PureRiskEvaluationInput)
    → valid_input i ≡ true
    → (i.symbol_specification.volume_min ≤ᵈ i.symbol_specification.volume_max) ≡ true
unfolding valid_input valid_spec
valid_spec-ordered i h = ground arith

-- An evaluation that returns was given a valid input, and decides in one of two ways over that
-- input with the peak of the account raised to its equity. Either it is BLOCKED with some code: it
-- approves a percentage, an amount and a size of zero, leaves the exposure as the open risk and
-- gives no warnings. Or it is not BLOCKED and every check passed: the kill switch is off, the
-- health of the data is HEALTHY or DEGRADED, the news give no code that blocks, the candidate is not
-- terminal, the account and the specification are fresh, the equity is positive, the specification
-- is usable, no limit on losses is reached, no cooldown runs, there is no unattributed open risk, the
-- quote is there, fresh and within the greatest spread, and the plan is live with the status
-- SUGGESTION_ONLY; the portfolio has capacity; the percentage is the least of the target that the
-- news leave of the request, the limit of a trade and what the limits leave, to four places, the
-- amount is that share of the equity, the exposure grows by it, and the size, its distance to the
-- stop and its loss for each lot are those of the valid sizing of that amount, between the volumes of
-- the symbol.
pub evaluation_outcome :
    (i : PureRiskEvaluationInput) (r : PureRiskResult)
    → evaluate_pure_risk i ≡ ok r
    → (valid_input i ≡ true)
      × (IsRefused (canonical i) r ⊎ ((r.decision ≢ blocked) × IsGranted (canonical i) r))
unfolding evaluate_pure_risk evaluate_prepared
evaluation_outcome i r e = elim (Bool-cases (valid_input i)) [
  | inl valid ↦
      let (v, e1, f1) =
        bind-ok (prepare (canonical i)) (decide (canonical i))
          (sym (if_true (valid_input i) _ _ valid) ∙ e) in
      (
        valid,
        decide_outcome (canonical i) v r (prepared_breaches (canonical i) v e1).0
            (prepared_breaches (canonical i) v e1).1 (valid_spec-ordered i valid) f1,
      )
  | inr invalid ↦ absurd (raises (sym (if_false (valid_input i) _ _ invalid) ∙ e))
]
  where
    raises : raised validation_error ≢ ok r
    raises h = cc

code_of_switch :
    (k : KillSwitchInputState)
    → k ≢ switch_inactive
    → (c : PureRiskCode) × (kill_switch_code k ≡ some c)
      × ((c ≡ kill_switch_active) ⊎ (c ≡ kill_switch_unknown))
code_of_switch switch_active h = (kill_switch_active, refl, inl refl)
code_of_switch switch_unknown h = (kill_switch_unknown, refl, inr refl)
code_of_switch switch_inactive h = absurd (h refl)

-- A kill switch that is not known to be off blocks every trade: an evaluation that returns is
-- BLOCKED, and the first of its codes is that of the kill switch.
pub kill_switch_blocks :
    (i : PureRiskEvaluationInput) (r : PureRiskResult)
    → i.kill_switch ≢ switch_inactive
    → evaluate_pure_risk i ≡ ok r
    → (r.decision ≡ blocked)
      × ((c : PureRiskCode) × (cs : List PureRiskCode) × (r.blocked_codes ≡ c ∷ cs)
          × ((c ≡ kill_switch_active) ⊎ (c ≡ kill_switch_unknown)))
unfolding evaluate_pure_risk evaluate_prepared
kill_switch_blocks i r on e = elim (Bool-cases (valid_input i)) [
  | inl valid ↦
      let (v, e1, f1) =
        bind-ok (prepare (canonical i)) (decide (canonical i))
          (sym (if_true (valid_input i) _ _ valid) ∙ e) in
      let (c, s, known) = code_of_switch i.kill_switch on in
      let (d, (cs, b)) = decide_switch (canonical i) v r c s f1 in (d, (c, cs, b, known))
  | inr invalid ↦ absurd (raises (sym (if_false (valid_input i) _ _ invalid) ∙ e))
]
  where
    raises : raised validation_error ≢ ok r
    raises h = cc
