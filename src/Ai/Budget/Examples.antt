-- ===== src/Ai/Budget/Examples.antt =====
-- Runs of budget.py, and its theorems at concrete budgets.
use aigold_trader.Base.{
  sum_of, ◌+◌, ◌*◌, ◌≤◌, ◌≡◌, ◌≢◌, refl, true, false, none, some, pos, pos_part, ◌+ℤ◌, ◌-ℤ◌, ◌≤ℤ◌,
  if◌then◌else◌, length, [], ◌∷◌, get_elem?, leb, ltb_ℤ,
}
use aigold_trader.Ai.Budget.Domain.{
  ok, raised, already_terminal, usage_exceeded, Resource, prompt_tokens, measured_bytes,
  AnalysisBudgetLimits, ModelConfig, ProviderUsage, AnalysisReservation, AnalysisBudget, required,
  reserved_amounts, remaining_locked, assert_invariants_locked,
}
use aigold_trader.Ai.Budget.Operations.{
  init, reserve, mark_attempt_started, authorize_additional_attempt, reconcile, reconcile_success,
  reconcile_failure, supported_attempts, with_reservation, fresh_reservation, per_attempt_of,
  checked, measured,
}
use aigold_trader.Ai.Budget.Invariant.{IsValid}
use aigold_trader.Ai.Budget.Invariant.Keeps.{init-IsValid, reserve-IsValid}
use aigold_trader.Ai.Budget.Invariant.Settles.{closing, exceeds}
use aigold_trader.Ai.Budget.Invariant.Attempts.{mark_attempt_started-IsValid}
use aigold_trader.Ai.Budget.Invariant.Reach.{
  Reach, starting, then_step, reserves, starts, Reach-within,
}
use aigold_trader.Ai.Budget.Invariant.RunsOut.{started, attempts_run_out}
use aigold_trader.Ai.Budget.Charges.{
  reconcile_failure_charges, reconcile_success_charges, reconcile_once,
}
use aigold_trader.Ai.Budget.Grants.{reserve_grants_most}

-- The defaults of `AnalysisBudgetLimits` and `ModelConfig`.
abbrev limits : AnalysisBudgetLimits
limits = record {
  max_provider_attempts = 14;
  max_prompt_tokens = 114688;
  max_completion_tokens = 14336;
  max_total_tokens = 129024;
  max_measured_bytes = 560000;
  deadline_ticks = 30;
}

abbrev config : ModelConfig
config = record {
  max_input_tokens = 8192;
  max_output_tokens = 1024;
  max_total_tokens = 9216;
  max_retries = 1;
}

-- A hungry configuration, of which one attempt fits.
abbrev hungry : ModelConfig
hungry = record config { max_input_tokens = 100000; max_retries = 3 }

abbrev granted : AnalysisReservation
granted = fresh_reservation (init limits 0) "bull" 2 config

abbrev holding : AnalysisBudget
holding = (mark_attempt_started 0 1 (reserve 5 "bull" config (init limits 0)).1).1

abbrev marked : AnalysisReservation
marked = record granted { started_attempts = 1 ∷ [] }

reserve_runs :
    ((reserve 5 "bull" config (init limits 0)).0 ≡ ok (some 0))
    × ((reserve 30 "bull" config (init limits 0)).0 ≡ ok none)
    × ((reserve 5 "bull" hungry (init limits 0)).1.reserved prompt_tokens ≡ pos 100000)
unfolding reserve init supported_attempts checked assert_invariants_locked with_reservation ◌+ℤ◌
    ◌-ℤ◌
reserve_runs = (refl, refl, refl)

marked_at : get_elem? holding.reservations 0 ≡ some marked
unfolding reserve init supported_attempts checked assert_invariants_locked with_reservation ◌+ℤ◌
    ◌-ℤ◌ mark_attempt_started
marked_at = refl

holding-Reach : Reach limits holding
holding-Reach = then_step (then_step (starting 0) (reserves 5 "bull" config)) (starts 0 1)

holding-IsValid : IsValid holding
holding-IsValid =
    mark_attempt_started-IsValid 0 1 (reserve 5 "bull" config (init limits 0)).1
      (reserve-IsValid 5 "bull" config (init limits 0) (init-IsValid limits 0))

Reach-within_example :
    (pos 0 ≤ℤ holding.used measured_bytes)
    × (pos 0 ≤ℤ holding.reserved measured_bytes)
    × (holding.used measured_bytes +ℤ holding.reserved measured_bytes ≤ℤ pos 560000)
Reach-within_example = Reach-within limits holding measured_bytes holding-Reach

attempts_run_out_example :
    let next = (mark_attempt_started 0 2 holding).1 in
    (sum_of started holding.reservations ≤ sum_of started next.reservations)
    × (sum_of started next.reservations ≤ 14)
attempts_run_out_example =
    attempts_run_out limits holding (mark_attempt_started 0 2 holding).1 holding-Reach (starts 0 2)

reconcile_failure_charges_example :
    reconcile_failure 0 holding
    ≡ (ok true, closing 0 marked (λ n. 1 * required (per_attempt_of config) n) holding)
reconcile_failure_charges_example =
    reconcile_failure_charges 0 holding holding-IsValid marked marked_at refl

abbrev usage : ProviderUsage
usage = record { prompt_tokens = 500; completion_tokens = 80; total_tokens = 580 }

reconcile_success_charges_example : reconcile_success 0 usage 3000 900 holding ≡ (
    if exceeds marked (some (usage, 3900))
    then (raised usage_exceeded, closing 0 marked (reserved_amounts marked) holding)
    else (
      ok true,
      closing 0 marked
          (λ n. 0 * required (per_attempt_of config) n + measured (usage, 3900) n)
          holding,
    ))
reconcile_success_charges_example =
    reconcile_success_charges 0 holding holding-IsValid marked marked_at usage 3000 900 refl

reconcile_once_example :
    let b' = (reconcile 0 none holding).1 in
    (reconcile 0 (some (usage, 1)) b' ≡ (ok false, b'))
    × (mark_attempt_started 0 2 b' ≡ (raised already_terminal, b'))
    × (authorize_additional_attempt 0 config b' ≡ (ok false, b'))
reconcile_once_example =
    reconcile_once 0 holding holding-IsValid marked marked_at none (some (usage, 1)) 2 config refl

hungry_room : ltb_ℤ (supported_attempts (init limits 0) hungry) (pos 1) ≡ false
unfolding supported_attempts init ◌-ℤ◌
hungry_room = refl

init_open : leb (init limits 0).deadline 5 ≡ false
unfolding init
init_open = refl

reserve_grants_most_example :
    let b = init limits 0 in
    let s = pos_part (supported_attempts b hungry) in
    (reserve 5 "bull" hungry b ≡ (
      ok (some (length b.reservations)),
      with_reservation b (fresh_reservation b "bull" s hungry),
    ))
    × (1 ≤ s)
    × (s ≤ 4)
    × ((n : Resource) → pos (s * required (per_attempt_of hungry) n) ≤ℤ remaining_locked b n)
    × (s ≢ 4
        → (n : Resource) × ¬ (
            pos ((s + 1) * required (per_attempt_of hungry) n) ≤ℤ remaining_locked b n))
reserve_grants_most_example =
    reserve_grants_most (init limits 0) hungry 5 "bull" (init-IsValid limits 0) init_open
      hungry_room
