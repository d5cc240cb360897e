-- ===== src/Ai/Budget/Operations.antt =====
-- The methods of `AnalysisBudget` and `AnalysisReservation`.
use aigold_trader.Base.{
  ℕ, ◌+◌, ◌-◌, ◌*◌, String, Bool, true, false, not, ◌||◌, List, [], ◌∷◌, ◌++◌, map, Option, none,
  some, ltb, leb, ℤ, pos, pos_part, ◌+ℤ◌, ◌-ℤ◌, ltb_ℤ, min_ℤ, floor_div, if◌then◌else◌, any, length,
  get_elem?, set,
}
use aigold_trader.Ai.Budget.Domain.{
  already_terminal, attempt_not_authorized, usage_exceeded, invariant_violated, dangling, Outcome,
  ok, raised, Resource, attempts, prompt_tokens, completion_tokens, total_tokens, measured_bytes,
  resource_names, AnalysisBudgetLimits, PerAttemptReservation, ModelConfig, ProviderUsage,
  AnalysisReservation, AnalysisBudget, limit_of, required, reserved_amounts, remaining_locked,
  assert_invariants_locked, add_attempt,
}

-- `AnalysisBudget.__init__` at the time `now`.
unfoldable pub init : AnalysisBudgetLimits → ℕ → AnalysisBudget
init l now = record {
  limits = l;
  deadline = now + l.deadline_ticks;
  used = λ n. pos 0;
  reserved = λ n. pos 0;
  next_reservation_id = 1;
  reservations = [];
}

-- MAX_INPUT_BYTES_PER_AGENT + 2 * MAX_PROVIDER_OUTPUT_BYTES
abbrev pub bytes_per_attempt : ℕ
bytes_per_attempt = 20000 + 2 * 10000

abbrev pub per_attempt_of : ModelConfig → PerAttemptReservation
per_attempt_of c = record {
  prompt_tokens = c.max_input_tokens;
  completion_tokens = c.max_output_tokens;
  total_tokens = c.max_total_tokens;
  measured_bytes = bytes_per_attempt;
}

-- How many attempts a resource has left for.
abbrev pub quota : AnalysisBudget → ModelConfig → Resource → ℤ
quota b c attempts = remaining_locked b attempts
quota b c prompt_tokens = floor_div (remaining_locked b prompt_tokens) c.max_input_tokens
quota b c completion_tokens = floor_div (remaining_locked b completion_tokens) c.max_output_tokens
quota b c total_tokens = floor_div (remaining_locked b total_tokens) c.max_total_tokens
quota b c measured_bytes = floor_div (remaining_locked b measured_bytes) bytes_per_attempt

-- Python's `min` of several arguments.
abbrev pub least : ℤ → List ℤ → ℤ
least a [] = a
least a (x ∷ xs) = least (min_ℤ a x) xs

-- The number of attempts that the request asks for, cut down to what every resource has left.
unfoldable pub supported_attempts : AnalysisBudget → ModelConfig → ℤ
supported_attempts b c = least (pos (c.max_retries + 1)) (map (quota b c) resource_names)

abbrev pub fresh_reservation : AnalysisBudget → String → ℕ → ModelConfig → AnalysisReservation
fresh_reservation b agent supported c = record {
  reservation_id = b.next_reservation_id;
  agent_id = agent;
  authorized_attempts = supported;
  per_attempt = per_attempt_of c;
  started_attempts = [];
  terminal = false;
  registered = true;
}

-- The budget with a new active reservation.
unfoldable pub with_reservation : AnalysisBudget → AnalysisReservation → AnalysisBudget
with_reservation b r = record b {
  next_reservation_id = b.next_reservation_id + 1;
  reserved = λ n. b.reserved n +ℤ pos (reserved_amounts r n);
  reservations = b.reservations ++ r ∷ [];
}

-- The assertion at the end of a method, which raises when an invariant is broken.
unfoldable pub checked : {A : Type 0} → A → AnalysisBudget → Outcome A × AnalysisBudget
checked a b = (if assert_invariants_locked b then raised invariant_violated else ok a, b)

-- `reserve`: the new object, or `none` past the deadline or without room for one attempt.
unfoldable pub reserve :
    ℕ → String → ModelConfig → AnalysisBudget → Outcome (Option ℕ) × AnalysisBudget
unfolding supported_attempts with_reservation checked
reserve now agent c b =
    if leb b.deadline now
    then (ok none, b)
    else let supported = supported_attempts b c in
      if ltb_ℤ supported (pos 1)
      then (ok none, b)
      else checked (some (length b.reservations))
          (with_reservation b (fresh_reservation b agent (pos_part supported) c))

-- `mark_attempt_started`
abbrev pub start_attempt : ℕ → AnalysisReservation → AnalysisReservation
start_attempt a r = record r { started_attempts = add_attempt a r.started_attempts }

abbrev pub mark_in :
    ℕ → ℕ → AnalysisReservation → AnalysisBudget → Outcome (Unit {0}) × AnalysisBudget
mark_in h a r b =
    if r.terminal
    then (raised already_terminal, b)
    else if ltb a 1 || ltb r.authorized_attempts a
    then (raised attempt_not_authorized, b)
    else (ok tt, record b { reservations = set b.reservations h (start_attempt a r) })

unfoldable pub mark_attempt_started : ℕ → ℕ → AnalysisBudget → Outcome (Unit {0}) × AnalysisBudget
mark_attempt_started h a b = elim (get_elem? b.reservations h) [
  | none ↦ (raised dangling, b)
  | some r ↦ mark_in h a r b
]

-- `authorize_additional_attempt`
abbrev pub with_attempt : ℕ → AnalysisReservation → AnalysisBudget → AnalysisBudget
with_attempt h r b = record b {
  reserved = λ n. b.reserved n +ℤ pos (required r.per_attempt n);
  reservations =
      set b.reservations h (record r { authorized_attempts = r.authorized_attempts + 1 });
}

unfoldable pub authorize_in :
    ℕ → ModelConfig → AnalysisReservation → AnalysisBudget → Outcome Bool × AnalysisBudget
unfolding checked
authorize_in h c r b =
    if r.terminal || not r.registered || leb (c.max_retries + 1) r.authorized_attempts
    then (ok false, b)
    else if any (λ n. ltb_ℤ (remaining_locked b n) (pos (required r.per_attempt n))) resource_names
    then (ok false, b)
    else checked true (with_attempt h r b)

unfoldable pub authorize_additional_attempt :
    ℕ → ModelConfig → AnalysisBudget → Outcome Bool × AnalysisBudget
unfolding authorize_in
authorize_additional_attempt h c b = elim (get_elem? b.reservations h) [
  | none ↦ (raised dangling, b)
  | some r ↦ authorize_in h c r b
]

-- `_finalize_locked`, on the reservation `r` that stands at `h`.
abbrev pub settled : ℕ → AnalysisReservation → (Resource → ℕ) → AnalysisBudget → AnalysisBudget
settled h r charges b = record b {
  used = λ n. b.used n +ℤ pos (charges n);
  reserved = λ n. b.reserved n -ℤ pos (reserved_amounts r n);
  reservations = set b.reservations h (record r { registered = false });
}

unfoldable pub finalize_locked :
    ℕ → AnalysisReservation → (Resource → ℕ) → AnalysisBudget → Outcome (Unit {0}) × AnalysisBudget
unfolding checked
finalize_locked h r charges b =
    if not r.registered then (ok tt, b) else checked tt (settled h r charges b)

-- The charges of a reservation that has ended: the final success is measured, every other started
-- attempt costs its full reservation.
abbrev pub started_count : AnalysisReservation → Option (ProviderUsage × ℕ) → ℕ
started_count r none = length r.started_attempts
started_count r (some u) =
    if leb (length r.started_attempts) 0 then 1 else length r.started_attempts

abbrev pub measured : ProviderUsage × ℕ → Resource → ℕ
measured (u, bytes) attempts = 1
measured (u, bytes) prompt_tokens = u.prompt_tokens
measured (u, bytes) completion_tokens = u.completion_tokens
measured (u, bytes) total_tokens = u.total_tokens
measured (u, bytes) measured_bytes = bytes

unfoldable pub charges_of : AnalysisReservation → Option (ProviderUsage × ℕ) → Resource → ℕ
charges_of r none n = length r.started_attempts * required r.per_attempt n
charges_of r (some u) n = (started_count r (some u) - 1) * required r.per_attempt n + measured u n

-- `_terminal = True`, after `_finalize_locked` has returned.
abbrev pub mark_terminal : ℕ → AnalysisReservation → AnalysisBudget → AnalysisBudget
mark_terminal h r b = record b {
  reservations = set b.reservations h (record r { registered = false; terminal = true });
}

abbrev pub ending :
    {A : Type 0}
    → ℕ
    → AnalysisReservation
    → Outcome A
    → Outcome (Unit {0}) × AnalysisBudget
    → Outcome A × AnalysisBudget
ending h r done (ok _, b) = (done, mark_terminal h r b)
ending h r done (raised e, b) = (raised e, b)

-- `_reconcile`: `some (usage, bytes)` is a success, `none` a failure or a cancellation.
unfoldable pub reconcile_in :
    ℕ
    → AnalysisReservation
    → Option (ProviderUsage × ℕ)
    → AnalysisBudget
    → Outcome Bool × AnalysisBudget
reconcile_in h r success b =
    if r.terminal
    then (ok false, b)
    else let charges = charges_of r success in
      if any (λ n. ltb (reserved_amounts r n) (charges n)) resource_names
      then ending h r (raised usage_exceeded) (finalize_locked h r (reserved_amounts r) b)
      else ending h r (ok true) (finalize_locked h r charges b)

unfoldable pub reconcile :
    ℕ → Option (ProviderUsage × ℕ) → AnalysisBudget → Outcome Bool × AnalysisBudget
unfolding reconcile_in
reconcile h success b = elim (get_elem? b.reservations h) [
  | none ↦ (raised dangling, b)
  | some r ↦ reconcile_in h r success b
]

-- `reconcile_success` and `reconcile_failure`.
unfoldable pub reconcile_success :
    ℕ → ProviderUsage → ℕ → ℕ → AnalysisBudget → Outcome Bool × AnalysisBudget
unfolding reconcile
reconcile_success h u input_bytes output_bytes = reconcile h (some (u, input_bytes + output_bytes))

unfoldable pub reconcile_failure : ℕ → AnalysisBudget → Outcome Bool × AnalysisBudget
unfolding reconcile
reconcile_failure h = reconcile h none

-- `snapshot`, but for the clock.
pub record ResourceSnapshot : Type 0 where
  pub limit : ℕ
  pub used : ℤ
  pub reserved : ℤ
  pub remaining : ℤ

unfoldable pub snapshot : AnalysisBudget → Resource → ResourceSnapshot
snapshot b n = record {
  limit = limit_of b.limits n;
  used = b.used n;
  reserved = b.reserved n;
  remaining = remaining_locked b n;
}
