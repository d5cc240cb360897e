-- ===== src/Ai/Budget/Domain.antt =====
-- The data of budget.py, and of provider.py what budget.py reads of it.
use aigold_trader.Base.{
  ℕ, ◌*◌, String, Bool, false, ◌||◌, List, [], ◌∷◌, ℤ, pos, ◌-ℤ◌, ltb_ℤ, if◌then◌else◌, ◌==◌, any,
}

pub data BudgetError : Type 0 where
  already_terminal attempt_not_authorized usage_exceeded invariant_violated : BudgetError
  dangling : BudgetError

-- What a method returns or raises; the state that it leaves stands beside it.
pub data Outcome (A : Type 0) : Type 0 where
  ok : A → Outcome A
  raised : BudgetError → Outcome A

-- `_RESOURCE_NAMES`: a dictionary over exactly these keys is a function of the key.
pub data Resource : Type 0 where
  attempts prompt_tokens completion_tokens total_tokens measured_bytes : Resource

abbrev pub resource_names : List Resource
resource_names = attempts ∷ prompt_tokens ∷ completion_tokens ∷ total_tokens ∷ measured_bytes ∷ []

pub record AnalysisBudgetLimits : Type 0 where
  pub max_provider_attempts : ℕ
  pub max_prompt_tokens : ℕ
  pub max_completion_tokens : ℕ
  pub max_total_tokens : ℕ
  pub max_measured_bytes : ℕ
  pub deadline_ticks : ℕ

abbrev pub limit_of : AnalysisBudgetLimits → Resource → ℕ
limit_of l attempts = l.max_provider_attempts
limit_of l prompt_tokens = l.max_prompt_tokens
limit_of l completion_tokens = l.max_completion_tokens
limit_of l total_tokens = l.max_total_tokens
limit_of l measured_bytes = l.max_measured_bytes

pub record PerAttemptReservation : Type 0 where
  pub prompt_tokens : ℕ
  pub completion_tokens : ℕ
  pub total_tokens : ℕ
  pub measured_bytes : ℕ

-- The fields of `ModelConfig` that the budget reads. It validates the first three to be at least 1,
-- so that the divisions below are defined.
pub record ModelConfig : Type 0 where
  pub max_input_tokens : ℕ
  pub max_output_tokens : ℕ
  pub max_total_tokens : ℕ
  pub max_retries : ℕ

-- The usage that a validated `ProviderResult` reports.
pub record ProviderUsage : Type 0 where
  pub prompt_tokens : ℕ
  pub completion_tokens : ℕ
  pub total_tokens : ℕ

pub record AnalysisReservation : Type 0 where
  pub reservation_id : ℕ
  pub agent_id : String
  pub authorized_attempts : ℕ
  pub per_attempt : PerAttemptReservation
  pub started_attempts : List ℕ
  pub terminal : Bool
  -- the budget's `_active` maps `reservation_id` to this object
  pub registered : Bool

pub record AnalysisBudget : Type 0 where
  pub limits : AnalysisBudgetLimits
  pub deadline : ℕ
  pub used : Resource → ℤ
  pub reserved : Resource → ℤ
  pub next_reservation_id : ℕ
  pub reservations : List AnalysisReservation

-- What one attempt takes of each resource.
abbrev pub required : PerAttemptReservation → Resource → ℕ
required p attempts = 1
required p prompt_tokens = p.prompt_tokens
required p completion_tokens = p.completion_tokens
required p total_tokens = p.total_tokens
required p measured_bytes = p.measured_bytes

-- `_reserved_amounts`.
abbrev pub reserved_amounts : AnalysisReservation → Resource → ℕ
reserved_amounts r attempts = r.authorized_attempts
reserved_amounts r prompt_tokens = r.authorized_attempts * r.per_attempt.prompt_tokens
reserved_amounts r completion_tokens = r.authorized_attempts * r.per_attempt.completion_tokens
reserved_amounts r total_tokens = r.authorized_attempts * r.per_attempt.total_tokens
reserved_amounts r measured_bytes = r.authorized_attempts * r.per_attempt.measured_bytes

-- `_remaining_locked`.
abbrev pub remaining_locked : AnalysisBudget → Resource → ℤ
remaining_locked b n = pos (limit_of b.limits n) -ℤ b.used n -ℤ b.reserved n

-- The test of `_assert_invariants_locked`: whether it raises.
abbrev pub violates_at : AnalysisBudget → Resource → Bool
violates_at b n =
    ltb_ℤ (b.used n) (pos 0) || ltb_ℤ (b.reserved n) (pos 0) || ltb_ℤ (remaining_locked b n) (pos 0)

unfoldable pub assert_invariants_locked : AnalysisBudget → Bool
assert_invariants_locked b = any (violates_at b) resource_names

-- Membership in the set of the started attempts, and `add`.
abbrev pub contains : ℕ → List ℕ → Bool
contains a [] = false
contains a (x ∷ xs) = a == x || contains a xs

abbrev pub add_attempt : ℕ → List ℕ → List ℕ
add_attempt a s = if contains a s then s else a ∷ s
