-- ===== src/Ai/Budget/Invariant/Room.antt =====
-- The number of attempts that `reserve` grants fits what every resource has left.
use aigold_trader.Base.{
  List, [], ◌∷◌, map, All, ℕ, ◌+◌, ◌*◌, ◌/◌, ◌≤◌, arith, ℤ, pos, negsuc, ◌≤ℤ◌, min_ℤ, floor_div,
}
use aigold_trader.Ai.Budget.Domain.{
  Resource, attempts, prompt_tokens, completion_tokens, total_tokens, measured_bytes, ModelConfig,
  AnalysisBudget, required, remaining_locked, resource_names,
}
use aigold_trader.Ai.Budget.Operations.{
  supported_attempts, per_attempt_of, bytes_per_attempt, quota, least,
}

mul-le_of_le_div : (s m d : ℕ) → s ≤ m / d → s * d ≤ m
mul-le_of_le_div s m d h = grind arith

floor_div-mul : (z : ℤ) (s d : ℕ) → pos s ≤ℤ floor_div z d → pos (s * d) ≤ℤ z
floor_div-mul (pos m) s d h = omega (arith, mul-le_of_le_div s m d (omega arith))
floor_div-mul (negsuc m) s d h = absurd (omega arith)

min_ℤ-le : (a b : ℤ) → (min_ℤ a b ≤ℤ a) × (min_ℤ a b ≤ℤ b)
min_ℤ-le a b = ground arith

least-le : (a : ℤ) (xs : List ℤ) → (least a xs ≤ℤ a) × All (λ x. least a xs ≤ℤ x) xs
least-le a [] = (omega arith, tt)
least-le a (x ∷ xs) =
    let ih = least-le (min_ℤ a x) xs in
    (omega (arith, ih.0, min_ℤ-le a x), (omega (arith, ih.0, min_ℤ-le a x), ih.1))

module _ (b : AnalysisBudget) (c : ModelConfig) where
  pub supported-le-requested : supported_attempts b c ≤ℤ pos (c.max_retries + 1)
  unfolding supported_attempts
  supported-le-requested = (least-le (pos (c.max_retries + 1)) (map (quota b c) resource_names)).0

  pub supported-le-quota : (n : Resource) → supported_attempts b c ≤ℤ quota b c n
  unfolding supported_attempts
  supported-le-quota n =
      pick n (least-le (pos (c.max_retries + 1)) (map (quota b c) resource_names)).1
    where
      pick :
          (n : Resource)
          → All (λ x. supported_attempts b c ≤ℤ x) (map (quota b c) resource_names)
          → supported_attempts b c ≤ℤ quota b c n
      pick attempts h = h.0
      pick prompt_tokens h = h.1.0
      pick completion_tokens h = h.1.1.0
      pick total_tokens h = h.1.1.1.0
      pick measured_bytes h = h.1.1.1.1.0

-- A number of attempts that is within the quota of a resource fits what is left of it.
pub quota-fits :
    (b : AnalysisBudget) (c : ModelConfig) (s : ℕ) (n : Resource)
    → pos s ≤ℤ quota b c n
    → pos (s * required (per_attempt_of c) n) ≤ℤ remaining_locked b n
quota-fits b c s attempts h = omega arith
quota-fits b c s prompt_tokens h = floor_div-mul _ s c.max_input_tokens h
quota-fits b c s completion_tokens h = floor_div-mul _ s c.max_output_tokens h
quota-fits b c s total_tokens h = floor_div-mul _ s c.max_total_tokens h
quota-fits b c s measured_bytes h = floor_div-mul _ s bytes_per_attempt h
