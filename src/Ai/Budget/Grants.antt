-- ===== src/Ai/Budget/Grants.antt =====
-- How many attempts `reserve` of budget.py grants: as many as are asked for and fit, no fewer.
use aigold_trader.Base.{
  ℕ, ◌+◌, ◌*◌, ◌/◌, ◌≤◌, ◌<◌, ◌≡◌, refl, ap, sym, ◌∙◌, ◌≢◌, String, false, List, [], ◌∷◌, map, some,
  arith, leb, ℤ, pos, negsuc, pos_part, neg_part, ◌≤ℤ◌, ltb_ℤ, min_ℤ, floor_div, inl, inr, ◌⊎◌,
  length, tests, parts_disjoint, eq_of_parts,
}
use aigold_trader.Ai.Budget.Domain.{
  ok, Resource, attempts, prompt_tokens, completion_tokens, total_tokens, measured_bytes,
  resource_names, ModelConfig, AnalysisBudget, required, remaining_locked,
}
use aigold_trader.Ai.Budget.Operations.{
  quota, least, supported_attempts, per_attempt_of, bytes_per_attempt, reserve, with_reservation,
  fresh_reservation,
}
use aigold_trader.Ai.Budget.Invariant.{IsValid}
use aigold_trader.Ai.Budget.Invariant.Keeps.{reserve-eq, granted-pos}
use aigold_trader.Ai.Budget.Invariant.Room.{quota-fits, supported-le-quota, supported-le-requested}

abbrev Any : {A : Type 0} → (A → Type 0) → List A → Type 0
Any P [] = ⊥
Any P (x ∷ xs) = P x ⊎ Any P xs

min_ℤ-attained : (a b : ℤ) → (min_ℤ a b ≡ a) ⊎ (min_ℤ a b ≡ b)
min_ℤ-attained a b = ground arith

least-attained : (a : ℤ) (xs : List ℤ) → (least a xs ≡ a) ⊎ Any (λ x. least a xs ≡ x) xs
least-attained a [] = inl refl
least-attained a (x ∷ xs) = elim (least-attained (min_ℤ a x) xs) [
  | inl e ↦ elim (min_ℤ-attained a x) [ inl f ↦ inl (e ∙ f) | inr f ↦ inr (inl (e ∙ f)) ]
  | inr later ↦ inr (inr later)
]

lt-mul_of_div : (m d s : ℕ) → m / d ≡ s → 1 ≤ s → m < (s + 1) * d
lt-mul_of_div m d s e h = grind arith

floor_div-tight : (z : ℤ) (d s : ℕ) → floor_div z d ≡ pos s → 1 ≤ s → ¬ (pos ((s + 1) * d) ≤ℤ z)
floor_div-tight (pos m) d s e h = omega (arith, lt-mul_of_div m d s (ap pos_part e) h)
floor_div-tight (negsuc m) d s e h = cc

module _ (b : AnalysisBudget) (c : ModelConfig) where
  quota-tight :
      (s : ℕ) (n : Resource)
      → quota b c n ≡ pos s
      → 1 ≤ s
      → ¬ (pos ((s + 1) * required (per_attempt_of c) n) ≤ℤ remaining_locked b n)
  quota-tight s attempts e h = omega (arith, ap pos_part e, ap neg_part e)
  quota-tight s prompt_tokens e h = floor_div-tight _ c.max_input_tokens s e h
  quota-tight s completion_tokens e h = floor_div-tight _ c.max_output_tokens s e h
  quota-tight s total_tokens e h = floor_div-tight _ c.max_total_tokens s e h
  quota-tight s measured_bytes e h = floor_div-tight _ bytes_per_attempt s e h

  bottleneck :
      supported_attempts b c ≢ pos (c.max_retries + 1)
      → (n : Resource) × (supported_attempts b c ≡ quota b c n)
  unfolding supported_attempts
  bottleneck h = elim (least-attained (pos (c.max_retries + 1)) (map (quota b c) resource_names)) [
    | inl e ↦ absurd (h e)
    | inr (inl e) ↦ (attempts, e)
    | inr (inr (inl e)) ↦ (prompt_tokens, e)
    | inr (inr (inr (inl e))) ↦ (completion_tokens, e)
    | inr (inr (inr (inr (inl e)))) ↦ (total_tokens, e)
    | inr (inr (inr (inr (inr (inl e))))) ↦ (measured_bytes, e)
    | inr (inr (inr (inr (inr (inr none_of_them))))) ↦ elim none_of_them [ ]
  ]

  -- Before its deadline a valid budget with room for one attempt grants a number of attempts that
  -- is at least 1 and at most one more than the retries, and that fits what every resource has
  -- left. If it grants fewer than were asked for, one attempt more would not fit some resource.
  pub reserve_grants_most :
      (now : ℕ) (agent : String)
      → IsValid b
      → leb b.deadline now ≡ false
      → ltb_ℤ (supported_attempts b c) (pos 1) ≡ false
      → let s = pos_part (supported_attempts b c) in
        (reserve now agent c b
          ≡ (ok (some (length b.reservations)), with_reservation b (fresh_reservation b agent s c)))
        × (1 ≤ s)
        × (s ≤ c.max_retries + 1)
        × ((n : Resource) → pos (s * required (per_attempt_of c) n) ≤ℤ remaining_locked b n)
        × (s ≢ c.max_retries + 1
            → (n : Resource) × ¬ (
                pos ((s + 1) * required (per_attempt_of c) n) ≤ℤ remaining_locked b n))
  reserve_grants_most now agent v open_ some_left =
      let s : ℕ = pos_part (supported_attempts b c) in
      let whole : supported_attempts b c ≡ pos s =
        eq_of_parts (supported_attempts b c) (pos s)
          (omega (tests, some_left, parts_disjoint (supported_attempts b c))) in
      let positive : 1 ≤ s = omega (tests, some_left, parts_disjoint (supported_attempts b c)) in
      (
        reserve-eq now agent c b v ∙ (rw (open_, some_left)),
        positive,
        omega (
          arith,
          granted-pos (supported_attempts b c) (pos (c.max_retries + 1)) some_left
              (supported-le-requested b c),
        ),
        λ n. quota-fits b c s n (
            granted-pos (supported_attempts b c) (quota b c n) some_left
              (supported-le-quota b c n)),
        λ fewer.
            let (n, e) = bottleneck (λ e. fewer (ap pos_part e)) in
            (n, quota-tight s n (sym e ∙ whole) positive),
      )
