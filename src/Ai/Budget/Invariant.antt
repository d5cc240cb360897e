-- ===== src/Ai/Budget/Invariant.antt =====
-- The invariant of the budget of budget.py, kept by every method: what is reserved is what the
-- active reservations hold, and use and reservations together stay within every limit.
pub mod Room
pub mod Keeps
pub mod Attempts
pub mod Settles
pub mod Reach
pub mod RunsOut
use aigold_trader.Base.{
  ℕ, ◌+◌, ◌*◌, ◌≤◌, ◌≡◌, ap, false, not, ◌||◌, arith, if◌then◌else◌, ℤ, pos, pos_part, neg_part,
  ◌+ℤ◌, ◌-ℤ◌, ◌≤ℤ◌, ltb_ℤ, int_laws, All, sum_of, any-none,
}
use aigold_trader.Ai.Budget.Domain.{
  Resource, attempts, prompt_tokens, completion_tokens, total_tokens, measured_bytes,
  AnalysisReservation, AnalysisBudget, violates_at, resource_names, limit_of, required,
  reserved_amounts, assert_invariants_locked,
}
use aigold_trader.Ai.Budget.Started.{IsDistinct, IsBelow}

-- What an active reservation holds of a resource.
abbrev pub held : Resource → AnalysisReservation → ℕ
held n r = if r.registered then reserved_amounts r n else 0

-- A reservation is active until it is terminal, and its started attempts are authorized ones.
pub record IsConsistent (r : AnalysisReservation) : Type 0 where
  pub active : r.registered ≡ not r.terminal
  pub distinct : IsDistinct r.started_attempts
  pub below : IsBelow r.authorized_attempts r.started_attempts

-- One resource: what is used, what is reserved, what the active reservations hold, the limit.
pub record IsSound (used reserved : ℤ) (total limit : ℕ) : Type 0 where
  pub used_nonneg : pos 0 ≤ℤ used
  pub reserved_sum : reserved ≡ pos total
  pub within : used +ℤ reserved ≤ℤ pos limit

abbrev pub IsBalanced : AnalysisBudget → Type 0
IsBalanced b =
    (n : Resource)
    → IsSound (b.used n) (b.reserved n) (sum_of (held n) b.reservations) (limit_of b.limits n)

pub record IsValid (b : AnalysisBudget) : Type 0 where
  pub consistent : All IsConsistent b.reservations
  pub balanced : IsBalanced b

-- What a resource takes for all attempts, by the attempt.
pub reserved_amounts-mul :
    (r : AnalysisReservation) (n : Resource)
    → reserved_amounts r n ≡ r.authorized_attempts * required r.per_attempt n
reserved_amounts-mul r attempts = omega arith
reserved_amounts-mul r prompt_tokens = omega arith
reserved_amounts-mul r completion_tokens = omega arith
reserved_amounts-mul r total_tokens = omega arith
reserved_amounts-mul r measured_bytes = omega arith

-- Sound figures pass the tests of the assertion.
IsSound-passes :
    (u r : ℤ) (t l : ℕ)
    → IsSound u r t l
    → (ltb_ℤ u (pos 0) || ltb_ℤ r (pos 0) || ltb_ℤ (pos l -ℤ u -ℤ r) (pos 0)) ≡ false
unfolding ◌+ℤ◌ ◌-ℤ◌
IsSound-passes u r t l s = ground arith

-- The assertion of a budget with sound figures passes.
pub IsBalanced-assert : (b : AnalysisBudget) → IsBalanced b → assert_invariants_locked b ≡ false
unfolding assert_invariants_locked
IsBalanced-assert b v = any-none (violates_at b) resource_names λ n.
    IsSound-passes (b.used n) (b.reserved n) (sum_of (held n) b.reservations) (limit_of b.limits n)
      (v n)

-- A further amount that fits what remains can be reserved.
pub IsSound-reserve :
    (u r : ℤ) (t l a : ℕ)
    → IsSound u r t l
    → pos a ≤ℤ pos l -ℤ u -ℤ r
    → IsSound u (r +ℤ pos a) (t + a) l
IsSound-reserve u r t l a s fits = record {
  used_nonneg = s.used_nonneg;
  reserved_sum = omega (int_laws, ap pos_part s.reserved_sum, ap neg_part s.reserved_sum);
  within = omega (int_laws, s.within, ap pos_part s.reserved_sum, ap neg_part s.reserved_sum);
}

-- A reserved amount can be given back against a charge of at most that amount.
pub IsSound-settle :
    (u r : ℤ) (t t' l a c : ℕ)
    → IsSound u r t l
    → t' + a ≡ t
    → c ≤ a
    → IsSound (u +ℤ pos c) (r -ℤ pos a) t' l
IsSound-settle u r t t' l a c s e fits = record {
  used_nonneg = omega (int_laws, s.used_nonneg);
  reserved_sum = omega (int_laws, ap pos_part s.reserved_sum, ap neg_part s.reserved_sum);
  within = omega (int_laws, s.within, ap pos_part s.reserved_sum, ap neg_part s.reserved_sum);
}
