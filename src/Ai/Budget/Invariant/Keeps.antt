-- ===== src/Ai/Budget/Invariant/Keeps.antt =====
-- Every method of budget.py keeps the invariant, whether it returns or raises, and its assertion
-- never fires.
use native.Mathlib.Nat.{add-zero}
use aigold_trader.Base.{
  ℕ, ◌≡◌, refl, String, true, false, ◌||◌, [], ◌∷◌, none, some, arith, if◌then◌else◌, leb, ℤ, pos,
  pos_part, ◌+ℤ◌, ◌≤ℤ◌, ltb_ℤ, inl, inr, Bool-cases, All-append, sum_of, sum_of-append, length,
  tests, parts_disjoint,
}
use aigold_trader.Ai.Budget.Domain.{
  ok, Resource, AnalysisBudgetLimits, ModelConfig, AnalysisReservation, AnalysisBudget, limit_of,
  reserved_amounts, remaining_locked,
}
use aigold_trader.Ai.Budget.Operations.{
  init, fresh_reservation, with_reservation, supported_attempts, checked, quota, reserve,
}
use aigold_trader.Ai.Budget.Invariant.{
  held, IsConsistent, IsBalanced, IsValid, reserved_amounts-mul, IsBalanced-assert, IsSound-reserve,
}
use aigold_trader.Ai.Budget.Invariant.Room.{supported-le-quota, quota-fits}

pub init-IsValid : (l : AnalysisBudgetLimits) (now : ℕ) → IsValid (init l now)
unfolding init ◌+ℤ◌
init-IsValid l now = record {
  consistent = tt;
  balanced = λ n. record { used_nonneg = omega arith; reserved_sum = refl; within = omega arith };
}

-- A new reservation whose amounts fit what is left keeps the invariant.
with_reservation-IsValid :
    (b : AnalysisBudget) (r : AnalysisReservation)
    → IsValid b
    → IsConsistent r
    → r.registered ≡ true
    → ((n : Resource) → pos (reserved_amounts r n) ≤ℤ remaining_locked b n)
    → IsValid (with_reservation b r)
unfolding with_reservation
with_reservation-IsValid b r v c active fits = record {
  consistent = All-append IsConsistent b.reservations (r ∷ []) v.consistent (c, tt);
  balanced = λ n.
      rw (sum_of-append (held n) b.reservations (r ∷ []), active, add-zero (reserved_amounts r n))
        (IsSound-reserve (b.used n) (b.reserved n) (sum_of (held n) b.reservations)
          (limit_of b.limits n) (reserved_amounts r n) (v.balanced n) (fits n));
}

module _ {A : Type 0} where
  -- The assertion at the end of a method passes on a balanced budget.
  pub checked-eq : (a : A) (b : AnalysisBudget) → IsBalanced b → checked a b ≡ (ok a, b)
  unfolding checked
  checked-eq a b v = rw (IsBalanced-assert b v)

-- A grant that is at least 1 is a number of attempts.
pub granted-pos : (s t : ℤ) → ltb_ℤ s (pos 1) ≡ false → s ≤ℤ t → pos (pos_part s) ≤ℤ t
granted-pos s t h le = omega (tests, parts_disjoint s)

pub granted-IsValid :
    (b : AnalysisBudget) (agent : String) (c : ModelConfig)
    → IsValid b
    → ltb_ℤ (supported_attempts b c) (pos 1) ≡ false
    → IsValid (with_reservation b (fresh_reservation b agent (pos_part (supported_attempts b c)) c))
granted-IsValid b agent c v h =
    let s = pos_part (supported_attempts b c) in
    let r = fresh_reservation b agent s c in
    with_reservation-IsValid b r v (record { active = refl; distinct = tt; below = tt }) refl
      λ n. rw (reserved_amounts-mul r n) (
        quota-fits b c s n
          (granted-pos (supported_attempts b c) (quota b c n) h (supported-le-quota b c n)))

-- What `reserve` does to a valid budget: it never raises.
pub reserve-eq :
    (now : ℕ) (agent : String) (c : ModelConfig) (b : AnalysisBudget)
    → IsValid b
    → reserve now agent c b ≡ (
        if leb b.deadline now || ltb_ℤ (supported_attempts b c) (pos 1) then (ok none, b) else (
          ok (some (length b.reservations)),
          with_reservation b (fresh_reservation b agent (pos_part (supported_attempts b c)) c),
        ))
unfolding reserve
reserve-eq now agent c b v = elim (Bool-cases (ltb_ℤ (supported_attempts b c) (pos 1))) [
  | inl none_left ↦ ground arith
  | inr some_left ↦ ground (
    arith,
    checked-eq (some (length b.reservations))
        (with_reservation b (fresh_reservation b agent (pos_part (supported_attempts b c)) c))
        (granted-IsValid b agent c v some_left).balanced,
  )
]

-- `reserve` keeps the invariant.
pub reserve-IsValid :
    (now : ℕ) (agent : String) (c : ModelConfig) (b : AnalysisBudget)
    → IsValid b
    → IsValid (reserve now agent c b).1
reserve-IsValid now agent c b v =
    rw (reserve-eq now agent c b v)
      (elim (Bool-cases (leb b.deadline now || ltb_ℤ (supported_attempts b c) (pos 1))) [
        | inl refused ↦ rw refused v
        | inr granted ↦ rw granted (granted-IsValid b agent c v (ground arith))
      ])
