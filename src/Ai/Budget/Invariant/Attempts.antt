-- ===== src/Ai/Budget/Invariant/Attempts.antt =====
-- `mark_attempt_started` and `authorize_additional_attempt` of budget.py keep the invariant.
use aigold_trader.Base.{
  ℕ, ◌+◌, ◌≡◌, Bool, true, false, not, ◌||◌, some, arith, if◌then◌else◌, ltb, leb, pos, ◌≤ℤ◌, ltb_ℤ,
  inl, inr, Bool-cases, if_ind, Option-cases, All, All-set, All-get_elem?, sum_of, sum_of-set,
  get_elem?, set, any, any-false, tests,
}
use aigold_trader.Ai.Budget.Domain.{
  Outcome, ok, Resource, attempts, prompt_tokens, completion_tokens, total_tokens, measured_bytes,
  resource_names, ModelConfig, AnalysisReservation, AnalysisBudget, limit_of, required,
  remaining_locked,
}
use aigold_trader.Ai.Budget.Operations.{
  start_attempt, mark_in, mark_attempt_started, with_attempt, authorize_in,
  authorize_additional_attempt,
}
use aigold_trader.Ai.Budget.Started.{IsBelow-suc, add_attempt-IsDistinct}
use aigold_trader.Ai.Budget.Invariant.{
  held, IsConsistent, IsValid, reserved_amounts-mul, IsSound-reserve,
}
use aigold_trader.Ai.Budget.Invariant.Keeps.{checked-eq}

module _ (h : ℕ) (b : AnalysisBudget) (v : IsValid b) (r : AnalysisReservation)
    (at : get_elem? b.reservations h ≡ some r) where
  IsConsistent-at : IsConsistent r
  IsConsistent-at = All-get_elem? IsConsistent b.reservations h r v.consistent at

  started-IsConsistent :
      (a : ℕ) → (ltb a 1 || ltb r.authorized_attempts a) ≡ false → IsConsistent (start_attempt a r)
  started-IsConsistent a e = record {
    active = IsConsistent-at.active;
    distinct = add_attempt-IsDistinct a r.started_attempts IsConsistent-at.distinct;
    below = ground (arith, IsConsistent-at.below);
  }

  started-IsValid :
      (a : ℕ)
      → (ltb a 1 || ltb r.authorized_attempts a) ≡ false
      → IsValid (record b { reservations = set b.reservations h (start_attempt a r) })
  started-IsValid a e = record {
    consistent =
        All-set IsConsistent b.reservations h (start_attempt a r) v.consistent
          (started-IsConsistent a e);
    balanced = λ n.
        let same : sum_of (held n) (set b.reservations h (start_attempt a r))
            ≡ sum_of (held n) b.reservations =
          omega (arith, sum_of-set (held n) b.reservations h (start_attempt a r) r at) in
        rw same (v.balanced n);
  }

  mark_in-IsValid : (a : ℕ) → IsValid (mark_in h a r b).1
  mark_in-IsValid a =
      if_ind (λ (o : Outcome (Unit {0}) × AnalysisBudget). IsValid o.1) r.terminal _ _ (λ ended. v)
        λ active.
          if_ind (λ (o : Outcome (Unit {0}) × AnalysisBudget). IsValid o.1) _ _ _ (λ refused. v)
            (started-IsValid a)

  abbrev one_more : AnalysisReservation
  one_more = record r { authorized_attempts = r.authorized_attempts + 1 }

  held-one_more :
      (n : Resource) → r.registered ≡ true → held n one_more ≡ held n r + required r.per_attempt n
  held-one_more n active =
      rw (active, reserved_amounts-mul r n, reserved_amounts-mul one_more n) (omega arith)

  with_attempt-IsValid :
      r.registered ≡ true
      → ((n : Resource) → pos (required r.per_attempt n) ≤ℤ remaining_locked b n)
      → IsValid (with_attempt h r b)
  with_attempt-IsValid active fits = record {
    consistent = All-set IsConsistent b.reservations h one_more v.consistent (record {
      active = IsConsistent-at.active;
      distinct = IsConsistent-at.distinct;
      below = IsBelow-suc r.authorized_attempts r.started_attempts IsConsistent-at.below;
    });
    balanced = λ n.
        let grown : sum_of (held n) (set b.reservations h one_more)
            ≡ sum_of (held n) b.reservations + required r.per_attempt n =
          omega
            (arith, sum_of-set (held n) b.reservations h one_more r at, held-one_more n active) in
        rw grown (
          IsSound-reserve (b.used n) (b.reserved n) (sum_of (held n) b.reservations)
            (limit_of b.limits n) (required r.per_attempt n) (v.balanced n) (fits n));
  }

  required-fits :
      any (λ n. ltb_ℤ (remaining_locked b n) (pos (required r.per_attempt n))) resource_names
        ≡ false
      → (n : Resource) → pos (required r.per_attempt n) ≤ℤ remaining_locked b n
  required-fits e n = pick n (
      any-false (λ n. ltb_ℤ (remaining_locked b n) (pos (required r.per_attempt n))) resource_names
        e)
    where
      pick :
          (n : Resource)
          → All
              (λ n. ltb_ℤ (remaining_locked b n) (pos (required r.per_attempt n)) ≡ false)
              resource_names
          → pos (required r.per_attempt n) ≤ℤ remaining_locked b n
      pick attempts q = omega (tests, q.0)
      pick prompt_tokens q = omega (tests, q.1.0)
      pick completion_tokens q = omega (tests, q.1.1.0)
      pick total_tokens q = omega (tests, q.1.1.1.0)
      pick measured_bytes q = omega (tests, q.1.1.1.1.0)

  abbrev refuses : ModelConfig → Bool
  refuses c = r.terminal || not r.registered || leb (c.max_retries + 1) r.authorized_attempts

  abbrev pub lacks : Bool
  lacks = any (λ n. ltb_ℤ (remaining_locked b n) (pos (required r.per_attempt n))) resource_names

  authorized-IsValid :
      (c : ModelConfig) → refuses c ≡ false → lacks ≡ false → IsValid (with_attempt h r b)
  authorized-IsValid c e f = with_attempt-IsValid (ground arith) (required-fits f)

  -- What `authorize_additional_attempt` does to a reservation of a valid budget: it never raises.
  pub authorize_in-eq :
      (c : ModelConfig)
      → authorize_in h c r b ≡ (
          if refuses c
          then (ok false, b)
          else if lacks
          then (ok false, b)
          else (ok true, with_attempt h r b))
  unfolding authorize_in
  authorize_in-eq c = elim (Bool-cases (refuses c)) [
    | inl e ↦ rw e
    | inr e ↦ elim (Bool-cases lacks) [
      | inl f ↦ rw (e, f)
      | inr f ↦ rw (e, f) (checked-eq true (with_attempt h r b) (authorized-IsValid c e f).balanced)
    ]
  ]

  authorize_in-IsValid : (c : ModelConfig) → IsValid (authorize_in h c r b).1
  authorize_in-IsValid c = rw (authorize_in-eq c) (elim (Bool-cases (refuses c)) [
    | inl e ↦ rw e v
    | inr e ↦ elim (Bool-cases lacks) [
      | inl f ↦ rw (e, f) v
      | inr f ↦ rw (e, f) (authorized-IsValid c e f)
    ]
  ])

pub mark_attempt_started-IsValid :
    (h a : ℕ) (b : AnalysisBudget) → IsValid b → IsValid (mark_attempt_started h a b).1
unfolding mark_attempt_started
mark_attempt_started-IsValid h a b v = elim (Option-cases (get_elem? b.reservations h)) [
  | inl e ↦ rw (e, mark_attempt_started) v
  | inr (r, e) ↦ rw (e, mark_attempt_started) (mark_in-IsValid h b v r e a)
]

pub authorize_additional_attempt-IsValid :
    (h : ℕ) (c : ModelConfig) (b : AnalysisBudget)
    → IsValid b
    → IsValid (authorize_additional_attempt h c b).1
unfolding authorize_additional_attempt
authorize_additional_attempt-IsValid h c b v = elim (Option-cases (get_elem? b.reservations h)) [
  | inl e ↦ rw (e, authorize_additional_attempt) v
  | inr (r, e) ↦ rw (e, authorize_additional_attempt) (authorize_in-IsValid h b v r e c)
]
