-- ===== src/Ai/Budget/Invariant/Settles.antt =====
-- `_reconcile` of budget.py: on a valid budget the charge is booked, the whole reservation is given
-- back, and the invariant is kept, also where the method raises for excess usage.
use aigold_trader.Base.{
  ℕ, ◌+◌, ◌≤◌, ◌≡◌, refl, Bool, true, false, Option, some, arith, if◌then◌else◌, ltb, pos, ◌+ℤ◌,
  ◌-ℤ◌, inl, inr, Bool-cases, if_ind, if_ext, Option-cases, All, All-set, All-get_elem?, sum_of,
  sum_of-set, get_elem?, set, set-set, any, any-false, tests,
}
use aigold_trader.Ai.Budget.Domain.{
  Outcome, ok, raised, usage_exceeded, Resource, attempts, prompt_tokens, completion_tokens,
  total_tokens, measured_bytes, resource_names, ProviderUsage, AnalysisReservation, AnalysisBudget,
  limit_of, reserved_amounts,
}
use aigold_trader.Ai.Budget.Operations.{
  settled, finalize_locked, charges_of, ending, reconcile_in, reconcile,
}
use aigold_trader.Ai.Budget.Invariant.{held, IsConsistent, IsSound, IsValid, IsSound-settle}
use aigold_trader.Ai.Budget.Invariant.Keeps.{checked-eq}

-- Whether the charges exceed what is reserved.
abbrev pub exceeds : AnalysisReservation → Option (ProviderUsage × ℕ) → Bool
exceeds r success = any (λ n. ltb (reserved_amounts r n) (charges_of r success n)) resource_names

-- What is charged in the end: at most what is reserved.
abbrev pub final_charges : AnalysisReservation → Option (ProviderUsage × ℕ) → Resource → ℕ
final_charges r success = if exceeds r success then reserved_amounts r else charges_of r success

-- The reservation that has ended, and the budget with its charges booked.
abbrev pub closed : AnalysisReservation → AnalysisReservation
closed r = record r { registered = false; terminal = true }

abbrev pub closing : ℕ → AnalysisReservation → (Resource → ℕ) → AnalysisBudget → AnalysisBudget
closing h r charges b = record b {
  used = λ n. b.used n +ℤ pos (charges n);
  reserved = λ n. b.reserved n -ℤ pos (reserved_amounts r n);
  reservations = set b.reservations h (closed r);
}

pub final_charges-le :
    (r : AnalysisReservation) (s : Option (ProviderUsage × ℕ)) (n : Resource)
    → final_charges r s n ≤ reserved_amounts r n
final_charges-le r s n = elim (Bool-cases (exceeds r s)) [
  | inl e ↦ rw e (omega arith)
  | inr e ↦
      rw e
        (pick n (any-false (λ n. ltb (reserved_amounts r n) (charges_of r s n)) resource_names e))
]
  where
    pick :
        (n : Resource)
        → All (λ n. ltb (reserved_amounts r n) (charges_of r s n) ≡ false) resource_names
        → charges_of r s n ≤ reserved_amounts r n
    pick attempts q = omega (tests, q.0)
    pick prompt_tokens q = omega (tests, q.1.0)
    pick completion_tokens q = omega (tests, q.1.1.0)
    pick total_tokens q = omega (tests, q.1.1.1.0)
    pick measured_bytes q = omega (tests, q.1.1.1.1.0)

module _ (h : ℕ) (b : AnalysisBudget) (v : IsValid b) (r : AnalysisReservation)
    (at : get_elem? b.reservations h ≡ some r) where
  registered_of_active : r.terminal ≡ false → r.registered ≡ true
  registered_of_active active =
      ground (arith, (All-get_elem? IsConsistent b.reservations h r v.consistent at).active)

  -- Without the reservation's own amounts, whatever else is recorded in its place.
  released-sum :
      (n : Resource) (r' : AnalysisReservation)
      → r.registered ≡ true
      → r'.registered ≡ false
      → sum_of (held n) (set b.reservations h r') + reserved_amounts r n
        ≡ sum_of (held n) b.reservations
  released-sum n r' active gone =
      let at_r : held n r ≡ reserved_amounts r n = rw active in
      let at_r' : held n r' ≡ 0 = rw gone in
      omega (arith, sum_of-set (held n) b.reservations h r' r at, at_r, at_r')

  released-IsSound :
      (n : Resource) (r' : AnalysisReservation) (charge : ℕ)
      → r.registered ≡ true
      → r'.registered ≡ false
      → charge ≤ reserved_amounts r n
      → IsSound
          (b.used n +ℤ pos charge)
          (b.reserved n -ℤ pos (reserved_amounts r n))
          (sum_of (held n) (set b.reservations h r'))
          (limit_of b.limits n)
  released-IsSound n r' charge active gone fits =
      IsSound-settle (b.used n) (b.reserved n) (sum_of (held n) b.reservations) _
        (limit_of b.limits n) (reserved_amounts r n) charge (v.balanced n)
        (released-sum n r' active gone) fits

  closing-IsValid :
      (charges : Resource → ℕ)
      → r.registered ≡ true
      → ((n : Resource) → charges n ≤ reserved_amounts r n)
      → IsValid (closing h r charges b)
  closing-IsValid charges active fits =
      let c : IsConsistent r = All-get_elem? IsConsistent b.reservations h r v.consistent at in
      record {
        consistent =
            All-set IsConsistent b.reservations h (closed r) v.consistent
              (record { active = refl; distinct = c.distinct; below = c.below });
        balanced = λ n. released-IsSound n (closed r) (charges n) active refl (fits n);
      }

  -- The assertion of `_finalize_locked` passes, and the reservation ends.
  finalized :
      {A : Type 0} (done : Outcome A) (charges : Resource → ℕ)
      → r.registered ≡ true
      → ((n : Resource) → charges n ≤ reserved_amounts r n)
      → ending h r done (finalize_locked h r charges b) ≡ (done, closing h r charges b)
  unfolding finalize_locked
  finalized done charges active fits = rw (
    active,
    checked-eq tt (settled h r charges b) (λ n.
        released-IsSound n (record r { registered = false }) (charges n) active refl (fits n)),
    set-set b.reservations h (record r { registered = false }) (closed r),
  )

  -- What `_reconcile` does to a reservation of a valid budget.
  pub reconcile_in-eq :
      (s : Option (ProviderUsage × ℕ))
      → reconcile_in h r s b ≡ (
          if r.terminal then (ok false, b) else (
            (if exceeds r s then raised usage_exceeded else ok true),
            closing h r (final_charges r s) b,
          ))
  unfolding reconcile_in
  reconcile_in-eq s =
      if_ext r.terminal _ _ _ _ (λ ended. refl)
        λ active. elim (Bool-cases (exceeds r s)) [
          | inl over ↦ rw over (
              finalized (raised usage_exceeded) (reserved_amounts r) (registered_of_active active)
                (λ n. omega arith))
          | inr fits ↦ rw fits (
              finalized (ok true) (charges_of r s) (registered_of_active active)
                (λ n. rw fits at (final_charges-le r s n)))
        ]

  reconcile_in-IsValid : (s : Option (ProviderUsage × ℕ)) → IsValid (reconcile_in h r s b).1
  reconcile_in-IsValid s = rw (reconcile_in-eq s) (
      if_ind (λ (o : Outcome Bool × AnalysisBudget). IsValid o.1) r.terminal _ _ (λ ended. v)
        λ active.
          closing-IsValid (final_charges r s) (registered_of_active active) (final_charges-le r s))

pub reconcile-IsValid :
    (h : ℕ) (s : Option (ProviderUsage × ℕ)) (b : AnalysisBudget)
    → IsValid b
    → IsValid (reconcile h s b).1
unfolding reconcile
reconcile-IsValid h s b v = elim (Option-cases (get_elem? b.reservations h)) [
  | inl e ↦ rw (e, reconcile) v
  | inr (r, e) ↦ rw (e, reconcile) (reconcile_in-IsValid h b v r e s)
]
