-- ===== src/Risk/Portfolio/Reservations/Worth.antt =====
-- How much active risk `create_reservation` of risk/portfolio.py leaves to an account.
use text.Mathlib.Text.{◌==◌ as str_eq}
use text.Mathlib.TextEquality.{eq_iff}
use mathlib.Core.Path.{subst}
use aigold_trader.Base.{
  All-imp, All-true, ℕ, ◌+◌, ◌≤◌, ◌≡◌, ◌⊎◌, inl, inr, ◌∙◌, ap, refl, sym, String, Bool, true, false,
  ◌&&◌, Option, none, some, List, [], ◌∷◌, ◌++◌, map, if◌then◌else◌, arith, Bool-cases, if_ind,
  if_true, if_false, ltb, sum_of, sum_of-append,
}
use aigold_trader.Decimal.Sums.{worth}
use aigold_trader.Risk.Domain.{ok, raised, integrity_error, bind-ok, ok-injective}
use aigold_trader.Risk.Portfolio.{
  RiskReservationRecord, is_counted, has_status_active, same_candidate, truthy,
}
use aigold_trader.Risk.Portfolio.Reservations.{
  Request, new_row, reuse, replace, release, update_row, find_row, of_decision, superseded,
  conflicts_with, release_conflicting, flush, contract, returning, reuse_exact, replace_existing,
  insert_new, after_violation, find_existing, by_existing, by_exact, create_reservation, consistent,
}
use aigold_trader.Risk.Portfolio.Reservations.Table.{
  Apart, Apart-parts, Consistent, shares_candidate,
}
use aigold_trader.Risk.Portfolio.Reservations.Writes.{Consistent-others}
use aigold_trader.Risk.Portfolio.Reservations.Select.{find_row-some}
use aigold_trader.Risk.Portfolio.Reservations.Rows.{
  and3_true, same_candidate_eq, str_eq_refl, HasCandidate, conflicting-Released, is_active_for,
  contradiction, and_not-false,
}
use aigold_trader.Risk.Portfolio.Reservations.Once.{find_existing-some, find_existing-none}
use aigold_trader.Risk.Portfolio.Reservations.Shares.{
  share, other, if_le, share-other, sum_of-map-le, sum_of-update_row, sum_of-le,
}

-- Two active rows of one candidate are not apart.
own_twice :
    (q : Request) (r s : RiskReservationRecord)
    → is_active_for q r ≡ true
    → is_active_for q s ≡ true
    → Apart r s
    → ⊥
own_twice q r s h k a =
    let (ra, rc, rs) =
      and3_true (str_eq r.account_id q.account_id) (same_candidate r.candidate_id q.candidate_id)
        (has_status_active r.status) h in
    let (sa, sc, ss) =
      and3_true (str_eq s.account_id q.account_id) (same_candidate s.candidate_id q.candidate_id)
        (has_status_active s.status) k in
    let account =
      (eq_iff r.account_id s.account_id).1
        ((eq_iff r.account_id q.account_id).0 ra ∙ sym ((eq_iff s.account_id q.account_id).0 sa)) in
    let candidate =
      ap (λ c. same_candidate c s.candidate_id)
        (same_candidate_eq r.candidate_id q.candidate_id rc
          ∙ sym (same_candidate_eq s.candidate_id q.candidate_id sc))
      ∙ same_self s.candidate_id q.candidate_id sc in
    contradiction (shares_candidate r s) (all_four rs ss account candidate) ((Apart-parts r s a).2)
  where
    same_self : (c d : Option String) → same_candidate c d ≡ true → same_candidate c c ≡ true
    same_self none d h = cc
    same_self (some c) d h = str_eq_refl c

    all_four :
        {a b c d : Bool} → a ≡ true → b ≡ true → c ≡ true → d ≡ true → (a && b && c && d) ≡ true
    all_four f g h k = rw (f, g, h, k) refl

module _ (q : Request) (now : ℕ) (rows : List RiskReservationRecord) (c : Consistent rows)
    (named : truthy q.candidate_id ≡ true) where
  abbrev before : ℕ
  before = sum_of (other q now) rows

  abbrev after : List RiskReservationRecord → ℕ
  after w = sum_of (share q.account_id now) w

  replaced :
      (e : RiskReservationRecord)
      → find_row (is_active_for q) rows ≡ some e
      → after (update_row e.id (replace q) rows) ≤ before + worth q.risk_pct
  replaced e found =
      let (own, (i, g)) = find_row-some (is_active_for q) rows e found in
      sum_of-update_row (share q.account_id now) (other q now) e.id (replace q) (worth q.risk_pct)
        (λ r. if_le (is_counted q.account_id now none (replace q r)) (worth q.risk_pct)) rows c
        (All-imp (λ s apart away. share-other q now s (not_own e s own apart away)) rows
          (Consistent-others rows i e c g))
    where
      not_own :
          (e s : RiskReservationRecord)
          → is_active_for q e ≡ true
          → (s ≡ e) ⊎ Apart e s
          → str_eq s.id e.id ≡ false
          → is_active_for q s ≡ false
      not_own e s own (inl same) away =
          absurd
            (contradiction (str_eq s.id e.id) ((eq_iff s.id e.id).1 (ap (λ r. r.id) same)) away)
      not_own e s own (inr apart) away = elim (Bool-cases (is_active_for q s)) [
        | inl k ↦ absurd (own_twice q e s own k apart)
        | inr k ↦ k
      ]

  abbrev away : RiskReservationRecord → RiskReservationRecord → ℕ
  away e r = if str_eq r.id e.id then 0 else share q.account_id now r

  away-other :
      (e r : RiskReservationRecord)
      → away e (if conflicts_with q e r then release q.now superseded r else r) ≤ other q now r
  away-other e r =
      if_ind (λ x. away e x ≤ other q now r) (conflicts_with q e r) (release q.now superseded r) r
        (λ _. released_le) kept_le
    where
      nothing : (a b d : Bool) (n : ℕ) → (if a && false && b && d then n else 0) ≡ 0
      nothing true b d n = refl
      nothing false b d n = refl

      zero_or : (b : Bool) (n m : ℕ) → (b ≡ false → n ≤ m) → (if b then 0 else n) ≤ m
      zero_or true n m h = omega arith
      zero_or false n m h = h refl

      released_le : away e (release q.now superseded r) ≤ other q now r
      released_le =
          let gone =
            nothing (str_eq r.account_id q.account_id) (ltb now r.reserved_until) true
              (worth r.risk_pct) in
          zero_or (str_eq r.id e.id) (share q.account_id now (release q.now superseded r))
            (other q now r) (λ _. omega (arith, gone))

      kept_le : conflicts_with q e r ≡ false → away e r ≤ other q now r
      kept_le h = zero_or (str_eq r.id e.id) (share q.account_id now r) (other q now r) (λ apart.
          share-other q now r (free apart (and_not-false (is_active_for q r) (str_eq r.id e.id) h)))
        where
          free :
              str_eq r.id e.id ≡ false
              → (is_active_for q r ≡ false) ⊎ (str_eq r.id e.id ≡ true)
              → is_active_for q r ≡ false
          free apart (inl f) = f
          free apart (inr k) = absurd (contradiction (str_eq r.id e.id) k apart)

  reused :
      (e : RiskReservationRecord)
      → HasCandidate q
      → find_row (of_decision q.decision_id) rows ≡ some e
      → after (update_row e.id (reuse q) (release_conflicting q e rows)) ≤ before + worth q.risk_pct
  unfolding release_conflicting
  reused e has found =
      let (_, (i, g)) = find_row-some (of_decision q.decision_id) rows e found in
      let rows1 = release_conflicting q e rows in
      let (c1, _, _) = conflicting-Released q e rows i has c g in
      let moved =
        sum_of-update_row (share q.account_id now) (away e) e.id (reuse q) (worth q.risk_pct)
          (λ r. if_le (is_counted q.account_id now none (reuse q r)) (worth q.risk_pct)) rows1 c1
          (All-true (λ r apart. at_least r apart) rows1) in
      let step = λ (r : RiskReservationRecord).
        if conflicts_with q e r then release q.now superseded r else r in
      let less : sum_of (away e) rows1 ≤ before =
        rw (if_true (truthy q.candidate_id) (map step rows) rows named)
          (sum_of-map-le (away e) (other q now) step (away-other e) rows) in
      omega (arith, moved, less)
    where
      at_least :
          (r : RiskReservationRecord)
          → str_eq r.id e.id ≡ false
          → share q.account_id now r ≤ away e r
      at_least r apart =
          rw (if_false (str_eq r.id e.id) 0 (share q.account_id now r) apart) (omega arith)

  inserted :
      (id : String)
      → find_existing q rows ≡ none
      → after (rows ++ new_row q id ∷ []) ≤ before + worth q.risk_pct
  inserted id no_one =
      let free = find_existing-none q rows (inl named) no_one in
      let all_other =
        sum_of-le (share q.account_id now) (other q now) rows
          (All-imp (share-other q now) rows free) in
      let last = if_le (is_counted q.account_id now none (new_row q id)) (worth q.risk_pct) in
      omega
        (arith, all_other, last, sum_of-append (share q.account_id now) rows (new_row q id ∷ []))

  returning-rows :
      (r : RiskReservationRecord) (rows' : List RiskReservationRecord)
      (w : List RiskReservationRecord × RiskReservationRecord)
      → returning r rows' ≡ ok w
      → rows' ≡ w.0
  unfolding flush
  returning-rows r rows' w h =
      let (written, e1, f1) = bind-ok (flush rows') _ h in
      let (made, _, f2) = bind-ok (contract r) _ f1 in
      flushed (consistent rows') rows' e1 ∙ ap (λ p. p.0) (ok-injective f2)
    where
      flushed :
          (b : Bool) (rows' : List RiskReservationRecord) {v : List RiskReservationRecord}
          → (if b then ok rows' else raised integrity_error) ≡ ok v
          → rows' ≡ v
      flushed true rows' e = ok-injective e
      flushed false rows' e = cc

  abbrev Limited : List RiskReservationRecord → Type 0
  Limited w = after w ≤ before + worth q.risk_pct

  by_existing-Limited :
      (id : String) (o : Option RiskReservationRecord)
      (w : List RiskReservationRecord × RiskReservationRecord)
      → find_existing q rows ≡ o
      → by_existing q id o rows rows ≡ ok w
      → Limited w.0
  unfolding insert_new replace_existing
  by_existing-Limited id none w e h = elim (Bool-cases (consistent (rows ++ new_row q id ∷ []))) [
    | inl good ↦
        let (made, _, f) =
          bind-ok (contract (new_row q id)) _
            (sym (if_true (consistent (rows ++ new_row q id ∷ [])) _ _ good) ∙ h) in
        subst Limited (ap (λ p. p.0) (ok-injective f)) (inserted id e)
    | inr bad ↦ absurd (
        raises (
          ap (λ o. after_violation q o rows) (sym e)
          ∙ sym (if_false (consistent (rows ++ new_row q id ∷ [])) _ _ bad)
          ∙ h))
  ]
    where
      raises : raised integrity_error ≡ ok w → ⊥
      raises f = cc
  by_existing-Limited id (some x) w e h =
      subst Limited (returning-rows (replace q x) (update_row x.id (replace q) rows) w h)
        (replaced x (find_existing-some q rows x e))

  by_exact-Limited :
      (id : String) (o : Option RiskReservationRecord)
      (w : List RiskReservationRecord × RiskReservationRecord)
      → find_row (of_decision q.decision_id) rows ≡ o
      → by_exact q id o rows rows ≡ ok w
      → Limited w.0
  unfolding reuse_exact
  by_exact-Limited id none w e h = by_existing-Limited id (find_existing q rows) w refl h
  by_exact-Limited id (some x) w e h =
      subst Limited
        (returning-rows (reuse q x) (update_row x.id (reuse q) (release_conflicting q x rows)) w h)
        (reused x (inl named) e)

  -- The active risk of the account grows by at most the new reservation over what its rows, without
  -- those of the candidate, come to.
  pub created-Limited :
      (id : String) (w : List RiskReservationRecord × RiskReservationRecord)
      → create_reservation q id rows rows ≡ ok w
      → sum_of (share q.account_id now) w.0 ≤ sum_of (other q now) rows + worth q.risk_pct
  unfolding create_reservation
  created-Limited id w h = by_exact-Limited id (find_row (of_decision q.decision_id) rows) w refl h
