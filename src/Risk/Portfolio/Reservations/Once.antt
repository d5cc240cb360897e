-- ===== src/Risk/Portfolio/Reservations/Once.antt =====
-- What `create_reservation` of risk/portfolio.py leaves in the table.
use text.Mathlib.Text.{◌==◌ as str_eq}
use text.Mathlib.TextEquality.{eq_iff}
use mathlib.Core.Path.{subst}
use aigold_trader.Base.{
  All-imp, All-zip, All-true, ℕ, ◌≡◌, ◌⊎◌, inl, inr, ◌∙◌, ap, refl, sym, String, true, false, none,
  some, List, [], ◌∷◌, ◌++◌, All, get_elem?, Bool-cases, Option-cases, if_true, if_false,
}
use aigold_trader.Risk.Domain.{ok, ◌>>=◌}
use aigold_trader.Risk.Portfolio.{RiskReservationRecord, has_status_active, same_candidate, truthy}
use aigold_trader.Risk.Portfolio.Reservations.{
  clashes, consistent, Request, new_row, reuse, replace, find_row, update_row, of_decision,
  is_active_of, find_existing, release_conflicting, reuse_exact, replace_existing, insert_new,
  by_existing, by_exact, create_reservation,
}
use aigold_trader.Risk.Portfolio.Reservations.Table.{
  str_eq_sym, Apart, Apart-sym, Consistent, Consistent→consistent, consistent→Consistent,
}
use aigold_trader.Risk.Portfolio.Reservations.Writes.{
  update_row-Consistent, insert-Consistent, Consistent-others,
}
use aigold_trader.Risk.Portfolio.Reservations.Select.{find_row-some, find_row-none, get_elem?-last}
use aigold_trader.Risk.Portfolio.Reservations.Rows.{
  IsReservationOf, IsPositive, HasCandidate, Recorded, contract-ok, returning-ok, and3_true,
  same_candidate_eq, active_eq, is_active_for, no_candidate, free-Apart, reuse-IsReservationOf,
  replace_keeps, reuse_keeps, conflicting-Released, get_elem?-update_row,
}

module _ (q : Request) (positive : IsPositive q) (rows : List RiskReservationRecord)
    (c : Consistent rows) where
  existing-Recorded :
      (e : RiskReservationRecord)
      → All (λ r. of_decision q.decision_id r ≡ false) rows
      → find_row (is_active_of q.account_id q.candidate_id) rows ≡ some e
      → Recorded q (replace_existing q e rows)
  unfolding replace_existing
  existing-Recorded e new found =
      let (fits, (i, g)) = find_row-some (is_active_for q) rows e found in
      let (account, candidate, status) =
        and3_true (str_eq e.account_id q.account_id) (same_candidate e.candidate_id q.candidate_id)
          (has_status_active e.status) fits in
      let v : IsReservationOf q (replace q e) = record {
        decision = refl;
        account = (eq_iff e.account_id q.account_id).0 account;
        candidate = same_candidate_eq e.candidate_id q.candidate_id candidate;
        profile = refl;
        symbol = refl;
        direction = refl;
        risk_pct = refl;
        risk_amount = refl;
        position_size = refl;
        status = active_eq e.status status;
        until = refl;
      } in
      returning-ok q (replace q e) (update_row e.id (replace q) rows) i positive
        (update_row-Consistent e.id (replace q) rows (All-imp (replace_keeps q e) rows new) c) v
        (get_elem?-update_row (replace q) rows i e g)

  exact-Recorded :
      (e : RiskReservationRecord)
      → HasCandidate q
      → find_row (of_decision q.decision_id) rows ≡ some e
      → Recorded q (reuse_exact q e rows)
  unfolding reuse_exact
  exact-Recorded e some_candidate found =
      let (fits, (i, g)) = find_row-some (of_decision q.decision_id) rows e found in
      let (c1, free, (j, g1)) = conflicting-Released q e rows i some_candidate c g in
      returning-ok q (reuse q e) (update_row e.id (reuse q) (release_conflicting q e rows)) j
        positive
        (update_row-Consistent e.id (reuse q) (release_conflicting q e rows)
          (All-imp (reuse_keeps q e) (release_conflicting q e rows) free) c1)
        (reuse-IsReservationOf q e ((eq_iff e.decision_id q.decision_id).0 fits))
        (get_elem?-update_row (reuse q) (release_conflicting q e rows) j e g1)

  new-Recorded :
      (id : String)
      → All (λ r. str_eq r.id id ≡ false) rows
      → All (λ r. of_decision q.decision_id r ≡ false) rows
      → All (λ r. is_active_of q.account_id q.candidate_id r ≡ false) rows
      → Recorded q (insert_new q id rows)
  unfolding insert_new
  new-Recorded id fresh new free =
      let row = new_row q id in
      let apart =
        insert-Consistent rows row
          (All-zip fresh_apart rows fresh (All-zip (λ s a b. (a, b)) rows new free)) c in
      let (i, g) = get_elem?-last rows row in
      (
        rows ++ row ∷ [],
        row,
        if_true (consistent (rows ++ row ∷ [])) _ _ (Consistent→consistent (rows ++ row ∷ []) apart)
            ∙ ap (λ m. m >>= λ reservation. ok (rows ++ row ∷ [], reservation))
                (contract-ok row positive),
        (
          apart,
          reuse-IsReservationOf q row refl,
          (i, g),
          Consistent-others (rows ++ row ∷ []) i row apart g,
        ),
      )
    where
      fresh_apart :
          (s : RiskReservationRecord)
          → str_eq s.id id ≡ false
          → (of_decision q.decision_id s ≡ false) × (is_active_for q s ≡ false)
          → Apart s (new_row q id)
      fresh_apart s i (d, a) = Apart-sym (new_row q id) s (
          free-Apart q (new_row q id) s (str_eq_sym id s.id ∙ i)
            (str_eq_sym q.decision_id s.decision_id ∙ d) a)

pub find_existing-none :
    (q : Request) (rows : List RiskReservationRecord)
    → HasCandidate q
    → find_existing q rows ≡ none
    → All (λ r. is_active_for q r ≡ false) rows
unfolding find_existing
find_existing-none q rows (inl t) h =
    find_row-none (is_active_for q) rows
      (sym (if_true (truthy q.candidate_id) (find_row (is_active_for q) rows) none t) ∙ h)
find_existing-none q rows (inr n) h = All-true (λ s. no_candidate q s n) rows

pub find_existing-some :
    (q : Request) (rows : List RiskReservationRecord) (e : RiskReservationRecord)
    → find_existing q rows ≡ some e
    → find_row (is_active_for q) rows ≡ some e
unfolding find_existing
find_existing-some q rows e h = elim (Bool-cases (truthy q.candidate_id)) [
  | inl t ↦ sym (if_true (truthy q.candidate_id) (find_row (is_active_for q) rows) none t) ∙ h
  | inr f ↦
      let x : none ≡ some e =
        sym (if_false (truthy q.candidate_id) (find_row (is_active_for q) rows) none f) ∙ h in
      cc
]

-- Where no other transaction comes in between, `create_reservation` returns for every consistent
-- table, whatever the statuses of its rows: given positive amounts, a new id that no row has, and a
-- candidate that is none or not the empty text. It leaves a consistent table, which holds the
-- reservation that it returns: active, with the values asked for, till the end of its time. Every
-- other row has another decision, and is not active for the same candidate of the account.
pub create_reservation_once :
    (q : Request) (id : String) (rows : List RiskReservationRecord)
    → IsPositive q
    → HasCandidate q
    → consistent rows ≡ true
    → All (λ r. str_eq r.id id ≡ false) rows
    → (written : List RiskReservationRecord) × (r : RiskReservationRecord) × (create_reservation q
          id rows rows
        ≡ ok (written, r))
      × (consistent written ≡ true)
      × IsReservationOf q r
      × ((i : ℕ) × (get_elem? written i ≡ some r))
      × All (λ s. (s ≡ r) ⊎ (clashes r s ≡ false)) written
unfolding create_reservation
create_reservation_once q id rows positive candidate h fresh =
    let c = consistent→Consistent rows h in
    let (written, r, e, (c1, v, place, others)) = recorded c in
    (written, r, e, Consistent→consistent written c1, v, place, others)
  where
    new :
        Consistent rows
        → All (λ r. of_decision q.decision_id r ≡ false) rows
        → Recorded q (by_existing q id (find_existing q rows) rows rows)
    new c none_of = elim (Option-cases (find_existing q rows)) [
      | inl e ↦
          subst (λ o. Recorded q (by_existing q id o rows rows)) (sym e)
            (new-Recorded q positive rows c id fresh none_of
              (find_existing-none q rows candidate e))
      | inr (x, e) ↦
          subst (λ o. Recorded q (by_existing q id o rows rows)) (sym e)
            (existing-Recorded q positive rows c x none_of (find_existing-some q rows x e))
    ]

    recorded :
        Consistent rows
        → Recorded q (by_exact q id (find_row (of_decision q.decision_id) rows) rows rows)
    recorded c = elim (Option-cases (find_row (of_decision q.decision_id) rows)) [
      | inl e ↦
          subst (λ o. Recorded q (by_exact q id o rows rows)) (sym e)
            (new c (find_row-none (of_decision q.decision_id) rows e))
      | inr (x, e) ↦
          subst (λ o. Recorded q (by_exact q id o rows rows)) (sym e)
            (exact-Recorded q positive rows c x candidate e)
    ]
