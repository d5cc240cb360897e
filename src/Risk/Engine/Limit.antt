-- ===== src/Risk/Engine/Limit.antt =====
-- The active risk of the account after an approval of risk/engine.py.
use text.Mathlib.Text.{◌==◌ as str_eq}
use aigold_trader.Base.{
  All-imp, All-true, ℕ, zero, suc, ◌≤◌, ◌≡◌, ◌⊎◌, ◌∙◌, inl, inr, refl, sym, ap, String, Bool, true,
  false, ◌&&◌, not, Option, none, some, List, [], ◌∷◌, map, get_elem?, filterb, ltb, ltb→lt, lt→ltb,
  if◌then◌else◌, if_true, if_false, Bool-cases, arith, sum_of,
}
use aigold_trader.Decimal.Sums.{worth}
use aigold_trader.Risk.Portfolio.{
  RiskReservationRecord, is_counted, has_status_active, same_candidate, get_active_reservations,
}
use aigold_trader.Risk.Portfolio.Reservations.{Request}
use aigold_trader.Risk.Portfolio.Reservations.Table.{str_eq_sym, Apart, Apart-parts, Consistent}
use aigold_trader.Risk.Portfolio.Reservations.Writes.{Consistent-others}
use aigold_trader.Risk.Portfolio.Reservations.Rows.{contradiction}
use aigold_trader.Risk.Portfolio.Reservations.Shares.{other, sum_of-le}
use aigold_trader.Risk.Engine.{RiskDecision, request_of}
use aigold_trader.Risk.LiveAdapter.{Evaluation, is_own, only_id, is_effective, effective_rows}

-- A sum over the rows that pass a filter.
pub sum_of-filterb :
    (p : RiskReservationRecord → Bool) (f : RiskReservationRecord → ℕ)
    (rows : List RiskReservationRecord)
    → sum_of f (filterb p rows) ≡ sum_of (λ r. if p r then f r else 0) rows
sum_of-filterb p f [] = refl
sum_of-filterb p f (r ∷ rows) = elim (Bool-cases (p r)) [
  | inl e ↦
      let a = ap (sum_of f) (if_true (p r) (r ∷ filterb p rows) (filterb p rows) e) in
      let b = if_true (p r) (f r) 0 e in omega (arith, a, b, sum_of-filterb p f rows)
  | inr e ↦
      let a = ap (sum_of f) (if_false (p r) (r ∷ filterb p rows) (filterb p rows) e) in
      let b = if_false (p r) (f r) 0 e in omega (arith, a, b, sum_of-filterb p f rows)
]

pub sum_of-pcts :
    (rows : List RiskReservationRecord)
    → sum_of worth (map (λ r. r.risk_pct) rows) ≡ sum_of (λ r. worth r.risk_pct) rows
sum_of-pcts [] = refl
sum_of-pcts (r ∷ rows) = omega (arith, sum_of-pcts rows)

-- The first row that passes a filter passes it and stands in the table.
filterb-head :
    (p : RiskReservationRecord → Bool) (rows : List RiskReservationRecord)
    (x : RiskReservationRecord) (xs : List RiskReservationRecord)
    → filterb p rows ≡ x ∷ xs
    → (p x ≡ true) × ((i : ℕ) × (get_elem? rows i ≡ some x))
filterb-head p [] x xs h = cc
filterb-head p (r ∷ rows) x xs h = elim (Bool-cases (p r)) [
  | inl e ↦
      let k : r ∷ filterb p rows ≡ x ∷ xs =
        sym (if_true (p r) (r ∷ filterb p rows) (filterb p rows) e) ∙ h in
      let same : r ≡ x = cc in (ap p (sym same) ∙ e, (0, ap some same))
  | inr e ↦
      let (q, (i, g)) =
        filterb-head p rows x xs
          (sym (if_false (p r) (r ∷ filterb p rows) (filterb p rows) e) ∙ h) in
      (q, (suc i, g))
]

filterb-elem :
    (p : RiskReservationRecord → Bool) (rows : List RiskReservationRecord) (i : ℕ)
    (x : RiskReservationRecord)
    → get_elem? (filterb p rows) i ≡ some x
    → (j : ℕ) × (get_elem? rows j ≡ some x)
filterb-elem p [] i x h = cc
filterb-elem p (r ∷ rows) i x h = elim (Bool-cases (p r)) [
  | inl e ↦
      first (λ k g. filterb-elem p rows k x g) i
        (sym (ap (λ l. get_elem? l i) (if_true (p r) (r ∷ filterb p rows) (filterb p rows) e)) ∙ h)
  | inr e ↦
      let (j, g) = filterb-elem p rows i x (
        sym (ap (λ l. get_elem? l i) (if_false (p r) (r ∷ filterb p rows) (filterb p rows) e))
        ∙ h) in
      (suc j, g)
]
  where
    first :
        ((k : ℕ) → get_elem? (filterb p rows) k ≡ some x → (j : ℕ) × (get_elem? rows j ≡ some x))
        → (i : ℕ) → get_elem? (r ∷ filterb p rows) i ≡ some x
        → (j : ℕ) × (get_elem? (r ∷ rows) j ≡ some x)
    first later zero k = (0, k)
    first later (suc i) k = let (j, g) = later i k in (suc j, g)

choices :
    (a o s l l0 eff : Bool) (n : ℕ)
    → (l ≡ true → l0 ≡ true)
    → (o ≡ false → eff ≡ true)
    → (if a && o && s then 0 else (if a && s && l && true then n else 0))
      ≤ (if a && s && l0 && true then (if eff then n else 0) else 0)
choices false o s l l0 eff n f g = omega arith
choices true true true l l0 eff n f g = omega arith
choices true true false l l0 eff n f g = omega arith
choices true false false l l0 eff n f g = omega arith
choices true false true false l0 eff n f g = omega arith
choices true false true true l0 eff n f g = rw (f refl, g refl) (omega arith)

module _ (e : Evaluation) (d : RiskDecision) (rows : List RiskReservationRecord)
    (c : Consistent rows) (now : ℕ) (late : e.as_of ≤ now) where
  abbrev q : Request
  q = request_of e d none

  abbrev counted : List RiskReservationRecord
  counted = filterb (is_counted e.account.account_id e.as_of none) rows

  abbrev kept : Option String → RiskReservationRecord → ℕ
  kept only r =
      if is_counted e.account.account_id e.as_of none r
      then (if is_effective only r then worth r.risk_pct else 0)
      else 0

  -- A row that counts later counts now, and if it is not the candidate's it is effective.
  abbrev IsKept : Option String → RiskReservationRecord → Type 0
  IsKept only r = is_own e.candidate.id r ≡ false → is_effective only r ≡ true

  other-kept :
      (only : Option String) (r : RiskReservationRecord)
      → IsKept only r
      → other q now r ≤ kept only r
  other-kept only r h =
      choices (str_eq r.account_id e.account.account_id)
        (same_candidate r.candidate_id (some e.candidate.id)) (has_status_active r.status)
        (ltb now r.reserved_until) (ltb e.as_of r.reserved_until) (is_effective only r)
        (worth r.risk_pct)
        (λ l. lt→ltb e.as_of r.reserved_until (omega (arith, late, ltb→lt now r.reserved_until l)))
        h

  others-kept :
      (own : List RiskReservationRecord)
      → filterb (is_own e.candidate.id) counted ≡ own
      → sum_of (other q now) rows ≤ sum_of (kept (only_id own)) rows
  others-kept [] h =
      sum_of-le (other q now) (kept none) rows (All-true (λ r. other-kept none r (λ _. refl)) rows)
  others-kept (x ∷ y ∷ ys) h =
      sum_of-le (other q now) (kept none) rows (All-true (λ r. other-kept none r (λ _. refl)) rows)
  others-kept (x ∷ []) h =
      let (own, (i, g)) = filterb-head (is_own e.candidate.id) counted x [] h in
      let (j, k) = filterb-elem (is_counted e.account.account_id e.as_of none) rows i x g in
      sum_of-le (other q now) (kept (some x.id)) rows (
        All-imp (λ r apart. other-kept (some x.id) r (differs x r own apart)) rows
          (Consistent-others rows j x c k))
    where
      differs :
          (x r : RiskReservationRecord)
          → is_own e.candidate.id x ≡ true
          → (r ≡ x) ⊎ Apart x r
          → IsKept (some x.id) r
      differs x r own (inl same) h =
          absurd (
            contradiction (is_own e.candidate.id x) own (ap (is_own e.candidate.id) (sym same) ∙ h))
      differs x r own (inr apart) h = ap not (str_eq_sym r.id x.id ∙ (Apart-parts x r apart).0)

  pub others-effective :
      sum_of (other q now) rows
      ≤ sum_of worth (
          map
            (λ r. r.risk_pct)
            (effective_rows e.candidate.id
              (get_active_reservations rows e.account.account_id e.as_of none)))
  unfolding effective_rows get_active_reservations
  others-effective =
      let only = only_id (filterb (is_own e.candidate.id) counted) in
      let a = sum_of-pcts (filterb (is_effective only) counted) in
      let b = sum_of-filterb (is_effective only) (λ r. worth r.risk_pct) counted in
      let f =
        sum_of-filterb (is_counted e.account.account_id e.as_of none)
          (λ r. if is_effective only r then worth r.risk_pct else 0) rows in
      omega (arith, a, b, f, others-kept (filterb (is_own e.candidate.id) counted) refl)
