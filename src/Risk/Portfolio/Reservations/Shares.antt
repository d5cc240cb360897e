-- ===== src/Risk/Portfolio/Reservations/Shares.antt =====
-- Sums over the reservations of risk/portfolio.py that two rows in step share.
use text.Mathlib.Text.{◌==◌ as str_eq}
use aigold_trader.Base.{
  ℕ, ◌+◌, ◌≤◌, ◌≡◌, inl, inr, ap, String, Bool, true, false, none, List, [], ◌∷◌, map, All,
  if◌then◌else◌, arith, Bool-cases, if_true, if_false, sum_of,
}
use aigold_trader.Decimal.Sums.{worth}
use aigold_trader.Risk.Portfolio.{RiskReservationRecord, is_counted}
use aigold_trader.Risk.Portfolio.Reservations.{Request, update_row}
use aigold_trader.Risk.Portfolio.Reservations.Table.{Apart, Apart-parts, Consistent}
use aigold_trader.Risk.Portfolio.Reservations.Writes.{same_id}
use aigold_trader.Risk.Portfolio.Reservations.Rows.{is_active_for, contradiction}

-- The risk of a row that counts as active for the account, in units of the least decimal.
abbrev pub share : String → ℕ → RiskReservationRecord → ℕ
share account now r = if is_counted account now none r then worth r.risk_pct else 0

-- The same, without the active rows of the candidate.
abbrev pub other : Request → ℕ → RiskReservationRecord → ℕ
other q now r = if is_active_for q r then 0 else share q.account_id now r

pub if_le : (b : Bool) (n : ℕ) → (if b then n else 0) ≤ n
if_le true n = omega arith
if_le false n = omega arith

pub share-other :
    (q : Request) (now : ℕ) (r : RiskReservationRecord)
    → is_active_for q r ≡ false
    → share q.account_id now r ≤ other q now r
share-other q now r h =
    rw (if_false (is_active_for q r) 0 (share q.account_id now r) h) (omega arith)

module _ (f g : RiskReservationRecord → ℕ) where
  pub sum_of-map-le :
      (step : RiskReservationRecord → RiskReservationRecord)
      → ((r : RiskReservationRecord) → f (step r) ≤ g r)
      → (rows : List RiskReservationRecord) → sum_of f (map step rows) ≤ sum_of g rows
  sum_of-map-le step h [] = omega arith
  sum_of-map-le step h (r ∷ rows) = omega (arith, h r, sum_of-map-le step h rows)

  pub sum_of-le :
      (rows : List RiskReservationRecord)
      → All (λ r. f r ≤ g r) rows
      → sum_of f rows ≤ sum_of g rows
  sum_of-le [] h = omega arith
  sum_of-le (r ∷ rows) h = omega (arith, h.0, sum_of-le rows h.1)

  module _ (id : String) (new : RiskReservationRecord → RiskReservationRecord) (most : ℕ)
      (few : (r : RiskReservationRecord) → f (new r) ≤ most) where
    abbrev StaysBelow : RiskReservationRecord → Type 0
    StaysBelow r = str_eq r.id id ≡ false → f r ≤ g r

    sum_of-elsewhere :
        (r : RiskReservationRecord) (rows : List RiskReservationRecord)
        → str_eq r.id id ≡ true
        → All (Apart r) rows
        → All StaysBelow rows
        → sum_of f (update_row id new rows) ≤ sum_of g rows
    unfolding update_row
    sum_of-elsewhere r [] e a h = omega arith
    sum_of-elsewhere r (s ∷ rows) e a h =
        let apart = differs r s e a.0 in
        let kept = ap f (if_false (str_eq s.id id) (new s) s apart) in
        omega (arith, kept, h.0 apart, sum_of-elsewhere r rows e a.1 h.1)
      where
        differs :
            (r s : RiskReservationRecord)
            → str_eq r.id id ≡ true
            → Apart r s
            → str_eq s.id id ≡ false
        differs r s e a = elim (Bool-cases (str_eq s.id id)) [
          | inl k ↦
              absurd (contradiction (str_eq r.id s.id) (same_id r s id e k) ((Apart-parts r s a).0))
          | inr k ↦ k
        ]

    -- One row has the id; it is worth at most what the new one is.
    pub sum_of-update_row :
        (rows : List RiskReservationRecord)
        → Consistent rows
        → All StaysBelow rows
        → sum_of f (update_row id new rows) ≤ sum_of g rows + most
    unfolding update_row
    sum_of-update_row [] c h = omega arith
    sum_of-update_row (r ∷ rows) c h = elim (Bool-cases (str_eq r.id id)) [
      | inl e ↦
          let moved = ap f (if_true (str_eq r.id id) (new r) r e) in
          omega (arith, moved, few r, sum_of-elsewhere r rows e c.0 h.1)
      | inr e ↦
          let kept = ap f (if_false (str_eq r.id id) (new r) r e) in
          omega (arith, kept, h.0 e, sum_of-update_row rows c.1 h.1)
    ]
