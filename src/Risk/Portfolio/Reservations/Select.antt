-- ===== src/Risk/Portfolio/Reservations/Select.antt =====
-- What the queries and maps of risk/portfolio.py find in the table.
use aigold_trader.Base.{
  ℕ, zero, suc, ◌≡◌, inl, inr, ◌∙◌, ap, refl, sym, Bool, true, false, none, some, List, [], ◌∷◌,
  ◌++◌, map, All, if_none, some_eq, get_elem?, Bool-cases, if_true, if_false,
}
use aigold_trader.Risk.Portfolio.{RiskReservationRecord}
use aigold_trader.Risk.Portfolio.Reservations.{find_row}

-- The row that a SELECT finds fits, and stands in the table; where it finds none, no row fits.
pub find_row-some :
    (p : RiskReservationRecord → Bool) (rows : List RiskReservationRecord)
    (r : RiskReservationRecord)
    → find_row p rows ≡ some r
    → (p r ≡ true) × ((i : ℕ) × (get_elem? rows i ≡ some r))
unfolding find_row
find_row-some p [] r h = cc
find_row-some p (s ∷ rows) r h = elim (Bool-cases (p s)) [
  | inl e ↦
      let q : s ≡ r = some_eq (sym (if_true (p s) (some s) (find_row p rows) e) ∙ h) in
      (ap p (sym q) ∙ e, (0, ap some q))
  | inr e ↦
      let (f, (i, g)) =
        find_row-some p rows r (sym (if_false (p s) (some s) (find_row p rows) e) ∙ h) in
      (f, (suc i, g))
]

pub find_row-none :
    (p : RiskReservationRecord → Bool) (rows : List RiskReservationRecord)
    → find_row p rows ≡ none
    → All (λ r. p r ≡ false) rows
unfolding find_row
find_row-none p [] h = tt
find_row-none p (s ∷ rows) h =
    let (e, f) = if_none (p s) s (find_row p rows) h in (e, find_row-none p rows f)

pub get_elem?-map {ℓ} :
    {A : Type ℓ} (g : A → A) (xs : List A) (i : ℕ) (x : A)
    → get_elem? xs i ≡ some x
    → get_elem? (map g xs) i ≡ some (g x)
get_elem?-map g [] i x h = cc
get_elem?-map g (y ∷ xs) zero x h = let e : y ≡ x = cc in ap (λ z. some (g z)) e
get_elem?-map g (y ∷ xs) (suc i) x h = get_elem?-map g xs i x h

pub get_elem?-last {ℓ} :
    {A : Type ℓ} (xs : List A) (x : A) → (i : ℕ) × (get_elem? (xs ++ x ∷ []) i ≡ some x)
get_elem?-last [] x = (0, refl)
get_elem?-last (y ∷ xs) x = let (i, e) = get_elem?-last xs x in (suc i, e)

pub all_map {ℓ κ} :
    {A : Type ℓ} (R : A → Type κ) (g : A → A)
    → ((x : A) → R (g x))
    → (xs : List A) → All R (map g xs)
all_map R g f [] = tt
all_map R g f (x ∷ xs) = (f x, all_map R g f xs)
