-- ===== src/Risk/Portfolio/Reservations/Table.antt =====
-- The constraints of `risk_reservations` under the writes of risk/portfolio.py.
use text.Mathlib.Text.{◌==◌ as str_eq}
use text.Mathlib.TextEquality.{eq_iff}
use aigold_trader.Base.{
  ◌≡◌, inl, inr, ◌∙◌, refl, sym, String, Bool, true, false, ◌&&◌, ◌||◌, not, Option, none, some,
  List, [], ◌∷◌, any, any-false, map, All, Bool-cases,
}
use aigold_trader.Risk.Portfolio.{RiskReservationRecord, has_status_active, same_candidate}
use aigold_trader.Risk.Portfolio.Reservations.{clashes, consistent}

pub str_eq_sym : (a b : String) → str_eq a b ≡ str_eq b a
str_eq_sym a b = elim (Bool-cases (str_eq a b)) [
  | inl e ↦ e ∙ sym ((eq_iff b a).1 (sym ((eq_iff a b).0 e)))
  | inr e ↦ elim (Bool-cases (str_eq b a)) [
    | inl f ↦ (eq_iff a b).1 (sym ((eq_iff b a).0 f)) ∙ sym f
    | inr f ↦ e ∙ sym f
  ]
]

pub same_candidate_sym : (a b : Option String) → same_candidate a b ≡ same_candidate b a
same_candidate_sym none none = refl
same_candidate_sym none (some d) = refl
same_candidate_sym (some c) none = refl
same_candidate_sym (some c) (some d) = str_eq_sym c d

abbrev pub Apart : RiskReservationRecord → RiskReservationRecord → Type 0
Apart r s = clashes r s ≡ false

swap_actives : (a b c d : Bool) → (a && b && c && d) ≡ (b && a && c && d)
swap_actives true true c d = refl
swap_actives true false c d = refl
swap_actives false true c d = refl
swap_actives false false c d = refl

clashes_sym : (r s : RiskReservationRecord) → clashes r s ≡ clashes s r
clashes_sym r s =
    rw
      (
        str_eq_sym r.id s.id,
        str_eq_sym r.decision_id s.decision_id,
        str_eq_sym r.account_id s.account_id,
        same_candidate_sym r.candidate_id s.candidate_id,
        swap_actives (has_status_active r.status) (has_status_active s.status)
            (str_eq s.account_id r.account_id) (same_candidate s.candidate_id r.candidate_id),
      )
      refl

pub Apart-sym : (r s : RiskReservationRecord) → Apart r s → Apart s r
Apart-sym r s h = clashes_sym s r ∙ h

-- The clash of two active rows for one candidate.
abbrev pub shares_candidate : RiskReservationRecord → RiskReservationRecord → Bool
shares_candidate r s =
    has_status_active r.status
    && has_status_active s.status
    && str_eq r.account_id s.account_id
    && same_candidate r.candidate_id s.candidate_id

pub or3_false : (a b c : Bool) → (a || b || c) ≡ false → (a ≡ false) × (b ≡ false) × (c ≡ false)
or3_false false false false h = (refl, refl, refl)
or3_false false false true h = cc
or3_false false true c h = cc
or3_false true b c h = cc

pub or3_make : (a b c : Bool) → a ≡ false → b ≡ false → c ≡ false → (a || b || c) ≡ false
or3_make a b c f g h = rw (f, g, h) refl

pub Apart-parts :
    (r s : RiskReservationRecord)
    → Apart r s
    → (str_eq r.id s.id ≡ false)
      × (str_eq r.decision_id s.decision_id ≡ false)
      × (shares_candidate r s ≡ false)
Apart-parts r s h =
    or3_false (str_eq r.id s.id) (str_eq r.decision_id s.decision_id) (shares_candidate r s) h

abbrev pub Consistent : List RiskReservationRecord → Type 0
Consistent [] = Unit
Consistent (r ∷ rows) = All (Apart r) rows × Consistent rows

not_and : (a b : Bool) → (not a && b) ≡ true → (a ≡ false) × (b ≡ true)
not_and true b h = cc
not_and false b h = (refl, h)

and_make : (a b : Bool) → a ≡ false → b ≡ true → (not a && b) ≡ true
and_make a b h k = rw (h, k) refl

any-all_false {ℓ} :
    {A : Type ℓ} (p : A → Bool) (xs : List A) → All (λ x. p x ≡ false) xs → any p xs ≡ false
any-all_false p [] h = refl
any-all_false p (x ∷ xs) h = rw (h.0, any-all_false p xs h.1) refl

pub consistent→Consistent :
    (rows : List RiskReservationRecord) → consistent rows ≡ true → Consistent rows
unfolding consistent
consistent→Consistent [] h = tt
consistent→Consistent (r ∷ rows) h =
    let (a, b) = not_and (any (clashes r) rows) (consistent rows) h in
    (any-false (clashes r) rows a, consistent→Consistent rows b)

pub Consistent→consistent :
    (rows : List RiskReservationRecord) → Consistent rows → consistent rows ≡ true
unfolding consistent
Consistent→consistent [] h = refl
Consistent→consistent (r ∷ rows) h =
    and_make (any (clashes r) rows) (consistent rows) (any-all_false (clashes r) rows h.0)
      (Consistent→consistent rows h.1)

-- What two facts about each element say of its image.
pub All-map {ℓ ι κ μ} :
    {A : Type ℓ} {P : A → Type ι} {Q : A → Type κ} (R : A → Type μ) (g : A → A)
    → ((x : A) → P x → Q x → R (g x))
    → (xs : List A) → All P xs
    → All Q xs
    → All R (map g xs)
All-map R g f [] p q = tt
All-map R g f (x ∷ xs) p q = (f x p.0 q.0, All-map R g f xs p.1 q.1)
