-- ===== src/Risk/Portfolio/Reservations/Writes.antt =====
-- Writes of risk/portfolio.py that keep the constraints of the table.
use text.Mathlib.Text.{◌==◌ as str_eq}
use text.Mathlib.TextEquality.{eq_iff}
use aigold_trader.Base.{
  All-imp, All-true, ℕ, zero, suc, ◌≡◌, ◌⊎◌, inl, inr, ◌∙◌, ap, refl, sym, String, Bool, true,
  false, ◌&&◌, some, List, [], ◌∷◌, ◌++◌, map, All, All-append, All-get_elem?, get_elem?,
  if◌then◌else◌, Bool-cases, if_true, if_false,
}
use aigold_trader.Risk.Portfolio.{RiskReservationRecord, has_status_active, same_candidate}
use aigold_trader.Risk.Portfolio.Reservations.{clashes, update_row, release}
use aigold_trader.Risk.Portfolio.Reservations.Table.{
  Apart, Apart-sym, shares_candidate, or3_make, Apart-parts, Consistent, All-map,
}

-- What a map of two rows apart gives.
pub Consistent-map :
    (g : RiskReservationRecord → RiskReservationRecord) (P : RiskReservationRecord → Type 0)
    → ((r s : RiskReservationRecord) → P r → P s → Apart r s → Apart (g r) (g s))
    → (rows : List RiskReservationRecord) → All P rows
    → Consistent rows
    → Consistent (map g rows)
Consistent-map g P f [] p c = tt
Consistent-map g P f (r ∷ rows) p c = (
  All-map (Apart (g r)) g (λ s q a. f r s p.0 q a) rows p.1 c.0,
  Consistent-map g P f rows p.1 c.1,
)

-- A new row of an id does not meet the other rows where its old one did not.
abbrev pub KeepsApart :
    String → (RiskReservationRecord → RiskReservationRecord) → RiskReservationRecord → Type 0
KeepsApart id f s = (r : RiskReservationRecord) → str_eq r.id id ≡ true → Apart r s → Apart (f r) s

pub same_id :
    (r s : RiskReservationRecord) (id : String)
    → str_eq r.id id ≡ true
    → str_eq s.id id ≡ true
    → str_eq r.id s.id ≡ true
same_id r s id h k = (eq_iff r.id s.id).1 ((eq_iff r.id id).0 h ∙ sym ((eq_iff s.id id).0 k))

pub updated-Apart :
    (id : String) (f : RiskReservationRecord → RiskReservationRecord) (r s : RiskReservationRecord)
    → KeepsApart id f r
    → KeepsApart id f s
    → Apart r s
    → Apart (if str_eq r.id id then f r else r) (if str_eq s.id id then f s else s)
updated-Apart id f r s kr ks a = elim (Bool-cases (str_eq r.id id)) [
  | inl e ↦ elim (Bool-cases (str_eq s.id id)) [
    | inl e2 ↦ absurd (clash (str_eq r.id s.id) (same_id r s id e e2) ((Apart-parts r s a).0))
    | inr e2 ↦
        ap (λ x. clashes x (if str_eq s.id id then f s else s)) (if_true (str_eq r.id id) (f r) r e)
        ∙ ap (clashes (f r)) (if_false (str_eq s.id id) (f s) s e2)
        ∙ ks r e a
  ]
  | inr e ↦ elim (Bool-cases (str_eq s.id id)) [
    | inl e2 ↦
        ap (λ x. clashes x (if str_eq s.id id then f s else s))
          (if_false (str_eq r.id id) (f r) r e)
        ∙ ap (clashes r) (if_true (str_eq s.id id) (f s) s e2)
        ∙ Apart-sym (f s) r (kr s e2 (Apart-sym r s a))
    | inr e2 ↦
        ap (λ x. clashes x (if str_eq s.id id then f s else s))
          (if_false (str_eq r.id id) (f r) r e)
        ∙ ap (clashes r) (if_false (str_eq s.id id) (f s) s e2)
        ∙ a
  ]
]
  where
    clash : (b : Bool) → b ≡ true → b ≡ false → ⊥
    clash b h k = cc

pub update_row-Consistent :
    (id : String) (f : RiskReservationRecord → RiskReservationRecord)
    (rows : List RiskReservationRecord)
    → All (KeepsApart id f) rows
    → Consistent rows
    → Consistent (update_row id f rows)
unfolding update_row
update_row-Consistent id f rows k c =
    Consistent-map (λ r. if str_eq r.id id then f r else r) (KeepsApart id f) (updated-Apart id f)
      rows k c

pub and_false : (a b c : Bool) → (a && false && b && c) ≡ false
and_false true b c = refl
and_false false b c = refl

-- Rows that are released stay apart.
pub released-Apart :
    (now : ℕ) (reason : String) (a b : Bool) (r s : RiskReservationRecord)
    → Apart r s
    → Apart (if a then release now reason r else r) (if b then release now reason s else s)
released-Apart now reason true b r s h = elim (Bool-cases b) [
  | inl e ↦
      ap (clashes (release now reason r)) (if_true b (release now reason s) s e)
      ∙ gone (release now reason s) (parts.0) (parts.1)
  | inr e ↦
      ap (clashes (release now reason r)) (if_false b (release now reason s) s e)
      ∙ gone s (parts.0) (parts.1)
]
  where
    parts :
        (str_eq r.id s.id ≡ false)
        × (str_eq r.decision_id s.decision_id ≡ false)
        × (shares_candidate r s ≡ false)
    parts = Apart-parts r s h

    gone :
        (t : RiskReservationRecord)
        → str_eq r.id t.id ≡ false
        → str_eq r.decision_id t.decision_id ≡ false
        → Apart (release now reason r) t
    gone t i d = or3_make (str_eq r.id t.id) (str_eq r.decision_id t.decision_id) false i d refl
released-Apart now reason false true r s h =
    let (i, d, _) = Apart-parts r s h in
    or3_make (str_eq r.id s.id) (str_eq r.decision_id s.decision_id) _ i d (
      and_false (has_status_active r.status) (str_eq r.account_id s.account_id)
        (same_candidate r.candidate_id s.candidate_id))
released-Apart now reason false false r s h = h

pub release-Consistent :
    (p : RiskReservationRecord → Bool) (now : ℕ) (reason : String)
    (rows : List RiskReservationRecord)
    → Consistent rows
    → Consistent (map (λ r. if p r then release now reason r else r) rows)
release-Consistent p now reason rows c =
    Consistent-map (λ r. if p r then release now reason r else r) (λ _. Unit {0})
      (λ r s _ _ a. released-Apart now reason (p r) (p s) r s a) rows (All-true (λ _. tt) rows) c

pub insert-Consistent :
    (rows : List RiskReservationRecord) (r : RiskReservationRecord)
    → All (λ s. Apart s r) rows
    → Consistent rows
    → Consistent (rows ++ r ∷ [])
insert-Consistent [] r h c = (tt, tt)
insert-Consistent (s ∷ rows) r h c =
    (All-append (Apart s) rows (r ∷ []) c.0 (h.0, tt), insert-Consistent rows r h.1 c.1)

-- In a consistent table every row but a given one is apart from it.
pub Consistent-others :
    (rows : List RiskReservationRecord) (i : ℕ) (r : RiskReservationRecord)
    → Consistent rows
    → get_elem? rows i ≡ some r
    → All (λ s. (s ≡ r) ⊎ Apart r s) rows
Consistent-others [] i r c h = tt
Consistent-others (s ∷ rows) zero r c h =
    let e : s ≡ r = cc in (inl e, All-imp (λ t a. inr (ap (λ x. clashes x t) (sym e) ∙ a)) rows c.0)
Consistent-others (s ∷ rows) (suc i) r c h =
    (inr (Apart-sym s r (All-get_elem? (Apart s) rows i r c.0 h)), Consistent-others rows i r c.1 h)
