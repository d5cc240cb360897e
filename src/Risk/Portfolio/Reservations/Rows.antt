-- ===== src/Risk/Portfolio/Reservations/Rows.antt =====
-- The rows that `create_reservation` of risk/portfolio.py makes, changes and releases.
use text.Mathlib.Text.{◌==◌ as str_eq}
use text.Mathlib.TextEquality.{eq_iff}
use mathlib.Core.Path.{subst}
use aigold_trader.Base.{
  All-true, ℕ, ◌≡◌, ◌⊎◌, inl, inr, ◌∙◌, ap, refl, sym, String, Bool, true, false, ◌&&◌, not, Option,
  none, some, List, map, All, get_elem?, if◌then◌else◌, if_ind, if_true, if_false,
}
use aigold_trader.Decimal.{zero_dec, ◌<ᵈ◌}
use aigold_trader.Risk.Domain.{Raises, ok, ◌>>=◌}
use aigold_trader.Risk.Portfolio.{
  RiskReservationRecord, ReservationStatus, active, released, expired, has_status_active,
  same_candidate, truthy,
}
use aigold_trader.Risk.Portfolio.Reservations.{
  consistent, flush, Request, reserved_until, reuse, replace, release, update_row, of_decision,
  is_active_of, contract, returning, superseded, conflicts_with, release_conflicting,
}
use aigold_trader.Risk.Portfolio.Reservations.Table.{
  str_eq_sym, same_candidate_sym, Apart, Apart-parts, or3_make, Consistent, Consistent→consistent,
  shares_candidate,
}
use aigold_trader.Risk.Portfolio.Reservations.Writes.{
  same_id, KeepsApart, release-Consistent, Consistent-others,
}
use aigold_trader.Risk.Portfolio.Reservations.Select.{all_map, get_elem?-map}

-- The row has the values that were asked for.
pub record IsReservationOf (q : Request) (r : RiskReservationRecord) : Type 0 where
  pub decision : r.decision_id ≡ q.decision_id
  pub account : r.account_id ≡ q.account_id
  pub candidate : r.candidate_id ≡ q.candidate_id
  pub profile : r.profile_id ≡ q.profile_id
  pub symbol : r.symbol ≡ q.symbol
  pub direction : r.direction ≡ q.direction
  pub risk_pct : r.risk_pct ≡ q.risk_pct
  pub risk_amount : r.risk_amount ≡ q.risk_amount
  pub position_size : r.position_size ≡ q.position_size
  pub status : r.status ≡ active
  pub until : r.reserved_until ≡ reserved_until q

abbrev pub IsPositive : Request → Type 0
IsPositive q =
    (zero_dec <ᵈ q.risk_pct && zero_dec <ᵈ q.risk_amount && zero_dec <ᵈ q.position_size) ≡ true

-- A candidate is given by a text that is not empty, or not at all.
abbrev pub HasCandidate : Request → Type 0
HasCandidate q = (truthy q.candidate_id ≡ true) ⊎ (q.candidate_id ≡ none)

-- The row returned is the one reservation of the decision and of the candidate.
abbrev pub IsRecorded : Request → List RiskReservationRecord → RiskReservationRecord → Type 0
IsRecorded q rows r =
    Consistent rows
    × IsReservationOf q r
    × ((i : ℕ) × (get_elem? rows i ≡ some r))
    × All (λ s. (s ≡ r) ⊎ Apart r s) rows

abbrev pub Recorded : Request → Raises (List RiskReservationRecord × RiskReservationRecord) → Type 0
Recorded q m =
    (rows : List RiskReservationRecord) × (r : RiskReservationRecord) × (m ≡ ok (rows, r))
    × IsRecorded q rows r

pub contract-ok :
    (r : RiskReservationRecord)
    → (zero_dec <ᵈ r.risk_pct && zero_dec <ᵈ r.risk_amount && zero_dec <ᵈ r.position_size) ≡ true
    → contract r ≡ ok r
unfolding contract
contract-ok r p = if_true _ _ _ p

pub returning-ok :
    (q : Request) (r : RiskReservationRecord) (rows : List RiskReservationRecord) (i : ℕ)
    → (zero_dec <ᵈ r.risk_pct && zero_dec <ᵈ r.risk_amount && zero_dec <ᵈ r.position_size) ≡ true
    → Consistent rows
    → IsReservationOf q r
    → get_elem? rows i ≡ some r
    → Recorded q (returning r rows)
unfolding flush
returning-ok q r rows i p c v e = (
  rows,
  r,
  ap (λ m. m >>= λ written. contract r >>= λ reservation. ok (written, reservation))
        (if_true (consistent rows) _ _ (Consistent→consistent rows c))
      ∙ ap (λ m. m >>= λ reservation. ok (rows, reservation)) (contract-ok r p),
  (c, v, (i, e), Consistent-others rows i r c e),
)

pub and3_true : (a b c : Bool) → (a && b && c) ≡ true → (a ≡ true) × (b ≡ true) × (c ≡ true)
and3_true true true true h = (refl, refl, refl)
and3_true true true false h = cc
and3_true true false c h = cc
and3_true false b c h = cc

pub and_not-true : (a b : Bool) → b ≡ true → (a && not b) ≡ false
and_not-true true b h = rw h refl
and_not-true false b h = refl

pub and_not-false : (a b : Bool) → (a && not b) ≡ false → (a ≡ false) ⊎ (b ≡ true)
and_not-false true true h = inr refl
and_not-false true false h = cc
and_not-false false b h = inl refl

pub same_candidate_eq : (c d : Option String) → same_candidate c d ≡ true → c ≡ d
same_candidate_eq none none h = refl
same_candidate_eq none (some d) h = cc
same_candidate_eq (some c) none h = cc
same_candidate_eq (some c) (some d) h = ap some ((eq_iff c d).0 h)

pub same_candidate-none : (c : Option String) → same_candidate c none ≡ false
same_candidate-none none = refl
same_candidate-none (some c) = refl

pub active_eq : (s : ReservationStatus) → has_status_active s ≡ true → s ≡ active
active_eq active h = refl
active_eq released h = cc
active_eq expired h = cc

pub str_eq_refl : (a : String) → str_eq a a ≡ true
str_eq_refl a = (eq_iff a a).1 refl

-- What one order of the three tests refuses, the others do.
pub turn_first : (a b c : Bool) → (b && c && a) ≡ false → (true && a && b && c) ≡ false
turn_first true true true h = cc
turn_first true true false h = refl
turn_first true false c h = refl
turn_first false b c h = refl

abbrev pub is_active_for : Request → RiskReservationRecord → Bool
is_active_for q r = is_active_of q.account_id q.candidate_id r

pub no_candidate :
    (q : Request) (r : RiskReservationRecord) → q.candidate_id ≡ none → is_active_for q r ≡ false
no_candidate q r e =
    nothing (str_eq r.account_id q.account_id) (same_candidate r.candidate_id q.candidate_id)
      (has_status_active r.status)
      (ap (same_candidate r.candidate_id) e ∙ same_candidate-none r.candidate_id)
  where
    nothing : (a b c : Bool) → b ≡ false → (a && b && c) ≡ false
    nothing true true c h = cc
    nothing true false c h = refl
    nothing false b c h = refl

-- A row that is no active one of the candidate is apart from the one that is made active for it.
pub free-Apart :
    (q : Request) (t s : RiskReservationRecord)
    → str_eq t.id s.id ≡ false
    → str_eq t.decision_id s.decision_id ≡ false
    → is_active_for q s ≡ false
    → Apart (reuse q t) s
free-Apart q t s i d h =
    or3_make (str_eq t.id s.id) (str_eq t.decision_id s.decision_id)
      (shares_candidate (reuse q t) s) i d
      (ap
          (λ b.
            true && has_status_active s.status && b && same_candidate q.candidate_id s.candidate_id)
          (str_eq_sym q.account_id s.account_id)
        ∙ ap (λ b. true && has_status_active s.status && str_eq s.account_id q.account_id && b)
            (same_candidate_sym q.candidate_id s.candidate_id)
        ∙ turn_first (has_status_active s.status) (str_eq s.account_id q.account_id)
            (same_candidate s.candidate_id q.candidate_id) h)

pub reuse-IsReservationOf :
    (q : Request) (e : RiskReservationRecord)
    → e.decision_id ≡ q.decision_id
    → IsReservationOf q (reuse q e)
reuse-IsReservationOf q e d = record {
  decision = d;
  account = refl;
  candidate = refl;
  profile = refl;
  symbol = refl;
  direction = refl;
  risk_pct = refl;
  risk_amount = refl;
  position_size = refl;
  status = refl;
  until = refl;
}

pub contradiction : (b : Bool) → b ≡ true → b ≡ false → ⊥
contradiction b h k = cc

pub replace_keeps :
    (q : Request) (e s : RiskReservationRecord)
    → of_decision q.decision_id s ≡ false
    → KeepsApart e.id (replace q) s
replace_keeps q e s new r same a =
    let (i, _, k) = Apart-parts r s a in
    or3_make (str_eq r.id s.id) (str_eq q.decision_id s.decision_id) (shares_candidate r s) i
      (str_eq_sym q.decision_id s.decision_id ∙ new) k

-- Rows that are not active ones of the candidate, but for the row of the decision.
abbrev pub Free : Request → RiskReservationRecord → RiskReservationRecord → Type 0
Free q e s = (is_active_for q s ≡ false) ⊎ (str_eq s.id e.id ≡ true)

pub reuse_keeps :
    (q : Request) (e s : RiskReservationRecord) → Free q e s → KeepsApart e.id (reuse q) s
reuse_keeps q e s (inl free) r same a =
    let (i, d, _) = Apart-parts r s a in free-Apart q r s i d free
reuse_keeps q e s (inr it) r same a =
    absurd (contradiction (str_eq r.id s.id) (same_id r s e.id same it) ((Apart-parts r s a).0))

pub release-Free :
    (q : Request) (e s : RiskReservationRecord)
    → Free q e (if conflicts_with q e s then release q.now superseded s else s)
release-Free q e s = if_ind (Free q e) (conflicts_with q e s) _ _ (λ _. inl gone) kept
  where
    nothing : (a b : Bool) → (a && b && false) ≡ false
    nothing true true = refl
    nothing true false = refl
    nothing false b = refl

    gone : is_active_for q (release q.now superseded s) ≡ false
    gone = nothing (str_eq s.account_id q.account_id) (same_candidate s.candidate_id q.candidate_id)

    kept : conflicts_with q e s ≡ false → Free q e s
    kept h = and_not-false (is_active_for q s) (str_eq s.id e.id) h

-- The table with the conflicting rows released.
abbrev pub Released : Request → RiskReservationRecord → List RiskReservationRecord → Type 0
Released q e rows = Consistent rows × All (Free q e) rows × ((i : ℕ) × (get_elem? rows i ≡ some e))

pub conflicting-Released :
    (q : Request) (e : RiskReservationRecord) (rows : List RiskReservationRecord) (i : ℕ)
    → HasCandidate q
    → Consistent rows
    → get_elem? rows i ≡ some e
    → Released q e (release_conflicting q e rows)
unfolding release_conflicting
conflicting-Released q e rows i (inl t) c g =
    let step = λ (r : RiskReservationRecord).
      if conflicts_with q e r then release q.now superseded r else r in
    subst (Released q e) (sym (if_true (truthy q.candidate_id) (map step rows) rows t)) (
      release-Consistent (conflicts_with q e) q.now superseded rows c,
      all_map (Free q e) step (release-Free q e) rows,
      (
        i,
        get_elem?-map step rows i e g
            ∙ ap some (
                if_false (conflicts_with q e e) (release q.now superseded e) e
                  (and_not-true (is_active_for q e) (str_eq e.id e.id) (str_eq_refl e.id))),
      ),
    )
conflicting-Released q e rows i (inr n) c g =
    subst (Released q e) (sym (if_false (truthy q.candidate_id) _ rows (ap truthy n)))
      (c, All-true (λ s. inl (no_candidate q s n)) rows, (i, g))

pub get_elem?-update_row :
    (f : RiskReservationRecord → RiskReservationRecord) (rows : List RiskReservationRecord) (i : ℕ)
    (e : RiskReservationRecord)
    → get_elem? rows i ≡ some e
    → get_elem? (update_row e.id f rows) i ≡ some (f e)
unfolding update_row
get_elem?-update_row f rows i e g =
    get_elem?-map (λ r. if str_eq r.id e.id then f r else r) rows i e g
    ∙ ap some (if_true (str_eq e.id e.id) (f e) e (str_eq_refl e.id))
