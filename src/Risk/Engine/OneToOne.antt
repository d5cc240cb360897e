-- ===== src/Risk/Engine/OneToOne.antt =====
-- The reservations that an evaluation of risk/engine.py leaves.
use text.Mathlib.Text.{◌==◌ as str_eq}
use mathlib.Core.Path.{subst}
use aigold_trader.Base.{
  ℕ, ◌≡◌, ◌⊎◌, ◌∙◌, inl, inr, refl, sym, ap, true, false, not, Option, none, some, List, All,
  get_elem?, if_true, if_false, Bool-cases,
}
use aigold_trader.Risk.Domain.{
  Raises, ok, bind-ok, ok-injective, Decision, approved, reduced, blocked,
}
use aigold_trader.Risk.KillSwitch.Triggers.{evaluate_automatic_triggers}
use aigold_trader.Risk.Portfolio.{RiskReservationRecord}
use aigold_trader.Risk.Portfolio.Reservations.{clashes, consistent, create_reservation}
use aigold_trader.Risk.Portfolio.Reservations.Release.{is_released_for}
use aigold_trader.Risk.Portfolio.Reservations.Rows.{IsReservationOf}
use aigold_trader.Risk.Portfolio.Reservations.Positive.{create-IsPositive}
use aigold_trader.Risk.Portfolio.Reservations.Once.{create_reservation_once}
use aigold_trader.Risk.Portfolio.Reservations.Released.{none_is_left, released-consistent}
use aigold_trader.Risk.LiveAdapter.{Evaluation, quote_is_stale}
use aigold_trader.Risk.Engine.{
  Tables, RiskDecision, Outside, is_blocked, to_live_decision, release_pending, request_of,
  reconcile, by_cache, preflight, evaluate_final, evaluate_candidate,
}

is_blocked-eq : (d : Decision) → is_blocked d ≡ true → d ≡ blocked
is_blocked-eq blocked h = refl
is_blocked-eq approved h = cc
is_blocked-eq reduced h = cc

-- No active reservation of the candidate is left in the account.
abbrev pub HasNone : Evaluation → List RiskReservationRecord → Type 0
HasNone e rows =
    All (λ r. is_released_for e.candidate.id (some e.account.account_id) r ≡ false) rows

-- There is one reservation of the decision, active and with its values, and every other row has
-- another decision and is not active for the candidate.
abbrev pub HasOne : Evaluation → RiskDecision → List RiskReservationRecord → Type 0
HasOne e d rows =
    (cap : Option ℕ) × (r : RiskReservationRecord) × IsReservationOf (request_of e d cap) r
    × ((i : ℕ) × (get_elem? rows i ≡ some r))
    × All (λ s. (s ≡ r) ⊎ (clashes r s ≡ false)) rows

abbrev Settled : Evaluation → RiskDecision → List RiskReservationRecord → Type 0
Settled e d rows =
    (consistent rows ≡ true)
    × (((d.decision ≡ blocked) × HasNone e rows)
        ⊎ ((is_blocked d.decision ≡ false) × HasOne e d rows))

module _ (x : Outside) (e : Evaluation) (rows : List RiskReservationRecord)
    (named : str_eq e.candidate.id "" ≡ false) (good : consistent rows ≡ true)
    (fresh_id : All (λ r. str_eq r.id x.reservation_id ≡ false) rows) where
  reconcile-Settled :
      (d : RiskDecision) (cap : Option ℕ) (w : List RiskReservationRecord)
      → reconcile x e d cap rows ≡ ok w
      → Settled e d w
  unfolding reconcile release_pending
  reconcile-Settled d cap w h = elim (Bool-cases (is_blocked d.decision)) [
    | inl b ↦
        let reason = x.reason d.blocked_codes in
        let e1 = ok-injective (sym (if_true (is_blocked d.decision) _ _ b) ∙ h) in
        subst (Settled e d) e1 (
          released-consistent e.candidate.id e.as_of reason (some e.account.account_id) rows good,
          inl (
            is_blocked-eq d.decision b,
            none_is_left e.candidate.id e.as_of reason (some e.account.account_id) rows,
          ),
        )
    | inr b ↦
        let q = request_of e d cap in
        let (made, e1, f1) =
          bind-ok (create_reservation q x.reservation_id rows rows) _
            (sym (if_false (is_blocked d.decision) _ _ b) ∙ h) in
        let (w2, r, e2, c, v, place, others) =
          create_reservation_once q x.reservation_id rows
            (create-IsPositive q x.reservation_id rows rows e1) (inl (ap not named)) good
            fresh_id in
        subst (Settled e d) (sym (ap (λ p. p.0) (ok-injective (sym e1 ∙ e2))) ∙ ok-injective f1)
          (c, inr (b, (cap, r, v, place, others)))
  ]

  by_cache-Settled :
      (cached : Option RiskDecision) (fresh : Raises RiskDecision)
      (w : RiskDecision × List RiskReservationRecord)
      → by_cache x e cached fresh rows ≡ ok w
      → Settled e w.0 w.1
  by_cache-Settled (some c) fresh w h =
      let (made, e1, f1) = bind-ok (reconcile x e c (some c.expires_at) rows) _ h in
      subst (λ (p : RiskDecision × List RiskReservationRecord). Settled e p.0 p.1) (ok-injective f1)
        (reconcile-Settled c (some c.expires_at) made e1)
  by_cache-Settled none fresh w h =
      let (d, e1, f1) = bind-ok fresh _ h in
      let (made, e2, f2) = bind-ok (reconcile x e d none rows) _ f1 in
      subst (λ (p : RiskDecision × List RiskReservationRecord). Settled e p.0 p.1) (ok-injective f2)
        (reconcile-Settled d none made e2)

-- An evaluation that returns leaves the reservations in step with its decision, new or found by its
-- fingerprint: for a candidate whose id is not the empty text, from a table that keeps its
-- constraints and has no row of the id that is drawn. The table keeps its constraints. After BLOCKED
-- no active reservation of the candidate is left in the account. After any other decision there is
-- one reservation of that decision, active, with its account, candidate, profile, symbol,
-- direction, percentage, amount and size, and every other row has another decision and is not active
-- for the candidate in the account.
pub evaluation_settles :
    (x : Outside) (e : Evaluation) (t : Tables) (d : RiskDecision) (after : Tables)
    → str_eq e.candidate.id "" ≡ false
    → consistent t.reservations ≡ true
    → All (λ r. str_eq r.id x.reservation_id ≡ false) t.reservations
    → evaluate_candidate x e t ≡ ok (d, after)
    → (consistent after.reservations ≡ true)
      × (((d.decision ≡ blocked) × HasNone e after.reservations)
          ⊎ ((is_blocked d.decision ≡ false) × HasOne e d after.reservations))
unfolding evaluate_candidate
evaluation_settles x e t d after named good fresh_id h =
    let (early, _, f1) = bind-ok (preflight e) _ h in
    let (triggered, _, f2) =
      bind-ok
        (evaluate_automatic_triggers x.call e.account e.policy (quote_is_stale early) x.provider
          x.source (some early.safety_trigger_facts) t.safety)
        _ f1 in
    let (final, _, f3) =
      bind-ok (evaluate_final x e (quote_is_stale early) (record t { safety = triggered.1 })) _
        f2 in
    let id = x.decision_id final.0 final.1 in
    let (done, e4, f4) =
      bind-ok
        (by_cache x e (x.find_existing_decision id) (to_live_decision e x.profile_id id final.0)
          t.reservations)
        _ f3 in
    let same = ok-injective f4 in
    subst (λ (p : RiskDecision × Tables). Settled e p.0 p.1.reservations) same
      (by_cache-Settled x e t.reservations named good fresh_id (x.find_existing_decision id)
        (to_live_decision e x.profile_id id final.0) done e4)
