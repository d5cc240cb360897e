-- ===== src/Risk/Portfolio/Reservations/Positive.antt =====
-- A reservation that is made has positive amounts.
use aigold_trader.Base.{
  ◌≡◌, inl, inr, ◌∙◌, sym, String, true, ◌&&◌, Option, none, some, List, [], ◌∷◌, ◌++◌, arith,
  Bool-cases, if_true, if_false,
}
use aigold_trader.Decimal.{zero_dec, ◌<ᵈ◌}
use aigold_trader.Risk.Domain.{ok, bind-ok}
use aigold_trader.Risk.Portfolio.{RiskReservationRecord}
use aigold_trader.Risk.Portfolio.Reservations.{
  consistent, flush, Request, new_row, reuse, replace, find_row, update_row, of_decision,
  find_existing, contract, returning, release_conflicting, reuse_exact, replace_existing,
  insert_new, after_violation, by_existing, by_exact, create_reservation,
}
use aigold_trader.Risk.Portfolio.Reservations.Rows.{IsPositive}

contract-positive :
    (r : RiskReservationRecord) {r' : RiskReservationRecord}
    → contract r ≡ ok r'
    → (zero_dec <ᵈ r.risk_pct && zero_dec <ᵈ r.risk_amount && zero_dec <ᵈ r.position_size) ≡ true
unfolding contract
contract-positive r h = ground arith

returning-positive :
    (r : RiskReservationRecord) (rows : List RiskReservationRecord)
    {w : List RiskReservationRecord × RiskReservationRecord}
    → returning r rows ≡ ok w
    → (zero_dec <ᵈ r.risk_pct && zero_dec <ᵈ r.risk_amount && zero_dec <ᵈ r.position_size) ≡ true
returning-positive r rows h =
    let (written, _, f) = bind-ok (flush rows) _ h in
    let (r', g, _) = bind-ok (contract r) _ f in contract-positive r g

violation-IsPositive :
    (q : Request) (o : Option RiskReservationRecord) (met : List RiskReservationRecord)
    {w : List RiskReservationRecord × RiskReservationRecord}
    → after_violation q o met ≡ ok w
    → IsPositive q
unfolding replace_existing
violation-IsPositive q none met h = cc
violation-IsPositive q (some x) met h =
    returning-positive (replace q x) (update_row x.id (replace q) met) h

reused-IsPositive :
    (q : Request) (x : RiskReservationRecord) (rows : List RiskReservationRecord)
    {w : List RiskReservationRecord × RiskReservationRecord}
    → reuse_exact q x rows ≡ ok w
    → IsPositive q
unfolding reuse_exact
reused-IsPositive q x rows h =
    returning-positive (reuse q x) (update_row x.id (reuse q) (release_conflicting q x rows)) h

inserted-IsPositive :
    (q : Request) (id : String) (met : List RiskReservationRecord)
    {w : List RiskReservationRecord × RiskReservationRecord}
    → insert_new q id met ≡ ok w
    → IsPositive q
unfolding insert_new
inserted-IsPositive q id met h = elim (Bool-cases (consistent (met ++ new_row q id ∷ []))) [
  | inl e ↦
      let (r', g, _) =
        bind-ok (contract (new_row q id)) _
          (sym (if_true (consistent (met ++ new_row q id ∷ [])) _ _ e) ∙ h) in
      contract-positive (new_row q id) g
  | inr e ↦
      violation-IsPositive q (find_existing q met) met
        (sym (if_false (consistent (met ++ new_row q id ∷ [])) _ _ e) ∙ h)
]

-- A reservation that is made has positive amounts.
pub create-IsPositive :
    (q : Request) (id : String) (rows met : List RiskReservationRecord)
    {w : List RiskReservationRecord × RiskReservationRecord}
    → create_reservation q id rows met ≡ ok w
    → IsPositive q
unfolding create_reservation
create-IsPositive q id rows met {w} h = exact (find_row (of_decision q.decision_id) rows) h
  where
    existing :
        (o : Option RiskReservationRecord) → by_existing q id o rows met ≡ ok w → IsPositive q
    existing none f = inserted-IsPositive q id met f
    existing (some x) f = violation-IsPositive q (some x) rows f

    exact : (o : Option RiskReservationRecord) → by_exact q id o rows met ≡ ok w → IsPositive q
    exact none f = existing (find_existing q rows) f
    exact (some x) f = reused-IsPositive q x rows f
