-- ===== src/Risk/Engine/WithinLimit.antt =====
-- The limit of the account under the approvals of risk/engine.py.
pub mod Exact
use text.Mathlib.Text.{◌==◌ as str_eq}
use aigold_trader.Base.{
  ℕ, ◌+◌, ◌-◌, ◌≤◌, ◌<◌, ◌≡◌, ◌∙◌, inl, inr, sym, ap, String, true, false, not, none, List, map,
  All, if_false, arith, sum_of, parts_disjoint, pos_part, neg_part,
}
use aigold_trader.Decimal.{Decimal, zero_dec, ◌<ᵈ◌, ◌≤ᵈ◌, min_dec}
use aigold_trader.Decimal.Order.{rank, rank-zero_dec, lt→rank, lt_false→rank, le→rank}
use aigold_trader.Decimal.Sums.{worth, IsFine, IsNonNegative, bound}
use aigold_trader.Decimal.Rounding.{quantize-le}
use aigold_trader.Risk.Domain.{ok, bind-ok, ok-injective}
use aigold_trader.Risk.Capacity.{available_account, bottleneck, target_risk}
use aigold_trader.Risk.PolicyCore.Inputs.{PureRiskEvaluationInput, valid_input, valid_exposure}
use aigold_trader.Risk.PolicyCore.Decisions.{evaluation_outcome}
use aigold_trader.Risk.Portfolio.{RiskReservationRecord, get_active_reservations, risk_sum}
use aigold_trader.Risk.Portfolio.Reservations.{consistent, create_reservation}
use aigold_trader.Risk.Portfolio.Reservations.Table.{consistent→Consistent}
use aigold_trader.Risk.Portfolio.Reservations.Positive.{create-IsPositive}
use aigold_trader.Risk.Portfolio.Reservations.Worth.{created-Limited}
use aigold_trader.Risk.Portfolio.Reservations.Shares.{share}
use aigold_trader.Risk.LiveAdapter.{Evaluation, build_live_pure_input, exposure_of, effective_rows}
use aigold_trader.Risk.Engine.{
  Tables, RiskDecision, Outside, is_blocked, request_of, reconcile, evaluate_candidate,
}
use aigold_trader.Risk.Engine.Grant.{not_blocked, final_input, fresh_IsFinal}
use aigold_trader.Risk.Engine.Limit.{others-effective}
use aigold_trader.Risk.Engine.WithinLimit.Exact.{
  four_places, IsStored, least-le, fits_within, reserved-le, reserved_exact, first_of_three,
}

-- The finest unit of a percentage: four decimal places.
no_open_risk :
    (open_risk : Decimal)
    → (zero_dec ≤ᵈ open_risk) ≡ true
    → (zero_dec <ᵈ open_risk) ≡ false
    → IsNonNegative open_risk × (worth open_risk ≡ 0)
no_open_risk d low high =
    let a = le→rank zero_dec d low in
    let b = lt_false→rank zero_dec d high in
    let z = rank-zero_dec in
    let zp : pos_part (rank zero_dec) ≡ 0 = ap pos_part z in
    let zn : neg_part (rank zero_dec) ≡ 0 = ap neg_part z in
    elim (parts_disjoint (rank d)) [
      | inl e ↦ (omega (arith, a, b, zp, zn, e), e)
      | inr e ↦ (e, omega (arith, a, b, zp, zn, e))
    ]

positive_worth : (d : Decimal) → (zero_dec <ᵈ d) ≡ true → 0 < worth d
positive_worth d h =
    let a = lt→rank zero_dec d h in
    let zp : pos_part (rank zero_dec) ≡ 0 = ap pos_part rank-zero_dec in
    let zn : neg_part (rank zero_dec) ≡ 0 = ap neg_part rank-zero_dec in omega (arith, a, zp, zn)

-- What a creation by the engine leaves to the account, within what its effective rows come to.
created_within :
    (x : Outside) (e : Evaluation) (d : RiskDecision) (rows written : List RiskReservationRecord)
    (now : ℕ)
    → str_eq e.candidate.id "" ≡ false
    → consistent rows ≡ true
    → is_blocked d.decision ≡ false
    → reconcile x e d none rows ≡ ok written
    → e.as_of ≤ now
    → (0 < worth d.approved_risk_pct)
      × (sum_of (share e.account.account_id now) written
          ≤ sum_of worth (
              map
                (λ r. r.risk_pct)
                (effective_rows e.candidate.id
                  (get_active_reservations rows e.account.account_id e.as_of none)))
            + worth d.approved_risk_pct)
unfolding reconcile
created_within x e d rows written now named good open_ h late =
    let q = request_of e d none in
    let c = consistent→Consistent rows good in
    let (made, e1, f1) =
      bind-ok (create_reservation q x.reservation_id rows rows) _
        (sym (if_false (is_blocked d.decision) _ _ open_) ∙ h) in
    let positive = first_of_three _ _ _ (create-IsPositive q x.reservation_id rows rows e1) in
    let grown = created-Limited q now rows c (ap not named) x.reservation_id made e1 in
    let same = ap (sum_of (share e.account.account_id now)) (ok-injective f1) in
    (
      positive_worth d.approved_risk_pct positive,
      omega (arith, grown, same, others-effective e d rows c now late),
    )

valid_open :
    (i : PureRiskEvaluationInput)
    → valid_input i ≡ true
    → (zero_dec ≤ᵈ i.portfolio.open_risk_pct) ≡ true
unfolding valid_input valid_exposure
valid_open i h = ground arith

-- The limit of the account holds for its reservations after every new approval, then and at every
-- later time: the exact sum of the percentages of its active reservations is at most the limit of
-- the policy. The candidate has an id that is not the empty text, the table keeps its constraints
-- and its percentages are not negative; these, the open risk and the limit have at most four
-- decimal places, and the limit and the sum of all percentages of the table fit in 28 digits. The
-- decision was not found by its fingerprint.
pub within_account_limit :
    (x : Outside) (e : Evaluation) (t : Tables) (d : RiskDecision) (after : Tables) (now : ℕ)
    → ((id : String) → x.find_existing_decision id ≡ none)
    → str_eq e.candidate.id "" ≡ false
    → consistent t.reservations ≡ true
    → All (λ r. IsStored r.risk_pct) t.reservations
    → IsFine four_places e.account.open_risk_pct
    → IsStored e.policy.max_account_risk_pct
    → worth e.policy.max_account_risk_pct < bound four_places
    → sum_of (λ r. worth r.risk_pct) t.reservations < bound four_places
    → evaluate_candidate x e t ≡ ok (d, after)
    → is_blocked d.decision ≡ false
    → e.as_of ≤ now
    → sum_of (share e.account.account_id now) after.reservations
      ≤ worth e.policy.max_account_risk_pct
unfolding exposure_of build_live_pure_input
within_account_limit x e t d after now new named good stored open_fine (limit_fine, limit_positive)
      limit_small small h open_ late =
    let (stale, n, r, (e1, same, issued, rec)) = fresh_IsFinal x e t d after new h in
    let i = final_input x e stale t after n in
    let (valid, outcome) = evaluation_outcome i r e1 in
    elim outcome [
      | inl refused ↦ absurd (not_blocked d.decision r.decision open_ same refused.decision)
      | inr (_, g) ↦
          let account = e.account.account_id in
          let kept =
            effective_rows e.candidate.id
              (get_active_reservations t.reservations account e.as_of none) in
          let most = e.policy.max_account_risk_pct in
          let open_risk = e.account.open_risk_pct in
          let (fr, nr, wr) =
            reserved_exact e.candidate.id t.reservations account e.as_of stored small in
          let (no_, wo) = no_open_risk open_risk (valid_open i valid) g.capacity.no_open_risk in
          let (positive, grown) =
            created_within x e d t.reservations after.reservations now named good open_ rec late in
          let taken : worth d.approved_risk_pct ≡ worth r.approved_risk_pct =
            ap worth ((issued open_).granted_pct) in
          let least =
            min_dec (target_risk e.policy r.target_risk_pct) (bottleneck i.portfolio e.policy) in
          let fit =
            fits_within most open_risk (risk_sum kept) r.approved_risk_pct four_places limit_fine
              limit_positive open_fine no_ fr nr limit_small
              (omega (
                arith,
                wo,
                wr,
                small,
                reserved-le e.candidate.id t.reservations account e.as_of stored small,
              ))
              (omega (arith, positive, taken))
              (λ fine.
                quantize-le 4 least (available_account i.portfolio e.policy) r.approved_risk_pct
                  fine (least-le i.portfolio e.policy r.target_risk_pct) g.pct) in
          omega (arith, fit, grown, taken, wr, wo)
    ]
