-- ===== src/Risk/Examples/Live.antt =====
-- An evaluation of risk/engine.py at concrete tables.
mod Stored
use text.Mathlib.Text.{◌==◌ as str_eq}
use aigold_trader.Base.{
  length, inl, get_elem?, Bool, All, sum_of, ◌≤◌, ◌<◌, arith, ℕ, ◌≡◌, ◌⊎◌, refl, true, false, none,
  some, List, pos,
}
use aigold_trader.Decimal.{
  max_dec, origin, sum_dec, dec, of_int, zero_dec, ◌+ᵈ◌, ◌-ᵈ◌, ◌*ᵈ◌, ◌<ᵈ◌, ◌≤ᵈ◌, eq_dec, min_dec,
  abs_dec, div_dec, quantize, to_int,
}
use aigold_trader.Risk.Domain.{
  ok, blocked, long, policy_fields, validate_policy, valid_policy, valid_spec, valid_account,
  validate_equity,
}
use aigold_trader.Risk.Sizing.{
  input_error, loss_per_lot_of, quantized_volume, size_checked, size_volume, size_at, sized,
  calculate_position_size,
}
use aigold_trader.Risk.Cooldown.{is_pure_cooldown_active}
use aigold_trader.Risk.Capacity.{
  risk_amount, capacity_refusal, approved_pct, grant, portfolio_capacity,
}
use aigold_trader.Risk.News.{scan, news_evaluation}
use aigold_trader.Risk.KillSwitch
use aigold_trader.Risk.KillSwitch.{latest, get_state}
use aigold_trader.Risk.KillSwitch.Triggers
use aigold_trader.Risk.KillSwitch.Triggers.{
  evaluate_automatic_triggers, or_trigger, health_trigger, data_health, ensure_row,
  get_data_health_failures,
}
use aigold_trader.Risk.PolicyCore.Inputs.{
  valid_quote, valid_exposure, validate_semantic_links, valid_input, canonical,
}
use aigold_trader.Risk.PolicyCore.Gates.{
  quote_safety, loss_breach, drawdown_breach, breaches, gate, gate_code, later_gates,
  blocking_codes,
}
use aigold_trader.Risk.PolicyCore.Evaluate.{
  PureRiskResult, normalized_requested, prepare, with_sizing, with_capacity, decide,
  evaluate_prepared, evaluate_pure_risk,
}
use aigold_trader.Risk.PolicyCore.Outcomes.{IsGranted}
use aigold_trader.Risk.Portfolio.Summary.{
  PortfolioRiskSummary, get_summary, risk_by, add_to, loss_pct, percent_of, drawdown, valid_summary,
}
use aigold_trader.Analysis.Returns.{Returns}
use aigold_trader.Risk.Portfolio.{
  is_cooldown_active, check_budget_capacity, RiskReservationRecord, risk_sum,
  get_active_reservations, has_duplicate,
}
use aigold_trader.Risk.Portfolio.Reservations.{
  Request, clashes, create_reservation, insert_new, find_existing, find_row, contract, consistent,
}
use aigold_trader.Risk.LiveAdapter.{
  baseline_portfolio_snapshot, portfolio_snapshot_from_live, exposure_of, effective_rows,
  build_live_pure_input,
}
use aigold_trader.Risk.Engine.{
  request_of, is_blocked, evaluate_candidate, preflight, evaluate_final, reconcile, valid_decision,
  to_live_decision,
}
use aigold_trader.Risk.Engine.OneToOne.{HasNone, HasOne, evaluation_settles}
use aigold_trader.Risk.Engine.WithinLimit.{within_account_limit}
use aigold_trader.Risk.Engine.WithinLimit.Exact.{IsStored, four_places}
use aigold_trader.Decimal.Sums.{worth, bound, IsFine}
use aigold_trader.Decimal.Sums.Literals.{dec-IsNonNegative, dec-bound}
use aigold_trader.Risk.Portfolio.Reservations.Shares.{share}
use aigold_trader.Risk.Portfolio.Budget.{budget_refines}
use aigold_trader.Risk.Portfolio.Budget.Shape.{as_check}
use aigold_trader.Risk.Portfolio.Reservations.Rows.{IsPositive, IsReservationOf}
use aigold_trader.Risk.Portfolio.Reservations.Once.{create_reservation_once}
use aigold_trader.Risk.Engine.Grant.{IsIssued, final_input, approval-IsGranted}
use aigold_trader.Risk.Examples.{policy, account}
use aigold_trader.Risk.Examples.Live.Stored.{evaluation, outside, tables, decision, after}

keeps_constraints : consistent tables.reservations ≡ true
unfolding consistent
keeps_constraints = refl

new_id : All (λ r. str_eq r.id "res_2" ≡ false) tables.reservations
new_id = (refl, tt)

live_runs : evaluate_candidate outside evaluation tables ≡ ok (decision, after)
unfolding dec of_int zero_dec ◌+ᵈ◌ ◌-ᵈ◌ ◌*ᵈ◌ ◌<ᵈ◌ ◌≤ᵈ◌ eq_dec min_dec abs_dec div_dec quantize
    to_int policy_fields validate_policy valid_policy valid_spec valid_account validate_equity
    is_pure_cooldown_active risk_amount capacity_refusal approved_pct grant portfolio_capacity
    input_error loss_per_lot_of quantized_volume size_checked size_volume size_at sized
    calculate_position_size scan news_evaluation valid_quote valid_exposure validate_semantic_links
    valid_input quote_safety loss_breach drawdown_breach breaches gate gate_code later_gates
    blocking_codes normalized_requested prepare with_sizing with_capacity decide evaluate_prepared
    evaluate_pure_risk sum_dec risk_sum evaluate_candidate preflight evaluate_final reconcile
    valid_decision to_live_decision baseline_portfolio_snapshot portfolio_snapshot_from_live
    exposure_of effective_rows build_live_pure_input get_active_reservations has_duplicate
    create_reservation insert_new find_existing find_row contract consistent latest get_state
    evaluate_automatic_triggers or_trigger health_trigger data_health ensure_row Triggers.update_row
    Triggers.find_row Triggers.trigger get_data_health_failures
live_runs = refl

evaluation_settles_example :
    (consistent after.reservations ≡ true)
    × (((decision.decision ≡ blocked) × HasNone evaluation after.reservations)
        ⊎ ((is_blocked decision.decision ≡ false) × HasOne evaluation decision after.reservations))
evaluation_settles_example =
    evaluation_settles outside evaluation tables decision after refl keeps_constraints new_id
      live_runs

approval-IsGranted_example :
    ((get_state outside.call.default_version outside.call.now
        after.safety.kill_switch_records).state
      ≡ KillSwitch.inactive)
    × ((stale : Bool) × (n : ℕ) × (r : PureRiskResult) × (evaluate_pure_risk
            (final_input outside evaluation stale tables after n)
          ≡ ok r)
        × (valid_input (final_input outside evaluation stale tables after n) ≡ true)
        × (decision.decision ≡ r.decision)
        × IsIssued evaluation decision r
        × IsGranted (canonical (final_input outside evaluation stale tables after n)) r)
approval-IsGranted_example =
    approval-IsGranted outside evaluation tables decision after (λ id. refl) live_runs refl

stored : All (λ r. IsStored r.risk_pct) tables.reservations
unfolding dec origin
stored = ((omega arith, dec-IsNonNegative 5000 4), tt)

open-IsFine : IsFine four_places zero_dec
unfolding zero_dec of_int dec origin
open-IsFine = omega arith

limit-IsStored : IsStored policy.max_account_risk_pct
unfolding dec origin
limit-IsStored = (omega arith, dec-IsNonNegative 300 2)

limit_small : worth policy.max_account_risk_pct < bound four_places
limit_small = dec-bound 300 2 (omega arith) (omega arith)

table_small : sum_of (λ r. worth r.risk_pct) tables.reservations < bound four_places
table_small = omega (arith, dec-bound 5000 4 (omega arith) (omega arith))

-- Five minutes later the first reservation has ended.
within_account_limit_example :
    sum_of (share account.account_id 1300000000) after.reservations
    ≤ worth policy.max_account_risk_pct
within_account_limit_example =
    within_account_limit outside evaluation tables decision after 1300000000 (λ id. refl) refl
      keeps_constraints stored open-IsFine limit-IsStored limit_small table_small live_runs refl
      (omega arith)

not_cooling : (is_cooldown_active account policy 1001000000).0 ≡ false
unfolding is_cooldown_active
not_cooling = refl

budget_refines_example :
    check_budget_capacity tables.reservations account policy "XAUUSD" long
      (dec (pos 100) 2)
      1001000000
      none
    ≡ as_check (
        portfolio_capacity
          (exposure_of
            (get_active_reservations tables.reservations account.account_id 1001000000 none)
            account
            "XAUUSD"
            long
            0)
          policy
          account
          (dec (pos 100) 2)
          1001000000)
budget_refines_example =
    budget_refines tables.reservations account policy "XAUUSD" long (dec (pos 100) 2) 1001000000 0
      none refl not_cooling

-- The decision of the first row is taken up for the other candidate.
abbrev moved : Request
moved = record (request_of evaluation decision none) { decision_id = "dec_1" }

amounts : IsPositive moved
unfolding dec zero_dec of_int ◌<ᵈ◌
amounts = refl

after_consistent : consistent after.reservations ≡ true
unfolding consistent
after_consistent = refl

new_ids : All (λ r. str_eq r.id "res_3" ≡ false) after.reservations
new_ids = (refl, (refl, tt))

create_reservation_once_example :
    (written : List RiskReservationRecord) × (r : RiskReservationRecord) × (create_reservation moved
        "res_3" after.reservations after.reservations
      ≡ ok (written, r))
    × (consistent written ≡ true)
    × IsReservationOf moved r
    × ((i : ℕ) × (get_elem? written i ≡ some r))
    × All (λ s. (s ≡ r) ⊎ (clashes r s ≡ false)) written
create_reservation_once_example =
    create_reservation_once moved "res_3" after.reservations amounts (inl refl) after_consistent
      new_ids

-- Two active reservations of the account, of both directions together.
summary_counts :
    Returns
      (λ (s : PortfolioRiskSummary).
        (s.active_reservations_count ≡ 2) × (length s.symbol_risk_pct ≡ 1))
      (get_summary after.reservations account policy 1001000000)
unfolding get_summary risk_by add_to loss_pct percent_of drawdown valid_summary
    get_active_reservations risk_sum sum_dec is_cooldown_active max_dec ◌+ᵈ◌ ◌-ᵈ◌ ◌*ᵈ◌ ◌<ᵈ◌ ◌≤ᵈ◌
    abs_dec div_dec quantize dec of_int zero_dec
summary_counts = (refl, refl)
