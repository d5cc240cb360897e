-- ===== src/Risk/Examples/Evaluations.antt =====
-- Evaluations of risk/policy_core.py at concrete inputs.
use aigold_trader.Base.{◌≡◌, ◌≢◌, ◌⊎◌, refl, true, false, none, some, List, [], ◌∷◌, pos}
use aigold_trader.Decimal.{
  dec, of_int, zero_dec, ◌+ᵈ◌, ◌-ᵈ◌, ◌*ᵈ◌, ◌<ᵈ◌, ◌≤ᵈ◌, eq_dec, min_dec, abs_dec, div_dec, quantize,
  to_int,
}
use aigold_trader.Risk.Domain.{
  ok, reduced, blocked, long, policy_fields, validate_policy, valid_policy, valid_spec,
  valid_account, validate_equity,
}
use aigold_trader.Risk.Sizing.{
  input_error, loss_per_lot_of, quantized_volume, size_checked, size_volume, size_at, sized,
  calculate_position_size,
}
use aigold_trader.Risk.Cooldown.{is_pure_cooldown_active}
use aigold_trader.Risk.Capacity.{
  PureRiskCode, approved_reduced, position_sized, portfolio_reduction, kill_switch_active,
  kill_switch_unknown, risk_amount, capacity_refusal, approved_pct, grant, portfolio_capacity,
}
use aigold_trader.Risk.News.{available, scan, news_evaluation}
use aigold_trader.Risk.PolicyCore.Inputs.{
  switch_active, switch_inactive, healthy, ready, PureRiskEvaluationInput, valid_quote,
  valid_exposure, validate_semantic_links, valid_input, canonical,
}
use aigold_trader.Risk.PolicyCore.Gates.{
  available_safe, quote_safety, loss_breach, drawdown_breach, breaches, gate, gate_code,
  later_gates, blocking_codes,
}
use aigold_trader.Risk.PolicyCore.Evaluate.{
  PureRiskResult, normalized_requested, prepare, with_sizing, with_capacity, decide,
  evaluate_prepared, evaluate_pure_risk,
}
use aigold_trader.Risk.PolicyCore.Decisions.{evaluation_outcome, kill_switch_blocks}
use aigold_trader.Risk.PolicyCore.Outcomes.{IsRefused, IsGranted}
use aigold_trader.Risk.Examples.{policy, gold, account, plan, quote, portfolio, requested}

abbrev input : PureRiskEvaluationInput
input = record {
  as_of = 1001000000;
  candidate = record { id = "c1"; symbol = "XAUUSD"; direction = some long };
  trade_plan = plan;
  account = account;
  policy = policy;
  symbol_specification = gold;
  quote = some quote;
  news = available [];
  kill_switch = switch_inactive;
  data_health = healthy;
  candidate_lifecycle_status = ready;
  caller_requested_risk_pct = none;
  portfolio = portfolio;
}

abbrev result : PureRiskResult
result = record {
  decision = reduced;
  caller_requested_risk_pct = none;
  normalized_requested_risk_pct = requested;
  target_risk_pct = requested;
  approved_risk_pct = dec (pos 5000) 4;
  normalized_requested_risk_amount = dec (pos 10000) 2;
  target_risk_amount = dec (pos 10000) 2;
  approved_risk_amount = dec (pos 5000) 2;
  position_size = dec (pos 4) 2;
  stop_distance = of_int (pos 11);
  loss_per_lot = record { coefficient = pos 11; exponent = 1000028 };
  portfolio_exposure_before = dec (pos 50) 2;
  portfolio_exposure_after = dec (pos 10000) 4;
  reason_codes = approved_reduced ∷ position_sized ∷ [];
  warning_codes = portfolio_reduction ∷ [];
  blocked_codes = [];
  safety_trigger_facts = record {
    breached = record {
      daily_loss_breach = false;
      weekly_loss_breach = false;
      max_drawdown_breach = false;
    };
    quote_safety_state = available_safe;
    data_health_state = healthy;
  };
}

evaluation_runs : evaluate_pure_risk input ≡ ok result
unfolding dec of_int zero_dec ◌+ᵈ◌ ◌-ᵈ◌ ◌*ᵈ◌ ◌<ᵈ◌ ◌≤ᵈ◌ eq_dec min_dec abs_dec div_dec quantize
    to_int policy_fields validate_policy valid_policy valid_spec valid_account validate_equity
    is_pure_cooldown_active risk_amount capacity_refusal approved_pct grant portfolio_capacity
    input_error loss_per_lot_of quantized_volume size_checked size_volume size_at sized
    calculate_position_size scan news_evaluation valid_quote valid_exposure validate_semantic_links
    valid_input quote_safety loss_breach drawdown_breach breaches gate gate_code later_gates
    blocking_codes normalized_requested prepare with_sizing with_capacity decide evaluate_prepared
    evaluate_pure_risk
evaluation_runs = refl

evaluation_outcome_example :
    (valid_input input ≡ true)
    × (IsRefused (canonical input) result
        ⊎ ((result.decision ≢ blocked) × IsGranted (canonical input) result))
evaluation_outcome_example = evaluation_outcome input result evaluation_runs

-- The same request under an active kill switch.
abbrev stopped : PureRiskEvaluationInput
stopped = record input { kill_switch = switch_active }

abbrev stopped_result : PureRiskResult
stopped_result = record result {
  decision = blocked;
  approved_risk_pct = zero_dec;
  approved_risk_amount = zero_dec;
  position_size = zero_dec;
  loss_per_lot = zero_dec;
  portfolio_exposure_before = zero_dec;
  portfolio_exposure_after = zero_dec;
  reason_codes = [];
  warning_codes = [];
  blocked_codes = kill_switch_active ∷ [];
}

stopped_runs : evaluate_pure_risk stopped ≡ ok stopped_result
unfolding dec of_int zero_dec ◌+ᵈ◌ ◌-ᵈ◌ ◌*ᵈ◌ ◌<ᵈ◌ ◌≤ᵈ◌ eq_dec min_dec abs_dec div_dec quantize
    to_int policy_fields validate_policy valid_policy valid_spec valid_account validate_equity
    is_pure_cooldown_active risk_amount capacity_refusal approved_pct grant portfolio_capacity
    input_error loss_per_lot_of quantized_volume size_checked size_volume size_at sized
    calculate_position_size scan news_evaluation valid_quote valid_exposure validate_semantic_links
    valid_input quote_safety loss_breach drawdown_breach breaches gate gate_code later_gates
    blocking_codes normalized_requested prepare with_sizing with_capacity decide evaluate_prepared
    evaluate_pure_risk
stopped_runs = refl

is_on : stopped.kill_switch ≢ switch_inactive
is_on h = cc

kill_switch_blocks_example :
    (stopped_result.decision ≡ blocked)
    × ((c : PureRiskCode) × (cs : List PureRiskCode) × (stopped_result.blocked_codes ≡ c ∷ cs)
        × ((c ≡ kill_switch_active) ⊎ (c ≡ kill_switch_unknown)))
kill_switch_blocks_example = kill_switch_blocks stopped stopped_result is_on stopped_runs
