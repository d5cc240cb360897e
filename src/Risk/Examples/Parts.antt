-- ===== src/Risk/Examples/Parts.antt =====
-- Capacity, sizing, cooldown and news of the risk subsystem at concrete inputs.
use aigold_trader.Base.{◌≤◌, ◌+◌, arith, ◌≡◌, ◌⊎◌, ◌↔◌, refl, true, false, none, some, pos}
use aigold_trader.Decimal.{
  origin, dec, of_int, zero_dec, ◌+ᵈ◌, ◌-ᵈ◌, ◌*ᵈ◌, ◌<ᵈ◌, ◌≤ᵈ◌, min_dec, div_dec, quantize, to_int,
}
use aigold_trader.Risk.Domain.{ok, long, RiskPolicy, AccountSnapshot, minutes}
use aigold_trader.Risk.Sizing.{
  SizingResult, refused, budget_not_positive, input_error, stop_error, worst_distance,
  loss_per_lot_of, quantized_volume, size_checked, size_volume, size_at, sized,
  calculate_position_size,
}
use aigold_trader.Risk.Sizing.Bounds.{IsPriced, valid_size}
use aigold_trader.Risk.Cooldown.{is_pure_cooldown_active, IsCoolingDown, cooldown_exact}
use aigold_trader.Risk.Capacity.{
  PureRiskCode, PortfolioExposureSnapshot, CapacityResult, portfolio_reduction, risk_amount,
  bottleneck, available_account, available_symbol, available_direction, target_risk,
  capacity_refusal, approved_pct, grant, portfolio_capacity,
}
use aigold_trader.Risk.Capacity.Within.{approved_within}
use aigold_trader.Risk.Capacity.Limits.{HasCapacity, capacity_outcome}
use aigold_trader.Risk.News.{NewsEvent}
use aigold_trader.Risk.PolicyCore.Evaluate.{levels_of}
use aigold_trader.Risk.Examples.{policy, gold, account, plan, portfolio, requested}

-- The symbol has half a percent left.
abbrev capacity : CapacityResult
capacity = record {
  allowed = true;
  approved_risk_pct = dec (pos 5000) 4;
  approved_risk_amount = dec (pos 5000) 2;
  exposure_before = dec (pos 50) 2;
  exposure_after = dec (pos 10000) 4;
  code = some portfolio_reduction;
  is_reduced = true;
}

-- 4 lots of a hundredth at a loss of 1100 for each lot.
abbrev size : SizingResult
size = record {
  is_valid = true;
  position_size = dec (pos 4) 2;
  actual_risk_amount = dec (pos 4400) 2;
  actual_risk_pct = dec (pos 4400) 4;
  stop_distance = of_int (pos 11);
  loss_per_lot = record { coefficient = pos 11; exponent = 1000028 };
  error = none;
}

capacity_runs : portfolio_capacity portfolio policy account requested 1001000000 ≡ ok capacity
unfolding dec of_int zero_dec ◌+ᵈ◌ ◌-ᵈ◌ ◌*ᵈ◌ ◌<ᵈ◌ ◌≤ᵈ◌ min_dec div_dec quantize
    is_pure_cooldown_active risk_amount capacity_refusal approved_pct grant portfolio_capacity
capacity_runs = refl

sizing_runs :
    calculate_position_size (levels_of plan) (dec (pos 5000) 2) (of_int (pos 10000)) gold ≡ ok size
unfolding dec of_int zero_dec ◌+ᵈ◌ ◌-ᵈ◌ ◌*ᵈ◌ ◌<ᵈ◌ ◌≤ᵈ◌ div_dec quantize to_int input_error
    loss_per_lot_of quantized_volume size_checked size_volume size_at sized calculate_position_size
sizing_runs = refl

capacity_outcome_example :
    ((capacity.allowed ≡ false)
      × (capacity.approved_risk_pct ≡ zero_dec)
      × (capacity.approved_risk_amount ≡ zero_dec)
      × (capacity.exposure_before ≡ portfolio.open_risk_pct +ᵈ portfolio.reserved_risk_pct)
      × (capacity.exposure_after ≡ portfolio.open_risk_pct +ᵈ portfolio.reserved_risk_pct)
      × ((c : PureRiskCode) × (capacity_refusal portfolio policy account 1001000000 ≡ some c)
          × (capacity.code ≡ some c)))
    ⊎ ((capacity.allowed ≡ true)
        × HasCapacity portfolio policy account 1001000000
        × (quantize 4 (min_dec (target_risk policy requested) (bottleneck portfolio policy))
            ≡ some capacity.approved_risk_pct)
        × (risk_amount capacity.approved_risk_pct account.equity ≡ ok capacity.approved_risk_amount)
        × (capacity.exposure_before ≡ portfolio.open_risk_pct +ᵈ portfolio.reserved_risk_pct)
        × (capacity.exposure_after
            ≡ (portfolio.open_risk_pct +ᵈ portfolio.reserved_risk_pct)
              +ᵈ capacity.approved_risk_pct))
capacity_outcome_example =
    capacity_outcome portfolio policy account 1001000000 requested capacity capacity_runs

gold_ordered : (gold.volume_min ≤ᵈ gold.volume_max) ≡ true
unfolding dec of_int ◌≤ᵈ◌
gold_ordered = refl

valid_size_example :
    ((gold.volume_min ≤ᵈ size.position_size) ≡ true)
    × ((size.position_size ≤ᵈ gold.volume_max) ≡ true)
    × ((size.actual_risk_amount ≤ᵈ dec (pos 5000) 2 +ᵈ dec (pos 1) 4) ≡ true)
    × (size.stop_distance ≡ worst_distance long (levels_of plan))
    × ((zero_dec <ᵈ size.stop_distance) ≡ true)
    × ((zero_dec <ᵈ size.loss_per_lot) ≡ true)
    × (size.error ≡ none)
    × ((zero_dec <ᵈ of_int (pos 10000)) ≡ true)
    × ((zero_dec <ᵈ dec (pos 5000) 2) ≡ true)
    × ((plan.entry_lower ≤ᵈ plan.entry_upper) ≡ true)
    × (stop_error long (levels_of plan) ≡ none)
    × IsPriced (dec (pos 5000) 2) (of_int (pos 10000)) gold size
valid_size_example =
    valid_size (levels_of plan) (dec (pos 5000) 2) (of_int (pos 10000)) gold size gold_ordered
      sizing_runs refl

abbrev no_size : SizingResult
no_size = refused budget_not_positive zero_dec zero_dec

refusal_runs :
    calculate_position_size (levels_of plan) zero_dec (of_int (pos 10000)) gold ≡ ok no_size
unfolding dec of_int zero_dec ◌≤ᵈ◌ input_error calculate_position_size
refusal_runs = refl

-- Three losses, the last of them ten minutes ago.
abbrev losing : AccountSnapshot
losing = record account { consecutive_losses = 3; last_loss_at = some (minutes 50) }

cooldown_exact_example :
    ((is_pure_cooldown_active losing policy (minutes 60)).0 ≡ true)
    ↔ IsCoolingDown losing policy (minutes 60)
cooldown_exact_example = cooldown_exact losing policy (minutes 60)

losing_rests : is_pure_cooldown_active losing policy (minutes 60) ≡ (true, some (minutes 110))
unfolding is_pure_cooldown_active
losing_rests = refl

abbrev release : NewsEvent
release = record {
  event_id = "nfp";
  impact = "HIGH";
  scheduled_at = minutes 70;
  available_at = none;
}

four_places :
    origin ≤ (min_dec (target_risk policy requested) (bottleneck portfolio policy)).exponent + 4
unfolding origin dec of_int zero_dec ◌+ᵈ◌ ◌-ᵈ◌ ◌<ᵈ◌ min_dec
four_places = omega arith

approved_within_example :
    ((capacity.approved_risk_pct ≤ᵈ requested) ≡ true)
    × ((capacity.approved_risk_pct ≤ᵈ policy.max_risk_per_trade_pct) ≡ true)
    × ((capacity.approved_risk_pct ≤ᵈ available_account portfolio policy) ≡ true)
    × ((capacity.approved_risk_pct ≤ᵈ available_symbol portfolio policy) ≡ true)
    × ((capacity.approved_risk_pct ≤ᵈ available_direction portfolio policy) ≡ true)
approved_within_example =
    approved_within portfolio policy account requested 1001000000 capacity four_places capacity_runs
      refl

-- With five places a limit is rounded up: 0.99996 percent for each trade approves 1.0000 percent.
abbrev fine_policy : RiskPolicy
fine_policy = record policy { max_risk_per_trade_pct = dec (pos 99996) 5 }

abbrev idle : PortfolioExposureSnapshot
idle = record portfolio {
  reserved_risk_pct = zero_dec;
  symbol_risk_pct = zero_dec;
  directional_risk_pct = zero_dec;
  active_reservation_count = 0;
}

rounded_up :
    portfolio_capacity idle fine_policy account (dec (pos 99996) 5) 1001000000
    ≡ ok (record capacity {
      approved_risk_pct = dec (pos 10000) 4;
      approved_risk_amount = dec (pos 10000) 2;
      exposure_before = zero_dec;
      exposure_after = dec (pos 10000) 4;
      code = none;
      is_reduced = false;
    })
unfolding dec of_int zero_dec ◌+ᵈ◌ ◌-ᵈ◌ ◌*ᵈ◌ ◌<ᵈ◌ ◌≤ᵈ◌ min_dec div_dec quantize
    is_pure_cooldown_active risk_amount capacity_refusal approved_pct grant portfolio_capacity
rounded_up = refl
