-- ===== src/Risk/PolicyCore/Evaluate.antt =====
-- `evaluate_pure_risk` and `_evaluate_prepared_pure_risk` of risk/policy_core.py.
use aigold_trader.Base.{
  Bool, true, false, ◌&&◌, ◌||◌, Option, none, some, List, [], ◌∷◌, ◌++◌, if◌then◌else◌,
}
use aigold_trader.Decimal.{Decimal, zero_dec, ◌-ᵈ◌, abs_dec, eq_dec}
use aigold_trader.Risk.Domain.{
  Raises, ok, raised, validation_error, ◌>>=◌, Direction, long, short, Decision, approved, reduced,
  blocked,
}
use aigold_trader.Risk.Sizing.{SizingResult, Levels, calculate_position_size}
use aigold_trader.Risk.Capacity.{
  PureRiskCode, approved_reduced, position_sized, position_sizing_failed, CapacityResult,
  portfolio_capacity, risk_amount,
}
use aigold_trader.Risk.News.{NewsResult, NewsScan, news_evaluation, spread_unstable}
use aigold_trader.Risk.PolicyCore.Inputs.{
  DataHealthInputState, TradePlan, PureRiskEvaluationInput, valid_input, canonical,
}
use aigold_trader.Risk.PolicyCore.Gates.{
  MarketSafetyState, available_safe, post_news_spread_blocked, quote_safety, Breaches, breaches,
  gate_code, blocking_codes,
}

pub record SafetyTriggerFacts : Type 0 where
  pub breached : Breaches
  pub quote_safety_state : MarketSafetyState
  pub data_health_state : DataHealthInputState

pub record PureRiskResult : Type 0 where
  pub decision : Decision
  pub caller_requested_risk_pct : Option Decimal
  pub normalized_requested_risk_pct : Decimal
  pub target_risk_pct : Decimal
  pub approved_risk_pct : Decimal
  pub normalized_requested_risk_amount : Decimal
  pub target_risk_amount : Decimal
  pub approved_risk_amount : Decimal
  pub position_size : Decimal
  pub stop_distance : Decimal
  pub loss_per_lot : Decimal
  pub portfolio_exposure_before : Decimal
  pub portfolio_exposure_after : Decimal
  pub reason_codes : List PureRiskCode
  pub warning_codes : List PureRiskCode
  pub blocked_codes : List PureRiskCode
  pub safety_trigger_facts : SafetyTriggerFacts

-- No request, or a request of zero, stands for the limit of a trade.
abbrev pub requested_or : Decimal → Option Decimal → Decimal
requested_or most none = most
requested_or most (some d) = if eq_dec d zero_dec then most else d

unfoldable pub normalized_requested : PureRiskEvaluationInput → Decimal
normalized_requested i = requested_or i.policy.max_risk_per_trade_pct i.caller_requested_risk_pct

abbrev pub in_post_window : Option NewsScan → Bool
in_post_window none = false
in_post_window (some s) = s.in_post

-- A quote that is safe by itself is not, where its spread after an event is too wide.
abbrev pub post_news_safety : MarketSafetyState → Bool → MarketSafetyState
post_news_safety available_safe true = post_news_spread_blocked
post_news_safety s _ = s

abbrev pub levels_of : TradePlan → Levels
levels_of plan = record {
  direction = plan.direction;
  entry_lower = plan.entry_lower;
  entry_upper = plan.entry_upper;
  stop_loss = plan.stop_loss;
}

abbrev pub default_distance : Direction → TradePlan → Decimal
default_distance long plan = abs_dec (plan.entry_upper -ᵈ plan.stop_loss)
default_distance short plan = abs_dec (plan.entry_lower -ᵈ plan.stop_loss)

-- The local values of the function when it comes to its decision.
pub record Prepared : Type 0 where
  pub normalized_amount : Decimal
  pub news : NewsResult
  pub target_amount : Decimal
  pub facts : SafetyTriggerFacts

unfoldable pub prepare : PureRiskEvaluationInput → Raises Prepared
prepare i =
    let news = news_evaluation i.policy i.news i.quote i.as_of (normalized_requested i) in
    let unsafe = in_post_window news.provenance && spread_unstable i.policy i.quote in
    do
      normalized_amount ← risk_amount (normalized_requested i) i.account.equity
      breached ← breaches i.account i.policy
      target_amount ← risk_amount news.target i.account.equity
      ok (record {
        normalized_amount = normalized_amount;
        news = news;
        target_amount = target_amount;
        facts = record {
          breached = breached;
          quote_safety_state = post_news_safety (quote_safety i.policy i.as_of i.quote) unsafe;
          data_health_state = i.data_health;
        };
      })

-- `result(decision="BLOCKED", ...)`
abbrev pub blocked_result :
    PureRiskEvaluationInput → Prepared → List PureRiskCode → Decimal → PureRiskResult
blocked_result i v codes loss_per_lot = record {
  decision = blocked;
  caller_requested_risk_pct = i.caller_requested_risk_pct;
  normalized_requested_risk_pct = normalized_requested i;
  target_risk_pct = v.news.target;
  approved_risk_pct = zero_dec;
  normalized_requested_risk_amount = v.normalized_amount;
  target_risk_amount = v.target_amount;
  approved_risk_amount = zero_dec;
  position_size = zero_dec;
  stop_distance = default_distance i.trade_plan.direction i.trade_plan;
  loss_per_lot = loss_per_lot;
  portfolio_exposure_before = i.account.open_risk_pct;
  portfolio_exposure_after = i.account.open_risk_pct;
  reason_codes = [];
  warning_codes = [];
  blocked_codes = codes;
  safety_trigger_facts = v.facts;
}

-- `result(decision=decision, ...)` at the end, with the codes of an approval.
abbrev pub approved_result :
    PureRiskEvaluationInput → Prepared → CapacityResult → SizingResult → Bool → PureRiskResult
approved_result i v capacity sizing is_reduced = record {
  decision = if is_reduced then reduced else approved;
  caller_requested_risk_pct = i.caller_requested_risk_pct;
  normalized_requested_risk_pct = normalized_requested i;
  target_risk_pct = v.news.target;
  approved_risk_pct = capacity.approved_risk_pct;
  normalized_requested_risk_amount = v.normalized_amount;
  target_risk_amount = v.target_amount;
  approved_risk_amount = capacity.approved_risk_amount;
  position_size = sizing.position_size;
  stop_distance = sizing.stop_distance;
  loss_per_lot = sizing.loss_per_lot;
  portfolio_exposure_before = capacity.exposure_before;
  portfolio_exposure_after = capacity.exposure_after;
  reason_codes =
      (if is_reduced then approved_reduced else PureRiskCode.approved) ∷ position_sized ∷ [];
  warning_codes =
      if is_reduced then v.news.warnings ++ gate_code capacity.code [] else v.news.warnings;
  blocked_codes = [];
  safety_trigger_facts = v.facts;
}

unfoldable pub with_sizing :
    PureRiskEvaluationInput → Prepared → CapacityResult → SizingResult → PureRiskResult
with_sizing i v capacity sizing =
    if sizing.is_valid
    then approved_result i v capacity sizing (capacity.is_reduced || v.news.reduced)
    else blocked_result i v (position_sizing_failed ∷ []) sizing.loss_per_lot

unfoldable pub with_capacity :
    PureRiskEvaluationInput → Prepared → CapacityResult → Raises PureRiskResult
with_capacity i v capacity =
    if capacity.allowed
    then (do
      sizing ←
          calculate_position_size (levels_of i.trade_plan) capacity.approved_risk_amount
            i.account.equity i.symbol_specification
      ok (with_sizing i v capacity sizing))
    else ok (blocked_result i v (gate_code capacity.code []) zero_dec)

abbrev pub by_blocks :
    PureRiskEvaluationInput
    → Prepared
    → List PureRiskCode
    → Raises PureRiskResult
    → Raises PureRiskResult
by_blocks i v [] rest = rest
by_blocks i v (c ∷ cs) rest = ok (blocked_result i v (c ∷ cs) zero_dec)

unfoldable pub decide : PureRiskEvaluationInput → Prepared → Raises PureRiskResult
decide i v =
    let rest = (do
      capacity ← portfolio_capacity i.portfolio i.policy i.account v.news.target i.as_of
      with_capacity i v capacity) in
    by_blocks i v (blocking_codes i v.news.blocks v.facts.breached) rest

unfoldable pub evaluate_prepared : PureRiskEvaluationInput → Raises PureRiskResult
evaluate_prepared i = do v ← prepare i; decide i v

-- `evaluate_pure_risk`: an input that does not validate is refused.
unfoldable pub evaluate_pure_risk : PureRiskEvaluationInput → Raises PureRiskResult
evaluate_pure_risk i =
    if valid_input i then evaluate_prepared (canonical i) else raised validation_error
