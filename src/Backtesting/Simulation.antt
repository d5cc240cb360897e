-- ===== src/Backtesting/Simulation.antt =====
-- backtesting/simulation.py: fills, exits and the balance. The events with their plans and risk
-- results come from the replay; the candles are those of the primary timeframe up to the cutoff. A
-- position in the list of candles is given by the candle and the candles after it. The keys that
-- name a trade, and the fingerprints, are left out.
pub mod Positions
pub mod Exits
use aigold_trader.Base.{
  ℕ, ◌+◌, Bool, true, false, ◌&&◌, ◌||◌, Option, none, some, List, [], ◌∷◌, pos, ltb, leb,
  if◌then◌else◌,
}
use aigold_trader.Decimal.{
  Decimal, of_int, zero_dec, ◌<ᵈ◌, ◌≤ᵈ◌, ◌+ᵈ◌, ◌-ᵈ◌, ◌*ᵈ◌, div_dec, max_dec,
}
use aigold_trader.Risk.Domain.{Raises, ok, ◌>>=◌, lift, Direction, long, short, Decision, blocked}
use aigold_trader.Backtesting.Domain.{
  Candle, Costs, Plan, PureResult, RiskEvidence, Event, ExitReason, SimulatedTrade, EquityPoint,
  unfilled, not_evaluated, evaluated, no_plan, risk_blocked, not_filled_concurrent,
  expired_unfilled, filled_closed, end_of_run, stop_hit, take_profit,
}

abbrev pub touches : Plan → Candle → Bool
touches plan c = c.low ≤ᵈ plan.entry_upper && plan.entry_lower ≤ᵈ c.high

-- The search for the candle of the fill.
unfoldable pub find_fill : Plan → ℕ → List Candle → Option (Candle × List Candle)
find_fill plan as_of [] = none
find_fill plan as_of (c ∷ cs) =
    let rest = find_fill plan as_of cs in
    if ltb c.open_time as_of
    then rest
    else if leb plan.expires_at c.open_time
    then none
    else if touches plan c
    then some (c, cs)
    else rest

abbrev pub hit_stop : Direction → Plan → Candle → Bool
hit_stop long plan c = c.low ≤ᵈ plan.stop_loss
hit_stop short plan c = plan.stop_loss ≤ᵈ c.high

abbrev pub hit_target : Direction → Plan → Candle → Bool
hit_target long plan c = plan.target ≤ᵈ c.high
hit_target short plan c = c.low ≤ᵈ plan.target

-- A candle that opens beyond the stop is left at its open.
abbrev pub gap_price : Direction → Plan → Candle → Decimal
gap_price long plan c = if c.open_price <ᵈ plan.stop_loss then c.open_price else plan.stop_loss
gap_price short plan c = if plan.stop_loss <ᵈ c.open_price then c.open_price else plan.stop_loss

-- An adverse change of an exit price.
abbrev pub slipped : Direction → Costs → Decimal → Decimal
slipped long costs price = price -ᵈ costs.slippage_price_per_side
slipped short costs price = price +ᵈ costs.slippage_price_per_side

pub record Exit : Type 0 where
  pub price : Decimal
  pub reason : ExitReason
  pub candle : Candle
  pub ambiguous : Bool

-- The loop over the candles after the fill: the stop comes first where both are hit.
unfoldable pub scan_exit : Plan → Costs → List Candle → Option Exit
scan_exit plan costs [] = none
scan_exit plan costs (c ∷ cs) =
    let rest = scan_exit plan costs cs in
    let d = plan.direction in
    if hit_stop d plan c
    then some (record {
      price = slipped d costs (gap_price d plan c);
      reason = stop_hit;
      candle = c;
      ambiguous = hit_target d plan c;
    })
    else if hit_target d plan c
    then some (record { price = plan.target; reason = take_profit; candle = c; ambiguous = false })
    else rest

-- `candles[-1]`, for the candles from the fill on.
abbrev pub last_candle : Candle → List Candle → Candle
last_candle c [] = c
last_candle c (d ∷ cs) = last_candle d cs

abbrev pub exit_or_end : Plan → Costs → Candle → Option Exit → Exit
exit_or_end plan costs final (some x) = x
exit_or_end plan costs final none = record {
  price = slipped plan.direction costs final.close;
  reason = end_of_run;
  candle = final;
  ambiguous = false;
}

unfoldable pub find_exit : Plan → Costs → Candle → List Candle → Exit
find_exit plan costs fill after =
    exit_or_end plan costs (last_candle fill after) (scan_exit plan costs after)

abbrev pub entry_price_of : Direction → Plan → Decimal → Decimal
entry_price_of long plan adverse = plan.entry_upper +ᵈ adverse
entry_price_of short plan adverse = plan.entry_lower -ᵈ adverse

abbrev pub price_diff : Direction → Decimal → Decimal → Decimal
price_diff long entry exit = exit -ᵈ entry
price_diff short entry exit = entry -ᵈ exit

pub record Account : Type 0 where
  pub balance : Decimal
  pub peak : Decimal
  pub open_until : Option ℕ

-- What does not change in a run; `period` is the length of a candle of the primary timeframe.
pub record Setting : Type 0 where
  pub costs : Costs
  pub contract_size : Decimal
  pub period : ℕ

pub record Outcome : Type 0 where
  pub trade : SimulatedTrade
  pub equity : Option EquityPoint
  pub after : Account

-- The value divided by a positive amount, and what stands for it otherwise.
abbrev pub ratio_or : Decimal → Decimal → Raises (Option Decimal)
ratio_or value amount =
    if zero_dec <ᵈ amount then (do r ← lift (div_dec value amount); ok (some r)) else ok none

abbrev pub drawdown_pct_of : Decimal → Decimal → Raises Decimal
drawdown_pct_of drawdown peak =
    if zero_dec <ᵈ peak
    then (do r ← lift (div_dec drawdown peak); ok (r *ᵈ of_int (pos 100)))
    else ok zero_dec

abbrev pub filled_trade :
    Setting
    → Plan
    → PureResult
    → Candle
    → Exit
    → ℕ
    → Decimal
    → Decimal
    → Decimal
    → Option Decimal
    → SimulatedTrade
filled_trade s plan pure fill x exit_at gross commission net r = record {
  status = filled_closed;
  exit_reason = some x.reason;
  ambiguous_sl_tp = x.ambiguous;
  entry_at = some fill.open_time;
  exit_at = some exit_at;
  entry_price = some (
      entry_price_of plan.direction plan (s.costs.spread_price +ᵈ s.costs.slippage_price_per_side));
  exit_price = some x.price;
  size = pure.position_size;
  risk_amount = pure.approved_risk_amount;
  gross_pnl = gross;
  commission = commission;
  net_pnl = net;
  r_multiple = r;
}

abbrev pub gross_of : Setting → Plan → PureResult → Exit → Decimal
gross_of s plan pure x =
    let adverse = s.costs.spread_price +ᵈ s.costs.slippage_price_per_side in
    price_diff plan.direction (entry_price_of plan.direction plan adverse) x.price
    *ᵈ s.contract_size
    *ᵈ pure.position_size

abbrev pub commission_of : Setting → PureResult → Decimal
commission_of s pure =
    s.costs.commission_usd_per_lot_per_side *ᵈ pure.position_size *ᵈ of_int (pos 2)

abbrev pub net_of : Setting → Plan → PureResult → Exit → Decimal
net_of s plan pure x = gross_of s plan pure x -ᵈ commission_of s pure

abbrev pub account_after : Account → Decimal → ℕ → Account
account_after a net exit_at = record {
  balance = a.balance +ᵈ net;
  peak = max_dec a.peak (a.balance +ᵈ net);
  open_until = some exit_at;
}

-- The end of the body of the loop, once there is a fill.
unfoldable pub close_trade : Setting → Plan → PureResult → Account → Candle → Exit → Raises Outcome
close_trade s plan pure a fill x =
    let net = net_of s plan pure x in
    let exit_at = x.candle.open_time + s.period in
    let b = account_after a net exit_at in
    let drawdown = b.peak -ᵈ b.balance in
    do
      pct ← drawdown_pct_of drawdown b.peak
      r ← ratio_or net pure.approved_risk_amount
      ok (record {
        trade =
            filled_trade s plan pure fill x exit_at (gross_of s plan pure x) (commission_of s pure)
              net r;
        equity =
            some (record {
              at = exit_at;
              balance = b.balance;
              drawdown = drawdown;
              drawdown_pct = pct;
            });
        after = b;
      })

abbrev pub skipped : Account → SimulatedTrade → Raises Outcome
skipped a t = ok (record { trade = t; equity = none; after = a })

abbrev pub is_busy : Option ℕ → ℕ → Bool
is_busy none as_of = false
is_busy (some until) as_of = ltb as_of until

abbrev pub by_fill :
    Setting → Plan → PureResult → Account → Option (Candle × List Candle) → Raises Outcome
by_fill s plan pure a none =
    skipped a (unfilled expired_unfilled pure.position_size pure.approved_risk_amount)
by_fill s plan pure a (some (fill, after)) =
    close_trade s plan pure a fill (find_exit plan s.costs fill after)

abbrev pub is_blocked : Decision → Bool
is_blocked blocked = true
is_blocked _ = false

abbrev pub by_risk : Setting → List Candle → Account → ℕ → Plan → RiskEvidence → Raises Outcome
by_risk s candles a as_of plan not_evaluated = skipped a (unfilled no_plan zero_dec zero_dec)
by_risk s candles a as_of plan (evaluated none) =
    skipped a (unfilled risk_blocked zero_dec zero_dec)
by_risk s candles a as_of plan (evaluated (some pure)) =
    if is_blocked pure.decision || pure.position_size ≤ᵈ zero_dec
    then skipped a (unfilled risk_blocked zero_dec pure.approved_risk_amount)
    else if is_busy a.open_until as_of
    then skipped a (unfilled not_filled_concurrent pure.position_size pure.approved_risk_amount)
    else by_fill s plan pure a (find_fill plan as_of candles)

abbrev pub by_plan :
    Setting → List Candle → Account → ℕ → RiskEvidence → Option Plan → Raises Outcome
by_plan s candles a as_of risk none = skipped a (unfilled no_plan zero_dec zero_dec)
by_plan s candles a as_of risk (some plan) = by_risk s candles a as_of plan risk

-- The body of the loop for one event.
unfoldable pub step : Setting → List Candle → Account → Event → Raises Outcome
step s candles a event = by_plan s candles a event.as_of event.risk event.trade_plan

-- The loop: the outcomes in the order of the events.
unfoldable pub simulate : Setting → List Candle → Account → List Event → Raises (List Outcome)
simulate s candles a [] = ok []
simulate s candles a (e ∷ es) = do
  o ← step s candles a e
  rest ← simulate s candles o.after es
  ok (o ∷ rest)
