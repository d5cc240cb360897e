-- ===== src/Backtesting/Metrics.antt =====
-- backtesting/metrics.py: `compute_metrics`, without the counts by direction and by strategy, whose
-- keys the model of a trade leaves out.
pub mod Returns
pub mod Counts
pub mod Streaks
pub mod Longest
use aigold_trader.Base.{
  ℕ, ◌+◌, Bool, true, false, Option, none, some, List, [], ◌∷◌, length, filterb, map, pos, ltb,
  if◌then◌else◌,
}
use aigold_trader.Decimal.{Decimal, of_int, zero_dec, ◌<ᵈ◌, ◌*ᵈ◌, div_dec, sum_dec, eq_dec, neg_dec}
use aigold_trader.Risk.Domain.{Raises, ok, ◌>>=◌, lift}
use aigold_trader.Backtesting.Domain.{SimulatedTrade, TradeStatus, filled_closed, EquityPoint}

abbrev pub is_closed : TradeStatus → Bool
is_closed filled_closed = true
is_closed _ = false

abbrev pub closed_trades : List SimulatedTrade → List SimulatedTrade
closed_trades trades = filterb (λ t. is_closed t.status) trades

abbrev pub is_win : SimulatedTrade → Bool
is_win t = zero_dec <ᵈ t.net_pnl

abbrev pub is_loss : SimulatedTrade → Bool
is_loss t = t.net_pnl <ᵈ zero_dec

abbrev pub is_even : SimulatedTrade → Bool
is_even t = eq_dec t.net_pnl zero_dec

abbrev pub avg : List Decimal → Raises (Option Decimal)
avg [] = ok none
avg (d ∷ ds) = do
  mean ← lift (div_dec (sum_dec zero_dec (d ∷ ds)) (of_int (pos (length (d ∷ ds)))))
  ok (some mean)

abbrev pub rate : ℕ → ℕ → Raises (Option Decimal)
rate count total =
    if ltb 0 total
    then (do
      share ← lift (div_dec (of_int (pos count)) (of_int (pos total)))
      ok (some (share *ᵈ of_int (pos 100))))
    else ok none

-- `a / b if b > 0 else None`
abbrev pub ratio : Decimal → Decimal → Raises (Option Decimal)
ratio a b = if zero_dec <ᵈ b then (do share ← lift (div_dec a b); ok (some share)) else ok none

abbrev pub return_on : Decimal → Decimal → Raises Decimal
return_on net initial =
    if zero_dec <ᵈ initial
    then (do share ← lift (div_dec net initial); ok (share *ᵈ of_int (pos 100)))
    else ok zero_dec

-- `max(values, default=Decimal("0"))`, which keeps the first of equals
unfoldable pub largest : Decimal → List Decimal → Decimal
largest best [] = best
largest best (d ∷ ds) = largest (if best <ᵈ d then d else best) ds

abbrev pub max_of : List Decimal → Decimal
max_of [] = zero_dec
max_of (d ∷ ds) = largest d ds

unfoldable pub filter_some : List (Option Decimal) → List Decimal
filter_some [] = []
filter_some (none ∷ os) = filter_some os
filter_some (some d ∷ os) = d ∷ filter_some os

abbrev pub r_multiples : List SimulatedTrade → List Decimal
r_multiples ts = filter_some (map (λ t. t.r_multiple) ts)

pub record Streak : Type 0 where
  pub best_w : ℕ
  pub cur_w : ℕ
  pub best_l : ℕ
  pub cur_l : ℕ

abbrev pub max_ℕ : ℕ → ℕ → ℕ
max_ℕ a b = if ltb a b then b else a

-- The body of the loop over the closed trades, for a win, a loss and neither.
abbrev pub next_streak : Bool → Bool → Streak → Streak
next_streak true loss s = record s {
  cur_w = s.cur_w + 1;
  cur_l = 0;
  best_w = max_ℕ s.best_w (s.cur_w + 1);
  best_l = max_ℕ s.best_l 0;
}
next_streak false true s = record s {
  cur_l = s.cur_l + 1;
  cur_w = 0;
  best_w = max_ℕ s.best_w 0;
  best_l = max_ℕ s.best_l (s.cur_l + 1);
}
next_streak false false s = record s {
  cur_w = 0;
  cur_l = 0;
  best_w = max_ℕ s.best_w 0;
  best_l = max_ℕ s.best_l 0;
}

unfoldable pub streaks : List SimulatedTrade → Streak → Streak
streaks [] s = s
streaks (t ∷ ts) s = streaks ts (next_streak (is_win t) (is_loss t) s)

abbrev pub no_streak : Streak
no_streak = record { best_w = 0; cur_w = 0; best_l = 0; cur_l = 0 }

pub record BacktestMetrics : Type 0 where
  pub total_trades : ℕ
  pub wins : ℕ
  pub losses : ℕ
  pub breakeven : ℕ
  pub win_rate : Option Decimal
  pub loss_rate : Option Decimal
  pub gross_profit : Decimal
  pub gross_loss : Decimal
  pub net_profit : Decimal
  pub profit_factor : Option Decimal
  pub average_win : Option Decimal
  pub average_loss : Option Decimal
  pub average_r : Option Decimal
  pub expectancy : Option Decimal
  pub max_drawdown : Decimal
  pub max_drawdown_pct : Decimal
  pub return_pct : Decimal
  pub consecutive_wins : ℕ
  pub consecutive_losses : ℕ

unfoldable pub compute_metrics :
    Decimal → List EquityPoint → List SimulatedTrade → Raises BacktestMetrics
compute_metrics initial points trades =
    let closed = closed_trades trades in
    let wins = filterb is_win closed in
    let losses = filterb is_loss closed in
    let gains = map (λ t. t.net_pnl) wins in
    let lost = map (λ t. neg_dec t.net_pnl) losses in
    let nets = map (λ t. t.net_pnl) closed in
    let s = streaks closed no_streak in
    do
      win_rate ← rate (length wins) (length closed)
      loss_rate ← rate (length losses) (length closed)
      profit_factor ← ratio (sum_dec zero_dec gains) (sum_dec zero_dec lost)
      average_win ← avg gains
      average_loss ← avg lost
      average_r ← avg (r_multiples closed)
      expectancy ← avg nets
      return_pct ← return_on (sum_dec zero_dec nets) initial
      ok (record {
        total_trades = length closed;
        wins = length wins;
        losses = length losses;
        breakeven = length (filterb is_even closed);
        win_rate = win_rate;
        loss_rate = loss_rate;
        gross_profit = sum_dec zero_dec gains;
        gross_loss = sum_dec zero_dec lost;
        net_profit = sum_dec zero_dec nets;
        profit_factor = profit_factor;
        average_win = average_win;
        average_loss = average_loss;
        average_r = average_r;
        expectancy = expectancy;
        max_drawdown = max_of (map (λ p. p.drawdown) points);
        max_drawdown_pct = max_of (map (λ p. p.drawdown_pct) points);
        return_pct = return_pct;
        consecutive_wins = s.best_w;
        consecutive_losses = s.best_l;
      })
