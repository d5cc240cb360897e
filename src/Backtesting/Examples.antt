-- ===== src/Backtesting/Examples.antt =====
-- A run of the simulation at concrete candles.
use aigold_trader.Base.{
  ℕ, ◌≤◌, ◌≡◌, refl, true, none, some, List, [], ◌∷◌, ◌++◌, pos, ℤ, negsuc, length, All,
}
use aigold_trader.Decimal.{
  sum_dec, dec, of_int, neg_dec, eq_dec, zero_dec, ◌<ᵈ◌, ◌≤ᵈ◌, ◌+ᵈ◌, ◌-ᵈ◌, ◌*ᵈ◌, div_dec, max_dec,
}
use aigold_trader.Risk.Domain.{ok, long, approved}
use aigold_trader.Backtesting.Domain.{
  filled_closed, SimulatedTrade, EquityPoint, stop_hit, not_filled_concurrent, risk_blocked,
  unfilled, Candle, Costs, Plan, PureResult, evaluated, Event,
}
use aigold_trader.Backtesting.Simulation.{
  Account, Setting, Outcome, find_fill, scan_exit, find_exit, close_trade, step, simulate,
}
use aigold_trader.Backtesting.Simulation.Exits.{IsExit, scan_exit-IsExit}
use aigold_trader.Backtesting.Metrics.{
  is_win, largest, filter_some, streaks, closed_trades, compute_metrics, BacktestMetrics,
}
use aigold_trader.Backtesting.Metrics.Longest.{HasRun, longest_wins}
use aigold_trader.Backtesting.Simulation.Positions.{Chained, one_position}

abbrev candle : ℕ → ℕ → ℕ → ℕ → Candle
candle t o h l = record {
  open_time = t;
  open_price = of_int (pos o);
  high = of_int (pos h);
  low = of_int (pos l);
  close = of_int (pos o);
}

abbrev costs : Costs
costs = record {
  spread_price = dec (pos 2) 1;
  slippage_price_per_side = dec (pos 1) 1;
  commission_usd_per_lot_per_side = of_int (pos 3);
}

abbrev plan : Plan
plan = record {
  direction = long;
  entry_lower = of_int (pos 2000);
  entry_upper = of_int (pos 2001);
  stop_loss = of_int (pos 1990);
  target = of_int (pos 2020);
  expires_at = 500;
}

abbrev candles : List Candle
candles =
    candle 0 2005 2006 2003
    ∷ candle 60 2003 2004 2000
    ∷ candle 120 2002 2010 2001
    ∷ candle 180 2005 2025 1985
    ∷ []

abbrev setting : Setting
setting = record { costs = costs; contract_size = of_int (pos 100); period = 60 }

abbrev start : Account
start = record { balance = of_int (pos 10000); peak = of_int (pos 10000); open_until = none }

abbrev pure : PureResult
pure = record {
  decision = approved;
  position_size = dec (pos 4) 2;
  approved_risk_amount = of_int (pos 50);
}

-- The second event comes while the position of the first is open.
abbrev events : List Event
events =
    record { as_of = 60; trade_plan = some plan; risk = evaluated (some pure) }
    ∷ record { as_of = 120; trade_plan = some plan; risk = evaluated (some pure) }
    ∷ []

abbrev after : Account
after = record { balance = dec (pos 9954160) 3; peak = of_int (pos 10000); open_until = some 240 }

abbrev outcomes : List Outcome
outcomes =
    record {
      trade = record {
        status = filled_closed;
        exit_reason = some stop_hit;
        ambiguous_sl_tp = true;
        entry_at = some 60;
        exit_at = some 240;
        entry_price = some (dec (pos 20013) 1);
        exit_price = some (dec (pos 19899) 1);
        size = dec (pos 4) 2;
        risk_amount = of_int (pos 50);
        gross_pnl = dec (negsuc 45599) 3;
        commission = dec (pos 24) 2;
        net_pnl = dec (negsuc 45839) 3;
        r_multiple = some (dec (negsuc 9167) 4);
      };
      equity = some (record {
        at = 240;
        balance = dec (pos 9954160) 3;
        drawdown = dec (pos 45840) 3;
        drawdown_pct = dec (pos 458400) 6;
      });
      after = after;
    }
    ∷ record {
      trade = unfilled not_filled_concurrent (dec (pos 4) 2) (of_int (pos 50));
      equity = none;
      after = after;
    }
    ∷ []

run : simulate setting candles start events ≡ ok outcomes
unfolding dec of_int zero_dec ◌<ᵈ◌ ◌≤ᵈ◌ ◌+ᵈ◌ ◌-ᵈ◌ ◌*ᵈ◌ div_dec max_dec find_fill scan_exit find_exit
    close_trade step simulate
run = refl

one_position_example : (length outcomes ≡ length events) × Chained start outcomes
one_position_example = one_position setting candles start events outcomes run

found :
    find_fill plan 60 candles
    ≡ some (candle 60 2003 2004 2000, candle 120 2002 2010 2001 ∷ candle 180 2005 2025 1985 ∷ [])
unfolding find_fill of_int dec ◌<ᵈ◌ ◌≤ᵈ◌
found = refl

scan_exit-IsExit_example : IsExit plan costs candles (scan_exit plan costs candles)
scan_exit-IsExit_example = scan_exit-IsExit plan costs candles

-- Trades that earned 1, lost 2, earned 3 and 4, and one that came out even, among unfilled ones.
abbrev earning : ℤ → SimulatedTrade
earning c = record (unfilled filled_closed zero_dec zero_dec) { net_pnl = of_int c }

abbrev earned : List SimulatedTrade
earned =
    earning (pos 1)
    ∷ earning (negsuc 1)
    ∷ unfilled risk_blocked zero_dec zero_dec
    ∷ earning (pos 3)
    ∷ earning (pos 4)
    ∷ earning (pos 0)
    ∷ []

abbrev points : List EquityPoint
points =
    record {
      at = 240;
      balance = of_int (pos 9);
      drawdown = of_int (pos 2);
      drawdown_pct = of_int (pos 20);
    }
    ∷ []

split :
    closed_trades earned
    ≡ (earning (pos 1) ∷ earning (negsuc 1) ∷ [])
      ++ (earning (pos 3) ∷ earning (pos 4) ∷ [])
      ++ (earning (pos 0) ∷ [])
split = refl

wins : All (λ t. is_win t ≡ true) (earning (pos 3) ∷ earning (pos 4) ∷ [])
unfolding of_int dec zero_dec ◌<ᵈ◌
wins = (refl, (refl, tt))

longest_wins_example :
    (m : BacktestMetrics) × (compute_metrics (of_int (pos 10)) points earned ≡ ok m)
    × HasRun (closed_trades earned) m.consecutive_wins
    × (2 ≤ m.consecutive_wins)
longest_wins_example =
    longest_wins (of_int (pos 10)) points earned (earning (pos 1) ∷ earning (negsuc 1) ∷ [])
      (earning (pos 3) ∷ earning (pos 4) ∷ []) (earning (pos 0) ∷ []) split wins

counted :
    (m : BacktestMetrics) × (compute_metrics (of_int (pos 10)) points earned ≡ ok m)
    × (m.wins ≡ 3)
    × (m.losses ≡ 1)
    × (m.breakeven ≡ 1)
    × (m.consecutive_wins ≡ 2)
    × (m.max_drawdown ≡ of_int (pos 2))
    × (m.return_pct ≡ dec (pos 600) 1)
unfolding dec of_int zero_dec ◌<ᵈ◌ ◌≤ᵈ◌ ◌+ᵈ◌ ◌*ᵈ◌ div_dec eq_dec sum_dec largest filter_some streaks
    compute_metrics neg_dec
counted = (_, refl, refl, refl, refl, refl, refl, refl)
