-- ===== src/Analysis/Snapshot/Examples.antt =====
-- Snapshots of the analysis of six minutes, and a dealing range.
use aigold_trader.Base.{
  ◌≡◌, ◌≢◌, refl, arith, Bool, Option, none, some, List, [], ◌∷◌, pos, String, map, if◌then◌else◌,
}
use aigold_trader.Decimal.{
  of_int, dec, zero_dec, ◌+ᵈ◌, ◌-ᵈ◌, ◌*ᵈ◌, ◌<ᵈ◌, ◌≤ᵈ◌, eq_dec, min_dec, max_dec, abs_dec, neg_dec,
  div_dec, divided, quantize, sum_dec,
}
use aigold_trader.Risk.Domain.{Raises, ok, raised, type_error}
use aigold_trader.Analysis.Domain.{
  Direction, external, high, low, Label, SwingPoint, DealingRange, Location, Regime, Status,
  partial_history, no_structure, insufficient_data,
}
use aigold_trader.MarketData.Aggregation.{bucket, is_price, is_amount, valid_ohlc, valid_candle}
use aigold_trader.Analysis.Engine.{AnalysisEngine, new_analysis, tolerance, built, valid_zone}
use aigold_trader.Analysis.Indicators.{
  feed_indicators, moved_by, next_mean, directional_index, rounded,
}
use aigold_trader.Analysis.Engine.Lifecycle.{
  liquidity, next_level, update_zones, next_zones, next_zone, touched_zone, find_gap, gap_of_three,
  gap_between,
}
use aigold_trader.Analysis.Engine.Breaks.{
  breaks, break_swing, shifted, add_event, with_block, find_last, displaced_from,
}
use aigold_trader.Analysis.Engine.Swings.{pivots, find_pivots, add_swing, equal_levels}
use aigold_trader.Analysis.Engine.Periods.{
  periods, windows_of, finish_groups, finish_group, visit_windows, visit_window, count_in,
}
use aigold_trader.Analysis.Engine.Feed.{
  analyze, analyze_from, admits, accepts, last_open, advance, feed,
}
use aigold_trader.Analysis.Range.{last_bar, range_between, dealing_range}
use aigold_trader.Analysis.Range.Spans.{Spanning, dealing_range-Spanning}
use aigold_trader.Analysis.Snapshot.{AnalysisSnapshot, snapshot, sessions_at}
use aigold_trader.Analysis.Snapshot.Statuses.{session_bars}
use aigold_trader.Analysis.Snapshot.Values.{strength_of, indicator_values}
use aigold_trader.Analysis.Snapshot.Regimes.{regime_at}
use aigold_trader.Analysis.Snapshot.Typed.{snapshot_typed}
use aigold_trader.Analysis.Examples.{bar, setup, all_bars, at_end, analyze_runs}

snapshot_typed_example : snapshot setup 300 6 at_end ≢ raised type_error
snapshot_typed_example =
    snapshot_typed setup 300 6 all_bars at_end (omega arith) (omega arith) analyze_runs

abbrev swing : String → Label → Bool → SwingPoint
swing id label is_high = record {
  id = id;
  scope = external;
  kind = if is_high then high else low;
  label = label;
  price = of_int (pos (if is_high then 2010 else 2000));
  swing_time = if is_high then 345720 else 345600;
  confirmed_at = 345780;
}

-- A low and then a high, and a close in the upper half.
abbrev ranged : AnalysisEngine
ranged = record new_analysis {
  bars = bar 4 2007 2009 2006 2008 ∷ [];
  swings = swing "low" Label.sl Bool.false ∷ swing "high" Label.sh Bool.true ∷ [];
}

abbrev range_in : Raises (Option DealingRange) → Option DealingRange
range_in (ok o) = o
range_in (raised e) = none

abbrev range : DealingRange
range = record {
  lower_bound = of_int (pos 2000);
  middle = dec (pos 200500000000) 8;
  upper_bound = of_int (pos 2010);
  origin_time = 345600;
  confirmed_at = 345780;
  direction = Direction.bullish;
  swing_ids = "low" ∷ "high" ∷ [];
  location = Location.premium;
  retracement_62 = dec (pos 200380000000) 8;
  retracement_79 = dec (pos 200210000000) 8;
}

range_found : dealing_range setup ranged ≡ ok (some range)
unfolding dealing_range find_last range_between last_bar rounded quantize div_dec divided dec of_int
    zero_dec ◌+ᵈ◌ ◌-ᵈ◌ ◌*ᵈ◌ ◌<ᵈ◌ ◌≤ᵈ◌ abs_dec tolerance
range_found = refl

dealing_range-Spanning_example : Spanning setup ranged range
dealing_range-Spanning_example = dealing_range-Spanning setup ranged range range_found

abbrev shown : Raises AnalysisSnapshot → List Regime × List Status × List String
shown (ok v) = (v.regime ∷ [], map (λ m. m.1.status) v.modules, v.current_sessions)
shown (raised e) = ([], [], [])

-- Six of 300 bars are a part of the history. No low is a swing, and a session takes 480 bars.
shown-snapshot : shown (snapshot setup 300 6 at_end) ≡ (
  Regime.trending_up ∷ [],
  partial_history ∷ partial_history ∷ partial_history ∷ partial_history ∷ no_structure
      ∷ partial_history ∷ insufficient_data ∷ partial_history ∷ [],
  "ASIA" ∷ [],
)
unfolding dec of_int zero_dec ◌+ᵈ◌ ◌-ᵈ◌ ◌*ᵈ◌ ◌<ᵈ◌ ◌≤ᵈ◌ eq_dec min_dec max_dec abs_dec neg_dec
    div_dec divided quantize sum_dec bucket is_price is_amount valid_ohlc valid_candle analyze
    analyze_from admits feed accepts last_open advance liquidity next_level update_zones next_zones
    next_zone touched_zone breaks break_swing shifted add_event with_block find_last displaced_from
    pivots find_pivots add_swing equal_levels find_gap gap_of_three gap_between built valid_zone
    periods windows_of finish_groups finish_group visit_windows visit_window count_in
    feed_indicators moved_by next_mean directional_index rounded tolerance snapshot dealing_range
    range_between last_bar session_bars strength_of indicator_values regime_at sessions_at
shown-snapshot = refl
