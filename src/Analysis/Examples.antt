-- ===== src/Analysis/Examples.antt =====
-- The analysis engine on six minutes: a swing high that the last minute sweeps, and a gap.
use aigold_trader.Base.{
  false, ◌++◌, length, get_elem?, ◌<◌, ◌≤◌, some, ℕ, ◌≡◌, ◌+◌, ◌*◌, refl, true, none, List, [], ◌∷◌,
  map, pos, All,
}
use aigold_trader.Decimal.{
  of_int, dec, zero_dec, ◌+ᵈ◌, ◌-ᵈ◌, ◌*ᵈ◌, ◌<ᵈ◌, ◌≤ᵈ◌, eq_dec, min_dec, max_dec, abs_dec, neg_dec,
  div_dec, divided, quantize, sum_dec,
}
use aigold_trader.Risk.Domain.{Raises, ok}
use aigold_trader.MarketData.Aggregation.{
  Candle, m1, bucket, is_price, is_amount, valid_ohlc, valid_candle,
}
use aigold_trader.Analysis.Domain.{AnalysisConfig, LevelStatus, ZoneStatus}
use aigold_trader.Analysis.Engine.{
  Setup, Identity, AnalysisEngine, new_analysis, tolerance, built, valid_zone,
}
use aigold_trader.Analysis.Indicators.{
  feed_indicators, moved_by, next_mean, directional_index, rounded,
}
use aigold_trader.Analysis.Engine.Lifecycle.{
  liquidity, next_level, update_zones, next_zones, next_zone, touched_zone, find_gap, gap_of_three,
  gap_between,
}
use aigold_trader.Analysis.Engine.Breaks.{
  breaks, break_swing, shifted, add_event, with_block, find_last, displaced_from,
}
use aigold_trader.Analysis.Engine.Swings.{pivots, find_pivots, add_swing, equal_levels}
use aigold_trader.Analysis.Engine.Periods.{
  periods, windows_of, finish_groups, finish_group, visit_windows, visit_window, count_in,
}
use aigold_trader.Analysis.Engine.Feed.{
  analyze, analyze_from, admits, accepts, last_open, advance, feed,
}
use aigold_trader.Analysis.Engine.Ordered.{analyze_ordered}
use aigold_trader.Analysis.Engine.Ends.{FromLevel, FromZone, feed_lifecycle}

abbrev pub bar : ℕ → ℕ → ℕ → ℕ → ℕ → Candle
bar n from top bottom to = record {
  symbol = "XAUUSD";
  timeframe = m1;
  open_time = 345600 + n * 60;
  open_price = of_int (pos from);
  high = of_int (pos top);
  low = of_int (pos bottom);
  close = of_int (pos to);
  volume = of_int (pos 1);
  bid_close = of_int (pos to);
  ask_close = none;
  source = "simulated";
  is_closed = true;
}

abbrev config : AnalysisConfig
config = record {
  internal_left = 1;
  internal_right = 1;
  external_left = 1;
  external_right = 1;
  tick_size = dec (pos 1) 2;
  equal_ticks = 1;
  minimum_gap_ticks = 2;
  atr_period = 2;
  average_period = 2;
  displacement_atr = dec (pos 15) 1;
  displacement_close_fraction = dec (pos 75) 2;
  ob_lookback = 20;
  adx_trend_threshold = of_int (pos 25);
  high_volatility_ratio = dec (pos 2) 2;
  low_volatility_ratio = dec (pos 1) 3;
  session_hours = ("ASIA", 0, 8) ∷ [];
  max_objects = 32;
}

abbrev names : Identity
names = record {
  swing = λ scope side t. "SWING";
  event = λ kind scope t w. "EVENT";
  order_block = λ d t. "OB";
  liquidity = λ w. "LIQUIDITY";
  equal = λ label a b. "EQUAL";
  inverse = λ kind z t. "INVERSE";
  gap = λ t. "FVG";
  window = λ kind name t. "WINDOW";
  window_source = λ name t. name;
}

abbrev pub setup : Setup
setup = record {
  symbol = "XAUUSD";
  timeframe = m1;
  source = "simulated";
  config = config;
  identity = names;
}

abbrev first_bars : List Candle
first_bars = bar 0 2000 2002 1999 2001 ∷ bar 1 2001 2006 2000 2003 ∷ bar 2 2003 2004 2001 2002 ∷ []

-- The level is crossed and the close is back inside.
abbrev sweeping : Candle
sweeping = bar 3 2002 2007 2001 2005

abbrev later_bars : List Candle
later_bars = sweeping ∷ bar 4 2006 2012 2005 2011 ∷ bar 5 2011 2014 2010 2013 ∷ []

abbrev pub all_bars : List Candle
all_bars =
    bar 0 2000 2002 1999 2001
    ∷ bar 1 2001 2006 2000 2003
    ∷ bar 2 2003 2004 2001 2002
    ∷ sweeping
    ∷ bar 4 2006 2012 2005 2011
    ∷ bar 5 2011 2014 2010 2013
    ∷ []

abbrev engine_of : Raises AnalysisEngine → AnalysisEngine
engine_of (ok e) = e
engine_of (Raises.raised x) = new_analysis

abbrev before_sweep : AnalysisEngine
before_sweep = engine_of (analyze setup 300 first_bars)

abbrev after_sweep : AnalysisEngine
after_sweep = engine_of (feed setup before_sweep sweeping)

abbrev pub at_end : AnalysisEngine
at_end = engine_of (analyze setup 300 all_bars)

pub analyze_runs : analyze setup 300 all_bars ≡ ok at_end
unfolding dec of_int zero_dec ◌+ᵈ◌ ◌-ᵈ◌ ◌*ᵈ◌ ◌<ᵈ◌ ◌≤ᵈ◌ eq_dec min_dec max_dec abs_dec neg_dec
    div_dec divided quantize sum_dec bucket is_price is_amount valid_ohlc valid_candle analyze
    analyze_from admits feed accepts last_open advance liquidity next_level update_zones next_zones
    next_zone touched_zone breaks break_swing shifted add_event with_block find_last displaced_from
    pivots find_pivots add_swing equal_levels find_gap gap_of_three gap_between built valid_zone
    periods windows_of finish_groups finish_group visit_windows visit_window count_in
    feed_indicators moved_by next_mean directional_index rounded tolerance
analyze_runs = refl

-- A forming candle after them adds nothing.
abbrev forming : Candle
forming = record (bar 6 2013 2020 2000 2001) { is_closed = false }

forming_runs : analyze setup 300 (all_bars ++ forming ∷ []) ≡ ok at_end
unfolding dec of_int zero_dec ◌+ᵈ◌ ◌-ᵈ◌ ◌*ᵈ◌ ◌<ᵈ◌ ◌≤ᵈ◌ eq_dec min_dec max_dec abs_dec neg_dec
    div_dec divided quantize sum_dec bucket is_price is_amount valid_ohlc valid_candle analyze
    analyze_from admits feed accepts last_open advance liquidity next_level update_zones next_zones
    next_zone touched_zone breaks break_swing shifted add_event with_block find_last displaced_from
    pivots find_pivots add_swing equal_levels find_gap gap_of_three gap_between built valid_zone
    periods windows_of finish_groups finish_group visit_windows visit_window count_in
    feed_indicators moved_by next_mean directional_index rounded tolerance
forming_runs = refl

analyze_ordered_example :
    (length all_bars ≤ 1000)
    × (length all_bars ≤ 300)
    × ((i j : ℕ) (a b : Candle)
        → get_elem? all_bars i ≡ some a
        → get_elem? all_bars j ≡ some b
        → i < j
        → (a.open_time < b.open_time) × (a.is_closed ≡ true))
analyze_ordered_example = analyze_ordered setup 300 all_bars at_end analyze_runs

feed_runs : feed setup before_sweep sweeping ≡ ok after_sweep
unfolding dec of_int zero_dec ◌+ᵈ◌ ◌-ᵈ◌ ◌*ᵈ◌ ◌<ᵈ◌ ◌≤ᵈ◌ eq_dec min_dec max_dec abs_dec neg_dec
    div_dec divided quantize sum_dec bucket is_price is_amount valid_ohlc valid_candle analyze
    analyze_from admits feed accepts last_open advance liquidity next_level update_zones next_zones
    next_zone touched_zone breaks break_swing shifted add_event with_block find_last displaced_from
    pivots find_pivots add_swing equal_levels find_gap gap_of_three gap_between built valid_zone
    periods windows_of finish_groups finish_group visit_windows visit_window count_in
    feed_indicators moved_by next_mean directional_index rounded tolerance
feed_runs = refl

feed_lifecycle_example :
    All (FromLevel setup sweeping before_sweep.levels) after_sweep.levels
    × All (FromZone setup sweeping before_sweep.zones) after_sweep.zones
feed_lifecycle_example = feed_lifecycle setup sweeping before_sweep after_sweep feed_runs

-- The level was ACTIVE and is SWEPT; the last three bars leave two gaps.
sweep_marks :
    (map (λ l. l.status) before_sweep.levels ≡ LevelStatus.active ∷ [])
    × (map (λ l. l.status) after_sweep.levels ≡ LevelStatus.swept ∷ [])
    × (map (λ z. z.status) at_end.zones ≡ ZoneStatus.opened ∷ ZoneStatus.opened ∷ [])
unfolding dec of_int zero_dec ◌+ᵈ◌ ◌-ᵈ◌ ◌*ᵈ◌ ◌<ᵈ◌ ◌≤ᵈ◌ eq_dec min_dec max_dec abs_dec neg_dec
    div_dec divided quantize sum_dec bucket is_price is_amount valid_ohlc valid_candle analyze
    analyze_from admits feed accepts last_open advance liquidity next_level update_zones next_zones
    next_zone touched_zone breaks break_swing shifted add_event with_block find_last displaced_from
    pivots find_pivots add_swing equal_levels find_gap gap_of_three gap_between built valid_zone
    periods windows_of finish_groups finish_group visit_windows visit_window count_in
    feed_indicators moved_by next_mean directional_index rounded tolerance
sweep_marks = (refl, refl, refl)
