-- ===== src/Analysis/Engine/Feed.antt =====
-- analysis/engine.py: `feed` and the loop of `analyze`.
use text.Mathlib.Text.{◌==◌ as str_eq}
use aigold_trader.Base.{
  ℕ, ◌+◌, Bool, true, false, ◌&&◌, ◌||◌, not, Option, none, some, List, [], ◌∷◌, ◌++◌, length, max,
  ltb, ◌==◌, if◌then◌else◌,
}
use aigold_trader.Risk.Domain.{Raises, ok, raised, input_error, ◌>>=◌}
use aigold_trader.MarketData.Aggregation.{Candle, seconds_of, valid_candle}
use aigold_trader.Analysis.Indicators.{last_of, feed_indicators}
use aigold_trader.Analysis.Engine.{Setup, AnalysisEngine, new_analysis}
use aigold_trader.Analysis.Engine.Lifecycle.{liquidity, update_zones, find_gap}
use aigold_trader.Analysis.Engine.Breaks.{breaks}
use aigold_trader.Analysis.Engine.Swings.{pivots}
use aigold_trader.Analysis.Engine.Periods.{periods}

-- The timeframes differ in their lengths.
abbrev pub is_same_series : Setup → Candle → Bool
is_same_series s c =
    str_eq c.symbol s.symbol
    && seconds_of c.timeframe == seconds_of s.timeframe
    && str_eq c.source s.source

-- The opening time of the last bar.
unfoldable pub last_open : List Candle → Option ℕ
last_open [] = none
last_open (b ∷ []) = some b.open_time
last_open (b ∷ c ∷ rest) = last_open (c ∷ rest)

abbrev pub is_later : Option ℕ → ℕ → Bool
is_later none t = true
is_later (some last) t = ltb last t

unfoldable pub accepts : Setup → AnalysisEngine → Candle → Bool
unfolding last_open
accepts s e c =
    valid_candle c && is_same_series s c && c.is_closed && is_later (last_open e.bars) c.open_time

abbrev pub or_first : Option ℕ → ℕ → Option ℕ
or_first none t = some t
or_first (some first) t = some first

abbrev pub with_bar : Setup → Candle → AnalysisEngine → AnalysisEngine
with_bar s c e = record e {
  bars = last_of (max 150 (s.config.ob_lookback + 1)) (e.bars ++ c ∷ []);
  count = e.count + 1;
}

abbrev pub bounded : Setup → AnalysisEngine → AnalysisEngine
bounded s e =
    let cap = s.config.max_objects in
    record e {
      swings = last_of cap e.swings;
      events = last_of cap e.events;
      levels = last_of cap e.levels;
      zones = last_of cap e.zones;
    }

-- The steps of `feed` for a candle that is accepted.
unfoldable pub advance : Setup → AnalysisEngine → Candle → Raises AnalysisEngine
advance s e c = do
  zoned ←
      update_zones s c
        (liquidity s c (record e { window_start = or_first e.window_start c.open_time }))
  broken ← breaks s c zoned
  pivoted ← pivots s c (with_bar s c broken)
  found ← find_gap s c pivoted
  let grouped = periods s c found
  indicators ← feed_indicators s.config.atr_period s.config.average_period grouped.indicators c
  ok (bounded s (record grouped { indicators = indicators }))

unfoldable pub feed : Setup → AnalysisEngine → Candle → Raises AnalysisEngine
unfolding advance
feed s e c = let fed = advance s e c in if accepts s e c then fed else raised input_error

-- The checks of `analyze` before each candle.
unfoldable pub admits : Setup → Option ℕ → Bool → Candle → Bool
admits s previous forming c =
    valid_candle c && is_same_series s c && is_later previous c.open_time && not forming

unfoldable pub analyze_from :
    Setup → Option ℕ → Bool → AnalysisEngine → List Candle → Raises AnalysisEngine
unfolding feed admits
analyze_from s previous forming e [] = ok e
analyze_from s previous forming e (c ∷ cs) = do
  admitted ← (if admits s previous forming c then ok c else raised input_error)
  fed ← (if c.is_closed then feed s e admitted else ok e)
  analyze_from s (some c.open_time) (not c.is_closed) fed cs

-- The engine whose snapshot `analyze` returns.
unfoldable pub analyze : Setup → ℕ → List Candle → Raises AnalysisEngine
unfolding analyze_from
analyze s requested candles =
    let run = analyze_from s none false new_analysis candles in
    if ltb 1000 (length candles)
      || ltb requested (length candles)
      || ltb requested 1
      || ltb 1000 requested
    then raised input_error
    else run
