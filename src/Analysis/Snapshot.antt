-- ===== src/Analysis/Snapshot.antt =====
-- analysis/engine.py: `snapshot` and `analyze`. The digest of the input, the versions, the texts of
-- the reasons and the Bollinger bands are left out.
pub mod Statuses
pub mod Values
pub mod Regimes
pub mod WarmUp
pub mod Held
pub mod Typed
mod Examples
use aigold_trader.Base.{
  ℕ, ◌/◌, ◌%◌, String, Bool, true, false, ◌&&◌, Option, none, some, List, [], ◌∷◌, filterb, map,
  length, ltb, leb, if◌then◌else◌,
}
use aigold_trader.Risk.Domain.{Raises, ok, ◌>>=◌}
use aigold_trader.MarketData.Aggregation.{Candle, Timeframe}
use aigold_trader.Analysis.Domain.{
  State, Direction, bullish, bearish, SwingPoint, StructureEvent, LiquidityLevel, Zone, ZoneStatus,
  opened, SessionRange, History, ModuleStatus, DealingRange, IndicatorValue, Regime,
}
use aigold_trader.Analysis.Engine.{Setup, AnalysisEngine, end_of}
use aigold_trader.Analysis.Engine.Feed.{analyze}
use aigold_trader.Analysis.Range.{last_bar, dealing_range}
use aigold_trader.Analysis.Snapshot.Regimes.{regime_at, regime_of}
use aigold_trader.Analysis.Snapshot.Statuses.{
  liquidity, indicators, sessions, regime, module_names, session_bars, history_status,
  module_status,
}
use aigold_trader.Analysis.Snapshot.Values.{indicator_values}

abbrev pub is_live_zone : ZoneStatus → Bool
is_live_zone ZoneStatus.active = true
is_live_zone opened = true
is_live_zone _ = false

abbrev pub same_direction : Direction → Direction → Bool
same_direction bullish bullish = true
same_direction bearish bearish = true
same_direction bullish bearish = false
same_direction bearish bullish = false

abbrev pub is_confluent : Direction → Zone → Bool
is_confluent d z = same_direction z.direction d && is_live_zone z.status

pub record AnalysisSnapshot : Type 0 where
  pub symbol : String
  pub timeframe : Timeframe
  pub source : String
  pub window_start : Option ℕ
  pub history : History
  pub as_of : Option ℕ
  pub modules : List (String × ModuleStatus)
  pub internal_state : State
  pub external_state : State
  pub swings : List SwingPoint
  pub events : List StructureEvent
  pub liquidity : List LiquidityLevel
  pub zones : List Zone
  pub dealing_range : Option DealingRange
  pub indicators : List (String × IndicatorValue)
  pub sessions : List SessionRange
  pub current_sessions : List String
  pub regime : Regime
  pub bullish_confluence : ℕ
  pub bearish_confluence : ℕ

abbrev pub hour_of : ℕ → ℕ
hour_of t = t / 3600 % 24

unfoldable pub sessions_at : Option ℕ → List (String × ℕ × ℕ) → List String
sessions_at none hours = []
sessions_at (some t) [] = []
sessions_at (some t) ((name, start, stop) ∷ rest) =
    let more = sessions_at (some t) rest in
    if leb start (hour_of t) && ltb (hour_of t) stop then name ∷ more else more

abbrev pub end_at : Setup → Option Candle → Option ℕ
end_at s none = none
end_at s (some c) = some (end_of s c)

unfoldable pub snapshot : Setup → ℕ → ℕ → AnalysisEngine → Raises AnalysisSnapshot
unfolding dealing_range regime_at indicator_values session_bars last_bar
snapshot s requested returned e =
    let history = history_status requested returned in
    let as_of = end_at s (last_bar e.bars) in
    do
      values ← indicator_values s e.indicators
      current ← regime_of s e (last_bar e.bars)
      range ← dealing_range s e
      ok (record {
        symbol = s.symbol;
        timeframe = s.timeframe;
        source = s.source;
        window_start = e.window_start;
        history = record {
          requested = requested;
          returned = returned;
          closed = e.count;
          status = history;
        };
        as_of = as_of;
        modules = map (λ m. (m.0, module_status s e history m.1)) module_names;
        internal_state = e.internal_structure.state;
        external_state = e.external_structure.state;
        swings = e.swings;
        events = e.events;
        liquidity = e.levels;
        zones = e.zones;
        dealing_range = range;
        indicators = values;
        sessions = e.sessions;
        current_sessions = sessions_at as_of s.config.session_hours;
        regime = current;
        bullish_confluence = length (filterb (is_confluent bullish) e.zones);
        bearish_confluence = length (filterb (is_confluent bearish) e.zones);
      })

-- `analyze`
unfoldable pub analyze_snapshot : Setup → ℕ → List Candle → Raises AnalysisSnapshot
unfolding snapshot
analyze_snapshot s requested candles = do
  e ← analyze s requested candles
  snapshot s requested (length candles) e
