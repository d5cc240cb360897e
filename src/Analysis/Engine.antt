-- ===== src/Analysis/Engine.antt =====
-- analysis/engine.py: AnalysisEngine, the state machine over closed candles. The ids are hashes and
-- come as functions of what the source hashes; the digest of the input is left out. Instants are in
-- seconds, and prices are validated before.
pub mod Breaks
pub mod Swings
pub mod Lifecycle
pub mod Periods
pub mod Feed
pub mod Known
pub mod Found
pub mod Steps
pub mod Advance
pub mod LastBar
pub mod Marks
pub mod Causal
pub mod Ends
pub mod Ordered
use text.Mathlib.Text.{◌==◌ as str_eq}
use aigold_trader.Base.{ℕ, ◌+◌, String, Bool, Option, none, some, List, [], pos}
use aigold_trader.Decimal.{Decimal, of_int, zero_dec, ◌<ᵈ◌, ◌≤ᵈ◌, ◌*ᵈ◌}
use aigold_trader.Base.{◌&&◌, if◌then◌else◌}
use aigold_trader.Risk.Domain.{Raises, ok, raised, validation_error}
use aigold_trader.MarketData.Aggregation.{Candle, Timeframe, seconds_of}
use aigold_trader.Analysis.Domain.{
  AnalysisConfig, State, unknown, Direction, Scope, internal, external, Side, high, low, Label,
  SwingPoint, EventKind, StructureEvent, LevelKind, LiquidityLevel, ZoneKind, Zone, SessionRange,
}
use aigold_trader.Analysis.Indicators.{Indicators, new_indicators}

-- `identity`, for each kind of object.
pub record Identity : Type 0 where
  pub swing : Scope → Side → ℕ → String
  pub event : EventKind → Scope → ℕ → String → String
  pub order_block : Direction → ℕ → String
  pub liquidity : String → String
  pub equal : Label → String → String → String
  pub inverse : ZoneKind → String → ℕ → String
  pub gap : ℕ → String
  pub window : LevelKind → String → ℕ → String
  pub window_source : String → ℕ → String

-- What an engine is built with.
pub record Setup : Type 0 where
  pub symbol : String
  pub timeframe : Timeframe
  pub source : String
  pub config : AnalysisConfig
  pub identity : Identity

-- What `latest`, `state` and `broken` hold of one scope.
pub record Structure : Type 0 where
  pub latest_high : Option SwingPoint
  pub latest_low : Option SwingPoint
  pub state : State
  pub broken_high : Option String
  pub broken_low : Option String

-- An entry of `groups` with its key.
pub record Group : Type 0 where
  pub name : String
  pub start : ℕ
  pub stop : ℕ
  pub first : ℕ
  pub highest : Decimal
  pub lowest : Decimal

pub record AnalysisEngine : Type 0 where
  pub bars : List Candle
  pub count : ℕ
  pub window_start : Option ℕ
  pub swings : List SwingPoint
  pub events : List StructureEvent
  pub levels : List LiquidityLevel
  pub zones : List Zone
  pub sessions : List SessionRange
  pub groups : List Group
  pub internal_structure : Structure
  pub external_structure : Structure
  pub indicators : Indicators

abbrev pub new_structure : Structure
new_structure = record {
  latest_high = none;
  latest_low = none;
  state = unknown;
  broken_high = none;
  broken_low = none;
}

abbrev pub new_analysis : AnalysisEngine
new_analysis = record {
  bars = [];
  count = 0;
  window_start = none;
  swings = [];
  events = [];
  levels = [];
  zones = [];
  sessions = [];
  groups = [];
  internal_structure = new_structure;
  external_structure = new_structure;
  indicators = new_indicators;
}

unfoldable pub tolerance : Setup → Decimal
tolerance s = s.config.tick_size *ᵈ of_int (pos s.config.equal_ticks)

abbrev pub end_of : Setup → Candle → ℕ
end_of s c = c.open_time + seconds_of s.timeframe

abbrev pub structure_of : Scope → AnalysisEngine → Structure
structure_of internal e = e.internal_structure
structure_of external e = e.external_structure

abbrev pub with_structure : Scope → Structure → AnalysisEngine → AnalysisEngine
with_structure internal t e = record e { internal_structure = t }
with_structure external t e = record e { external_structure = t }

abbrev pub latest_of : Side → Structure → Option SwingPoint
latest_of high t = t.latest_high
latest_of low t = t.latest_low

abbrev pub broken_of : Side → Structure → Option String
broken_of high t = t.broken_high
broken_of low t = t.broken_low

-- `self.broken.get((scope, side)) == swing.id`
abbrev pub is_broken : Option String → SwingPoint → Bool
is_broken none w = Bool.false
is_broken (some id) w = str_eq id w.id

-- `Zone.bounds`, which every zone that is built passes or raises.
unfoldable pub valid_zone : Zone → Bool
valid_zone z =
    z.lower_bound <ᵈ z.upper_bound
    && zero_dec ≤ᵈ z.fill_fraction
    && z.fill_fraction ≤ᵈ of_int (pos 1)

unfoldable pub built : Zone → Raises Zone
unfolding valid_zone
built z = if valid_zone z then ok z else raised validation_error
