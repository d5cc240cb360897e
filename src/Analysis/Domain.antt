-- ===== src/Analysis/Domain.antt =====
-- analysis/domain.py: the configuration and the objects of an analysis. Instants are in seconds.
use aigold_trader.Base.{ℕ, String, Bool, Option, List}
use aigold_trader.Decimal.{Decimal}

pub record AnalysisConfig : Type 0 where
  pub internal_left : ℕ
  pub internal_right : ℕ
  pub external_left : ℕ
  pub external_right : ℕ
  pub tick_size : Decimal
  pub equal_ticks : ℕ
  pub minimum_gap_ticks : ℕ
  pub atr_period : ℕ
  pub average_period : ℕ
  pub displacement_atr : Decimal
  pub displacement_close_fraction : Decimal
  pub ob_lookback : ℕ
  pub adx_trend_threshold : Decimal
  pub high_volatility_ratio : Decimal
  pub low_volatility_ratio : Decimal
  pub session_hours : List (String × ℕ × ℕ)
  pub max_objects : ℕ

pub data State : Type 0 where
  bullish bearish neutral unknown : State

pub data Direction : Type 0 where
  bullish bearish : Direction

pub data Scope : Type 0 where
  internal external : Scope

pub data Side : Type 0 where
  high low : Side

pub data Label : Type 0 where
  sh sl hh hl lh ll eqh eql : Label

pub record SwingPoint : Type 0 where
  pub id : String
  pub scope : Scope
  pub kind : Side
  pub label : Label
  pub price : Decimal
  pub swing_time : ℕ
  pub confirmed_at : ℕ

pub data EventKind : Type 0 where
  bos choch mss : EventKind

pub record StructureEvent : Type 0 where
  pub id : String
  pub scope : Scope
  pub kind : EventKind
  pub direction : Direction
  pub price : Decimal
  pub swing_id : String
  pub swing_time : ℕ
  pub occurred_at : ℕ
  pub confirmed_at : ℕ
  pub displacement : Bool
  pub parent_event_id : Option String

-- BSL and SSL, EQH and EQL, the sides of a session, and PDH, PDL, PWH and PWL by their period.
pub data LevelKind : Type 0 where
  liquidity equal session : Side → LevelKind
  period : String → Side → LevelKind

pub data LevelStatus : Type 0 where
  active swept invalidated : LevelStatus

pub record LiquidityLevel : Type 0 where
  pub id : String
  pub kind : LevelKind
  pub side : Side
  pub price : Decimal
  pub created_at : ℕ
  pub confirmed_at : ℕ
  pub source_ids : List String
  pub status : LevelStatus
  pub swept_at : Option ℕ
  pub sweep_price : Option Decimal
  pub ended_at : Option ℕ

pub data ZoneKind : Type 0 where
  fvg ifvg ob breaker : ZoneKind

pub data ZoneStatus : Type 0 where
  opened partially_filled filled active mitigated invalidated : ZoneStatus

pub record Zone : Type 0 where
  pub id : String
  pub kind : ZoneKind
  pub direction : Direction
  pub lower_bound : Decimal
  pub upper_bound : Decimal
  pub occurred_at : ℕ
  pub confirmed_at : ℕ
  pub status : ZoneStatus
  pub source_event_id : Option String
  pub fill_fraction : Decimal
  pub ended_at : Option ℕ

pub record SessionRange : Type 0 where
  pub name : String
  pub start : ℕ
  pub end : ℕ
  pub high : Decimal
  pub low : Decimal
  pub confirmed_at : ℕ

pub data HistoryStatus : Type 0 where
  complete partial empty : HistoryStatus

pub record History : Type 0 where
  pub requested : ℕ
  pub returned : ℕ
  pub closed : ℕ
  pub status : HistoryStatus

pub data Status : Type 0 where
  ready partial_history insufficient_data no_structure : Status

pub record ModuleStatus : Type 0 where
  pub status : Status
  pub minimum_bars_required : ℕ
  pub available_bars : ℕ

pub data Location : Type 0 where
  premium discount equilibrium : Location

pub record DealingRange : Type 0 where
  pub lower_bound : Decimal
  pub middle : Decimal
  pub upper_bound : Decimal
  pub origin_time : ℕ
  pub confirmed_at : ℕ
  pub direction : Direction
  pub swing_ids : List String
  pub location : Location
  pub retracement_62 : Decimal
  pub retracement_79 : Decimal

pub record IndicatorValue : Type 0 where
  pub value : Option Decimal
  pub minimum_bars_required : ℕ
  pub is_ready : Bool

pub data Regime : Type 0 where
  trending_up trending_down ranging high_volatility low_volatility breakout pullback unknown :
      Regime
