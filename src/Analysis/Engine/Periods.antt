-- ===== src/Analysis/Engine/Periods.antt =====
-- analysis/engine.py: `_periods`, the extremes of days, weeks and sessions.
use text.Mathlib.Text.{◌==◌ as str_eq}
use aigold_trader.Base.{
  ℕ, ◌+◌, ◌-◌, ◌*◌, ◌%◌, String, Bool, ◌&&◌, ◌||◌, none, List, [], ◌∷◌, ◌++◌, map, filterb, ltb,
  leb, ◌==◌, if◌then◌else◌,
}
use aigold_trader.Decimal.{Decimal, min_dec, max_dec}
use aigold_trader.MarketData.Aggregation.{Candle, d1, w1, bucket, seconds_of}
use aigold_trader.Analysis.Domain.{
  Side, high, low, LevelKind, LevelStatus, LiquidityLevel, SessionRange,
}
use aigold_trader.Analysis.Indicators.{last_of}
use aigold_trader.Analysis.Engine.{Setup, Group, AnalysisEngine, end_of}

pub record Window : Type 0 where
  pub name : String
  pub start : ℕ
  pub stop : ℕ

abbrev pub is_period : String → Bool
is_period name = str_eq name "PD" || str_eq name "PW"

abbrev pub kind_of : String → Side → LevelKind
kind_of name side = if is_period name then LevelKind.period name side else LevelKind.session side

abbrev pub session_window : ℕ → String × ℕ × ℕ → Window
session_window day (name, from, to) = record {
  name = name;
  start = day + from * 3600;
  stop = day + to * 3600;
}

-- A window whose ends are ends of candles.
abbrev pub is_compatible : Setup → Window → Bool
is_compatible s w =
    bucket w.start s.timeframe == w.start && (w.stop - w.start) % seconds_of s.timeframe == 0

unfoldable pub windows_of : Setup → Candle → List Window
windows_of s c =
    let day = bucket c.open_time d1 in
    let week = bucket c.open_time w1 in
    filterb (is_compatible s) (
      record { name = "PD"; start = day; stop = day + 86400 }
      ∷ record { name = "PW"; start = week; stop = week + 604800 }
      ∷ map (session_window day) s.config.session_hours)

abbrev pub window_level :
    Setup → Candle → String → ℕ → LevelKind → String → Side → Decimal → LiquidityLevel
window_level s c name start kind source side price = record {
  id = s.identity.window kind name start;
  kind = kind;
  side = side;
  price = price;
  created_at = start;
  confirmed_at = end_of s c;
  source_ids = source ∷ [];
  status = LevelStatus.active;
  swept_at = none;
  sweep_price = none;
  ended_at = none;
}

abbrev pub extended : Candle → Group → Group
extended c g = record g { highest = max_dec g.highest c.high; lowest = min_dec g.lowest c.low }

-- The last bar of a window counts where it lies in it.
abbrev pub completed : Setup → Candle → Group → Group
completed s c g = if leb g.start c.open_time && leb (end_of s c) g.stop then extended c g else g

abbrev pub group_levels : Setup → Candle → Group → List LiquidityLevel
group_levels s c g =
    let source = s.identity.window_source g.name g.start in
    window_level s c g.name g.start (kind_of g.name high) source high g.highest
    ∷ window_level s c g.name g.start (kind_of g.name low) source low g.lowest
    ∷ []

abbrev pub range_of : Setup → Candle → Group → SessionRange
range_of s c g = record {
  name = g.name;
  start = g.start;
  end = g.stop;
  high = g.highest;
  low = g.lowest;
  confirmed_at = end_of s c;
}

-- A window is complete where its first bar was seen.
unfoldable pub finish_group : Setup → Candle → Group → AnalysisEngine → AnalysisEngine
finish_group s c g e =
    let sessions = if is_period g.name then e.sessions else e.sessions ++ range_of s c g ∷ [] in
    if g.first == g.start
    then record e { sessions = sessions; levels = e.levels ++ group_levels s c g }
    else e

unfoldable pub finish_groups : Setup → Candle → List Group → AnalysisEngine → AnalysisEngine
unfolding finish_group
finish_groups s c [] e = e
finish_groups s c (g ∷ gs) e =
    let next = if ltb (end_of s c) g.stop then e else finish_group s c (completed s c g) e in
    finish_groups s c gs next

abbrev pub is_open : Setup → Candle → Group → Bool
is_open s c g = ltb (end_of s c) g.stop

abbrev pub is_keyed : Window → Group → Bool
is_keyed w g = str_eq g.name w.name && g.start == w.start && g.stop == w.stop

abbrev pub new_group : Candle → Window → Group
new_group c w = record {
  name = w.name;
  start = w.start;
  stop = w.stop;
  first = c.open_time;
  highest = c.high;
  lowest = c.low;
}

-- `self.groups[key] = …`
unfoldable pub count_in : Candle → Window → List Group → List Group
count_in c w [] = extended c (new_group c w) ∷ []
count_in c w (g ∷ gs) =
    let rest = count_in c w gs in if is_keyed w g then extended c g ∷ gs else g ∷ rest

-- The levels of a period of one bar.
abbrev pub bar_levels : Setup → Candle → Window → List LiquidityLevel
bar_levels s c w =
    window_level s c w.name w.start (LevelKind.period w.name high) w.name high c.high
    ∷ window_level s c w.name w.start (LevelKind.period w.name low) w.name low c.low
    ∷ []

unfoldable pub visit_window : Setup → Candle → Window → AnalysisEngine → AnalysisEngine
unfolding count_in
visit_window s c w e =
    if ltb c.open_time w.start || ltb w.stop (end_of s c)
    then e
    else if c.open_time == w.start && end_of s c == w.stop
    then (if is_period w.name then record e { levels = e.levels ++ bar_levels s c w } else e)
    else if end_of s c == w.stop
    then e
    else record e { groups = count_in c w e.groups }

unfoldable pub visit_windows : Setup → Candle → List Window → AnalysisEngine → AnalysisEngine
unfolding visit_window
visit_windows s c [] e = e
visit_windows s c (w ∷ ws) e = visit_windows s c ws (visit_window s c w e)

-- `_periods`
unfoldable pub periods : Setup → Candle → AnalysisEngine → AnalysisEngine
unfolding windows_of finish_groups visit_windows
periods s c e =
    let finished = finish_groups s c e.groups e in
    let visited =
      visit_windows s c (windows_of s c)
        (record finished { groups = filterb (is_open s c) e.groups }) in
    record visited { sessions = last_of 32 visited.sessions }
