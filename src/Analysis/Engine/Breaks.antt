-- ===== src/Analysis/Engine/Breaks.antt =====
-- analysis/engine.py: `displacement`, `_event` and `_breaks`, the structure events of a close beyond
-- the latest swings.
use text.Mathlib.Text.{◌==◌ as str_eq}
use aigold_trader.Base.{
  String, Bool, true, false, ◌&&◌, Option, none, some, List, [], ◌∷◌, ◌++◌, any, if◌then◌else◌,
}
use aigold_trader.Decimal.{Decimal, zero_dec, ◌<ᵈ◌, ◌≤ᵈ◌, ◌+ᵈ◌, ◌-ᵈ◌, ◌*ᵈ◌, abs_dec, div_dec}
use aigold_trader.Risk.Domain.{Raises, ok, ◌>>=◌, lift}
use aigold_trader.MarketData.Aggregation.{Candle}
use aigold_trader.Analysis.Domain.{
  State, neutral, unknown, Direction, bullish, bearish, Scope, internal, external, Side, high, low,
  SwingPoint, EventKind, bos, choch, mss, StructureEvent, Zone, ZoneStatus, ob,
}
use aigold_trader.Analysis.Indicators.{value_of, last_of}
use aigold_trader.Analysis.Engine.{
  Setup, Structure, AnalysisEngine, tolerance, end_of, structure_of, with_structure, latest_of,
  broken_of, is_broken, built,
}

abbrev pub direction_of : Side → Direction
direction_of high = bullish
direction_of low = bearish

abbrev pub state_of : Direction → State
state_of bullish = State.bullish
state_of bearish = State.bearish

abbrev pub is_body : Direction → Decimal → Bool
is_body bullish body = zero_dec <ᵈ body
is_body bearish body = body <ᵈ zero_dec

abbrev pub run_of : Direction → Candle → Decimal
run_of bullish c = c.close -ᵈ c.low
run_of bearish c = c.high -ᵈ c.close

unfoldable pub displaced_from : Setup → Decimal → Candle → Direction → Raises Bool
displaced_from s atr c d =
    let extent = c.high -ᵈ c.low in
    let body = c.close -ᵈ c.open_price in
    let measured = (do
      location ← lift (div_dec (run_of d c) extent)
      ok (
          is_body d body
          && s.config.displacement_atr *ᵈ atr ≤ᵈ abs_dec body
          && s.config.displacement_close_fraction ≤ᵈ location)) in
    if atr ≤ᵈ zero_dec then ok false else if extent ≤ᵈ zero_dec then ok false else measured

-- `displacement`, by the atr before this candle.
abbrev pub displacement : Setup → Option Decimal → Candle → Direction → Raises Bool
displacement s none c d = ok false
displacement s (some atr) c d = displaced_from s atr c d

abbrev pub is_opposing : Direction → Candle → Bool
is_opposing bullish o = o.close <ᵈ o.open_price && o.low <ᵈ o.high
is_opposing bearish o = o.open_price <ᵈ o.close && o.low <ᵈ o.high

abbrev pub or_else : {A : Type 0} → Option A → Option A → Option A
or_else (some x) o = some x
or_else none o = o

-- The last element that passes.
unfoldable pub find_last : {A : Type 0} → (A → Bool) → List A → Option A
find_last p [] = none
find_last p (x ∷ xs) = or_else (find_last p xs) (if p x then some x else none)

abbrev pub block_of : Setup → Candle → Direction → String → Candle → Zone
block_of s c d event_id o = record {
  id = s.identity.order_block d o.open_time;
  kind = ob;
  direction = d;
  lower_bound = o.low;
  upper_bound = o.high;
  occurred_at = o.open_time;
  confirmed_at = end_of s c;
  status = ZoneStatus.active;
  source_event_id = some event_id;
  fill_fraction = zero_dec;
  ended_at = none;
}

abbrev pub has_zone : String → List Zone → Bool
has_zone id zones = any (λ z. str_eq z.id id) zones

-- The order block of an event: the last opposing bar, where it is not there yet.
unfoldable pub with_block :
    Setup → Candle → Direction → String → Option Candle → List Zone → Raises (List Zone)
with_block s c d event_id none zones = ok zones
with_block s c d event_id (some o) zones =
    let added = (do z ← built (block_of s c d event_id o); ok (zones ++ z ∷ [])) in
    if has_zone (s.identity.order_block d o.open_time) zones then ok zones else added

abbrev pub event_of :
    Setup → Candle → EventKind → Scope → Side → SwingPoint → Bool → Option String → StructureEvent
event_of s c kind scope side w displaced parent = record {
  id = s.identity.event kind scope c.open_time w.id;
  scope = scope;
  kind = kind;
  direction = direction_of side;
  price = w.price;
  swing_id = w.id;
  swing_time = w.swing_time;
  occurred_at = c.open_time;
  confirmed_at = end_of s c;
  displacement = displaced;
  parent_event_id = parent;
}

abbrev pub marks_block : EventKind → Bool
marks_block bos = true
marks_block choch = false
marks_block mss = true

-- `_event`
unfoldable pub add_event :
    Setup → Candle → Side → StructureEvent → AnalysisEngine → Raises AnalysisEngine
unfolding with_block find_last
add_event s c side v e =
    let origin =
      find_last (is_opposing (direction_of side)) (last_of s.config.ob_lookback e.bars) in
    do
      zones ←
          (if v.displacement && marks_block v.kind
            then with_block s c (direction_of side) v.id origin e.zones
            else ok e.zones)
      ok (record e { events = e.events ++ v ∷ []; zones = zones })

abbrev pub is_crossed : Setup → Candle → Side → SwingPoint → Bool
is_crossed s c high w = w.price +ᵈ tolerance s <ᵈ c.close
is_crossed s c low w = c.close <ᵈ w.price -ᵈ tolerance s

abbrev pub marked : Side → SwingPoint → Structure → Structure
marked high w t = record t { broken_high = some w.id }
marked low w t = record t { broken_low = some w.id }

abbrev pub with_state : Scope → State → AnalysisEngine → AnalysisEngine
with_state scope st e = with_structure scope (record (structure_of scope e) { state = st }) e

-- The direction of an established state that a break meets.
pub data Meets : Type 0 where
  same other nothing : Meets

abbrev pub meets : State → Side → Meets
meets State.bullish high = same
meets State.bullish low = other
meets State.bearish high = other
meets State.bearish low = same
meets neutral _ = nothing
meets unknown _ = nothing

-- A break against the state warns, and shifts the structure where it is displaced.
unfoldable pub shifted :
    Setup → Candle → Scope → Side → SwingPoint → Bool → AnalysisEngine → Raises AnalysisEngine
unfolding add_event
shifted s c scope side w displaced e =
    let warning = event_of s c choch scope side w displaced none in
    do
      warned ← add_event s c side warning e
      let still = with_state scope neutral warned
      (if displaced
          then (do
            moved ← add_event s c side (event_of s c mss scope side w true (some warning.id)) still
            ok (with_state scope (state_of (direction_of side)) moved))
          else ok still)

abbrev pub break_of :
    Setup
    → Candle
    → Scope
    → Side
    → SwingPoint
    → Bool
    → Meets
    → AnalysisEngine
    → Raises AnalysisEngine
break_of s c scope side w displaced same e =
    add_event s c side (event_of s c bos scope side w displaced none) e
break_of s c scope side w displaced other e = shifted s c scope side w displaced e
break_of s c scope side w displaced nothing e =
    ok (with_state scope (state_of (direction_of side)) e)

unfoldable pub break_swing :
    Setup → Candle → Scope → Side → SwingPoint → AnalysisEngine → Raises AnalysisEngine
unfolding shifted
break_swing s c scope side w e =
    let t = structure_of scope e in
    let broken = with_structure scope (marked side w t) e in
    let step = (do
      displaced ← displacement s (value_of e.indicators.atr) c (direction_of side)
      break_of s c scope side w displaced (meets t.state side) broken) in
    if is_broken (broken_of side t) w then ok e else if is_crossed s c side w then step else ok e

abbrev pub break_latest :
    Setup → Candle → Scope → Side → Option SwingPoint → AnalysisEngine → Raises AnalysisEngine
break_latest s c scope side none e = ok e
break_latest s c scope side (some w) e = break_swing s c scope side w e

abbrev pub break_side : Setup → Candle → Scope → Side → AnalysisEngine → Raises AnalysisEngine
break_side s c scope side e = break_latest s c scope side (latest_of side (structure_of scope e)) e

-- `_breaks`
unfoldable pub breaks : Setup → Candle → AnalysisEngine → Raises AnalysisEngine
unfolding break_swing
breaks s c e = do
  e1 ← break_side s c internal high e
  e2 ← break_side s c internal low e1
  e3 ← break_side s c external high e2
  break_side s c external low e3
