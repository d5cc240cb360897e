-- ===== src/Analysis/Range.antt =====
-- analysis/engine.py: `_range`, the dealing range between two swings of a scope.

pub mod Spans
use aigold_trader.Base.{
  ◌+◌, ◌-◌, ◌*◌, Bool, true, false, ◌&&◌, not, Option, none, some, List, [], ◌∷◌, ltb, pos,
  if◌then◌else◌,
}
use aigold_trader.Decimal.{Decimal, of_int, dec, ◌<ᵈ◌, ◌≤ᵈ◌, ◌+ᵈ◌, ◌-ᵈ◌, ◌*ᵈ◌, abs_dec, div_dec}
use aigold_trader.Risk.Domain.{Raises, ok, raised, type_error, ◌>>=◌, lift}
use aigold_trader.MarketData.Aggregation.{Candle}
use aigold_trader.Analysis.Domain.{
  Direction, bullish, bearish, Scope, internal, external, Side, high, low, SwingPoint, Location,
  premium, discount, equilibrium, DealingRange,
}
use aigold_trader.Analysis.Indicators.{rounded}
use aigold_trader.Analysis.Engine.{Setup, AnalysisEngine, tolerance}
use aigold_trader.Analysis.Engine.Breaks.{find_last}

-- `self.bars[-1]`
unfoldable pub last_bar : List Candle → Option Candle
last_bar [] = none
last_bar (b ∷ []) = some b
last_bar (b ∷ c ∷ rest) = last_bar (c ∷ rest)

-- A value that the code uses without a check for None.
abbrev pub needed : {A : Type 0} → Option A → Raises A
needed none = raised type_error
needed (some a) = ok a

abbrev pub is_scope : Scope → Scope → Bool
is_scope internal internal = true
is_scope external external = true
is_scope internal external = false
is_scope external internal = false

abbrev pub is_high : Side → Bool
is_high high = true
is_high low = false

abbrev pub other_kind : Side → Side → Bool
other_kind high k = not (is_high k)
other_kind low k = is_high k

abbrev pub lower_price : SwingPoint → SwingPoint → Decimal
lower_price last previous = if is_high last.kind then previous.price else last.price

abbrev pub upper_price : SwingPoint → SwingPoint → Decimal
upper_price last previous = if is_high last.kind then last.price else previous.price

abbrev pub location_of : Setup → Decimal → Decimal → Location
location_of s close eq =
    if abs_dec (close -ᵈ eq) ≤ᵈ tolerance s
    then equilibrium
    else if eq <ᵈ close
    then premium
    else discount

abbrev pub retraced : Side → Decimal → Decimal → Decimal → Decimal
retraced high bottom top v = top -ᵈ (top -ᵈ bottom) *ᵈ v
retraced low bottom top v = bottom +ᵈ (top -ᵈ bottom) *ᵈ v

abbrev pub range_direction : Side → Direction
range_direction high = bullish
range_direction low = bearish

abbrev pub range_record :
    Setup → SwingPoint → SwingPoint → Candle → Decimal → Decimal → Decimal → DealingRange
range_record s last previous bar eq r62 r79 = record {
  lower_bound = lower_price last previous;
  middle = eq;
  upper_bound = upper_price last previous;
  origin_time = previous.swing_time;
  confirmed_at = last.confirmed_at;
  direction = range_direction last.kind;
  swing_ids = previous.id ∷ last.id ∷ [];
  location = location_of s bar.close eq;
  retracement_62 = r62;
  retracement_79 = r79;
}

unfoldable pub range_between :
    Setup → List Candle → SwingPoint → SwingPoint → Raises (Option DealingRange)
unfolding last_bar rounded
range_between s bars last previous =
    let bottom = lower_price last previous in
    let top = upper_price last previous in
    do
      half ← lift (div_dec (top +ᵈ bottom) (of_int (pos 2)))
      eq ← rounded half
      bar ← needed (last_bar bars)
      r62 ← rounded (retraced last.kind bottom top (dec (pos 62) 2))
      r79 ← rounded (retraced last.kind bottom top (dec (pos 79) 2))
      ok (some (range_record s last previous bar eq r62 r79))

-- Two swings that a range spans.
abbrev pub spans : Setup → SwingPoint → SwingPoint → Bool
spans s last previous =
    ltb previous.swing_time last.swing_time
    && not (upper_price last previous -ᵈ lower_price last previous ≤ᵈ tolerance s)

-- The last swing of a scope before this one that is of the other kind. The last one is of its own
-- kind, so that it need not be left out.
abbrev pub previous_of : Scope → List SwingPoint → SwingPoint → Option SwingPoint
previous_of scope swings last =
    find_last (λ w. is_scope w.scope scope && other_kind last.kind w.kind) swings

-- The range of a scope, or what the next scope gives.
abbrev pub range_or :
    Setup
    → List Candle
    → SwingPoint
    → Option SwingPoint
    → Raises (Option DealingRange)
    → Raises (Option DealingRange)
range_or s bars last none next = next
range_or s bars last (some previous) next =
    let found = range_between s bars last previous in if spans s last previous then found else next

abbrev pub try_range :
    Setup
    → AnalysisEngine
    → Scope
    → Option SwingPoint
    → Raises (Option DealingRange)
    → Raises (Option DealingRange)
try_range s e scope none next = next
try_range s e scope (some last) next = range_or s e.bars last (previous_of scope e.swings last) next

abbrev pub last_swing : Scope → List SwingPoint → Option SwingPoint
last_swing scope swings = find_last (λ w. is_scope w.scope scope) swings

-- `_range`
unfoldable pub dealing_range : Setup → AnalysisEngine → Raises (Option DealingRange)
unfolding find_last range_between
dealing_range s e =
    try_range s e external (last_swing external e.swings)
      (try_range s e internal (last_swing internal e.swings) (ok none))
