-- ===== src/Analysis/Engine/Lifecycle.antt =====
-- analysis/engine.py: `_liquidity`, `_zones` and `_fvg`, which end levels and zones and find gaps.
use aigold_trader.Base.{
  Bool, true, false, ◌&&◌, ◌||◌, not, Option, none, some, List, [], ◌∷◌, ◌++◌, map, ltb, ◌==◌, pos,
  if◌then◌else◌,
}
use aigold_trader.Decimal.{
  Decimal, of_int, zero_dec, ◌<ᵈ◌, ◌≤ᵈ◌, ◌+ᵈ◌, ◌-ᵈ◌, ◌*ᵈ◌, min_dec, max_dec, div_dec,
}
use aigold_trader.Risk.Domain.{Raises, ok, ◌>>=◌, lift}
use aigold_trader.MarketData.Aggregation.{Candle}
use aigold_trader.Analysis.Domain.{
  Direction, bullish, bearish, Side, high, low, LiquidityLevel, LevelStatus, Zone, ZoneKind,
  ZoneStatus, fvg, ifvg, ob, breaker, swept, opened, partially_filled, filled, mitigated,
}
use aigold_trader.Analysis.Indicators.{rounded}
use aigold_trader.Analysis.Engine.{Setup, AnalysisEngine, tolerance, end_of, built}

abbrev pub is_active : LevelStatus → Bool
is_active LevelStatus.active = true
is_active swept = false
is_active LevelStatus.invalidated = false

-- A level is looked at while it is ACTIVE, from the first candle that opens after its confirmation.
abbrev pub is_watched : Candle → LiquidityLevel → Bool
is_watched c l = is_active l.status && not (ltb c.open_time l.confirmed_at)

abbrev pub crossed_level : Decimal → Candle → LiquidityLevel → Side → Bool
crossed_level t c l high = l.price +ᵈ t <ᵈ c.high
crossed_level t c l low = c.low <ᵈ l.price -ᵈ t

abbrev pub inside_level : Candle → LiquidityLevel → Side → Bool
inside_level c l high = c.close ≤ᵈ l.price
inside_level c l low = l.price ≤ᵈ c.close

abbrev pub broken_level : Decimal → Candle → LiquidityLevel → Side → Bool
broken_level t c l high = l.price +ᵈ t <ᵈ c.close
broken_level t c l low = c.close <ᵈ l.price -ᵈ t

abbrev pub extreme_of : Side → Candle → Decimal
extreme_of high c = c.high
extreme_of low c = c.low

abbrev pub swept_by : Setup → Candle → LiquidityLevel → LiquidityLevel
swept_by s c l = record l {
  status = swept;
  swept_at = some (end_of s c);
  sweep_price = some (extreme_of l.side c);
  ended_at = some (end_of s c);
}

abbrev pub invalidated_by : Setup → Candle → LiquidityLevel → LiquidityLevel
invalidated_by s c l = record l { status = LevelStatus.invalidated; ended_at = some (end_of s c) }

unfoldable pub next_level : Setup → Candle → LiquidityLevel → LiquidityLevel
next_level s c l =
    if is_watched c l
    then (if crossed_level (tolerance s) c l l.side && inside_level c l l.side
        then swept_by s c l
        else if broken_level (tolerance s) c l l.side
        then invalidated_by s c l
        else l)
    else l

-- `_liquidity`
unfoldable pub liquidity : Setup → Candle → AnalysisEngine → AnalysisEngine
unfolding next_level
liquidity s c e = record e { levels = map (next_level s c) e.levels }

abbrev pub is_ended : ZoneStatus → Bool
is_ended filled = true
is_ended ZoneStatus.invalidated = true
is_ended opened = false
is_ended partially_filled = false
is_ended ZoneStatus.active = false
is_ended mitigated = false

abbrev pub is_skipped : Candle → Zone → Bool
is_skipped c z = is_ended z.status || ltb c.open_time z.confirmed_at

abbrev pub is_invalid : Decimal → Candle → Zone → Direction → Bool
is_invalid t c z bullish = c.close <ᵈ z.lower_bound -ᵈ t
is_invalid t c z bearish = z.upper_bound +ᵈ t <ᵈ c.close

abbrev pub is_touched : Candle → Zone → Bool
is_touched c z = c.low ≤ᵈ z.upper_bound && z.lower_bound ≤ᵈ c.high

abbrev pub opposite : Direction → Direction
opposite bullish = bearish
opposite bearish = bullish

abbrev pub inverted_as : Setup → Candle → Zone → ZoneKind → ZoneStatus → Zone
inverted_as s c z kind status = record {
  id = s.identity.inverse kind z.id c.open_time;
  kind = kind;
  direction = opposite z.direction;
  lower_bound = z.lower_bound;
  upper_bound = z.upper_bound;
  occurred_at = c.open_time;
  confirmed_at = end_of s c;
  status = status;
  source_event_id = some z.id;
  fill_fraction = zero_dec;
  ended_at = none;
}

-- The zone that an invalidated one turns into.
abbrev pub inverted : Setup → Candle → Zone → ZoneKind → Raises (List Zone)
inverted s c z fvg = do new ← built (inverted_as s c z ifvg opened); ok (new ∷ [])
inverted s c z ob = do new ← built (inverted_as s c z breaker ZoneStatus.active); ok (new ∷ [])
inverted s c z ifvg = ok []
inverted s c z breaker = ok []

abbrev pub is_gap : ZoneKind → Bool
is_gap fvg = true
is_gap ifvg = true
is_gap ob = false
is_gap breaker = false

abbrev pub depth : Candle → Zone → Direction → Decimal
depth c z bullish = z.upper_bound -ᵈ c.low
depth c z bearish = c.high -ᵈ z.lower_bound

abbrev pub filled_to : Setup → Candle → Zone → Decimal → Decimal → Zone
filled_to s c z fraction shown =
    if of_int (pos 1) ≤ᵈ fraction
    then record z { status = filled; fill_fraction = shown; ended_at = some (end_of s c) }
    else record z { status = partially_filled; fill_fraction = shown; ended_at = none }

unfoldable pub touched_zone : Setup → Candle → Zone → Raises Zone
touched_zone s c z =
    if is_gap z.kind
    then (do
      part ← lift (div_dec (depth c z z.direction) (z.upper_bound -ᵈ z.lower_bound))
      let fraction = min_dec (of_int (pos 1)) (max_dec z.fill_fraction part)
      shown ← rounded fraction
      ok (filled_to s c z fraction shown))
    else ok (record z { status = mitigated })

-- One pass of the loop over the zones: the zone, and the new one that comes of it.
unfoldable pub next_zone : Setup → Candle → Zone → Raises (Zone × List Zone)
unfolding touched_zone
next_zone s c z =
    let touched = (do y ← touched_zone s c z; ok (y, [])) in
    let ended = (do
      new ← inverted s c z z.kind
      ok (record z { status = ZoneStatus.invalidated; ended_at = some (end_of s c) }, new)) in
    if is_skipped c z
    then ok (z, [])
    else if is_invalid (tolerance s) c z z.direction
    then ended
    else if is_touched c z
    then touched
    else ok (z, [])

unfoldable pub next_zones : Setup → Candle → List Zone → Raises (List Zone × List Zone)
unfolding next_zone
next_zones s c [] = ok ([], [])
next_zones s c (z ∷ zs) = do
  first ← next_zone s c z
  rest ← next_zones s c zs
  ok (first.0 ∷ rest.0, first.1 ++ rest.1)

-- `_zones`
unfoldable pub update_zones : Setup → Candle → AnalysisEngine → Raises AnalysisEngine
update_zones s c e = do next ← next_zones s c e.zones; ok (record e { zones = next.0 ++ next.1 })

abbrev pub gap_zone : Setup → Candle → Candle → Direction → Decimal → Decimal → Zone
gap_zone s first c direction from to = record {
  id = s.identity.gap c.open_time;
  kind = fvg;
  direction = direction;
  lower_bound = from;
  upper_bound = to;
  occurred_at = first.open_time;
  confirmed_at = end_of s c;
  status = opened;
  source_event_id = none;
  fill_fraction = zero_dec;
  ended_at = none;
}

unfoldable pub gap_between : Setup → Candle → Candle → Option Zone
gap_between s first c =
    let gap = s.config.tick_size *ᵈ of_int (pos s.config.minimum_gap_ticks) in
    if gap ≤ᵈ c.low -ᵈ first.high
    then some (gap_zone s first c bullish first.high c.low)
    else if gap ≤ᵈ first.low -ᵈ c.high
    then some (gap_zone s first c bearish c.high first.low)
    else none

abbrev pub with_zone : Option Zone → AnalysisEngine → Raises AnalysisEngine
with_zone none e = ok e
with_zone (some z) e = do new ← built z; ok (record e { zones = e.zones ++ new ∷ [] })

-- The last three bars, of which the candle is the last.
unfoldable pub gap_of_three : Setup → Candle → List Candle → Option Zone
unfolding gap_between
gap_of_three s c (first ∷ second ∷ third ∷ []) =
    if end_of s first == second.open_time && end_of s second == c.open_time
    then gap_between s first c
    else none
gap_of_three s c (first ∷ second ∷ third ∷ fourth ∷ rest) =
    gap_of_three s c (second ∷ third ∷ fourth ∷ rest)
gap_of_three s c _ = none

-- `_fvg`
unfoldable pub find_gap : Setup → Candle → AnalysisEngine → Raises AnalysisEngine
unfolding gap_of_three
find_gap s c e = with_zone (gap_of_three s c e.bars) e
