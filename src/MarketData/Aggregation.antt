-- ===== src/MarketData/Aggregation.antt =====
-- market_data/aggregation.py with the timeframes, `bucket` and the candle of market_data/domain.py.
-- Opening times are whole seconds of the epoch and ticks are timed in microseconds; `bucket` is that
-- of the source from Monday 1970-01-05 on, where its subtraction is not negative. A dictionary over the
-- timeframes is a function. The validation that a merge and a tick run on the candle they construct is
-- `valid_candle`; the engine is modelled where it passes, so for volumes that stay an Amount.
pub mod Refines
pub mod Valid
use aigold_trader.Base.{
  ◌^◌, pos, ℕ, ◌+◌, ◌-◌, ◌*◌, ◌/◌, String, Bool, true, false, ◌&&◌, ◌||◌, not, Option, none, some,
  List, [], ◌∷◌, ◌++◌, leb, ◌==◌, if◌then◌else◌,
}
use aigold_trader.Decimal.{
  Decimal, of_int, zero_dec, ◌<ᵈ◌, ◌≤ᵈ◌, ◌+ᵈ◌, max_dec, min_dec, eq_dec, abs_dec, quantize,
}
use aigold_trader.Risk.Domain.{Raises, ok, raised, validation_error}

pub data Timeframe : Type 0 where
  m1 m3 m5 m15 m30 h1 h4 d1 w1 : Timeframe

abbrev pub timeframes : List Timeframe
timeframes = m1 ∷ m3 ∷ m5 ∷ m15 ∷ m30 ∷ h1 ∷ h4 ∷ d1 ∷ w1 ∷ []

-- `SECONDS`
abbrev pub seconds_of : Timeframe → ℕ
seconds_of m1 = 60
seconds_of m3 = 180
seconds_of m5 = 300
seconds_of m15 = 900
seconds_of m30 = 1800
seconds_of h1 = 3600
seconds_of h4 = 14400
seconds_of d1 = 86400
seconds_of w1 = 604800

-- Weeks start on Monday.
abbrev pub offset_of : Timeframe → ℕ
offset_of w1 = 345600
offset_of _ = 0

unfoldable pub bucket : ℕ → Timeframe → ℕ
bucket seconds tf = (seconds - offset_of tf) / seconds_of tf * seconds_of tf + offset_of tf

pub record Candle : Type 0 where
  pub symbol : String
  pub timeframe : Timeframe
  pub open_time : ℕ
  pub open_price : Decimal
  pub high : Decimal
  pub low : Decimal
  pub close : Decimal
  pub volume : Decimal
  pub bid_close : Decimal
  pub ask_close : Option Decimal
  pub source : String
  pub is_closed : Bool

abbrev pub below_bid : Option Decimal → Decimal → Bool
below_bid none bid = false
below_bid (some ask) bid = ask <ᵈ bid

-- `Candle.valid_ohlc`
unfoldable pub valid_ohlc : Candle → Bool
valid_ohlc c =
    not (
      c.high <ᵈ max_dec (max_dec c.open_price c.close) c.low
      || min_dec (min_dec c.open_price c.close) c.high <ᵈ c.low)
    && not
        (below_bid c.ask_close c.bid_close || not (c.open_time == bucket c.open_time c.timeframe))

-- At most five decimal places, and so many digits before the point.
abbrev pub has_places : Option Decimal → Decimal → Bool
has_places none d = false
has_places (some r) d = eq_dec r d

unfoldable pub within_digits : ℕ → Decimal → Bool
within_digits whole d = has_places (quantize 5 d) d && abs_dec d <ᵈ of_int (pos (10 ^ whole))

-- `Price` has at most 18 digits, `Amount` at most 20.
unfoldable pub is_price : Decimal → Bool
unfolding within_digits
is_price d = zero_dec <ᵈ d && within_digits 13 d

unfoldable pub is_amount : Decimal → Bool
unfolding within_digits
is_amount d = zero_dec ≤ᵈ d && within_digits 15 d

abbrev pub is_ask : Option Decimal → Bool
is_ask none = true
is_ask (some ask) = is_price ask

-- The validation of a Candle, its numbers and then `valid_ohlc`. The patterns of the names of symbol
-- and source are left out.
unfoldable pub valid_candle : Candle → Bool
valid_candle c =
    is_price c.open_price
    && is_price c.high
    && is_price c.low
    && is_price c.close
    && is_price c.bid_close
    && is_ask c.ask_close
    && is_amount c.volume
    && valid_ohlc c

-- `timestamp` is in microseconds.
pub record Tick : Type 0 where
  pub tick_symbol : String
  pub timestamp : ℕ
  pub bid : Decimal
  pub ask : Decimal
  pub tick_volume : Decimal
  pub tick_source : String

abbrev pub open_or : Option Candle → Decimal → Decimal
open_or none d = d
open_or (some c) d = c.open_price

abbrev pub high_or : Option Candle → Decimal → Decimal
high_or none d = d
high_or (some c) d = max_dec c.high d

abbrev pub low_or : Option Candle → Decimal → Decimal
low_or none d = d
low_or (some c) d = min_dec c.low d

abbrev pub volume_or : Option Candle → Decimal
volume_or none = zero_dec
volume_or (some c) = c.volume

unfoldable pub merge : Option Candle → Candle → Timeframe → Candle
merge left right tf = record {
  symbol = right.symbol;
  timeframe = tf;
  open_time = bucket right.open_time tf;
  open_price = open_or left right.open_price;
  high = high_or left right.high;
  low = low_or left right.low;
  close = right.close;
  volume = volume_or left +ᵈ right.volume;
  bid_close = right.bid_close;
  ask_close = right.ask_close;
  source = right.source;
  is_closed = false;
}

-- `prefix` and `current` of one timeframe.
pub record Slot : Type 0 where
  pub prefix : Option Candle
  pub current : Option Candle

pub record CandleEngine : Type 0 where
  pub base : Option Candle
  pub slots : Timeframe → Slot
  pub last_tick : Option ℕ

-- `CandleEngine()`
abbrev pub new_engine : CandleEngine
new_engine = record {
  base = none;
  slots = λ tf. record { prefix = none; current = none };
  last_tick = none;
}

abbrev pub is_m1 : Timeframe → Bool
is_m1 m1 = true
is_m1 _ = false

-- The current candle, where its window is over.
abbrev pub ended : Option Candle → ℕ → Option Candle
ended none start = none
ended (some c) start = if c.open_time == start then none else some c

-- The minute before, where the new base does not replace it.
abbrev pub finished : Option Candle → Candle → Option Candle
finished none base = none
finished (some p) base = if p.open_time == base.open_time then none else some p

abbrev pub with_finished : Timeframe → Option Candle → Option Candle → Option Candle
with_finished tf prefix none = prefix
with_finished tf prefix (some p) = if is_m1 tf then prefix else some (merge prefix p tf)

abbrev pub next_prefix : Timeframe → Option Candle → Option Candle → Option Candle → Option Candle
next_prefix tf prefix (some over) previous = none
next_prefix tf prefix none previous = with_finished tf prefix previous

-- The body of the loop over the timeframes.
abbrev pub replace_at : Timeframe → Option Candle → Candle → Slot → Slot
replace_at tf previous base s =
    let prefix =
      next_prefix tf s.prefix (ended s.current (bucket base.open_time tf))
        (finished previous base) in
    record { prefix = prefix; current = some (merge prefix base tf) }

abbrev pub marked_closed : Option Candle → List Candle → List Candle
marked_closed none rest = rest
marked_closed (some c) rest = record c { is_closed = true } ∷ rest

abbrev pub closed_of : (Timeframe → Slot) → Candle → List Timeframe → List Candle
closed_of slots base [] = []
closed_of slots base (tf ∷ tfs) =
    marked_closed (ended (slots tf).current (bucket base.open_time tf)) (closed_of slots base tfs)

-- `_replace_base`: the candles that end, and the engine after.
unfoldable pub replace_base : Candle → CandleEngine → List Candle × CandleEngine
replace_base base e = (
  closed_of e.slots base timeframes,
  record e { base = some base; slots = λ tf. replace_at tf e.base base (e.slots tf) },
)

unfoldable pub seed : List Candle → CandleEngine → CandleEngine
seed [] e = e
seed (base ∷ bases) e = seed bases (replace_base base e).1

abbrev pub same_minute : Option Candle → ℕ → Option Candle
same_minute none start = none
same_minute (some c) start = if c.open_time == start then some c else none

abbrev pub tick_base : Tick → Option Candle → Candle
tick_base t old = record {
  symbol = t.tick_symbol;
  timeframe = m1;
  open_time = bucket (t.timestamp / 1000000) m1;
  open_price = open_or old t.bid;
  high = high_or old t.bid;
  low = low_or old t.bid;
  close = t.bid;
  volume = volume_or old +ᵈ t.tick_volume;
  bid_close = t.bid;
  ask_close = some t.ask;
  source = t.tick_source;
  is_closed = false;
}

abbrev pub out_of_order : Option ℕ → ℕ → Bool
out_of_order none t = false
out_of_order (some last) t = leb t last

abbrev pub all_current : (Timeframe → Slot) → List Timeframe → List Candle
all_current slots [] = []
all_current slots (tf ∷ tfs) = elim (slots tf).current [
  | none ↦ all_current slots tfs
  | some c ↦ c ∷ all_current slots tfs
]

-- `ingest`: the candles that end, then the current ones.
unfoldable pub ingest : Tick → CandleEngine → Raises (List Candle) × CandleEngine
ingest t e =
    if out_of_order e.last_tick t.timestamp
    then (raised validation_error, e)
    else let base = tick_base t (same_minute e.base (bucket (t.timestamp / 1000000) m1)) in
      let (closed, after) = replace_base base (record e { last_tick = some t.timestamp }) in
      (ok (closed ++ all_current after.slots timeframes), after)
