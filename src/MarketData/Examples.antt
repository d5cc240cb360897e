-- ===== src/MarketData/Examples.antt =====
-- The candle engine at concrete minutes and ticks.
use aigold_trader.Base.{
  ℕ, ◌≡◌, ◌⊎◌, ◌/◌, ◌^◌, refl, sym, ap, ◌∙◌, true, false, some, List, [], ◌∷◌, pos, All,
}
use aigold_trader.Decimal.{
  of_int, zero_dec, dec, ◌<ᵈ◌, ◌≤ᵈ◌, max_dec, min_dec, quantize, abs_dec, neg_dec, eq_dec,
}
use aigold_trader.Risk.Domain.{raised, validation_error}
use aigold_trader.MarketData.Aggregation.{
  m1, m5, bucket, Candle, Tick, CandleEngine, new_engine, is_price, is_amount, valid_ohlc,
  valid_candle, merge, replace_base, seed, same_minute, tick_base, out_of_order, ingest,
}
use aigold_trader.MarketData.Aggregation.Valid.{merge_valid}
use aigold_trader.MarketData.Aggregation.Refines.{
  IsMinute, Holds, Window, aggregate, next_window, windows, seed_aggregates, ingest-Holds,
}

abbrev minute : ℕ → ℕ → ℕ → Candle
minute t price v = record {
  symbol = "XAUUSD";
  timeframe = m1;
  open_time = t;
  open_price = of_int (pos price);
  high = of_int (pos price);
  low = of_int (pos price);
  close = of_int (pos price);
  volume = of_int (pos v);
  bid_close = of_int (pos price);
  ask_close = some (of_int (pos price));
  source = "simulated";
  is_closed = false;
}

-- Four minutes from 600 on, the second of which comes twice, and one of the next five minutes.
abbrev later : List Candle
later = minute 660 2003 1 ∷ minute 660 2005 2 ∷ minute 720 1999 1 ∷ []

abbrev first : Window
first = record { newest = minute 600 2000 1; earlier = [] }

is_minute : IsMinute (minute 600 2000 1)
unfolding bucket
is_minute = refl

are_minutes : All IsMinute later
unfolding bucket
are_minutes = (refl, (refl, (refl, tt)))

revision_replaces :
    windows m5 later first
    ≡ record { newest = minute 720 1999 1; earlier = minute 660 2005 2 ∷ minute 600 2000 1 ∷ [] }
unfolding windows next_window bucket
revision_replaces = refl

seed_aggregates_example :
    let w = windows m5 later first in
    let e = seed (minute 600 2000 1 ∷ later) new_engine in
    (e.base ≡ some w.newest)
    × ((e.slots m5).prefix ≡ aggregate m5 w.earlier)
    × ((e.slots m5).current ≡ aggregate m5 (w.newest ∷ w.earlier))
seed_aggregates_example = seed_aggregates m5 (minute 600 2000 1) later is_minute are_minutes

abbrev engine : CandleEngine
engine = (replace_base (minute 600 2000 1) new_engine).1

abbrev tick : Tick
tick = record {
  tick_symbol = "XAUUSD";
  timestamp = 630500000;
  bid = of_int (pos 2001);
  ask = of_int (pos 2002);
  tick_volume = of_int (pos 1);
  tick_source = "simulated";
}

held : Holds m5 engine.base (engine.slots m5) first
unfolding replace_base aggregate bucket
held = (refl, refl, refl, refl)

ingest-Holds_example :
    let after = (ingest tick engine).1 in
    ((out_of_order engine.last_tick 630500000 ≡ true)
      × ((ingest tick engine).0 ≡ raised validation_error)
      × (after ≡ engine))
    ⊎ ((out_of_order engine.last_tick 630500000 ≡ false)
        × Holds m5 after.base (after.slots m5) (
            next_window m5
              (tick_base tick (same_minute engine.base (bucket (630500000 / 1000000) m1)))
              first))
ingest-Holds_example = ingest-Holds m5 tick engine first held

goes_up : valid_candle (minute 660 2005 2) ≡ true
unfolding valid_candle is_price is_amount quantize abs_dec neg_dec eq_dec zero_dec valid_ohlc bucket
    of_int dec ◌<ᵈ◌ ◌≤ᵈ◌ max_dec min_dec
goes_up = refl

begins : valid_candle (minute 600 2000 1) ≡ true
unfolding valid_candle is_price is_amount quantize abs_dec neg_dec eq_dec zero_dec valid_ohlc bucket
    of_int dec ◌<ᵈ◌ ◌≤ᵈ◌ max_dec min_dec
begins = refl

merge_valid_example :
    let merged = merge (some (minute 600 2000 1)) (minute 660 2005 2) m5 in
    valid_candle merged ≡ is_amount merged.volume
merge_valid_example =
    merge_valid (some (minute 600 2000 1)) (minute 660 2005 2) m5
      (λ l e. ap valid_candle (sym (some-injective e)) ∙ begins) goes_up
  where
    some-injective : {a b : Candle} → some a ≡ some b → a ≡ b
    some-injective e = cc

-- A volume with 16 digits before the point is no Amount.
too_much : is_amount (of_int (pos (10 ^ 15))) ≡ false
unfolding is_amount quantize abs_dec neg_dec eq_dec zero_dec of_int dec ◌<ᵈ◌ ◌≤ᵈ◌
too_much = refl
