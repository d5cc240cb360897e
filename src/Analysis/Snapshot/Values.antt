-- ===== src/Analysis/Snapshot/Values.antt =====
-- analysis/indicators.py: `values`, without the two Bollinger bands.
use aigold_trader.Base.{
  ℕ, ◌+◌, ◌*◌, String, Bool, true, false, ◌&&◌, Option, none, some, List, [], ◌∷◌, length, ◌==◌,
  pos, if◌then◌else◌,
}
use aigold_trader.Decimal.{Decimal, of_int, zero_dec, ◌+ᵈ◌, ◌-ᵈ◌, div_dec, eq_dec, sum_dec}
use aigold_trader.Risk.Domain.{Raises, ok, ◌>>=◌, lift}
use aigold_trader.Analysis.Domain.{IndicatorValue}
use aigold_trader.Analysis.Indicators.{Indicators, value_of, rounded}
use aigold_trader.Analysis.Engine.{Setup}
use aigold_trader.Analysis.Range.{needed}

abbrev pub rounded_value : Option Decimal → Raises (Option Decimal)
rounded_value none = ok none
rounded_value (some v) = do r ← rounded v; ok (some r)

abbrev pub has_value : Option Decimal → Bool
has_value none = false
has_value (some v) = true

abbrev pub item : Option Decimal → ℕ → Raises IndicatorValue
item v minimum = do
  r ← rounded_value v
  ok (record { value = r; minimum_bars_required = minimum; is_ready = has_value v })

abbrev pub strength_index : Decimal → Decimal → Raises Decimal
strength_index gain loss = do
  ratio ← lift (div_dec gain loss)
  part ← lift (div_dec (of_int (pos 100)) (of_int (pos 1) +ᵈ ratio))
  ok (of_int (pos 100) -ᵈ part)

unfoldable pub strength_of : Decimal → Decimal → Raises Decimal
strength_of gain loss =
    let index = strength_index gain loss in
    if eq_dec gain loss && eq_dec loss zero_dec
    then ok (of_int (pos 50))
    else if eq_dec loss zero_dec
    then ok (of_int (pos 100))
    else index

abbrev pub relative_strength : Option Decimal → Option Decimal → Raises (Option Decimal)
relative_strength none loss = ok none
relative_strength (some gain) loss = do l ← needed loss; r ← strength_of gain l; ok (some r)

-- The mean of a full window.
abbrev pub window_mean : ℕ → List Decimal → List Decimal → Raises (Option Decimal)
window_mean average closes values =
    if length closes == average
    then (do m ← lift (div_dec (sum_dec zero_dec values) (of_int (pos average))); ok (some m))
    else ok none

-- `values`, without the two Bollinger bands.
unfoldable pub indicator_values : Setup → Indicators → Raises (List (String × IndicatorValue))
unfolding strength_of rounded
indicator_values s i =
    let p = s.config.atr_period in
    let average = s.config.average_period in
    do
      mean ← window_mean average i.closes i.closes
      strength ← relative_strength (value_of i.gain) (value_of i.loss)
      atr ← item (value_of i.atr) (p + 1)
      rsi ← item strength (p + 1)
      adx ← item (value_of i.adx) (p * 2)
      ema ← item i.ema average
      sma ← item mean average
      volume ← window_mean average i.closes i.volumes
      volume_average ← item volume average
      ok (
          ("ATR", atr)
          ∷ ("RSI", rsi)
          ∷ ("ADX", adx)
          ∷ ("EMA", ema)
          ∷ ("SMA", sma)
          ∷ ("VOLUME_AVERAGE", volume_average)
          ∷ [])
