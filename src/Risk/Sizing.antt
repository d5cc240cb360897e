-- ===== src/Risk/Sizing.antt =====
-- risk/sizing.py: the position size for an approved amount. The error texts are constructors.
pub mod Stages
pub mod Bounds
use aigold_trader.Base.{Bool, true, false, ◌||◌, Option, none, some, pos, if◌then◌else◌}
use aigold_trader.Decimal.{
  Decimal, dec, of_int, zero_dec, ◌<ᵈ◌, ◌≤ᵈ◌, ◌+ᵈ◌, ◌-ᵈ◌, ◌*ᵈ◌, div_dec, quantize, to_int,
}
use aigold_trader.Risk.Domain.{Raises, ok, ◌>>=◌, lift, Direction, long, short, SymbolSpecification}

pub data SizingError : Type 0 where
  budget_not_positive spec_invalid price_not_positive entry_inverted stop_not_below_entry :
      SizingError
  stop_not_above_entry stop_distance_not_positive loss_per_lot_not_positive below_volume_min :
      SizingError
  exceeds_approved : SizingError

pub record SizingResult : Type 0 where
  pub is_valid : Bool
  pub position_size : Decimal
  pub actual_risk_amount : Decimal
  pub actual_risk_pct : Decimal
  pub stop_distance : Decimal
  pub loss_per_lot : Decimal
  pub error : Option SizingError

abbrev pub refused : SizingError → Decimal → Decimal → SizingResult
refused e stop_distance loss_per_lot = record {
  is_valid = false;
  position_size = zero_dec;
  actual_risk_amount = zero_dec;
  actual_risk_pct = zero_dec;
  stop_distance = stop_distance;
  loss_per_lot = loss_per_lot;
  error = some e;
}

abbrev pub spec_not_positive : SymbolSpecification → Bool
spec_not_positive s =
    s.tick_size ≤ᵈ zero_dec
    || s.tick_value ≤ᵈ zero_dec
    || s.contract_size ≤ᵈ zero_dec
    || s.volume_step ≤ᵈ zero_dec
    || s.volume_min ≤ᵈ zero_dec
    || s.volume_max ≤ᵈ zero_dec

-- A plan's entry zone and stop.
pub record Levels : Type 0 where
  pub direction : Direction
  pub entry_lower : Decimal
  pub entry_upper : Decimal
  pub stop_loss : Decimal

abbrev pub stop_error : Direction → Levels → Option SizingError
stop_error long l = if l.entry_lower ≤ᵈ l.stop_loss then some stop_not_below_entry else none
stop_error short l = if l.stop_loss ≤ᵈ l.entry_upper then some stop_not_above_entry else none

-- The distance from the worst entry fill to the stop.
abbrev pub worst_distance : Direction → Levels → Decimal
worst_distance long l = l.entry_upper -ᵈ l.stop_loss
worst_distance short l = l.stop_loss -ᵈ l.entry_lower

-- The guards before any arithmetic, in order.
unfoldable pub input_error : Levels → Decimal → Decimal → SymbolSpecification → Option SizingError
input_error l approved_amount equity spec =
    if equity ≤ᵈ zero_dec || approved_amount ≤ᵈ zero_dec
    then some budget_not_positive
    else if spec_not_positive spec
    then some spec_invalid
    else if l.entry_lower ≤ᵈ zero_dec || l.entry_upper ≤ᵈ zero_dec || l.stop_loss ≤ᵈ zero_dec
    then some price_not_positive
    else if l.entry_upper <ᵈ l.entry_lower
    then some entry_inverted
    else stop_error l.direction l

-- (stop_distance / tick_size) * tick_value
unfoldable pub loss_per_lot_of : Decimal → SymbolSpecification → Raises Decimal
loss_per_lot_of distance spec = do
  ticks ← lift (div_dec distance spec.tick_size)
  ok (ticks *ᵈ spec.tick_value)

-- The volume, rounded down to a whole number of steps.
unfoldable pub quantized_volume : Decimal → Decimal → SymbolSpecification → Raises Decimal
quantized_volume approved_amount loss spec = do
  raw ← lift (div_dec approved_amount loss)
  steps ← lift (div_dec raw spec.volume_step)
  ok (of_int (to_int steps) *ᵈ spec.volume_step)

abbrev pub capped : Decimal → SymbolSpecification → Decimal
capped volume spec = if spec.volume_max <ᵈ volume then spec.volume_max else volume

-- The end of the function, from the capped volume on.
unfoldable pub size_checked : Decimal → Decimal → Decimal → Decimal → Decimal → Raises SizingResult
size_checked approved_amount equity distance loss volume = do
  amount ← lift (quantize 2 (volume *ᵈ loss))
  ratio ← lift (div_dec amount equity)
  percent ← lift (quantize 4 (ratio *ᵈ of_int (pos 100)))
  ok (
      if approved_amount +ᵈ dec (pos 1) 4 <ᵈ amount
      then refused exceeds_approved distance loss
      else record {
        is_valid = true;
        position_size = volume;
        actual_risk_amount = amount;
        actual_risk_pct = percent;
        stop_distance = distance;
        loss_per_lot = loss;
        error = none;
      })

unfoldable pub size_volume :
    Decimal → Decimal → Decimal → Decimal → SymbolSpecification → Decimal → Raises SizingResult
size_volume approved_amount equity distance loss spec volume =
    if volume <ᵈ spec.volume_min
    then ok (refused below_volume_min distance loss)
    else size_checked approved_amount equity distance loss (capped volume spec)

unfoldable pub size_at :
    Decimal → Decimal → Decimal → SymbolSpecification → Decimal → Raises SizingResult
size_at approved_amount equity distance spec loss =
    if loss ≤ᵈ zero_dec then ok (refused loss_per_lot_not_positive distance zero_dec) else do
      volume ← quantized_volume approved_amount loss spec
      size_volume approved_amount equity distance loss spec volume

unfoldable pub sized : Levels → Decimal → Decimal → SymbolSpecification → Raises SizingResult
sized l approved_amount equity spec =
    let distance = worst_distance l.direction l in
    if distance ≤ᵈ zero_dec
    then ok (refused stop_distance_not_positive zero_dec zero_dec)
    else do loss ← loss_per_lot_of distance spec; size_at approved_amount equity distance spec loss

abbrev pub after_guards : Option SizingError → Raises SizingResult → Raises SizingResult
after_guards (some e) r = ok (refused e zero_dec zero_dec)
after_guards none r = r

unfoldable pub calculate_position_size :
    Levels → Decimal → Decimal → SymbolSpecification → Raises SizingResult
calculate_position_size l approved_amount equity spec =
    let rest = sized l approved_amount equity spec in
    after_guards (input_error l approved_amount equity spec) rest
