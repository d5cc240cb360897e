-- ===== src/Analysis/Engine/Swings.antt =====
-- analysis/engine.py: `_swing` and `_pivots`, the swings of strict extrema and the state they suggest.
use aigold_trader.Base.{
  ℕ, ◌+◌, Bool, true, false, ◌&&◌, ◌||◌, Option, none, some, List, [], ◌∷◌, ◌++◌, length, all,
  get_elem?, ltb, pos, if◌then◌else◌,
}
use aigold_trader.Decimal.{Decimal, of_int, ◌<ᵈ◌, ◌≤ᵈ◌, ◌+ᵈ◌, ◌-ᵈ◌, abs_dec, div_dec}
use aigold_trader.Risk.Domain.{Raises, ok, ◌>>=◌, lift}
use aigold_trader.MarketData.Aggregation.{Candle}
use aigold_trader.Analysis.Domain.{
  State, neutral, unknown, Scope, internal, external, Side, high, low, Label, sh, sl, hh, hl, lh,
  ll, eqh, eql, SwingPoint, LevelKind, LevelStatus, LiquidityLevel,
}
use aigold_trader.Analysis.Indicators.{last_of, rounded}
use aigold_trader.Analysis.Engine.{
  Setup, Structure, AnalysisEngine, tolerance, end_of, structure_of, with_structure, latest_of,
  is_broken,
}

abbrev pub price_of : Side → Candle → Decimal
price_of high p = p.high
price_of low p = p.low

abbrev pub first_label : Side → Label
first_label high = sh
first_label low = sl

abbrev pub equal_label : Side → Label
equal_label high = eqh
equal_label low = eql

abbrev pub moved_label : Side → Bool → Label
moved_label high rises = if rises then hh else lh
moved_label low rises = if rises then hl else ll

abbrev pub label_of : Setup → Side → Decimal → Option SwingPoint → Label
label_of s side price none = first_label side
label_of s side price (some previous) =
    if abs_dec (price -ᵈ previous.price) ≤ᵈ tolerance s
    then equal_label side
    else moved_label side (previous.price <ᵈ price)

abbrev pub swing_of : Setup → Candle → Scope → Side → Candle → Option SwingPoint → SwingPoint
swing_of s c scope side pivot previous = record {
  id = s.identity.swing scope side pivot.open_time;
  scope = scope;
  kind = side;
  label = label_of s side (price_of side pivot) previous;
  price = price_of side pivot;
  swing_time = pivot.open_time;
  confirmed_at = end_of s c;
}

abbrev pub level_of : Setup → SwingPoint → LiquidityLevel
level_of s w = record {
  id = s.identity.liquidity w.id;
  kind = LevelKind.liquidity w.kind;
  side = w.kind;
  price = w.price;
  created_at = w.swing_time;
  confirmed_at = w.confirmed_at;
  source_ids = w.id ∷ [];
  status = LevelStatus.active;
  swept_at = none;
  sweep_price = none;
  ended_at = none;
}

abbrev pub equal_level_of : Setup → SwingPoint → SwingPoint → Decimal → LiquidityLevel
equal_level_of s previous w price = record {
  id = s.identity.equal w.label previous.id w.id;
  kind = LevelKind.equal w.kind;
  side = w.kind;
  price = price;
  created_at = previous.swing_time;
  confirmed_at = w.confirmed_at;
  source_ids = previous.id ∷ w.id ∷ [];
  status = LevelStatus.active;
  swept_at = none;
  sweep_price = none;
  ended_at = none;
}

abbrev pub is_equal : Label → Bool
is_equal eqh = true
is_equal eql = true
is_equal _ = false

-- The second level, of an external swing that is equal to the one before.
unfoldable pub equal_levels : Setup → Option SwingPoint → SwingPoint → Raises (List LiquidityLevel)
unfolding rounded
equal_levels s none w = ok []
equal_levels s (some previous) w =
    let made = (do
      half ← lift (div_dec (w.price +ᵈ previous.price) (of_int (pos 2)))
      price ← rounded half
      ok (equal_level_of s previous w price ∷ [])) in
    if is_equal w.label then made else ok []

abbrev pub levels_of : Setup → Scope → Option SwingPoint → SwingPoint → Raises (List LiquidityLevel)
levels_of s internal previous w = ok []
levels_of s external previous w = do more ← equal_levels s previous w; ok (level_of s w ∷ more)

abbrev pub with_latest : Side → SwingPoint → Structure → Structure
with_latest high w t = record t { latest_high = some w }
with_latest low w t = record t { latest_low = some w }

abbrev pub is_mixed_high : Label → Bool
is_mixed_high eqh = true
is_mixed_high lh = true
is_mixed_high hh = true
is_mixed_high _ = false

abbrev pub is_mixed_low : Label → Bool
is_mixed_low eql = true
is_mixed_low hl = true
is_mixed_low ll = true
is_mixed_low _ = false

abbrev pub or_neutral : State → State
or_neutral unknown = neutral
or_neutral s = s

abbrev pub suggested : Label → Label → State → State
suggested hh hl st = State.bullish
suggested lh ll st = State.bearish
suggested a b st = if is_mixed_high a && is_mixed_low b then or_neutral st else st

-- The state that the two latest swings suggest, where neither is broken.
abbrev pub state_by : Option SwingPoint → Option SwingPoint → Structure → State
state_by (some h) (some l) t =
    if is_broken t.broken_high h || is_broken t.broken_low l
    then t.state
    else suggested h.label l.label t.state
state_by _ _ t = t.state

abbrev pub settled : Structure → Structure
settled t = record t { state = state_by t.latest_high t.latest_low t }

-- `_swing`
unfoldable pub add_swing :
    Setup → Candle → Scope → Side → Candle → AnalysisEngine → Raises AnalysisEngine
unfolding equal_levels
add_swing s c scope side pivot e =
    let t = structure_of scope e in
    let previous = latest_of side t in
    let w = swing_of s c scope side pivot previous in
    do
      more ← levels_of s scope previous w
      ok (
          with_structure scope (settled (with_latest side w t))
            (record e { swings = e.swings ++ w ∷ []; levels = e.levels ++ more }))

abbrev pub left_of : Setup → Scope → ℕ
left_of s internal = s.config.internal_left
left_of s external = s.config.external_left

abbrev pub right_of : Setup → Scope → ℕ
right_of s internal = s.config.internal_right
right_of s external = s.config.external_right

-- The list without the element at an index.
abbrev pub without : {A : Type 0} → ℕ → List A → List A
without n [] = []
without Prim.Native.Nat.zero (x ∷ xs) = xs
without (Prim.Native.Nat.suc n) (x ∷ xs) = x ∷ without n xs

abbrev pub is_peak : Side → List Candle → Candle → Bool
is_peak high peers pivot = all (λ v. v.high <ᵈ pivot.high) peers
is_peak low peers pivot = all (λ v. pivot.low <ᵈ v.low) peers

abbrev pub pivot_at :
    Setup → Candle → Scope → List Candle → Option Candle → AnalysisEngine → Raises AnalysisEngine
pivot_at s c scope peers none e = ok e
pivot_at s c scope peers (some pivot) e = do
  e1 ← (if is_peak high peers pivot then add_swing s c scope high pivot e else ok e)
  (if is_peak low peers pivot then add_swing s c scope low pivot e1 else ok e1)

-- One scope of `_pivots`: the bar in the middle of the last ones, once there are enough.
unfoldable pub find_pivots : Setup → Candle → Scope → AnalysisEngine → Raises AnalysisEngine
unfolding add_swing
find_pivots s c scope e =
    let width = left_of s scope + right_of s scope + 1 in
    let window = last_of width e.bars in
    if ltb (length e.bars) width
    then ok e
    else pivot_at s c scope (without (left_of s scope) window) (get_elem? window (left_of s scope))
        e

-- `_pivots`
unfoldable pub pivots : Setup → Candle → AnalysisEngine → Raises AnalysisEngine
unfolding find_pivots
pivots s c e = do e1 ← find_pivots s c internal e; find_pivots s c external e1
