-- ===== src/Analysis/Indicators.antt =====
-- analysis/indicators.py: the streaming indicators. The square root of the bands and the values that
-- a snapshot shows are left out.
use aigold_trader.Base.{
  ℕ, ◌+◌, ◌-◌, ◌&&◌, Option, none, some, List, [], ◌∷◌, ◌++◌, length, ◌==◌, ltb, pos, if◌then◌else◌,
}
use aigold_trader.Decimal.{
  Decimal, of_int, zero_dec, ◌<ᵈ◌, ◌+ᵈ◌, ◌-ᵈ◌, ◌*ᵈ◌, abs_dec, neg_dec, max_dec, div_dec, eq_dec,
  quantize, sum_dec,
}
use aigold_trader.Risk.Domain.{Raises, ok, ◌>>=◌, lift}
use aigold_trader.MarketData.Aggregation.{Candle}

-- `rounded`
unfoldable pub rounded : Decimal → Raises Decimal
rounded d = lift (quantize 8 d)

-- A mean that is seeded with the average of its first values: the value, or the values so far.
pub data Mean : Type 0 where
  seeding : List Decimal → Mean
  seeded : Decimal → Mean

abbrev pub value_of : Mean → Option Decimal
value_of (seeding seed) = none
value_of (seeded v) = some v

-- The value of a seed with the period's number of values.
abbrev pub seeded_at : ℕ → List Decimal → Raises Mean
seeded_at p seed =
    if length seed == p
    then (do v ← lift (div_dec (sum_dec zero_dec seed) (of_int (pos p))); ok (seeded v))
    else ok (seeding seed)

unfoldable pub next_mean : ℕ → Mean → Decimal → Raises Mean
next_mean p (seeding seed) value = seeded_at p (seed ++ value ∷ [])
next_mean p (seeded v) value = do
  w ← lift (div_dec (v *ᵈ of_int (pos (p - 1)) +ᵈ value) (of_int (pos p)))
  ok (seeded w)

pub record Indicators : Type 0 where
  pub previous : Option Candle
  pub n : ℕ
  pub atr : Mean
  pub gain : Mean
  pub loss : Mean
  pub pdm : Mean
  pub mdm : Mean
  pub adx : Mean
  pub ema : Option Decimal
  pub closes : List Decimal
  pub volumes : List Decimal

abbrev pub new_indicators : Indicators
new_indicators = record {
  previous = none;
  n = 0;
  atr = seeding [];
  gain = seeding [];
  loss = seeding [];
  pdm = seeding [];
  mdm = seeding [];
  adx = seeding [];
  ema = none;
  closes = [];
  volumes = [];
}

-- A `deque` with a greatest length drops its first element.
abbrev pub last_of : {A : Type 0} → ℕ → List A → List A
last_of n [] = []
last_of n (x ∷ xs) = let rest = last_of n xs in if ltb n (length (x ∷ xs)) then rest else x ∷ xs

-- The first average is that of the window.
abbrev pub moved_ema : ℕ → List Decimal → Decimal → Option Decimal → Raises (Option Decimal)
moved_ema average closes close none = do
  v ← lift (div_dec (sum_dec zero_dec closes) (of_int (pos average)))
  ok (some v)
moved_ema average closes close (some e) = do
  step ← lift (div_dec ((close -ᵈ e) *ᵈ of_int (pos 2)) (of_int (pos (average + 1))))
  ok (some (e +ᵈ step))

abbrev pub next_ema : ℕ → Option Decimal → List Decimal → Decimal → Raises (Option Decimal)
next_ema average ema closes close =
    let moved = moved_ema average closes close ema in
    if length closes == average then moved else ok ema

-- A movement counts where it is the greater one and positive.
abbrev pub movement : Decimal → Decimal → Decimal
movement up down = if down <ᵈ up && zero_dec <ᵈ up then up else zero_dec

abbrev pub true_range : Candle → Candle → Decimal
true_range old c =
    max_dec (max_dec (c.high -ᵈ c.low) (abs_dec (c.high -ᵈ old.close)))
      (abs_dec (c.low -ᵈ old.close))

unfoldable pub directional_index : Decimal → Decimal → Raises Decimal
directional_index pdm mdm =
    if eq_dec (pdm +ᵈ mdm) zero_dec
    then ok zero_dec
    else lift (div_dec (of_int (pos 100) *ᵈ abs_dec (pdm -ᵈ mdm)) (pdm +ᵈ mdm))

-- The adx follows once there is an atr; the movements are seeded with it, so that the assertion of
-- their values never fails.
abbrev pub next_adx : ℕ → Mean → Mean → Mean → Mean → Raises Mean
next_adx p (seeded a) (seeded plus) (seeded minus) adx = do
  dx ← directional_index plus minus
  next_mean p adx dx
next_adx p _ _ _ adx = ok adx

unfoldable pub moved_by : ℕ → Indicators → Candle → Candle → Raises Indicators
moved_by p i old c = do
  let up = c.high -ᵈ old.high
  let down = old.low -ᵈ c.low
  let delta = c.close -ᵈ old.close
  atr ← next_mean p i.atr (true_range old c)
  gain ← next_mean p i.gain (max_dec delta zero_dec)
  loss ← next_mean p i.loss (max_dec (neg_dec delta) zero_dec)
  pdm ← next_mean p i.pdm (movement up down)
  mdm ← next_mean p i.mdm (movement down up)
  adx ← next_adx p atr pdm mdm i.adx
  ok (record i { atr = atr; gain = gain; loss = loss; pdm = pdm; mdm = mdm; adx = adx })

abbrev pub after_first : ℕ → Indicators → Option Candle → Candle → Raises Indicators
after_first p i none c = ok i
after_first p i (some old) c = moved_by p i old c

unfoldable pub feed_indicators : ℕ → ℕ → Indicators → Candle → Raises Indicators
feed_indicators p average i c = do
  let closes = last_of average (i.closes ++ c.close ∷ [])
  ema ← next_ema average i.ema closes c.close
  let counted = record i {
    n = i.n + 1;
    ema = ema;
    closes = closes;
    volumes = last_of average (i.volumes ++ c.volume ∷ []);
  }
  moved ← after_first p counted i.previous c
  ok (record moved { previous = some c })
