-- ===== src/Analysis/Snapshot/Regimes.antt =====
-- analysis/engine.py: the regime that `snapshot` finds.
use aigold_trader.Base.{Bool, true, false, ◌&&◌, Option, none, some, List, ltb, ◌==◌, if◌then◌else◌}
use aigold_trader.Decimal.{Decimal, ◌<ᵈ◌, ◌≤ᵈ◌, div_dec}
use aigold_trader.Risk.Domain.{Raises, ok, ◌>>=◌, lift}
use aigold_trader.MarketData.Aggregation.{Candle}
use aigold_trader.Analysis.Domain.{
  State, neutral, StructureEvent, EventKind, bos, choch, mss, Regime, trending_up, trending_down,
  ranging, high_volatility, low_volatility, breakout, pullback,
}
use aigold_trader.Analysis.Indicators.{Indicators, value_of}
use aigold_trader.Analysis.Engine.{Setup, AnalysisEngine, end_of}
use aigold_trader.Analysis.Engine.Breaks.{find_last}
use aigold_trader.Analysis.Range.{needed}
use aigold_trader.Analysis.Snapshot.Statuses.{regime, minimum_of}

abbrev pub known_state : AnalysisEngine → State
known_state e = or_internal e.external_structure.state
  where
    or_internal : State → State
    or_internal State.unknown = e.internal_structure.state
    or_internal st = st

abbrev pub is_break : EventKind → Bool
is_break bos = true
is_break choch = false
is_break mss = false

-- The last event is a break of structure that this bar confirms.
abbrev pub breaks_out : Setup → Candle → Option StructureEvent → Bool
breaks_out s c none = false
breaks_out s c (some v) = is_break v.kind && v.confirmed_at == end_of s c

abbrev pub last_event : List StructureEvent → Option StructureEvent
last_event events = find_last (λ v. true) events

abbrev pub against_mean : Bool → Decimal → Decimal → Bool
against_mean true close ema = close <ᵈ ema
against_mean false close ema = ema <ᵈ close

abbrev pub strong_trend : Candle → Indicators → Bool → Regime → Raises Regime
strong_trend c i is_up with_it = do
  ema ← needed i.ema
  ok (if against_mean is_up c.close ema then pullback else with_it)

-- A trend in a direction, with or against the mean.
abbrev pub trend : Setup → Candle → Indicators → Bool → Regime → Raises Regime
trend s c i is_up with_it = do
  adx ← needed (value_of i.adx)
  (if s.config.adx_trend_threshold ≤ᵈ adx then strong_trend c i is_up with_it else ok ranging)

abbrev pub regime_of_state : Setup → Candle → Indicators → State → Raises Regime
regime_of_state s c i State.bullish = trend s c i true trending_up
regime_of_state s c i State.bearish = trend s c i false trending_down
regime_of_state s c i neutral = ok ranging
regime_of_state s c i State.unknown = ok Regime.unknown

-- The regime by the share that the atr is of the close.
abbrev pub regime_by : Setup → AnalysisEngine → Candle → Decimal → Raises Regime
regime_by s e c ratio =
    let by_state = regime_of_state s c e.indicators (known_state e) in
    if s.config.high_volatility_ratio ≤ᵈ ratio
    then ok high_volatility
    else if ratio ≤ᵈ s.config.low_volatility_ratio
    then ok low_volatility
    else if breaks_out s c (last_event e.events)
    then ok breakout
    else by_state

unfoldable pub regime_at : Setup → AnalysisEngine → Candle → Raises Regime
unfolding find_last
regime_at s e c = do
  atr ← needed (value_of e.indicators.atr)
  ratio ← lift (div_dec atr c.close)
  regime_by s e c ratio

abbrev pub regime_of : Setup → AnalysisEngine → Option Candle → Raises Regime
regime_of s e none = ok Regime.unknown
regime_of s e (some c) =
    let found = regime_at s e c in
    if ltb e.count (minimum_of s regime) then ok Regime.unknown else found
