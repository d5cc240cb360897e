-- ===== src/Analysis/Snapshot/Typed.antt =====
-- `snapshot` of analysis/engine.py reads no value that is None and no bar that is not there.
mod Values
use aigold_trader.Base.{
  ℕ, zero, suc, ◌+◌, ◌-◌, ◌*◌, ◌≤◌, ◌<◌, ◌≡◌, ◌≢◌, ◌⊎◌, ap, inl, inr, Bool, true, false, Option,
  none, some, List, ltb, if◌then◌else◌, arith, ltb_false→le,
}
use aigold_trader.Decimal.{Decimal, ◌≤ᵈ◌, div_dec}
use aigold_trader.Risk.Domain.{Raises, ok, raised, type_error}
use aigold_trader.MarketData.Aggregation.{Candle}
use aigold_trader.Analysis.Domain.{
  State, neutral, internal, external, Scope, SwingPoint, DealingRange, Regime, trending_up,
  trending_down, ranging, high_volatility, low_volatility, breakout,
}
use aigold_trader.Analysis.Indicators.{Mean, seeding, seeded, value_of, rounded, Indicators}
use aigold_trader.Analysis.Engine.{Setup, AnalysisEngine}
use aigold_trader.Analysis.Engine.Breaks.{find_last}
use aigold_trader.Analysis.Engine.Feed.{analyze}
use aigold_trader.Analysis.Range.{
  last_bar, needed, range_between, spans, previous_of, range_or, try_range, last_swing,
  dealing_range,
}
use aigold_trader.Analysis.Snapshot.{snapshot}
use aigold_trader.Analysis.Snapshot.Statuses.{minimum_of, regime}
use aigold_trader.Analysis.Snapshot.Values.{item, relative_strength, window_mean, indicator_values}
use aigold_trader.Analysis.Snapshot.Regimes.{
  known_state, trend, strong_trend, regime_by, breaks_out, last_event, regime_of_state, regime_at,
  regime_of,
}
use aigold_trader.Analysis.Snapshot.WarmUp.{MeanAt, EmaAt, WarmAt}
use aigold_trader.Analysis.Snapshot.Held.{HasBars, analyze-Held}
use aigold_trader.Analysis.Snapshot.Typed.Values.{
  Typed, Typed-bind, Typed-ne, Typed-if, Typed-lifted, Typed-rounded, Typed-item, Typed-window_mean,
  Typed-relative_strength,
}

-- Nothing but another exception is raised.
module _ (s : Setup) where
  Typed-values :
      (n : ℕ) (i : Indicators)
      → WarmAt s.config.atr_period s.config.average_period n i
      → Typed (indicator_values s i)
  unfolding indicator_values
  Typed-values n i w =
      let p = s.config.atr_period in
      let average = s.config.average_period in
      Typed-bind (window_mean average i.closes i.closes) _
        (Typed-window_mean average i.closes i.closes)
        (λ mean.
          Typed-bind (relative_strength (value_of i.gain) (value_of i.loss)) _ (strength n w)
            (λ strength.
              Typed-bind (item (value_of i.atr) (p + 1)) _ (Typed-item (value_of i.atr) (p + 1))
                (λ atr. Typed-bind (item strength (p + 1)) _ (Typed-item strength (p + 1)) (λ rsi.
                  Typed-bind (item (value_of i.adx) (p * 2)) _ (Typed-item (value_of i.adx) (p * 2))
                    (λ adx. Typed-bind (item i.ema average) _ (Typed-item i.ema average) (λ ema.
                      Typed-bind (item mean average) _ (Typed-item mean average) (λ sma.
                        Typed-bind (window_mean average i.closes i.volumes) _
                          (Typed-window_mean average i.closes i.volumes)
                          (λ volume.
                            Typed-bind (item volume average) _ (Typed-item volume average)
                              (λ volume_average. tt)))))))))
    where
      strength :
          (n : ℕ)
          → WarmAt s.config.atr_period s.config.average_period n i
          → Typed (relative_strength (value_of i.gain) (value_of i.loss))
      strength zero w = rw w tt
      strength (suc k) w =
          Typed-relative_strength s.config.atr_period k i.gain i.loss w.gain_at w.loss_at

  Typed-mean : (p k : ℕ) (m : Mean) → p ≤ k → MeanAt p k m → Typed (needed (value_of m))
  Typed-mean p k (seeded v) le h = tt
  Typed-mean p k (seeding seed) le h = absurd (omega (arith, le, h.1))

  Typed-ema :
      (average n : ℕ) (o : Option Decimal) → average ≤ n → EmaAt average n o → Typed (needed o)
  Typed-ema average n (some v) le h = tt
  Typed-ema average n none le h = absurd (omega (arith, le, h))

  module _ (e : AnalysisEngine) (c : Candle) (atr : Typed (needed (value_of e.indicators.atr)))
      (adx : Typed (needed (value_of e.indicators.adx)))
      (ema : Typed (needed e.indicators.ema)) where
    Typed-trend : (is_up : Bool) (r : Regime) → Typed (trend s c e.indicators is_up r)
    Typed-trend is_up r = Typed-bind (needed (value_of e.indicators.adx)) _ adx (λ a.
        Typed-if (s.config.adx_trend_threshold ≤ᵈ a) (strong_trend c e.indicators is_up r)
          (ok ranging) (λ h. Typed-bind (needed e.indicators.ema) _ ema (λ m. tt)) (λ h. tt))

    Typed-state : (st : State) → Typed (regime_of_state s c e.indicators st)
    Typed-state State.bullish = Typed-trend true trending_up
    Typed-state State.bearish = Typed-trend false trending_down
    Typed-state neutral = tt
    Typed-state State.unknown = tt

    Typed-regime_by : (ratio : Decimal) → Typed (regime_by s e c ratio)
    Typed-regime_by ratio =
        let by_state = regime_of_state s c e.indicators (known_state e) in
        let out = breaks_out s c (last_event e.events) in
        let calm = ratio ≤ᵈ s.config.low_volatility_ratio in
        let last = if out then ok breakout else by_state in
        Typed-if (s.config.high_volatility_ratio ≤ᵈ ratio) (ok high_volatility)
          (if calm then ok low_volatility else last) (λ h. tt)
          (λ h.
            Typed-if calm (ok low_volatility) last (λ h. tt)
              (λ h.
                Typed-if out (ok breakout) by_state (λ h. tt) (λ h. Typed-state (known_state e))))

    Typed-regime_at : Typed (regime_at s e c)
    unfolding regime_at
    Typed-regime_at =
        Typed-bind (needed (value_of e.indicators.atr)) _ atr
          (λ a. Typed-lifted (div_dec a c.close) (λ ratio. regime_by s e c ratio) Typed-regime_by)

  module _ (positive : 0 < s.config.atr_period) where
    Typed-warm :
        (n : ℕ) (e : AnalysisEngine) (c : Candle)
        → WarmAt s.config.atr_period s.config.average_period n e.indicators
        → ltb n (minimum_of s regime) ≡ false
        → Typed (regime_at s e c)
    Typed-warm zero e c w h =
        absurd (omega (arith, positive, ltb_false→le 0 (minimum_of s regime) h))
    Typed-warm (suc k) e c w h =
        let p = s.config.atr_period in
        let le = ltb_false→le (suc k) (minimum_of s regime) h in
        let early : p ≤ k = omega (arith, positive, le) in
        let double : p ≤ suc k - p = omega (arith, le) in
        let wide : s.config.average_period ≤ suc k = omega (arith, le) in
        Typed-regime_at e c (Typed-mean p k e.indicators.atr early w.atr_at)
          (Typed-mean p (suc k - p) e.indicators.adx double w.adx_at)
          (Typed-ema s.config.average_period (suc k) e.indicators.ema wide w.mean)

    Typed-regime_of :
        (e : AnalysisEngine) (o : Option Candle)
        → WarmAt s.config.atr_period s.config.average_period e.count e.indicators
        → Typed (regime_of s e o)
    Typed-regime_of e none w = tt
    Typed-regime_of e (some c) w =
        Typed-if (ltb e.count (minimum_of s regime)) (ok Regime.unknown) (regime_at s e c) (λ h. tt)
          (λ h. Typed-warm e.count e c w h)

  Typed-between :
      (bars : List Candle) (b : Candle) (last previous : SwingPoint)
      → last_bar bars ≡ some b
      → Typed (range_between s bars last previous)
  unfolding range_between
  Typed-between bars b last previous h = Typed-lifted _ _ (λ half.
      Typed-bind (rounded half) _ (Typed-rounded half) (λ eq.
        Typed-bind (needed (last_bar bars)) _ (rw h tt) (λ bar.
          Typed-bind (rounded _) _ (Typed-rounded _)
            (λ r62. Typed-bind (rounded _) _ (Typed-rounded _) (λ r79. tt)))))

  Typed-range_or :
      (bars : List Candle) (b : Candle) (last : SwingPoint) (o : Option SwingPoint)
      (next : Raises (Option DealingRange))
      → last_bar bars ≡ some b
      → Typed next
      → Typed (range_or s bars last o next)
  Typed-range_or bars b last none next h k = k
  Typed-range_or bars b last (some previous) next h k =
      Typed-if (spans s last previous) (range_between s bars last previous) next
        (λ _. Typed-between bars b last previous h) (λ _. k)

  -- Without a swing the next scope is tried.
  Typed-try_range :
      (e : AnalysisEngine) (scope : Scope) (o : Option SwingPoint)
      (next : Raises (Option DealingRange))
      → (o ≡ none) ⊎ ((b : Candle) × (last_bar e.bars ≡ some b))
      → Typed next
      → Typed (try_range s e scope o next)
  Typed-try_range e scope none next h k = k
  Typed-try_range e scope (some last) next (inl none_found) k = cc
  Typed-try_range e scope (some last) next (inr (b, h)) k =
      Typed-range_or e.bars b last (previous_of scope e.swings last) next h k

  Typed-dealing_range : (e : AnalysisEngine) → HasBars e → Typed (dealing_range s e)
  unfolding dealing_range find_last
  Typed-dealing_range e h =
      Typed-try_range e external (last_swing external e.swings)
        (try_range s e internal (last_swing internal e.swings) (ok none)) (found external h)
        (Typed-try_range e internal (last_swing internal e.swings) (ok none) (found internal h) tt)
    where
      found :
          (scope : Scope)
          → HasBars e
          → (last_swing scope e.swings ≡ none) ⊎ ((b : Candle) × (last_bar e.bars ≡ some b))
      found scope (inl h) = inl (ap (last_swing scope) h)
      found scope (inr h) = inr h

-- The snapshot of every engine that `analyze` returns is put together without a value that is None
-- and without a bar that is missing, for periods that are not 0: where the regime is looked for, the
-- atr, the adx and the moving average have values, and where there are swings there are bars. What
-- it may raise is an exception of another kind.
pub snapshot_typed :
    (s : Setup) (requested returned : ℕ) (candles : List Candle) (e : AnalysisEngine)
    → 0 < s.config.atr_period
    → 0 < s.config.average_period
    → analyze s requested candles ≡ ok e
    → snapshot s requested returned e ≢ raised type_error
unfolding snapshot
snapshot_typed s requested returned candles e positive wide h =
    let held = analyze-Held s positive wide requested candles e h in
    Typed-ne (snapshot s requested returned e) (
      Typed-bind (indicator_values s e.indicators) _ (Typed-values s e.count e.indicators held.warm)
        (λ values.
          Typed-bind (regime_of s e (last_bar e.bars)) _
            (Typed-regime_of s positive e (last_bar e.bars) held.warm)
            (λ current.
              Typed-bind (dealing_range s e) _ (Typed-dealing_range s e held.bars) (λ range. tt))))
