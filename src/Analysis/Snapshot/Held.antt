-- ===== src/Analysis/Snapshot/Held.antt =====
-- What an engine of analysis/engine.py holds once it was fed: bars where it has swings, and
-- indicators that are as warm as its candles are many.
use mathlib.Core.Path.{subst}
use aigold_trader.Base.{
  ℕ, suc, ◌+◌, ◌<◌, ◌≡◌, ◌⊎◌, ◌∙◌, ap, refl, sym, inl, inr, Bool, false, ◌||◌, not, Option, none,
  some, List, [], ◌∷◌, All-true, map, length, ltb, if◌then◌else◌, arith,
}
use aigold_trader.Risk.Domain.{ok, raised, input_error}
use aigold_trader.MarketData.Aggregation.{Candle}
use aigold_trader.Analysis.Returns.{
  Returns, Returns-bind, Returns-any, Returns-if, returned, Returns-of,
}
use aigold_trader.Analysis.Indicators.{feed_indicators}
use aigold_trader.Analysis.Engine.{Setup, AnalysisEngine, new_analysis}
use aigold_trader.Analysis.Engine.Lifecycle.{next_level, next_zone}
use aigold_trader.Analysis.Engine.Feed.{last_open, admits, feed, analyze_from, analyze}
use aigold_trader.Analysis.Engine.Known.{Facts}
use aigold_trader.Analysis.Engine.Advance.{Fed, feed-Fed, next_zones-All}
use aigold_trader.Analysis.Engine.LastBar.{last_open-pushed}
use aigold_trader.Analysis.Range.{last_bar}
use aigold_trader.Analysis.Snapshot.WarmUp.{FedAt, WarmAt, feed_indicators-WarmAt}

last_bar-some :
    (bars : List Candle) (t : ℕ) → last_open bars ≡ some t → (b : Candle) × (last_bar bars ≡ some b)
unfolding last_open last_bar
last_bar-some [] t h = cc
last_bar-some (b ∷ []) t h = (b, refl)
last_bar-some (b ∷ c ∷ rest) t h = last_bar-some (c ∷ rest) t h

anything : (s : Setup) (c : Candle) → Facts s c
anything s c = record {
  swing = λ w. Unit;
  event = λ v. Unit;
  level = λ l. Unit;
  zone = λ z. Unit;
  range = λ r. Unit;
  new_swing = λ w e. tt;
  new_event = λ v e. tt;
  new_level = λ l e. tt;
  new_zone = λ z e. tt;
  new_range = λ r e. tt;
}

abbrev pub HasBars : AnalysisEngine → Type 0
HasBars e = (e.swings ≡ []) ⊎ ((b : Candle) × (last_bar e.bars ≡ some b))

pub record Held (s : Setup) (e : AnalysisEngine) : Type 0 where
  pub bars : HasBars e
  pub warm : WarmAt s.config.atr_period s.config.average_period e.count e.indicators

module _ (s : Setup) (positive : 0 < s.config.atr_period) (wide : 0 < s.config.average_period) where
  feed-Held :
      (e after : AnalysisEngine) (c : Candle) → Held s e → feed s e c ≡ ok after → Held s after
  unfolding anything
  feed-Held e after c h q = held (
      feed-Fed s c (anything s c) e (All-true (λ w. tt) e.swings) (All-true (λ v. tt) e.events)
        (All-true (λ r. tt) e.sessions) (All-true (λ l. tt) (map (next_level s c) e.levels))
        (next_zones-All s c (λ z. Unit) (λ z. Unit)
          (λ z p. Returns-of _ (next_zone s c z) (λ r x. (tt, All-true (λ y. tt) r.1))) e.zones
          (All-true (λ z. tt) e.zones))
        after q)
    where
      held : Fed s c (anything s c) e after → Held s after
      held (i, q, (b, _, _, _, _, _)) =
          let p = s.config.atr_period in
          let average = s.config.average_period in
          let one : suc e.count ≡ e.count + 1 = omega arith in
          let fed : FedAt p average e.count i =
            returned (FedAt p average e.count) (feed_indicators p average e.indicators c)
              (feed_indicators-WarmAt p average positive wide e.count e.indicators c h.warm) q in
          record {
            bars = inr (
                last_bar-some after.bars c.open_time
                  (ap (λ k. last_open k.0) b ∙ last_open-pushed s c e.bars));
            warm =
                subst (λ k. WarmAt p average k.1 k.2) (sym b)
                  (subst (λ n. WarmAt p average n i) one fed);
          }

  analyze_from-Held :
      (previous : Option ℕ) (forming : Bool) (e : AnalysisEngine) (cs : List Candle)
      → Held s e
      → Returns (Held s) (analyze_from s previous forming e cs)
  unfolding analyze_from
  analyze_from-Held previous forming e [] h = h
  analyze_from-Held previous forming e (c ∷ cs) h =
      Returns-any (Held s) (if admits s previous forming c then ok c else raised input_error) _
        (λ admitted.
          Returns-bind (Held s) (Held s) (if c.is_closed then feed s e admitted else ok e) _
            (Returns-if (Held s) c.is_closed (feed s e admitted) (ok e)
              (λ _.
                Returns-of (Held s) (feed s e admitted) (λ after q. feed-Held e after admitted h q))
              (λ _. h))
            (λ fed k. analyze_from-Held (some c.open_time) (not c.is_closed) fed cs k))

  pub analyze-Held :
      (requested : ℕ) (candles : List Candle) (e : AnalysisEngine)
      → analyze s requested candles ≡ ok e
      → Held s e
  unfolding analyze
  analyze-Held requested candles e h =
      let n = length candles in
      returned (Held s) (analyze s requested candles)
        (Returns-if (Held s)
          (ltb 1000 n || ltb requested n || ltb requested 1 || ltb 1000 requested)
          (raised input_error) (analyze_from s none false new_analysis candles) (λ _. tt)
          (λ _.
            analyze_from-Held none false new_analysis candles
              (record { bars = inl refl; warm = refl })))
        h
