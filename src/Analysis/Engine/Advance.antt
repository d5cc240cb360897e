-- ===== src/Analysis/Engine/Advance.antt =====
-- One candle of analysis/engine.py from end to end: what holds of each object after it.
use aigold_trader.Base.{
  ◌≡◌, refl, ◌+◌, List, [], ◌∷◌, ◌++◌, All, All-append, map, max, true, sym, ◌∙◌, Bool-cases, inl,
  inr, ap, if_true, if_false,
}
use aigold_trader.Risk.Domain.{◌>>=◌, ok, raised, input_error}
use aigold_trader.MarketData.Aggregation.{Candle}
use aigold_trader.Analysis.Domain.{Zone}
use aigold_trader.Analysis.Returns.{Returns, Returns-bind, Returns-of, returned}
use aigold_trader.Analysis.Indicators.{Indicators, last_of, feed_indicators}
use aigold_trader.Analysis.Engine.{Setup, AnalysisEngine}
use aigold_trader.Analysis.Engine.Lifecycle.{
  next_level, liquidity, next_zone, next_zones, update_zones, find_gap,
}
use aigold_trader.Analysis.Engine.Breaks.{breaks}
use aigold_trader.Analysis.Engine.Swings.{pivots}
use aigold_trader.Analysis.Engine.Periods.{periods}
use aigold_trader.Analysis.Engine.Feed.{bounded, accepts, or_first, with_bar, advance, feed}
use aigold_trader.Analysis.Engine.Known.{Basis, basis, Facts, Known, breaks-Known}
use aigold_trader.Analysis.Engine.Found.{pivots-Known, find_gap-Known, periods-Known, bounded-Known}

-- The bars with the candle.
abbrev pub pushed : Setup → Candle → List Candle → List Candle
pushed s c bars = last_of (max 150 (s.config.ob_lookback + 1)) (bars ++ c ∷ [])

-- What one pass over the zones says of the zones and of the new ones.
abbrev pub Both : (Zone → Type 0) → List Zone × List Zone → Type 0
Both P r = All P r.0 × All P r.1

pub next_zones-All :
    (s : Setup) (c : Candle) (P Q : Zone → Type 0)
    → ((z : Zone) → P z → Returns (λ (r : Zone × List Zone). Q r.0 × All Q r.1) (next_zone s c z))
    → (zs : List Zone) → All P zs
    → Returns (Both Q) (next_zones s c zs)
unfolding next_zones
next_zones-All s c P Q f [] h = (tt, tt)
next_zones-All s c P Q f (z ∷ zs) h =
    Returns-bind (λ (r : Zone × List Zone). Q r.0 × All Q r.1) (Both Q) (next_zone s c z) _
      (f z h.0)
      (λ first k.
        Returns-bind (Both Q) (Both Q) (next_zones s c zs) _ (next_zones-All s c P Q f zs h.1)
          (λ rest l. ((k.0, l.0), All-append Q first.1 rest.1 k.1 l.1)))

module _ (s : Setup) (c : Candle) (F : Facts s c) (e : AnalysisEngine) where
  -- After the candle: the bars with it, counted, and the indicators that were fed with it.
  abbrev pub Fed : AnalysisEngine → Type 0
  Fed after =
      (i : Indicators) × (feed_indicators s.config.atr_period s.config.average_period e.indicators c
        ≡ ok i)
      × Known s c F (pushed s c e.bars, e.count + 1, i) after

module _ (s : Setup) (c : Candle) (F : Facts s c) (e : AnalysisEngine)
    (swings : All F.swing e.swings) (events : All F.event e.events)
    (ranges : All F.range e.sessions) (levels : All F.level (map (next_level s c) e.levels))
    (zones : Returns (Both F.zone) (next_zones s c e.zones)) where
  abbrev counted : Basis
  counted = (pushed s c e.bars, e.count + 1, e.indicators)

  advance-Fed : Returns (Fed s c F e) (advance s e c)
  unfolding advance liquidity update_zones
  advance-Fed =
      let B = Known s c F (basis e) in
      let K = Known s c F counted in
      let opened = record e { window_start = or_first e.window_start c.open_time } in
      Returns-bind B (Fed s c F e) (update_zones s c (liquidity s c opened)) _
        (Returns-bind (Both F.zone) B (next_zones s c e.zones) _ zones (λ next h.
          (refl, swings, events, levels, All-append F.zone next.0 next.1 h.0 h.1, ranges)))
        (λ zoned h1.
          Returns-bind B (Fed s c F e) (breaks s c zoned) _ (breaks-Known s c F (basis e) zoned h1)
            (λ broken (b, hs, he, hl, hz, hr).
              Returns-bind K (Fed s c F e) (pivots s c (with_bar s c broken)) _
                (pivots-Known s c F counted (with_bar s c broken)
                  (ap (λ k. (pushed s c k.0, k.1 + 1, k.2)) b, hs, he, hl, hz, hr))
                (λ pivoted h3.
                  Returns-bind K (Fed s c F e) (find_gap s c pivoted) _
                    (find_gap-Known s c F counted pivoted h3)
                    (λ found h4. measured found (periods-Known s c F counted found h4)))))
    where
      measured :
          (found : AnalysisEngine)
          → Known s c F counted (periods s c found)
          → Returns (Fed s c F e) (do
            i ←
                feed_indicators s.config.atr_period s.config.average_period
                  (periods s c found).indicators
                  c
            ok (bounded s (record (periods s c found) { indicators = i })))
      measured found h =
          let grouped = periods s c found in
          Returns-bind
            (λ i. feed_indicators s.config.atr_period s.config.average_period e.indicators c ≡ ok i)
            (Fed s c F e)
            (feed_indicators s.config.atr_period s.config.average_period grouped.indicators c) _
            (Returns-of _ _ (λ i q.
              sym (ap (λ k. feed_indicators s.config.atr_period s.config.average_period k.2 c) h.0)
              ∙ q))
            (λ i q.
              let (b, hs, he, hl, hz, hr) = h in
              (
                i,
                q,
                bounded-Known s c F (pushed s c e.bars, e.count + 1, i)
                    (record grouped { indicators = i })
                    (ap (λ k. (k.0, k.1, i)) b, hs, he, hl, hz, hr),
              ))

  pub feed-Fed : (after : AnalysisEngine) → feed s e c ≡ ok after → Fed s c F e after
  unfolding feed
  feed-Fed after h = elim (Bool-cases (accepts s e c)) [
    | inl y ↦
        returned (Fed s c F e) (advance s e c) advance-Fed
          (sym (if_true (accepts s e c) (advance s e c) (raised input_error) y) ∙ h)
    | inr n ↦
        let x : raised input_error ≡ ok after =
          sym (if_false (accepts s e c) (advance s e c) (raised input_error) n) ∙ h in
        cc
  ]

pub feed-accepts :
    (s : Setup) (e after : AnalysisEngine) (c : Candle)
    → feed s e c ≡ ok after
    → accepts s e c ≡ true
unfolding feed
feed-accepts s e after c h = elim (Bool-cases (accepts s e c)) [
  | inl y ↦ y
  | inr n ↦
      let x : raised input_error ≡ ok after =
        sym (if_false (accepts s e c) (advance s e c) (raised input_error) n) ∙ h in
      cc
]
