-- ===== src/Analysis/Engine/Known.antt =====
-- The steps of analysis/engine.py after the levels and zones are updated: a predicate that holds of
-- each object known before, and of each that the candle confirms, holds of each object after.
use aigold_trader.Base.{
  ℕ, String, ◌&&◌, ◌≡◌, refl, Bool, true, Option, none, some, List, [], ◌∷◌, All, All-append,
}
use aigold_trader.Risk.Domain.{Raises, ok}
use aigold_trader.Analysis.Returns.{Returns, Returns-bind, Returns-any, Returns-if}
use aigold_trader.MarketData.Aggregation.{Candle}
use aigold_trader.Analysis.Domain.{
  Direction, neutral, Scope, internal, external, Side, high, low, SwingPoint, StructureEvent,
  LiquidityLevel, Zone, SessionRange, bos, choch, mss,
}
use aigold_trader.Analysis.Indicators.{Indicators, last_of, value_of}
use aigold_trader.Analysis.Engine.{
  Setup, Structure, AnalysisEngine, end_of, structure_of, with_structure, latest_of, broken_of,
  is_broken, built, valid_zone,
}
use aigold_trader.Analysis.Engine.Breaks.{
  marked, is_crossed, displacement, find_last, is_opposing, direction_of, with_block, has_zone,
  block_of, event_of, marks_block, add_event, Meets, same, other, nothing, meets, shifted, break_of,
  break_swing, break_latest, break_side, breaks, with_state,
}

-- A predicate of each kind of object, which the objects that a candle confirms have.
pub record Facts (s : Setup) (c : Candle) : Type 1 where
  pub swing : SwingPoint → Type 0
  pub event : StructureEvent → Type 0
  pub level : LiquidityLevel → Type 0
  pub zone : Zone → Type 0
  pub range : SessionRange → Type 0
  pub new_swing : (w : SwingPoint) → w.confirmed_at ≡ end_of s c → swing w
  pub new_event : (v : StructureEvent) → v.confirmed_at ≡ end_of s c → event v
  pub new_level : (l : LiquidityLevel) → l.confirmed_at ≡ end_of s c → level l
  pub new_zone : (z : Zone) → z.confirmed_at ≡ end_of s c → zone z
  pub new_range : (r : SessionRange) → r.confirmed_at ≡ end_of s c → range r

-- What the objects of an engine are read from: its bars, their count and the indicators.
abbrev pub Basis : Type 0
Basis = List Candle × ℕ × Indicators

abbrev pub basis : AnalysisEngine → Basis
basis e = (e.bars, e.count, e.indicators)

module _ (s : Setup) (c : Candle) (F : Facts s c) where
  -- What is known, with what it is known from.
  abbrev pub Known : Basis → AnalysisEngine → Type 0
  Known k e =
      (basis e ≡ k)
      × All F.swing e.swings
      × All F.event e.events
      × All F.level e.levels
      × All F.zone e.zones
      × All F.range e.sessions

  abbrev pub Keeps : Basis → Raises AnalysisEngine → Type 0
  Keeps bars m = Returns (Known bars) m

  pub built_new : (z : Zone) → z.confirmed_at ≡ end_of s c → Returns F.zone (built z)
  unfolding built
  built_new z e = Returns-if F.zone (valid_zone z) _ _ (λ _. F.new_zone z e) (λ _. tt)

  module _ (bars : Basis) where
    pub with_structure-Known :
        (scope : Scope) (t : Structure) (e : AnalysisEngine)
        → Known bars e
        → Known bars (with_structure scope t e)
    with_structure-Known internal t e h = h
    with_structure-Known external t e h = h

    with_block-All :
        (d : Direction) (id : String) (o : Option Candle) (zones : List Zone)
        → All F.zone zones
        → Returns (All F.zone) (with_block s c d id o zones)
    unfolding with_block
    with_block-All d id none zones h = h
    with_block-All d id (some o) zones h =
        Returns-if (All F.zone) (has_zone (s.identity.order_block d o.open_time) zones) _ _ (λ _. h)
          (λ _.
            Returns-bind F.zone (All F.zone) (built (block_of s c d id o)) _
              (built_new (block_of s c d id o) refl)
              (λ z new. All-append F.zone zones (z ∷ []) h (new, tt)))

    add_event-Known :
        (side : Side) (v : StructureEvent) (e : AnalysisEngine)
        → v.confirmed_at ≡ end_of s c
        → Known bars e
        → Keeps bars (add_event s c side v e)
    unfolding add_event
    add_event-Known side v e new (b, hs, he, hl, hz, hr) =
        let origin =
          find_last (is_opposing (direction_of side)) (last_of s.config.ob_lookback e.bars) in
        Returns-bind (All F.zone) (Known bars) _ _
          (Returns-if (All F.zone) (v.displacement && marks_block v.kind)
            (with_block s c (direction_of side) v.id origin e.zones) (ok e.zones)
            (λ _. with_block-All (direction_of side) v.id origin e.zones hz) (λ _. hz))
          (λ zones kz.
            (b, hs, All-append F.event e.events (v ∷ []) he (F.new_event v new, tt), hl, kz, hr))

    shifted-Known :
        (scope : Scope) (side : Side) (w : SwingPoint) (displaced : Bool) (e : AnalysisEngine)
        → Known bars e
        → Keeps bars (shifted s c scope side w displaced e)
    unfolding shifted
    shifted-Known scope side w displaced e h =
        let warning = event_of s c choch scope side w displaced none in
        Returns-bind (Known bars) (Known bars) (add_event s c side warning e) _
          (add_event-Known side warning e refl h)
          (λ warned k.
            let still = with_state scope neutral warned in
            let k2 =
              with_structure-Known scope (record (structure_of scope warned) { state = neutral })
                warned k in
            let shift = event_of s c mss scope side w true (some warning.id) in
            Returns-if (Known bars) displaced _ (ok still)
              (λ _.
                Returns-bind (Known bars) (Known bars) (add_event s c side shift still) _
                  (add_event-Known side shift still refl k2)
                  (λ moved k3. with_structure-Known scope _ moved k3))
              (λ _. k2))

    break_of-Known :
        (scope : Scope) (side : Side) (w : SwingPoint) (displaced : Bool) (m : Meets)
        (e : AnalysisEngine)
        → Known bars e
        → Keeps bars (break_of s c scope side w displaced m e)
    break_of-Known scope side w displaced same e h =
        add_event-Known side (event_of s c bos scope side w displaced none) e refl h
    break_of-Known scope side w displaced other e h = shifted-Known scope side w displaced e h
    break_of-Known scope side w displaced nothing e h = with_structure-Known scope _ e h

    break_swing-Known :
        (scope : Scope) (side : Side) (w : SwingPoint) (e : AnalysisEngine)
        → Known bars e
        → Keeps bars (break_swing s c scope side w e)
    unfolding break_swing
    break_swing-Known scope side w e h =
        let t = structure_of scope e in
        let broken = with_structure scope (marked side w t) e in
        Returns-if (Known bars) (is_broken (broken_of side t) w) (ok e) _ (λ _. h)
          (λ _.
            Returns-if (Known bars) (is_crossed s c side w) _ (ok e)
              (λ _.
                Returns-any (Known bars)
                  (displacement s (value_of e.indicators.atr) c (direction_of side)) _
                  (λ displaced.
                    break_of-Known scope side w displaced (meets t.state side) broken
                      (with_structure-Known scope (marked side w t) e h)))
              (λ _. h))

    break_side-Known :
        (scope : Scope) (side : Side) (e : AnalysisEngine)
        → Known bars e
        → Keeps bars (break_side s c scope side e)
    break_side-Known scope side e h = latest (latest_of side (structure_of scope e))
      where
        latest : (o : Option SwingPoint) → Keeps bars (break_latest s c scope side o e)
        latest none = h
        latest (some w) = break_swing-Known scope side w e h

    pub breaks-Known : (e : AnalysisEngine) → Known bars e → Keeps bars (breaks s c e)
    unfolding breaks
    breaks-Known e h =
        let K = Known bars in
        Returns-bind K K (break_side s c internal high e) _ (break_side-Known internal high e h)
          (λ e1 h1.
            Returns-bind K K (break_side s c internal low e1) _
              (break_side-Known internal low e1 h1)
              (λ e2 h2.
                Returns-bind K K (break_side s c external high e2) _
                  (break_side-Known external high e2 h2)
                  (λ e3 h3. break_side-Known external low e3 h3)))
