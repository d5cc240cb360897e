-- ===== src/Analysis/Engine/Marks.antt =====
-- A predicate on each kind of object of analysis/engine.py that the steps of a level or a zone leave,
-- and that the objects have which a candle confirms: it holds of what the engine holds after a run.
use mathlib.Core.Path.{subst}
use aigold_trader.Base.{
  ℕ, ◌≡◌, refl, sym, Bool, true, not, Option, some, List, [], ◌∷◌, All, All-imp, All-image,
  if◌then◌else◌,
}
use aigold_trader.Risk.Domain.{ok, raised, input_error}
use aigold_trader.MarketData.Aggregation.{Candle}
use aigold_trader.Analysis.Domain.{SwingPoint, StructureEvent, LiquidityLevel, Zone, SessionRange}
use aigold_trader.Analysis.Returns.{Returns, Returns-bind, Returns-if, returned, Returns-of}
use aigold_trader.Analysis.Engine.{Setup, AnalysisEngine, end_of}
use aigold_trader.Analysis.Engine.Lifecycle.{next_level, next_zone}
use aigold_trader.Analysis.Engine.Steps.{
  LevelStep, next_level-LevelStep, ZoneStep, Stepped, next_zone-Stepped,
}
use aigold_trader.Analysis.Engine.Feed.{feed, admits, analyze_from}
use aigold_trader.Analysis.Engine.Known.{Facts}
use aigold_trader.Analysis.Engine.Advance.{next_zones-All, Fed, feed-Fed}

-- The predicates, with the instants that confirm an object they hold of.
pub record Marks (s : Setup) : Type 1 where
  pub instant : ℕ → Type 0
  pub swing : SwingPoint → Type 0
  pub event : StructureEvent → Type 0
  pub level : LiquidityLevel → Type 0
  pub zone : Zone → Type 0
  pub range : SessionRange → Type 0
  pub new_swing : (w : SwingPoint) → instant w.confirmed_at → swing w
  pub new_event : (v : StructureEvent) → instant v.confirmed_at → event v
  pub new_level : (l : LiquidityLevel) → instant l.confirmed_at → level l
  pub new_zone : (z : Zone) → instant z.confirmed_at → zone z
  pub new_range : (r : SessionRange) → instant r.confirmed_at → range r
  pub level_step : (c : Candle) (k l : LiquidityLevel) → LevelStep s c k l → level k → level l
  pub zone_step : (c : Candle) (y z : Zone) → ZoneStep s c y z → zone y → zone z

module _ (s : Setup) (M : Marks s) where
  abbrev pub Marked : AnalysisEngine → Type 0
  Marked e =
      All M.swing e.swings
      × All M.event e.events
      × All M.level e.levels
      × All M.zone e.zones
      × All M.range e.sessions

  module _ (c : Candle) (now : M.instant (end_of s c)) where
    at_end : (t : ℕ) → t ≡ end_of s c → M.instant t
    at_end t e = subst M.instant (sym e) now

    abbrev marks : Facts s c
    marks = record {
      swing = M.swing;
      event = M.event;
      level = M.level;
      zone = M.zone;
      range = M.range;
      new_swing = λ w e. M.new_swing w (at_end w.confirmed_at e);
      new_event = λ v e. M.new_event v (at_end v.confirmed_at e);
      new_level = λ l e. M.new_level l (at_end l.confirmed_at e);
      new_zone = λ z e. M.new_zone z (at_end z.confirmed_at e);
      new_range = λ r e. M.new_range r (at_end r.confirmed_at e);
    }

    zone_marked :
        (z : Zone)
        → M.zone z
        → Returns (λ (r : Zone × List Zone). M.zone r.0 × All M.zone r.1) (next_zone s c z)
    zone_marked z h = Returns-of _ (next_zone s c z) (λ r e.
        let (step, new) = returned (Stepped s c z) (next_zone s c z) (next_zone-Stepped s c z) e in
        (
          M.zone_step c z r.0 step h,
          All-imp (λ (y : Zone) q. M.new_zone y (at_end y.confirmed_at q)) r.1 new,
        ))

    pub feed-Marked : (e after : AnalysisEngine) → Marked e → feed s e c ≡ ok after → Marked after
    feed-Marked e after (hs, he, hl, hz, hr) h = known_parts (
        feed-Fed s c marks e hs he hr
          (All-image M.level (next_level s c)
            (λ k m. M.level_step c k (next_level s c k) (next_level-LevelStep s c k) m) e.levels hl)
          (next_zones-All s c M.zone M.zone zone_marked e.zones hz) after h)
      where
        known_parts : Fed s c marks e after → Marked after
        known_parts (_, _, (b, ks, ke, kl, kz, kr)) = (ks, ke, kl, kz, kr)

  pub analyze_from-Marked :
      (previous : Option ℕ) (forming : Bool) (e : AnalysisEngine) (cs : List Candle)
      → All (λ c. c.is_closed ≡ true → M.instant (end_of s c)) cs
      → Marked e
      → Returns Marked (analyze_from s previous forming e cs)
  unfolding analyze_from
  analyze_from-Marked previous forming e [] a h = h
  analyze_from-Marked previous forming e (c ∷ cs) (now, a) h =
      Returns-bind (λ d. c ≡ d) Marked
        (if admits s previous forming c then ok c else raised input_error) _
        (Returns-if (λ d. c ≡ d) (admits s previous forming c) (ok c) (raised input_error)
          (λ _. refl) (λ _. tt))
        (λ admitted same.
          Returns-bind Marked Marked (if c.is_closed then feed s e admitted else ok e) _
            (Returns-if Marked c.is_closed (feed s e admitted) (ok e)
              (λ closed.
                Returns-of Marked (feed s e admitted)
                  (λ after k. fed c admitted same (now closed) e after h k))
              (λ _. h))
            (λ fed k. analyze_from-Marked (some c.open_time) (not c.is_closed) fed cs a k))
    where
      fed :
          (c d : Candle)
          → c ≡ d
          → M.instant (end_of s c)
          → (e after : AnalysisEngine) → Marked e
          → feed s e d ≡ ok after
          → Marked after
      fed c d same now e after h k =
          feed-Marked d (subst (λ (x : Candle). M.instant (end_of s x)) same now) e after h k
