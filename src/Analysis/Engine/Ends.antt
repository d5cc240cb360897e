-- ===== src/Analysis/Engine/Ends.antt =====
-- What becomes of the levels and zones of analysis/engine.py over a candle that is fed.
use aigold_trader.Base.{
  ℕ, suc, ◌≡◌, ◌⊎◌, inl, inr, refl, some, List, [], ◌∷◌, All, All-imp, All-true, All-image,
  get_elem?,
}
use aigold_trader.Risk.Domain.{ok}
use aigold_trader.MarketData.Aggregation.{Candle}
use aigold_trader.Analysis.Domain.{LiquidityLevel, Zone}
use aigold_trader.Analysis.Returns.{Returns, returned, Returns-of}
use aigold_trader.Analysis.Engine.{Setup, AnalysisEngine, end_of}
use aigold_trader.Analysis.Engine.Lifecycle.{next_level, next_zone}
use aigold_trader.Analysis.Engine.Feed.{feed}
use aigold_trader.Analysis.Engine.Steps.{
  LevelStep, next_level-LevelStep, ZoneStep, Stepped, next_zone-Stepped,
}
use aigold_trader.Analysis.Engine.Known.{Facts}
use aigold_trader.Analysis.Engine.Advance.{next_zones-All, Fed, feed-Fed}

-- An element of a list.
abbrev pub IsIn : {A : Type 0} → List A → A → Type 0
IsIn xs x = (i : ℕ) × (get_elem? xs i ≡ some x)

pub all-IsIn : {A : Type 0} (xs : List A) → All (IsIn xs) xs
all-IsIn [] = tt
all-IsIn (x ∷ xs) = ((0, refl), All-imp (λ y (i, e). (suc i, e)) xs (all-IsIn xs))

-- A level that the candle confirms, or one from before after one step.
abbrev pub FromLevel : Setup → Candle → List LiquidityLevel → LiquidityLevel → Type 0
FromLevel s c before l =
    (l.confirmed_at ≡ end_of s c) ⊎ ((k : LiquidityLevel) × IsIn before k × LevelStep s c k l)

abbrev pub FromZone : Setup → Candle → List Zone → Zone → Type 0
FromZone s c before z =
    (z.confirmed_at ≡ end_of s c) ⊎ ((y : Zone) × IsIn before y × ZoneStep s c y z)

abbrev origins : (s : Setup) (c : Candle) → AnalysisEngine → Facts s c
origins s c e = record {
  swing = λ w. Unit;
  event = λ v. Unit;
  level = FromLevel s c e.levels;
  zone = FromZone s c e.zones;
  range = λ r. Unit;
  new_swing = λ w e. tt;
  new_event = λ v e. tt;
  new_level = λ l e. inl e;
  new_zone = λ z e. inl e;
  new_range = λ r e. tt;
}

zone_origin :
    (s : Setup) (c : Candle) (before : List Zone) (z : Zone)
    → IsIn before z
    → Returns
        (λ (r : Zone × List Zone). FromZone s c before r.0 × All (FromZone s c before) r.1)
        (next_zone s c z)
zone_origin s c before z h = Returns-of _ (next_zone s c z) (λ r e.
    let (step, new) = returned (Stepped s c z) (next_zone s c z) (next_zone-Stepped s c z) e in
    (inr (z, h, step), All-imp (λ y e. inl e) r.1 new))

-- Over a candle that `feed` accepts, every level and every zone that the engine holds afterwards is
-- either confirmed by that candle, or was held before and made one step. A level stays as it is
-- unless it is ACTIVE, was confirmed by the time the candle opens, and the candle sweeps or breaks
-- it; a zone stays as it is unless it is neither FILLED nor INVALIDATED, was confirmed by the time the
-- candle opens, and the candle closes beyond it or touches it.
pub feed_lifecycle :
    (s : Setup) (c : Candle) (e after : AnalysisEngine)
    → feed s e c ≡ ok after
    → All (FromLevel s c e.levels) after.levels × All (FromZone s c e.zones) after.zones
feed_lifecycle s c e after h =
    let F = origins s c e in
    let levels =
      All-image F.level (next_level s c) (λ k h. inr (k, h, next_level-LevelStep s c k)) e.levels
        (all-IsIn e.levels) in
    let zones =
      next_zones-All s c (IsIn e.zones) F.zone (zone_origin s c e.zones) e.zones
        (all-IsIn e.zones) in
    both (
      feed-Fed s c F e (All-true (λ w. tt) e.swings) (All-true (λ v. tt) e.events)
        (All-true (λ r. tt) e.sessions) levels zones after h)
  where
    both :
        Fed s c (origins s c e) e after
        → All (FromLevel s c e.levels) after.levels × All (FromZone s c e.zones) after.zones
    both (_, _, (_, _, _, kl, kz, _)) = (kl, kz)
