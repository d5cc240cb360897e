-- ===== src/Analysis/Engine/Causal.antt =====
-- No look-ahead in analysis/engine.py: candles that come later neither add to what is confirmed by the
-- earlier ones nor change it.
use mathlib.Core.Path.{subst}
use aigold_trader.Base.{
  ℕ, ◌<◌, ◌≡◌, ◌⊎◌, inl, inr, ◌∙◌, refl, sym, Bool, true, ◌&&◌, ◌||◌, none, some, List, All, ltb,
  ◌==◌, if_ind, any, pos,
}
use aigold_trader.Decimal.{of_int, ◌≤ᵈ◌}
use aigold_trader.MarketData.Aggregation.{Candle}
use aigold_trader.Analysis.Domain.{LiquidityLevel, Zone, filled, partially_filled}
use aigold_trader.Analysis.Engine.{Setup, AnalysisEngine, end_of}
use aigold_trader.Analysis.Engine.Steps.{
  LevelStep, level_kept, level_swept, level_invalidated, ZoneStep, zone_kept, zone_invalidated,
  zone_filled, zone_mitigated,
}
use aigold_trader.Analysis.Engine.Ends.{IsIn}
use aigold_trader.Analysis.Engine.Marks.{Marks}

-- What a level and a zone keep through their steps.
abbrev pub SameLevel : LiquidityLevel → LiquidityLevel → Type 0
SameLevel k l =
    (l.id ≡ k.id)
    × (l.kind ≡ k.kind)
    × (l.side ≡ k.side)
    × (l.price ≡ k.price)
    × (l.confirmed_at ≡ k.confirmed_at)

abbrev pub SameZone : Zone → Zone → Type 0
SameZone y z =
    (z.id ≡ y.id)
    × (z.kind ≡ y.kind)
    × (z.direction ≡ y.direction)
    × (z.lower_bound ≡ y.lower_bound)
    × (z.upper_bound ≡ y.upper_bound)
    × (z.confirmed_at ≡ y.confirmed_at)

LevelStep-SameLevel :
    (s : Setup) (c : Candle) (k l : LiquidityLevel) → LevelStep s c k l → SameLevel k l
LevelStep-SameLevel s c k _ (level_kept h) = (refl, refl, refl, refl, refl)
LevelStep-SameLevel s c k _ (level_swept h i) = (refl, refl, refl, refl, refl)
LevelStep-SameLevel s c k _ (level_invalidated h i) = (refl, refl, refl, refl, refl)

ZoneStep-SameZone : (s : Setup) (c : Candle) (y z : Zone) → ZoneStep s c y z → SameZone y z
ZoneStep-SameZone s c y _ (zone_kept h) = (refl, refl, refl, refl, refl, refl)
ZoneStep-SameZone s c y _ (zone_invalidated h i) = (refl, refl, refl, refl, refl, refl)
ZoneStep-SameZone s c y _ (zone_filled h i j fraction shown) =
    if_ind (SameZone y) (of_int (pos 1) ≤ᵈ fraction)
      (record y { status = filled; fill_fraction = shown; ended_at = some (end_of s c) })
      (record y { status = partially_filled; fill_fraction = shown; ended_at = none })
      (λ _. (refl, refl, refl, refl, refl, refl)) (λ _. (refl, refl, refl, refl, refl, refl))
ZoneStep-SameZone s c y _ (zone_mitigated h i j) = (refl, refl, refl, refl, refl, refl)

-- An instant at which a closed candle ends.
abbrev pub IsEnd : Setup → List Candle → ℕ → Type 0
IsEnd s cs t = any (λ c. c.is_closed && end_of s c == t) cs ≡ true

-- Every object was confirmed at the end of a closed candle.
abbrev pub IsDated : Setup → List Candle → AnalysisEngine → Type 0
IsDated s cs e =
    All (λ w. IsEnd s cs w.confirmed_at) e.swings
    × All (λ v. IsEnd s cs v.confirmed_at) e.events
    × All (λ l. IsEnd s cs l.confirmed_at) e.levels
    × All (λ z. IsEnd s cs z.confirmed_at) e.zones
    × All (λ r. IsEnd s cs r.confirmed_at) e.sessions

abbrev dated : (s : Setup) (cs : List Candle) → Marks s
dated s cs = record {
  instant = IsEnd s cs;
  swing = λ w. IsEnd s cs w.confirmed_at;
  event = λ v. IsEnd s cs v.confirmed_at;
  level = λ l. IsEnd s cs l.confirmed_at;
  zone = λ z. IsEnd s cs z.confirmed_at;
  range = λ r. IsEnd s cs r.confirmed_at;
  new_swing = λ w h. h;
  new_event = λ v h. h;
  new_level = λ l h. h;
  new_zone = λ z h. h;
  new_range = λ r h. h;
  level_step = λ c k l step h. subst (IsEnd s cs) (sym (LevelStep-SameLevel s c k l step).4) h;
  zone_step = λ c y z step h. subst (IsEnd s cs) (sym (ZoneStep-SameZone s c y z step).5) h;
}

-- An instant after the ends of all the candles.
abbrev pub IsAfter : Setup → List Candle → ℕ → Type 0
IsAfter s cs t = All (λ c. end_of s c < t) cs

-- Every object was confirmed after the candles, or is one of the engine, a level or a zone up to its
-- status.
abbrev pub AddsTo : Setup → List Candle → AnalysisEngine → AnalysisEngine → Type 0
AddsTo s cs e after =
    All (λ w. IsAfter s cs w.confirmed_at ⊎ IsIn e.swings w) after.swings
    × All (λ v. IsAfter s cs v.confirmed_at ⊎ IsIn e.events v) after.events
    × All
        (λ l.
          IsAfter s cs l.confirmed_at ⊎ ((k : LiquidityLevel) × IsIn e.levels k × SameLevel k l))
        after.levels
    × All (λ z. IsAfter s cs z.confirmed_at ⊎ ((y : Zone) × IsIn e.zones y × SameZone y z))
        after.zones
    × All (λ r. IsAfter s cs r.confirmed_at ⊎ IsIn e.sessions r) after.sessions

SameLevel-trans : (j k l : LiquidityLevel) → SameLevel j k → SameLevel k l → SameLevel j l
SameLevel-trans j k l (a, b, c, d, e) (a', b', c', d', e') =
    (a' ∙ a, b' ∙ b, c' ∙ c, d' ∙ d, e' ∙ e)

SameZone-trans : (x y z : Zone) → SameZone x y → SameZone y z → SameZone x z
SameZone-trans x y z (a, b, c, d, e, f) (a', b', c', d', e', f') =
    (a' ∙ a, b' ∙ b, c' ∙ c, d' ∙ d, e' ∙ e, f' ∙ f)

abbrev adds_to : (s : Setup) (cs : List Candle) (e : AnalysisEngine) → Marks s
adds_to s cs e = record {
  instant = IsAfter s cs;
  swing = λ w. IsAfter s cs w.confirmed_at ⊎ IsIn e.swings w;
  event = λ v. IsAfter s cs v.confirmed_at ⊎ IsIn e.events v;
  level =
      λ l. IsAfter s cs l.confirmed_at ⊎ ((k : LiquidityLevel) × IsIn e.levels k × SameLevel k l);
  zone = λ z. IsAfter s cs z.confirmed_at ⊎ ((y : Zone) × IsIn e.zones y × SameZone y z);
  range = λ r. IsAfter s cs r.confirmed_at ⊎ IsIn e.sessions r;
  new_swing = λ w h. inl h;
  new_event = λ v h. inl h;
  new_level = λ l h. inl h;
  new_zone = λ z h. inl h;
  new_range = λ r h. inl h;
  level_step = λ c k l step h. elim h [
    | inl late ↦ inl (subst (IsAfter s cs) (sym (LevelStep-SameLevel s c k l step).4) late)
    | inr (j, held, same) ↦
        inr (j, held, SameLevel-trans j k l same (LevelStep-SameLevel s c k l step))
  ];
  zone_step = λ c y z step h. elim h [
    | inl late ↦ inl (subst (IsAfter s cs) (sym (ZoneStep-SameZone s c y z step).5) late)
    | inr (x, held, same) ↦
        inr (x, held, SameZone-trans x y z same (ZoneStep-SameZone s c y z step))
  ];
}

module _ (s : Setup) (requested : ℕ) where
  abbrev wrong : ℕ → Bool
  wrong n = ltb 1000 n || ltb requested n || ltb requested 1 || ltb 1000 requested
