-- ===== src/Analysis/Engine/Steps.antt =====
-- What one candle of analysis/engine.py does to a level and to a zone, as step relations.
use aigold_trader.Base.{
  ◌≢◌, ◌≤◌, ◌∙◌, sym, ltb, ltb_false→le, ◌≡◌, refl, Bool, true, false, ◌&&◌, ◌||◌, not, ap, some,
  List, [], ◌∷◌, All, if◌then◌else◌, if_ind, pos, arith,
}
use aigold_trader.Decimal.{Decimal, of_int, ◌-ᵈ◌, min_dec, max_dec, div_dec}
use aigold_trader.Risk.Domain.{ok, ◌>>=◌, lift}
use aigold_trader.MarketData.Aggregation.{Candle}
use aigold_trader.Analysis.Domain.{
  LiquidityLevel, LevelStatus, Zone, ZoneKind, ZoneStatus, fvg, ifvg, ob, breaker, opened,
  mitigated,
}
use aigold_trader.Analysis.Returns.{Returns, Returns-bind, Returns-any, Returns-if}
use aigold_trader.Analysis.Indicators.{rounded}
use aigold_trader.Analysis.Engine.{Setup, tolerance, end_of, built, valid_zone}
use aigold_trader.Analysis.Engine.Lifecycle.{
  is_active, is_ended, is_watched, crossed_level, inside_level, broken_level, swept_by,
  invalidated_by, next_level, is_skipped, is_invalid, is_touched, inverted, inverted_as, is_gap,
  depth, filled_to, touched_zone, next_zone,
}

abbrev pub sweeps_level : Setup → Candle → LiquidityLevel → Bool
sweeps_level s c k = crossed_level (tolerance s) c k k.side && inside_level c k k.side

abbrev pub ends_level : Setup → Candle → LiquidityLevel → Bool
ends_level s c k = is_watched c k && (sweeps_level s c k || broken_level (tolerance s) c k k.side)

abbrev pub moves_zone : Setup → Candle → Zone → Bool
moves_zone s c z =
    not (is_skipped c z) && (is_invalid (tolerance s) c z z.direction || is_touched c z)

unmoved : (a b d : Bool) → b ≡ false → d ≡ false → (a && (b || d)) ≡ false
unmoved a b d e f = ground arith

unwatched : (a b d : Bool) → a ≡ false → (a && (b || d)) ≡ false
unwatched a b d e = ground arith

-- ACTIVE, and confirmed by the time the candle opens.
abbrev pub IsLiveLevel : Candle → LiquidityLevel → Type 0
IsLiveLevel c k = (k.status ≡ LevelStatus.active) × (k.confirmed_at ≤ c.open_time)

-- Neither FILLED nor INVALIDATED, and confirmed by the time the candle opens.
abbrev pub IsLiveZone : Candle → Zone → Type 0
IsLiveZone c z =
    (z.status ≢ ZoneStatus.filled)
    × (z.status ≢ ZoneStatus.invalidated)
    × (z.confirmed_at ≤ c.open_time)

both_true : (a b : Bool) → (a && b) ≡ true → (a ≡ true) × (b ≡ true)
both_true a b h = (ground arith, ground arith)

both_false : (a b : Bool) → (a || b) ≡ false → (a ≡ false) × (b ≡ false)
both_false a b h = (ground arith, ground arith)

is_active-eq : (st : LevelStatus) → is_active st ≡ true → st ≡ LevelStatus.active
is_active-eq LevelStatus.active h = refl
is_active-eq LevelStatus.swept h = cc
is_active-eq LevelStatus.invalidated h = cc

is_watched-IsLiveLevel : (c : Candle) (k : LiquidityLevel) → is_watched c k ≡ true → IsLiveLevel c k
is_watched-IsLiveLevel c k h =
    let (a, b) = both_true (is_active k.status) (not (ltb c.open_time k.confirmed_at)) h in
    (
      is_active-eq k.status a,
      ltb_false→le c.open_time k.confirmed_at (not_true (ltb c.open_time k.confirmed_at) b),
    )
  where
    not_true : (x : Bool) → not x ≡ true → x ≡ false
    not_true x e = ground arith

is_skipped-IsLiveZone : (c : Candle) (z : Zone) → is_skipped c z ≡ false → IsLiveZone c z
is_skipped-IsLiveZone c z h =
    let (a, b) = both_false (is_ended z.status) (ltb c.open_time z.confirmed_at) h in
    (
      λ e. true_is_not_false (ap is_ended (sym e) ∙ a),
      λ e. true_is_not_false (ap is_ended (sym e) ∙ a),
      ltb_false→le c.open_time z.confirmed_at b,
    )
  where
    true_is_not_false : true ≡ false → ⊥
    true_is_not_false e = cc

-- A level changes only while it is watched: swept by a candle that crosses it and closes inside, or
-- invalidated by one that closes beyond it.
pub data LevelStep (s : Setup) (c : Candle) (k : LiquidityLevel) : LiquidityLevel → Type 0 where
  level_kept : ends_level s c k ≡ false → LevelStep s c k k
  level_swept : IsLiveLevel c k → sweeps_level s c k ≡ true → LevelStep s c k (swept_by s c k)
  level_invalidated :
      IsLiveLevel c k
      → broken_level (tolerance s) c k k.side ≡ true
      → LevelStep s c k (invalidated_by s c k)

abbrev pub invalidated_zone : Setup → Candle → Zone → Zone
invalidated_zone s c z = record z { status = ZoneStatus.invalidated; ended_at = some (end_of s c) }

-- A zone changes only while it is neither FILLED nor INVALIDATED, by a candle that opens at or after its
-- confirmation: invalidated by a close beyond it, else filled in part or whole where it is a gap that
-- the candle touches, or mitigated where it is none.
pub data ZoneStep (s : Setup) (c : Candle) (z : Zone) : Zone → Type 0 where
  zone_kept : moves_zone s c z ≡ false → ZoneStep s c z z
  zone_invalidated :
      IsLiveZone c z
      → is_invalid (tolerance s) c z z.direction ≡ true
      → ZoneStep s c z (invalidated_zone s c z)
  zone_filled :
      IsLiveZone c z
      → is_touched c z ≡ true
      → is_gap z.kind ≡ true
      → (fraction shown : Decimal) → ZoneStep s c z (filled_to s c z fraction shown)
  zone_mitigated :
      IsLiveZone c z
      → is_touched c z ≡ true
      → is_gap z.kind ≡ false
      → ZoneStep s c z (record z { status = mitigated })

module _ (s : Setup) (c : Candle) where
  pub next_level-LevelStep : (k : LiquidityLevel) → LevelStep s c k (next_level s c k)
  unfolding next_level
  next_level-LevelStep k =
      let Step = LevelStep s c k in
      let sweeps = sweeps_level s c k in
      let breaks = broken_level (tolerance s) c k k.side in
      let beyond = if breaks then invalidated_by s c k else k in
      if_ind Step (is_watched c k) (if sweeps then swept_by s c k else beyond) k
        (λ w.
          if_ind Step sweeps (swept_by s c k) beyond (level_swept (is_watched-IsLiveLevel c k w))
            (λ f.
              if_ind Step breaks (invalidated_by s c k) k
                (level_invalidated (is_watched-IsLiveLevel c k w))
                (λ g. level_kept (unmoved (is_watched c k) sweeps breaks f g))))
        (λ f. level_kept (unwatched (is_watched c k) sweeps breaks f))

  -- A zone after a candle, with what it turned into.
  abbrev pub Stepped : Zone → Zone × List Zone → Type 0
  Stepped z r = ZoneStep s c z r.0 × All (λ y. y.confirmed_at ≡ end_of s c) r.1

  abbrev AreNew : List Zone → Type 0
  AreNew zones = All (λ y. y.confirmed_at ≡ end_of s c) zones

  built-AreNew :
      (y : Zone) → y.confirmed_at ≡ end_of s c → Returns AreNew (built y >>= (λ x. ok (x ∷ [])))
  unfolding built
  built-AreNew y e =
      Returns-bind (λ x. x.confirmed_at ≡ end_of s c) AreNew (built y) _
        (Returns-if (λ x. x.confirmed_at ≡ end_of s c) (valid_zone y) _ _ (λ _. e) (λ _. tt))
        (λ x k. (k, tt))

  inverted-AreNew : (z : Zone) (kind : ZoneKind) → Returns AreNew (inverted s c z kind)
  inverted-AreNew z fvg = built-AreNew (inverted_as s c z ifvg opened) refl
  inverted-AreNew z ob = built-AreNew (inverted_as s c z breaker ZoneStatus.active) refl
  inverted-AreNew z ifvg = tt
  inverted-AreNew z breaker = tt

  touched_zone-ZoneStep :
      (z : Zone)
      → IsLiveZone c z
      → is_touched c z ≡ true
      → Returns (ZoneStep s c z) (touched_zone s c z)
  unfolding touched_zone
  touched_zone-ZoneStep z live touched =
      let Step = ZoneStep s c z in
      Returns-if Step (is_gap z.kind) _ (ok (record z { status = mitigated }))
        (λ gap.
          Returns-any Step (lift (div_dec (depth c z z.direction) (z.upper_bound -ᵈ z.lower_bound)))
            _
            (λ part.
              let fraction = min_dec (of_int (pos 1)) (max_dec z.fill_fraction part) in
              Returns-any Step (rounded fraction) _
                (λ shown. zone_filled live touched gap fraction shown)))
        (zone_mitigated live touched)

  pub next_zone-Stepped : (z : Zone) → Returns (Stepped z) (next_zone s c z)
  unfolding next_zone
  next_zone-Stepped z =
      let P = Stepped z in
      let invalid = is_invalid (tolerance s) c z z.direction in
      Returns-if P (is_skipped c z) (ok (z, [])) _
        (λ e.
          (zone_kept (unwatched (not (is_skipped c z)) invalid (is_touched c z) (ap not e)), tt))
        (λ live.
          Returns-if P invalid _ _
            (λ e.
              Returns-bind AreNew P (inverted s c z z.kind) _ (inverted-AreNew z z.kind)
                (λ new h. (zone_invalidated (is_skipped-IsLiveZone c z live) e, h)))
            (λ f.
              Returns-if P (is_touched c z) _ (ok (z, []))
                (λ t.
                  Returns-bind (ZoneStep s c z) P (touched_zone s c z) _
                    (touched_zone-ZoneStep z (is_skipped-IsLiveZone c z live) t) (λ y h. (h, tt)))
                (λ g.
                  (zone_kept (unmoved (not (is_skipped c z)) invalid (is_touched c z) f g), tt))))
