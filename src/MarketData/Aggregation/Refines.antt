-- ===== src/MarketData/Aggregation/Refines.antt =====
-- The engine of market_data/aggregation.py against a description that keeps every minute.
use aigold_trader.Base.{
  ℕ, ◌+◌, ◌/◌, ◌≤◌, ◌<◌, ◌≡◌, ◌⊎◌, ◌∙◌, ap, refl, sym, inl, inr, Bool, true, false, Option, none,
  some, List, [], ◌∷◌, ◌==◌, if◌then◌else◌, arith, Bool-cases, if_true, if_false, All,
}
use aigold_trader.Risk.Domain.{Raises, raised, validation_error}
use aigold_trader.MarketData.Aggregation.{
  new_engine, offset_of, seconds_of, Tick, tick_base, same_minute, out_of_order, ingest, Timeframe,
  m1, m3, m5, m15, m30, h1, h4, d1, w1, bucket, Candle, merge, Slot, CandleEngine, is_m1, ended,
  finished, next_prefix, replace_at, replace_base, seed,
}

-- The minutes of one window, the newest apart from the earlier ones.
pub record Window : Type 0 where
  pub newest : Candle
  pub earlier : List Candle

-- The candle of some minutes, the newest first.
unfoldable pub aggregate : Timeframe → List Candle → Option Candle
aggregate tf [] = none
aggregate tf (m ∷ ms) = some (merge (aggregate tf ms) m tf)

-- A base opens a window, replaces the newest minute, or follows it.
abbrev pub moved : Candle → List Candle → Candle → Bool → Bool → Window
moved n earlier base false replaces = record { newest = base; earlier = [] }
moved n earlier base true true = record { newest = base; earlier = earlier }
moved n earlier base true false = record { newest = base; earlier = n ∷ earlier }

unfoldable pub next_window : Timeframe → Candle → Window → Window
next_window tf base w =
    moved w.newest w.earlier base (bucket w.newest.open_time tf == bucket base.open_time tf)
      (w.newest.open_time == base.open_time)

abbrev pub IsMinute : Candle → Type 0
IsMinute c = bucket c.open_time m1 ≡ c.open_time

-- The slot of a timeframe holds the aggregates of the window.
abbrev pub Holds : Timeframe → Option Candle → Slot → Window → Type 0
Holds tf base s w =
    (base ≡ some w.newest)
    × IsMinute w.newest
    × (s.prefix ≡ aggregate tf w.earlier)
    × (s.current ≡ aggregate tf (w.newest ∷ w.earlier))

prefix_cases :
    (tf : Timeframe) (n base x : Candle) (e : List Candle) (a b : Bool)
    → (is_m1 tf ≡ true → a ≡ true → b ≡ true)
    → next_prefix tf (aggregate tf e) (if a then none else some x) (if b then none else some n)
      ≡ aggregate tf (moved n e base a b).earlier
unfolding aggregate
prefix_cases tf n base x e false b h = refl
prefix_cases tf n base x e true true h = refl
prefix_cases tf n base x e true false h =
    if_false (is_m1 tf) (aggregate tf e) _ (above (is_m1 tf) h)
  where
    above : (m : Bool) → (m ≡ true → true ≡ true → false ≡ true) → m ≡ false
    above true h = absurd (ground (arith, h refl refl))
    above false h = refl

newest_cases : (n base : Candle) (e : List Candle) (a b : Bool) → (moved n e base a b).newest ≡ base
newest_cases n base e false b = refl
newest_cases n base e true true = refl
newest_cases n base e true false = refl

next_window-newest :
    (tf : Timeframe) (base : Candle) (w : Window) → (next_window tf base w).newest ≡ base
unfolding next_window
next_window-newest tf base w =
    newest_cases w.newest base w.earlier (bucket w.newest.open_time tf == bucket base.open_time tf)
      (w.newest.open_time == base.open_time)

m1_same :
    (tf : Timeframe) (s t : ℕ)
    → bucket s m1 ≡ s
    → bucket t m1 ≡ t
    → is_m1 tf ≡ true
    → (bucket s tf == bucket t tf) ≡ true
    → (s == t) ≡ true
m1_same m1 s t hs ht m e = rw (hs, ht) at e
m1_same m3 s t hs ht m e = cc
m1_same m5 s t hs ht m e = cc
m1_same m15 s t hs ht m e = cc
m1_same m30 s t hs ht m e = cc
m1_same h1 s t hs ht m e = cc
m1_same h4 s t hs ht m e = cc
m1_same d1 s t hs ht m e = cc
m1_same w1 s t hs ht m e = cc

module _ (tf : Timeframe) (base : Candle) (minute : IsMinute base) where
  next_prefix_lem :
      (s : Slot) (w : Window) (previous : Option Candle)
      → Holds tf previous s w
      → next_prefix tf s.prefix
          (ended s.current (bucket base.open_time tf))
          (finished previous base)
        ≡ aggregate tf (next_window tf base w).earlier
  unfolding next_window aggregate merge
  next_prefix_lem s w previous (p1, p2, p3, p4) =
      ap
        (λ q.
          next_prefix tf q (ended s.current (bucket base.open_time tf)) (finished previous base))
        p3
      ∙ ap
          (λ c.
            next_prefix tf (aggregate tf w.earlier) (ended c (bucket base.open_time tf))
              (finished previous base))
          p4
      ∙ ap
          (λ q.
            next_prefix tf (aggregate tf w.earlier)
              (ended (aggregate tf (w.newest ∷ w.earlier)) (bucket base.open_time tf))
              (finished q base))
          p1
      ∙ prefix_cases tf w.newest base (merge (aggregate tf w.earlier) w.newest tf) w.earlier
          (bucket w.newest.open_time tf == bucket base.open_time tf)
          (w.newest.open_time == base.open_time)
          (m1_same tf w.newest.open_time base.open_time p2 minute)

  replace_at-Holds :
      (s : Slot) (w : Window) (previous : Option Candle)
      → Holds tf previous s w
      → Holds tf (some base) (replace_at tf previous base s) (next_window tf base w)
  unfolding aggregate
  replace_at-Holds s w previous h =
      let n = next_window-newest tf base w in
      let p = next_prefix_lem s w previous h in
      (
        ap (λ c. some c) (sym n),
        ap (λ c. bucket c.open_time m1) n ∙ minute ∙ ap (λ c. c.open_time) (sym n),
        p,
        ap (λ q. some (merge q base tf)) p
            ∙ ap (λ c. some (merge (aggregate tf (next_window tf base w).earlier) c tf)) (sym n),
      )

unfoldable pub windows : Timeframe → List Candle → Window → Window
windows tf [] w = w
windows tf (base ∷ bases) w = windows tf bases (next_window tf base w)

module _ (tf : Timeframe) where
  seed-Holds :
      (bases : List Candle) (e : CandleEngine) (w : Window)
      → All IsMinute bases
      → Holds tf e.base (e.slots tf) w
      → Holds tf (seed bases e).base ((seed bases e).slots tf) (windows tf bases w)
  unfolding seed windows replace_base
  seed-Holds [] e w minutes h = h
  seed-Holds (base ∷ bases) e w (minute, minutes) h =
      seed-Holds bases (replace_base base e).1 (next_window tf base w) minutes
        (replace_at-Holds tf base minute (e.slots tf) w e.base h)

  first-Holds :
      (base : Candle)
      → IsMinute base
      → let e = (replace_base base new_engine).1 in
        Holds tf e.base (e.slots tf) (record { newest = base; earlier = [] })
  unfolding replace_base aggregate
  first-Holds base minute = (refl, minute, refl, refl)

  -- The engine that is seeded with minutes, or revisions of the newest one, holds for every
  -- timeframe the aggregate of the minutes of the current window, a revision in the place of what
  -- it revises: its candle is that of a description that keeps every minute.
  pub seed_aggregates :
      (base : Candle) (bases : List Candle)
      → IsMinute base
      → All IsMinute bases
      → let w = windows tf bases (record { newest = base; earlier = [] }) in
        let e = seed (base ∷ bases) new_engine in
        (e.base ≡ some w.newest)
        × ((e.slots tf).prefix ≡ aggregate tf w.earlier)
        × ((e.slots tf).current ≡ aggregate tf (w.newest ∷ w.earlier))
  unfolding seed
  seed_aggregates base bases minute minutes =
      let h =
        seed-Holds bases (replace_base base new_engine).1 (record { newest = base; earlier = [] })
          minutes (first-Holds base minute) in
      (h.0, h.2, h.3)

bucket-bucket : (t : ℕ) → bucket (bucket t m1) m1 ≡ bucket t m1
unfolding bucket
bucket-bucket t = omega arith

-- A bucket starts at or before the instant, less than one length of the timeframe earlier.
pub bucket_bounds :
    (t : ℕ) (tf : Timeframe)
    → offset_of tf ≤ t
    → (bucket t tf ≤ t) × (t < bucket t tf + seconds_of tf)
unfolding bucket
bucket_bounds t m1 h = (omega arith, omega arith)
bucket_bounds t m3 h = (omega arith, omega arith)
bucket_bounds t m5 h = (omega arith, omega arith)
bucket_bounds t m15 h = (omega arith, omega arith)
bucket_bounds t m30 h = (omega arith, omega arith)
bucket_bounds t h1 h = (omega arith, omega arith)
bucket_bounds t h4 h = (omega arith, omega arith)
bucket_bounds t d1 h = (omega arith, omega arith)
bucket_bounds t w1 h = (omega (arith, h), omega (arith, h))

-- A tick that is in order changes the engine as a minute does: what the engine held of a window it
-- holds of the window after the minute of the tick. A tick that is not later than the last one
-- raises and changes nothing.
pub ingest-Holds :
    (tf : Timeframe) (t : Tick) (e : CandleEngine) (w : Window)
    → Holds tf e.base (e.slots tf) w
    → let after = (ingest t e).1 in
      ((out_of_order e.last_tick t.timestamp ≡ true)
        × ((ingest t e).0 ≡ raised validation_error)
        × (after ≡ e))
      ⊎ ((out_of_order e.last_tick t.timestamp ≡ false)
          × Holds tf after.base (after.slots tf) (
              next_window tf
                (tick_base t (same_minute e.base (bucket (t.timestamp / 1000000) m1)))
                w))
unfolding ingest replace_base
ingest-Holds tf t e w h = elim (Bool-cases (out_of_order e.last_tick t.timestamp)) [
  | inl late ↦ inl (
    late,
    ap (λ (r : Raises (List Candle) × CandleEngine). r.0)
        (if_true (out_of_order e.last_tick t.timestamp) _ _ late),
    ap (λ (r : Raises (List Candle) × CandleEngine). r.1)
        (if_true (out_of_order e.last_tick t.timestamp) _ _ late),
  )
  | inr on_time ↦
      let base = tick_base t (same_minute e.base (bucket (t.timestamp / 1000000) m1)) in
      let held =
        replace_at-Holds tf base (bucket-bucket (t.timestamp / 1000000)) (e.slots tf) w e.base h in
      inr (on_time, rw (if_false (out_of_order e.last_tick t.timestamp) _ _ on_time) held)
]
