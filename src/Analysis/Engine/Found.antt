-- ===== src/Analysis/Engine/Found.antt =====
-- The swings, gaps and periods of analysis/engine.py: what they find is confirmed by the candle.
use aigold_trader.Base.{
  ◌==◌, ◌||◌, ◌+◌, get_elem?, pos, ℕ, ◌&&◌, ◌≡◌, refl, Option, none, some, List, [], ◌∷◌, ◌++◌, All,
  All-append, length, ltb, filterb, if◌then◌else◌, if_ind,
}
use aigold_trader.Decimal.{of_int, ◌≤ᵈ◌, ◌-ᵈ◌, ◌*ᵈ◌}
use aigold_trader.Risk.Domain.{ok}
use aigold_trader.Analysis.Returns.{Returns, Returns-bind, Returns-any, Returns-if}
use aigold_trader.MarketData.Aggregation.{Candle}
use aigold_trader.Analysis.Domain.{
  bullish, bearish, Scope, internal, external, Side, high, low, SwingPoint, Zone,
}
use aigold_trader.Analysis.Indicators.{last_of, rounded}
use aigold_trader.Analysis.Engine.{
  Setup, Group, AnalysisEngine, end_of, structure_of, latest_of, built,
}
use aigold_trader.Analysis.Engine.Lifecycle.{
  gap_zone, gap_between, gap_of_three, with_zone, find_gap,
}
use aigold_trader.Analysis.Engine.Swings.{
  swing_of, level_of, equal_level_of, is_equal, equal_levels, levels_of, with_latest, settled,
  add_swing, is_peak, left_of, right_of, without, pivot_at, find_pivots, pivots,
}
use aigold_trader.Analysis.Engine.Periods.{
  Window, windows_of, bar_levels, group_levels, range_of, count_in, completed, is_period,
  finish_group, finish_groups, visit_window, visit_windows, periods, is_open,
}
use aigold_trader.Analysis.Engine.Feed.{bounded}
use aigold_trader.Analysis.Engine.Known.{
  Basis, Facts, Known, Keeps, built_new, with_structure-Known,
}

pub All-last_of :
    {A : Type 0} (P : A → Type 0) (n : ℕ) (xs : List A) → All P xs → All P (last_of n xs)
All-last_of P n [] h = tt
All-last_of P n (x ∷ xs) h =
    if_ind (All P) (ltb n (length (x ∷ xs))) (last_of n xs) (x ∷ xs) (λ _. All-last_of P n xs h.1)
      (λ _. h)

module _ (s : Setup) (c : Candle) (F : Facts s c) (bars : Basis) where
  equal_levels-All :
      (previous : Option SwingPoint) (w : SwingPoint)
      → w.confirmed_at ≡ end_of s c
      → Returns (All F.level) (equal_levels s previous w)
  unfolding equal_levels
  equal_levels-All none w e = tt
  equal_levels-All (some p) w e =
      Returns-if (All F.level) (is_equal w.label) _ (ok [])
        (λ _. Returns-any (All F.level) _ _ (λ half.
          Returns-any (All F.level) (rounded half) _
            (λ price. (F.new_level (equal_level_of s p w price) e, tt))))
        (λ _. tt)

  levels_of-All :
      (scope : Scope) (previous : Option SwingPoint) (w : SwingPoint)
      → w.confirmed_at ≡ end_of s c
      → Returns (All F.level) (levels_of s scope previous w)
  levels_of-All internal previous w e = tt
  levels_of-All external previous w e =
      Returns-bind (All F.level) (All F.level) (equal_levels s previous w) _
        (equal_levels-All previous w e) (λ more h. (F.new_level (level_of s w) e, h))

  add_swing-Known :
      (scope : Scope) (side : Side) (pivot : Candle) (e : AnalysisEngine)
      → Known s c F bars e
      → Keeps s c F bars (add_swing s c scope side pivot e)
  unfolding add_swing
  add_swing-Known scope side pivot e (b, hs, he, hl, hz, hr) =
      let t = structure_of scope e in
      let previous = latest_of side t in
      let w = swing_of s c scope side pivot previous in
      Returns-bind (All F.level) (Known s c F bars) (levels_of s scope previous w) _
        (levels_of-All scope previous w refl)
        (λ more h.
          with_structure-Known s c F bars scope (settled (with_latest side w t))
            (record e { swings = e.swings ++ w ∷ []; levels = e.levels ++ more })
            (
              b,
              All-append F.swing e.swings (w ∷ []) hs (F.new_swing w refl, tt),
              he,
              All-append F.level e.levels more hl h,
              hz,
              hr,
            ))

  pivot_at-Known :
      (scope : Scope) (peers : List Candle) (o : Option Candle) (e : AnalysisEngine)
      → Known s c F bars e
      → Keeps s c F bars (pivot_at s c scope peers o e)
  pivot_at-Known scope peers none e h = h
  pivot_at-Known scope peers (some p) e h =
      let K = Known s c F bars in
      Returns-bind K K _ _
        (Returns-if K (is_peak high peers p) (add_swing s c scope high p e) (ok e)
          (λ _. add_swing-Known scope high p e h) (λ _. h))
        (λ e1 h1.
          Returns-if K (is_peak low peers p) (add_swing s c scope low p e1) (ok e1)
            (λ _. add_swing-Known scope low p e1 h1) (λ _. h1))

  find_pivots-Known :
      (scope : Scope) (e : AnalysisEngine)
      → Known s c F bars e
      → Keeps s c F bars (find_pivots s c scope e)
  unfolding find_pivots
  find_pivots-Known scope e h =
      let width = left_of s scope + right_of s scope + 1 in
      let window = last_of width e.bars in
      let peers = without (left_of s scope) window in
      let pivot = get_elem? window (left_of s scope) in
      Returns-if (Known s c F bars) (ltb (length e.bars) width) (ok e)
        (pivot_at s c scope peers pivot e) (λ _. h) (λ _. pivot_at-Known scope peers pivot e h)

  pub pivots-Known : (e : AnalysisEngine) → Known s c F bars e → Keeps s c F bars (pivots s c e)
  unfolding pivots
  pivots-Known e h =
      Returns-bind (Known s c F bars) (Known s c F bars) (find_pivots s c internal e) _
        (find_pivots-Known internal e h) (λ e1 h1. find_pivots-Known external e1 h1)

  -- A gap is confirmed by its third bar.
  abbrev IsConfirmed : Option Zone → Type 0
  IsConfirmed none = Unit
  IsConfirmed (some z) = z.confirmed_at ≡ end_of s c

  gap_between-IsConfirmed : (first : Candle) → IsConfirmed (gap_between s first c)
  unfolding gap_between
  gap_between-IsConfirmed first =
      let gap = s.config.tick_size *ᵈ of_int (pos s.config.minimum_gap_ticks) in
      let up = gap_zone s first c bullish first.high c.low in
      let down = gap_zone s first c bearish c.high first.low in
      let falls = gap ≤ᵈ first.low -ᵈ c.high in
      if_ind IsConfirmed (gap ≤ᵈ c.low -ᵈ first.high) (some up) (if falls then some down else none)
        (λ _. refl) (λ _. if_ind IsConfirmed falls (some down) none (λ _. refl) (λ _. tt))

  gap_of_three-IsConfirmed : (window : List Candle) → IsConfirmed (gap_of_three s c window)
  unfolding gap_of_three
  gap_of_three-IsConfirmed [] = tt
  gap_of_three-IsConfirmed (x ∷ []) = tt
  gap_of_three-IsConfirmed (x ∷ y ∷ []) = tt
  gap_of_three-IsConfirmed (x ∷ y ∷ z ∷ []) =
      if_ind IsConfirmed (end_of s x == y.open_time && end_of s y == c.open_time)
        (gap_between s x c) none (λ _. gap_between-IsConfirmed x) (λ _. tt)
  gap_of_three-IsConfirmed (x ∷ y ∷ z ∷ w ∷ rest) = gap_of_three-IsConfirmed (y ∷ z ∷ w ∷ rest)

  pub find_gap-Known : (e : AnalysisEngine) → Known s c F bars e → Keeps s c F bars (find_gap s c e)
  unfolding find_gap
  find_gap-Known e h = added (gap_of_three s c e.bars) (gap_of_three-IsConfirmed e.bars)
    where
      added : (o : Option Zone) → IsConfirmed o → Keeps s c F bars (with_zone o e)
      added none k = h
      added (some z) k =
          let (b, hs, he, hl, hz, hr) = h in
          Returns-bind F.zone (Known s c F bars) (built z) _ (built_new s c F z k)
            (λ new n. (b, hs, he, hl, All-append F.zone e.zones (new ∷ []) hz (n, tt), hr))

  finish_group-Known :
      (g : Group) (e : AnalysisEngine)
      → Known s c F bars e
      → Known s c F bars (finish_group s c g e)
  unfolding finish_group
  finish_group-Known g e (b, hs, he, hl, hz, hr) =
      let r = range_of s c g in
      let sessions = if is_period g.name then e.sessions else e.sessions ++ r ∷ [] in
      let kr =
        if_ind (All F.range) (is_period g.name) e.sessions (e.sessions ++ r ∷ []) (λ _. hr)
          (λ _. All-append F.range e.sessions (r ∷ []) hr (F.new_range r refl, tt)) in
      let kl =
        All-append F.level e.levels (group_levels s c g) hl
          (F.new_level _ refl, (F.new_level _ refl, tt)) in
      if_ind (Known s c F bars) (g.first == g.start)
        (record e { sessions = sessions; levels = e.levels ++ group_levels s c g }) e
        (λ _. (b, hs, he, kl, hz, kr)) (λ _. (b, hs, he, hl, hz, hr))

  finish_groups-Known :
      (gs : List Group) (e : AnalysisEngine)
      → Known s c F bars e
      → Known s c F bars (finish_groups s c gs e)
  unfolding finish_groups
  finish_groups-Known [] e h = h
  finish_groups-Known (g ∷ gs) e h = finish_groups-Known gs _ (
      if_ind (Known s c F bars) (ltb (end_of s c) g.stop) e (finish_group s c (completed s c g) e)
        (λ _. h) (λ _. finish_group-Known (completed s c g) e h))

  visit_window-Known :
      (w : Window) (e : AnalysisEngine)
      → Known s c F bars e
      → Known s c F bars (visit_window s c w e)
  unfolding visit_window
  visit_window-Known w e (b, hs, he, hl, hz, hr) =
      let K = Known s c F bars in
      let h : Known s c F bars e = (b, hs, he, hl, hz, hr) in
      let kl =
        All-append F.level e.levels (bar_levels s c w) hl
          (F.new_level _ refl, (F.new_level _ refl, tt)) in
      let counted = record e { groups = count_in c w e.groups } in
      let one_bar = record e { levels = e.levels ++ bar_levels s c w } in
      let whole = if is_period w.name then one_bar else e in
      let ends = end_of s c == w.stop in
      let part = if ends then e else counted in
      let fills = c.open_time == w.start && ends in
      if_ind K (ltb c.open_time w.start || ltb w.stop (end_of s c)) e
        (if fills then whole else part) (λ _. h)
        (λ _.
          if_ind K fills whole part
            (λ _. if_ind K (is_period w.name) one_bar e (λ _. (b, hs, he, kl, hz, hr)) (λ _. h))
            (λ _. if_ind K ends e counted (λ _. h) (λ _. h)))

  visit_windows-Known :
      (ws : List Window) (e : AnalysisEngine)
      → Known s c F bars e
      → Known s c F bars (visit_windows s c ws e)
  unfolding visit_windows
  visit_windows-Known [] e h = h
  visit_windows-Known (w ∷ ws) e h =
      visit_windows-Known ws (visit_window s c w e) (visit_window-Known w e h)

  pub periods-Known : (e : AnalysisEngine) → Known s c F bars e → Known s c F bars (periods s c e)
  unfolding periods
  periods-Known e h =
      let finished = finish_groups s c e.groups e in
      let grouped = record finished { groups = filterb (is_open s c) e.groups } in
      let (b, hs, he, hl, hz, hr) =
        visit_windows-Known (windows_of s c) grouped (finish_groups-Known e.groups e h) in
      (b, hs, he, hl, hz, All-last_of F.range 32 _ hr)

  pub bounded-Known : (e : AnalysisEngine) → Known s c F bars e → Known s c F bars (bounded s e)
  bounded-Known e (b, hs, he, hl, hz, hr) =
      let cap = s.config.max_objects in
      (
        b,
        All-last_of F.swing cap e.swings hs,
        All-last_of F.event cap e.events he,
        All-last_of F.level cap e.levels hl,
        All-last_of F.zone cap e.zones hz,
        hr,
      )
