-- ===== src/Backtesting/Metrics/Streaks.antt =====
-- backtesting/metrics.py: the streaks of `compute_metrics`.
use aigold_trader.Base.{
  ◌+◌, ◌≤◌, ◌≡◌, refl, Bool, true, false, List, [], ◌∷◌, ◌++◌, length, All, arith,
}
use aigold_trader.Backtesting.Domain.{SimulatedTrade}
use aigold_trader.Backtesting.Metrics.{is_win, is_loss, next_streak, Streak, streaks}

abbrev pub Win : SimulatedTrade → Type 0
Win t = is_win t ≡ true

-- Every turn of the loop leaves the best streak at the current one or above, and does not lower it.
next-bounds :
    (w l : Bool) (s : Streak)
    → ((next_streak w l s).cur_w ≤ (next_streak w l s).best_w)
      × (s.best_w ≤ (next_streak w l s).best_w)
next-bounds true l s = ground arith
next-bounds false true s = ground arith
next-bounds false false s = ground arith

streaks-grows : (ts : List SimulatedTrade) (s : Streak) → s.best_w ≤ (streaks ts s).best_w
unfolding streaks
streaks-grows [] s = omega arith
streaks-grows (t ∷ ts) s = omega (
  arith,
  next-bounds (is_win t) (is_loss t) s,
  streaks-grows ts (next_streak (is_win t) (is_loss t) s),
)

next-win : (w l : Bool) (s : Streak) → w ≡ true → (next_streak w l s).cur_w ≡ s.cur_w + 1
next-win true l s h = refl
next-win false l s h = cc

streaks-run :
    (run rest : List SimulatedTrade) (s : Streak)
    → All Win run
    → s.cur_w ≤ s.best_w
    → s.cur_w + length run ≤ (streaks (run ++ rest) s).best_w
unfolding streaks
streaks-run [] rest s h k = omega (arith, k, streaks-grows rest s)
streaks-run (t ∷ run) rest s (h, hs) k =
    let s2 = next_streak (is_win t) (is_loss t) s in
    let (bound, _) = next-bounds (is_win t) (is_loss t) s in
    omega (arith, next-win (is_win t) (is_loss t) s h, streaks-run run rest s2 hs bound)

pub streaks-within :
    (before run rest : List SimulatedTrade) (s : Streak)
    → All Win run
    → s.cur_w ≤ s.best_w
    → length run ≤ (streaks (before ++ run ++ rest) s).best_w
unfolding streaks
streaks-within [] run rest s h k = omega (arith, streaks-run run rest s h k)
streaks-within (t ∷ before) run rest s h k =
    let (bound, _) = next-bounds (is_win t) (is_loss t) s in
    streaks-within before run rest (next_streak (is_win t) (is_loss t) s) h bound
