-- ===== src/Backtesting/Metrics/Longest.antt =====
-- backtesting/metrics.py: where the streaks of `compute_metrics` are reached.
use mathlib.Core.List.{append-nil, append_assoc}
use mathlib.Core.Path.{subst}
use aigold_trader.Base.{
  ℕ, ◌+◌, ◌≤◌, ◌≡◌, ◌∙◌, ap, sym, refl, Bool, true, false, List, [], ◌∷◌, ◌++◌, length,
  length-append, All, All-append, ltb, if_ind, arith,
}
use aigold_trader.Decimal.{Decimal}
use aigold_trader.Risk.Domain.{ok}
use aigold_trader.Backtesting.Domain.{EquityPoint, SimulatedTrade}
use aigold_trader.Backtesting.Metrics.{
  closed_trades, is_win, is_loss, next_streak, max_ℕ, Streak, streaks, no_streak, BacktestMetrics,
  compute_metrics,
}
use aigold_trader.Backtesting.Metrics.Returns.{compute_metrics-Returns}
use aigold_trader.Backtesting.Metrics.Streaks.{Win, streaks-within}

-- The trades seen so far end with n wins.
abbrev EndsWith : List SimulatedTrade → ℕ → Type 0
EndsWith past n =
    (before : List SimulatedTrade) × (run : List SimulatedTrade) × (past ≡ before ++ run)
    × All Win run
    × (length run ≡ n)

-- They hold n wins in a row.
abbrev pub HasRun : List SimulatedTrade → ℕ → Type 0
HasRun past n =
    (before : List SimulatedTrade) × (run : List SimulatedTrade) × (rest : List SimulatedTrade)
    × (past ≡ before ++ run ++ rest)
    × All Win run
    × (length run ≡ n)

HasRun-later :
    (past : List SimulatedTrade) (t : SimulatedTrade) (n : ℕ)
    → HasRun past n
    → HasRun (past ++ t ∷ []) n
HasRun-later past t n (a, r, b, e, w, k) =
    (a, r, b ++ t ∷ [], ap (λ x. x ++ t ∷ []) e ∙ append_assoc (a ++ r) b (t ∷ []), w, k)

EndsWith-Win :
    (past : List SimulatedTrade) (t : SimulatedTrade) (n : ℕ)
    → Win t
    → EndsWith past n
    → EndsWith (past ++ t ∷ []) (n + 1)
EndsWith-Win past t n h (a, r, e, w, k) = (
  a,
  r ++ t ∷ [],
  ap (λ x. x ++ t ∷ []) e ∙ append_assoc a r (t ∷ []),
  All-append Win r (t ∷ []) w (h, tt),
  length-append r (t ∷ []) ∙ ap (λ x. x + 1) k,
)

EndsWith-none : (past : List SimulatedTrade) → EndsWith past 0
EndsWith-none past = (past, [], sym (append-nil past), tt, refl)

EndsWith-HasRun : (past : List SimulatedTrade) (n : ℕ) → EndsWith past n → HasRun past n
EndsWith-HasRun past n (a, r, e, w, k) = (a, r, [], e ∙ sym (append-nil (a ++ r)), w, k)

max-zero : (n : ℕ) → max_ℕ n 0 ≡ n
max-zero n = ground arith

module _ (past : List SimulatedTrade) (t : SimulatedTrade) where
  HasRun-max :
      (m n : ℕ) → HasRun past m → EndsWith (past ++ t ∷ []) n → HasRun (past ++ t ∷ []) (max_ℕ m n)
  HasRun-max m n h e =
      if_ind (HasRun (past ++ t ∷ [])) (ltb m n) _ _ (λ _. EndsWith-HasRun _ _ e)
        (λ _. HasRun-later past t m h)

  next-kept :
      (w l : Bool) (s : Streak)
      → w ≡ is_win t
      → EndsWith past s.cur_w
      → HasRun past s.best_w
      → EndsWith (past ++ t ∷ []) (next_streak w l s).cur_w
        × HasRun (past ++ t ∷ []) (next_streak w l s).best_w
  next-kept true l s h e b =
      let grown = EndsWith-Win past t s.cur_w (sym h) e in
      (grown, HasRun-max s.best_w (s.cur_w + 1) b grown)
  next-kept false true s h e b = (EndsWith-none _, HasRun-max s.best_w 0 b (EndsWith-none _))
  next-kept false false s h e b = (EndsWith-none _, HasRun-max s.best_w 0 b (EndsWith-none _))

streaks-HasRun :
    (past ts : List SimulatedTrade) (s : Streak)
    → EndsWith past s.cur_w
    → HasRun past s.best_w
    → HasRun (past ++ ts) (streaks ts s).best_w
unfolding streaks
streaks-HasRun past [] s e b = subst (λ x. HasRun x s.best_w) (sym (append-nil past)) b
streaks-HasRun past (t ∷ ts) s e b =
    let s2 = next_streak (is_win t) (is_loss t) s in
    let (e2, b2) = next-kept past t (is_win t) (is_loss t) s refl e b in
    subst (λ x. HasRun x (streaks ts s2).best_w) (append_assoc past (t ∷ []) ts)
      (streaks-HasRun (past ++ t ∷ []) ts s2 e2 b2)

-- `compute_metrics` returns, and the consecutive wins that it reports are the longest run of wins
-- among the closed trades: the trades hold a run of wins of that length, and no run of closed trades
-- in a row that are all wins is longer.
pub longest_wins :
    (initial : Decimal) (points : List EquityPoint) (trades before run rest : List SimulatedTrade)
    → closed_trades trades ≡ before ++ run ++ rest
    → All Win run
    → (m : BacktestMetrics) × (compute_metrics initial points trades ≡ ok m)
      × HasRun (closed_trades trades) m.consecutive_wins
      × (length run ≤ m.consecutive_wins)
longest_wins initial points trades before run rest split h =
    let (m, e, _, _, _, _, best, _) = compute_metrics-Returns initial points trades in
    (
      m,
      e,
      subst (HasRun (closed_trades trades)) (sym best) (
          streaks-HasRun [] (closed_trades trades) no_streak (EndsWith-none [])
            (EndsWith-HasRun [] 0 (EndsWith-none []))),
      rw (best, split) (streaks-within before run rest no_streak h (omega arith)),
    )
