-- ===== src/Backtesting/Metrics/Counts.antt =====
-- backtesting/metrics.py: `compute_metrics` returns, and its counts of trades add up.
use aigold_trader.Base.{
  ℕ, suc, ◌+◌, ◌≡◌, ◌∙◌, ap, refl, sym, inl, inr, Bool, true, false, ◌&&◌, not, List, [], ◌∷◌,
  length, filterb, if◌then◌else◌, arith, Bool-cases, if_true, if_false,
}
use aigold_trader.Decimal.{Decimal, zero_dec, ◌<ᵈ◌, ◌≤ᵈ◌, eq_dec}
use aigold_trader.Decimal.Order.{lt→rank, rank→lt_false}
use aigold_trader.Risk.Domain.{ok}
use aigold_trader.Backtesting.Metrics.Returns.{compute_metrics-Returns}
use aigold_trader.Backtesting.Domain.{EquityPoint, SimulatedTrade}
use aigold_trader.Backtesting.Metrics.{
  closed_trades, is_win, is_loss, is_even, BacktestMetrics, compute_metrics,
}

-- A number above zero is not below it, and one that is neither equals it.
sides : (d : Decimal) → (zero_dec <ᵈ d) ≡ true → (d <ᵈ zero_dec) ≡ false
sides d h = rank→lt_false d zero_dec (omega (arith, lt→rank zero_dec d h))

zero_test : (d : Decimal) → eq_dec d zero_dec ≡ (not (zero_dec <ᵈ d) && not (d <ᵈ zero_dec))
unfolding eq_dec ◌≤ᵈ◌
zero_test d = refl

count_one : Bool → ℕ → ℕ
count_one b n = if b then n + 1 else n

one_of_three :
    (w l e : Bool) (a b c n : ℕ)
    → (w ≡ true → l ≡ false)
    → e ≡ (not w && not l)
    → a + b + c ≡ n
    → (if w then suc a else a) + (if l then suc b else b) + (if e then suc c else c) ≡ suc n
one_of_three w l e a b c n h k m = ground arith

module _ (p : SimulatedTrade → Bool) where
  length-filterb :
      (t : SimulatedTrade) (ts : List SimulatedTrade)
      → length (filterb p (t ∷ ts))
        ≡ (if p t then suc (length (filterb p ts)) else length (filterb p ts))
  length-filterb t ts = elim (Bool-cases (p t)) [
    | inl e ↦
        ap length (if_true (p t) (t ∷ filterb p ts) (filterb p ts) e) ∙ sym (if_true (p t) _ _ e)
    | inr e ↦
        ap length (if_false (p t) (t ∷ filterb p ts) (filterb p ts) e) ∙ sym (if_false (p t) _ _ e)
  ]

partition :
    (ts : List SimulatedTrade)
    → length (filterb is_win ts) + length (filterb is_loss ts) + length (filterb is_even ts)
      ≡ length ts
partition [] = refl
partition (t ∷ ts) =
    ap (λ x. x + length (filterb is_loss (t ∷ ts)) + length (filterb is_even (t ∷ ts)))
      (length-filterb is_win t ts)
    ∙ ap
        (λ x.
          (if is_win t then suc (length (filterb is_win ts)) else length (filterb is_win ts))
          + x
          + length (filterb is_even (t ∷ ts)))
        (length-filterb is_loss t ts)
    ∙ ap
        (λ x.
          (if is_win t then suc (length (filterb is_win ts)) else length (filterb is_win ts))
          + (if is_loss t then suc (length (filterb is_loss ts)) else length (filterb is_loss ts))
          + x)
        (length-filterb is_even t ts)
    ∙ one_of_three (is_win t) (is_loss t) (is_even t) _ _ _ _ (sides t.net_pnl)
        (zero_test t.net_pnl) (partition ts)

-- `compute_metrics` returns for every result, and of the closed trades that it counts each is
-- counted as a win, as a loss or as breakeven, and as one of them only.
pub metrics_partition :
    (initial : Decimal) (points : List EquityPoint) (trades : List SimulatedTrade)
    → (m : BacktestMetrics) × (compute_metrics initial points trades ≡ ok m)
      × (m.total_trades ≡ length (closed_trades trades))
      × (m.wins + m.losses + m.breakeven ≡ m.total_trades)
metrics_partition initial points trades =
    let (m, e, t, w, l, b, _, _) = compute_metrics-Returns initial points trades in
    (m, e, t, rw (w, l, b, t) (partition (closed_trades trades)))
