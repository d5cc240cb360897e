-- ===== src/Backtesting/Simulation/Positions.antt =====
-- The positions of a run of backtesting/simulation.py, in the order of its events.
use aigold_trader.Base.{
  ℕ, ◌≤◌, ◌≡◌, ◌≢◌, ◌⊎◌, ap, refl, false, ◌||◌, Option, none, some, List, [], ◌∷◌, length, suc,
  tests, if_ind, inl, inr,
}
use aigold_trader.Decimal.{zero_dec, ◌≤ᵈ◌, ◌+ᵈ◌}
use aigold_trader.Risk.Domain.{ok, bind-ok, ok-injective}
use aigold_trader.Backtesting.Domain.{
  Candle, Plan, PureResult, RiskEvidence, not_evaluated, evaluated, Event, SimulatedTrade,
  filled_closed,
}
use aigold_trader.Backtesting.Simulation.{
  Account, Setting, Outcome, skipped, is_blocked, is_busy, find_fill, find_exit, Exit,
  drawdown_pct_of, ratio_or, net_of, close_trade, by_fill, by_risk, by_plan, step, simulate,
}
use aigold_trader.Backtesting.Simulation.Exits.{fill_first}

-- `at` is no earlier than the end of the position before.
abbrev pub NotBefore : Option ℕ → Option ℕ → Type 0
NotBefore none at = Unit
NotBefore (some until) none = Unit
NotBefore (some until) (some at) = until ≤ at

-- One outcome from the account before it: an event that is not filled leaves the account as it
-- was, and a fill is entered no earlier than the end of the position before.
abbrev pub Follows : Account → Outcome → Type 0
Follows a o =
    ((o.trade.status ≢ filled_closed) × (o.after ≡ a))
    ⊎ ((o.trade.status ≡ filled_closed)
        × NotBefore a.open_until o.trade.entry_at
        × (o.after.open_until ≡ o.trade.exit_at)
        × (o.after.balance ≡ a.balance +ᵈ o.trade.net_pnl))

-- Each outcome follows the account that the outcomes before it left.
abbrev pub Chained : Account → List Outcome → Type 0
Chained a [] = Unit
Chained a (o ∷ os) = Follows a o × Chained o.after os

not_busy :
    (u : Option ℕ) (as_of entry : ℕ)
    → is_busy u as_of ≡ false
    → as_of ≤ entry
    → NotBefore u (some entry)
not_busy none as_of entry h e = tt
not_busy (some until) as_of entry h e = omega (tests, h, e)

skip :
    (a : Account) (t : SimulatedTrade) (o : Outcome)
    → t.status ≢ filled_closed
    → skipped a t ≡ ok o
    → Follows a o
skip a t o h e = let same = ok-injective e in rw (← same) (inl (h, refl))

module _ (s : Setting) (candles : List Candle) (a : Account) where
  close-Follows :
      (plan : Plan) (pure : PureResult) (fill : Candle) (x : Exit) (o : Outcome)
      → NotBefore a.open_until (some fill.open_time)
      → close_trade s plan pure a fill x ≡ ok o
      → Follows a o
  unfolding close_trade
  close-Follows plan pure fill x o h e =
      let (pct, e1, f1) = bind-ok (drawdown_pct_of _ _) _ e in
      let (r, e2, f2) = bind-ok (ratio_or (net_of s plan pure x) pure.approved_risk_amount) _ f1 in
      let same = ok-injective f2 in rw (← same) (inr (refl, h, refl, refl))

  fill-Follows :
      (plan : Plan) (pure : PureResult) (as_of : ℕ) (o : Outcome)
      → is_busy a.open_until as_of ≡ false
      → by_fill s plan pure a (find_fill plan as_of candles) ≡ ok o
      → Follows a o
  fill-Follows plan pure as_of o h = searched (find_fill plan as_of candles) refl
    where
      searched :
          (f : Option (Candle × List Candle))
          → find_fill plan as_of candles ≡ f
          → by_fill s plan pure a f ≡ ok o
          → Follows a o
      searched none g = skip a _ o (λ k. cc)
      searched (some (fill, after)) g =
          close-Follows plan pure fill (find_exit plan s.costs fill after) o (
            not_busy a.open_until as_of fill.open_time h
              (fill_first plan as_of candles fill after g).0)

  risk-Follows :
      (plan : Plan) (as_of : ℕ) (risk : RiskEvidence) (o : Outcome)
      → by_risk s candles a as_of plan risk ≡ ok o
      → Follows a o
  risk-Follows plan as_of not_evaluated o = skip a _ o (λ k. cc)
  risk-Follows plan as_of (evaluated none) o = skip a _ o (λ k. cc)
  risk-Follows plan as_of (evaluated (some pure)) o =
      if_ind (λ m. m ≡ ok o → Follows a o)
        (is_blocked pure.decision || pure.position_size ≤ᵈ zero_dec) _ _ (λ h. skip a _ o (λ k. cc))
        λ h1.
          if_ind (λ m. m ≡ ok o → Follows a o) (is_busy a.open_until as_of) _ _
            (λ h. skip a _ o (λ k. cc)) (λ h. fill-Follows plan pure as_of o h)

  step-Follows : (event : Event) (o : Outcome) → step s candles a event ≡ ok o → Follows a o
  unfolding step
  step-Follows event o = planned event.trade_plan
    where
      planned :
          (plan : Option Plan)
          → by_plan s candles a event.as_of event.risk plan ≡ ok o
          → Follows a o
      planned none = skip a _ o (λ k. cc)
      planned (some plan) = risk-Follows plan event.as_of event.risk o

-- At most one position is open at a time: in a run that returns, there is one outcome for each
-- event, an event with no fill leaves the account as it was, and each fill is entered no earlier
-- than the end of the position before, ends at the exit of its trade and adds its net result to
-- the balance.
pub one_position :
    (s : Setting) (candles : List Candle) (a : Account) (events : List Event) (os : List Outcome)
    → simulate s candles a events ≡ ok os
    → (length os ≡ length events) × Chained a os
unfolding simulate
one_position s candles a [] os e = let same = ok-injective e in rw (← same) (refl, tt)
one_position s candles a (event ∷ events) os e =
    let (o, e1, f1) = bind-ok (step s candles a event) _ e in
    let (rest, e2, f2) = bind-ok (simulate s candles o.after events) _ f1 in
    let (n, chain) = one_position s candles o.after events rest e2 in
    let same = ok-injective f2 in
    rw (← same) (ap (λ k. suc k) n, (step-Follows s candles a event o e1, chain))
