-- ===== src/Backtesting/Simulation/Exits.antt =====
-- When a simulated position of backtesting/simulation.py is entered and left.
use aigold_trader.Base.{
  ℕ, ◌≤◌, ◌<◌, ◌≡◌, ◌⊎◌, ap, refl, inl, inr, true, false, Option, none, some, List, [], ◌∷◌, ◌++◌,
  ltb, leb, tests, if_ind, All,
}
use aigold_trader.Backtesting.Domain.{Candle, Costs, Plan, stop_hit, take_profit}
use aigold_trader.Backtesting.Simulation.{
  touches, find_fill, hit_stop, hit_target, gap_price, slipped, Exit, scan_exit,
}

module _ (plan : Plan) (as_of : ℕ) where
  -- A candle is passed over before the plan is made, or where it does not reach the entry zone.
  abbrev pub Passed : Candle → Type 0
  Passed c = (c.open_time < as_of) ⊎ (touches plan c ≡ false)

  abbrev IsFill : List Candle → Option (Candle × List Candle) → Type 0
  IsFill candles none = Unit
  IsFill candles (some (c, after)) =
      (as_of ≤ c.open_time)
      × (c.open_time < plan.expires_at)
      × (touches plan c ≡ true)
      × ((skipped : List Candle) × (candles ≡ skipped ++ c ∷ after) × All Passed skipped)

  later :
      (c : Candle) (cs : List Candle) (o : Option (Candle × List Candle))
      → Passed c
      → IsFill cs o
      → IsFill (c ∷ cs) o
  later c cs none p h = tt
  later c cs (some (d, after)) p (h1, h2, h3, (skipped, e, all)) =
      (h1, h2, h3, (c ∷ skipped, ap (λ l. c ∷ l) e, (p, all)))

  fill : (candles : List Candle) → IsFill candles (find_fill plan as_of candles)
  unfolding find_fill
  fill [] = tt
  fill (c ∷ cs) =
      if_ind (IsFill (c ∷ cs)) (ltb c.open_time as_of) _ _
        (λ h. later c cs _ (inl (omega (tests, h))) (fill cs))
        λ h1.
          if_ind (IsFill (c ∷ cs)) (leb plan.expires_at c.open_time) _ _ (λ h. tt)
            λ h2.
              if_ind (IsFill (c ∷ cs)) (touches plan c) _ _
                (λ h. (omega (tests, h1), omega (tests, h2), h, ([], refl, tt)))
                (λ h. later c cs _ (inr h) (fill cs))

  -- A fill is on a candle that opens no earlier than the plan is made and before the plan expires,
  -- and that reaches the entry zone; every candle before it opens before the plan or misses the
  -- zone.
  pub fill_first :
      (candles : List Candle) (c : Candle) (after : List Candle)
      → find_fill plan as_of candles ≡ some (c, after)
      → (as_of ≤ c.open_time)
        × (c.open_time < plan.expires_at)
        × (touches plan c ≡ true)
        × ((skipped : List Candle) × (candles ≡ skipped ++ c ∷ after) × All Passed skipped)
  fill_first candles c after e = rw e at (fill candles)

module _ (plan : Plan) (costs : Costs) where
  -- Neither the stop nor the target is reached.
  abbrev pub Quiet : Candle → Type 0
  Quiet c = (hit_stop plan.direction plan c ≡ false) × (hit_target plan.direction plan c ≡ false)

  abbrev pub IsExit : List Candle → Option Exit → Type 0
  IsExit candles none = All Quiet candles
  IsExit candles (some x) =
      ((quiet : List Candle) × (after : List Candle) × (candles ≡ quiet ++ x.candle ∷ after)
        × All Quiet quiet)
      × (((hit_stop plan.direction plan x.candle ≡ true)
            × (x.reason ≡ stop_hit)
            × (x.ambiguous ≡ hit_target plan.direction plan x.candle)
            × (x.price ≡ slipped plan.direction costs (gap_price plan.direction plan x.candle)))
          ⊎ ((hit_stop plan.direction plan x.candle ≡ false)
              × (hit_target plan.direction plan x.candle ≡ true)
              × (x.reason ≡ take_profit)
              × (x.ambiguous ≡ false)
              × (x.price ≡ plan.target)))

  after-Quiet :
      (c : Candle) (cs : List Candle) (o : Option Exit) → Quiet c → IsExit cs o → IsExit (c ∷ cs) o
  after-Quiet c cs none q h = (q, h)
  after-Quiet c cs (some x) q ((quiet, after, e, all), h) =
      ((c ∷ quiet, after, ap (λ l. c ∷ l) e, (q, all)), h)

  -- The exit is on the first candle after the fill that reaches the stop or the target. Where it
  -- reaches both the stop wins and the exit is marked ambiguous; a stop is left at the open where
  -- the candle opens beyond it, less the slippage, and a target at its price. With no exit every
  -- candle misses both.
  pub scan_exit-IsExit : (candles : List Candle) → IsExit candles (scan_exit plan costs candles)
  unfolding scan_exit
  scan_exit-IsExit [] = tt
  scan_exit-IsExit (c ∷ cs) =
      if_ind (IsExit (c ∷ cs)) (hit_stop plan.direction plan c) _ _
        (λ h. (([], cs, refl, tt), inl (h, refl, refl, refl)))
        λ h1.
          if_ind (IsExit (c ∷ cs)) (hit_target plan.direction plan c) _ _
            (λ h. (([], cs, refl, tt), inr (h1, h, refl, refl, refl)))
            (λ h. after-Quiet c cs _ (h1, h) (scan_exit-IsExit cs))
