-- ===== src/Analysis/Engine/LastBar.antt =====
-- The last bar that analysis/engine.py keeps.
use aigold_trader.Base.{
  ℕ, ◌+◌, ◌<◌, ◌≡◌, ◌∙◌, refl, some, List, [], ◌∷◌, ◌++◌, length, max, ltb, if_ind, arith, tests,
  ltb→lt,
}
use aigold_trader.MarketData.Aggregation.{Candle}
use aigold_trader.Analysis.Indicators.{last_of}
use aigold_trader.Analysis.Engine.{Setup}
use aigold_trader.Analysis.Engine.Feed.{last_open}
use aigold_trader.Analysis.Engine.Advance.{pushed}

last_open-append : (bars : List Candle) (c : Candle) → last_open (bars ++ c ∷ []) ≡ some c.open_time
unfolding last_open
last_open-append [] c = refl
last_open-append (x ∷ []) c = refl
last_open-append (x ∷ y ∷ rest) c = last_open-append (y ∷ rest) c

-- Bars that are left out are not the last one.
last_open-last_of :
    (n : ℕ) (bars : List Candle) → 0 < n → last_open (last_of n bars) ≡ last_open bars
unfolding last_open
last_open-last_of n [] h = refl
last_open-last_of n (x ∷ []) h =
    if_ind (λ bars. last_open bars ≡ some x.open_time) (ltb n 1) [] (x ∷ [])
      (λ e. absurd (omega (tests, h, ltb→lt n 1 e))) (λ _. refl)
last_open-last_of n (x ∷ y ∷ rest) h =
    if_ind (λ bars. last_open bars ≡ last_open (y ∷ rest)) (ltb n (length (x ∷ y ∷ rest)))
      (last_of n (y ∷ rest)) (x ∷ y ∷ rest) (λ _. last_open-last_of n (y ∷ rest) h) (λ _. refl)

pub last_open-pushed :
    (s : Setup) (c : Candle) (bars : List Candle) → last_open (pushed s c bars) ≡ some c.open_time
last_open-pushed s c bars =
    last_open-last_of (max 150 (s.config.ob_lookback + 1)) (bars ++ c ∷ []) (omega arith)
    ∙ last_open-append bars c
