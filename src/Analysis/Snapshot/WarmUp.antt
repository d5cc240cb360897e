-- ===== src/Analysis/Snapshot/WarmUp.antt =====
-- When the indicators of analysis/indicators.py have values.
use mathlib.Core.Path.{subst}
use aigold_trader.Base.{
  ℕ, zero, suc, ◌+◌, ◌-◌, ◌≤◌, ◌<◌, ◌≡◌, ◌∙◌, refl, sym, Option, none, some, List, [], ◌∷◌, ◌++◌,
  length, length-append, ltb, ◌==◌, if◌then◌else◌, arith, pos,
}
use aigold_trader.Decimal.{Decimal, of_int, ◌*ᵈ◌, ◌+ᵈ◌, div_dec}
use aigold_trader.Risk.Domain.{Raises, ok, raised, ◌>>=◌, lift}
use aigold_trader.MarketData.Aggregation.{Candle}
use aigold_trader.Analysis.Returns.{Returns, Returns-bind, Returns-any, Returns-if}
use aigold_trader.Analysis.Indicators.{
  Mean, seeding, seeded, seeded_at, next_mean, Indicators, new_indicators, last_of, moved_ema,
  next_ema, directional_index, next_adx, moved_by, after_first, feed_indicators,
}

-- A mean after a number of values: it has a value once there are enough.
abbrev pub MeanAt : ℕ → ℕ → Mean → Type 0
MeanAt p n (seeding seed) = (length seed ≡ n) × (n < p)
MeanAt p n (seeded v) = p ≤ n

seeded-MeanAt :
    (p n : ℕ) (m : Raises Decimal) → p ≤ n → Returns (MeanAt p n) (do v ← m; ok (seeded v))
seeded-MeanAt p n (ok v) h = h
seeded-MeanAt p n (raised e) h = tt

seeded_at-MeanAt :
    (p n : ℕ) (seed : List Decimal)
    → length seed ≡ n
    → n ≤ p
    → Returns (MeanAt p n) (seeded_at p seed)
seeded_at-MeanAt p n seed e le =
    Returns-if (MeanAt p n) (length seed == p) _ (ok (seeding seed))
      (λ h. seeded-MeanAt p n _ (ground (arith, e, h))) (λ h. (e, ground (arith, e, h, le)))

next_mean-MeanAt :
    (p n : ℕ) (m : Mean) (v : Decimal) → MeanAt p n m → Returns (MeanAt p (suc n)) (next_mean p m v)
unfolding next_mean
next_mean-MeanAt p n (seeding seed) v (e, lt) =
    seeded_at-MeanAt p (suc n) (seed ++ v ∷ []) (omega (arith, e, length-append seed (v ∷ [])))
      (omega (arith, lt))
next_mean-MeanAt p n (seeded w) v h =
    seeded-MeanAt p (suc n) (lift (div_dec (w *ᵈ of_int (pos (p - 1)) +ᵈ v) (of_int (pos p))))
      (omega (arith, h))

length-last_of :
    (n : ℕ) (xs : List Decimal)
    → length (last_of n xs) ≡ (if ltb n (length xs) then n else length xs)
length-last_of n [] = ground arith
length-last_of n (x ∷ xs) = ground (arith, length-last_of n xs)

-- The moving average after a number of closes.
abbrev pub EmaAt : ℕ → ℕ → Option Decimal → Type 0
EmaAt average n none = n < average
EmaAt average n (some v) = average ≤ n

-- The indicators after their first candle and a number of changes: the means count the changes, the
-- adx the values from its inputs' first on.
pub record FedAt (p average k : ℕ) (i : Indicators) : Type 0 where
  pub before : (c : Candle) × (i.previous ≡ some c)
  pub window : length i.closes ≡ (if ltb (suc k) average then suc k else average)
  pub mean : EmaAt average (suc k) i.ema
  pub atr_at : MeanAt p k i.atr
  pub gain_at : MeanAt p k i.gain
  pub loss_at : MeanAt p k i.loss
  pub plus_at : MeanAt p k i.pdm
  pub minus_at : MeanAt p k i.mdm
  pub adx_at : MeanAt p (suc k - p) i.adx

-- The indicators after a number of candles.
abbrev pub WarmAt : ℕ → ℕ → ℕ → Indicators → Type 0
WarmAt p average zero i = i ≡ new_indicators
WarmAt p average (suc k) i = FedAt p average k i

ema_window :
    (average n : ℕ) (closes : List Decimal) (v : Decimal)
    → length closes ≡ (if ltb n average then n else average)
    → length (last_of average (closes ++ v ∷ [])) ≡ (if ltb (suc n) average then suc n else average)
ema_window average n closes v h =
    length-last_of average (closes ++ v ∷ []) ∙ ground (arith, h, length-append closes (v ∷ []))

next_adx-MeanAt :
    (p n : ℕ) (atr pdm mdm adx : Mean)
    → MeanAt p n atr
    → MeanAt p n pdm
    → MeanAt p n mdm
    → MeanAt p (n - p) adx
    → Returns (MeanAt p (suc n - p)) (next_adx p atr pdm mdm adx)
next_adx-MeanAt p n (seeded a) (seeded b) (seeded c) adx ha hb hc h =
    let next : suc (n - p) ≡ suc n - p = omega (arith, ha) in
    Returns-any (MeanAt p (suc n - p)) (directional_index b c) (λ dx. next_mean p adx dx)
      (λ dx.
        subst (λ k. Returns (MeanAt p k) (next_mean p adx dx)) next
          (next_mean-MeanAt p (n - p) adx dx h))
next_adx-MeanAt p n (seeded a) (seeding b) m adx ha hb hc h = absurd (omega (arith, ha, hb.1))
next_adx-MeanAt p n (seeded a) (seeded b) (seeding c) adx ha hb hc h =
    absurd (omega (arith, ha, hc.1))
next_adx-MeanAt p n (seeding a) pdm mdm adx ha hb hc h =
    let same : n - p ≡ suc n - p = omega (arith, ha.1) in subst (λ k. MeanAt p k adx) same h

next_ema-EmaAt :
    (average n : ℕ) (ema : Option Decimal) (closes : List Decimal) (close : Decimal)
    → length closes ≡ (if ltb (suc n) average then suc n else average)
    → EmaAt average n ema
    → Returns (EmaAt average (suc n)) (next_ema average ema closes close)
next_ema-EmaAt average n ema closes close e h =
    Returns-if (EmaAt average (suc n)) (length closes == average) _ (ok ema)
      (λ q. moved ema (ground (arith, e, q))) (λ q. stays ema h (ground (arith, e, q)))
  where
    has_mean :
        (m : Raises Decimal) (f : Decimal → Decimal)
        → average ≤ suc n
        → Returns (EmaAt average (suc n)) (do v ← m; ok (some (f v)))
    has_mean (ok v) f le = le
    has_mean (raised x) f le = tt

    moved :
        (o : Option Decimal)
        → average ≤ suc n
        → Returns (EmaAt average (suc n)) (moved_ema average closes close o)
    moved none le = has_mean _ (λ v. v) le
    moved (some v) le = has_mean _ (λ step. v +ᵈ step) le

    stays : (o : Option Decimal) → EmaAt average n o → suc n < average → EmaAt average (suc n) o
    stays none lt more = more
    stays (some v) le more = omega (arith, le)

module _ (p average : ℕ) (positive : 0 < p) (warm : 0 < average) where
  -- The counts and windows that a candle moves before it is compared with the one before.
  abbrev opened : Indicators → Candle → Option Decimal → Indicators
  opened i c ema = record i {
    n = i.n + 1;
    ema = ema;
    closes = last_of average (i.closes ++ c.close ∷ []);
    volumes = last_of average (i.volumes ++ c.volume ∷ []);
  }

  first_fed :
      (c : Candle) (ema : Option Decimal)
      → EmaAt average 1 ema
      → FedAt p average 0 (record (opened new_indicators c ema) { previous = some c })
  first_fed c ema m =
      let same : 0 ≡ 1 - p = omega (arith, positive) in
      let opened : 0 ≡ (if ltb 0 average then 0 else average) = ground (arith, warm) in
      let start : (0 ≡ 0) × (0 < p) = (refl, positive) in
      record {
        before = (c, refl);
        window = ema_window average 0 [] c.close opened;
        mean = m;
        atr_at = start;
        gain_at = start;
        loss_at = start;
        plus_at = start;
        minus_at = start;
        adx_at = subst (λ k. MeanAt p k (seeding [])) same start;
      }

  next_fed :
      (k : ℕ) (i : Indicators) (old c : Candle) (ema : Option Decimal)
      → FedAt p average k i
      → EmaAt average (suc (suc k)) ema
      → Returns
          (λ moved. FedAt p average (suc k) (record moved { previous = some c }))
          (moved_by p (opened i c ema) old c)
  unfolding moved_by
  next_fed k i old c ema w m =
      let W =
        λ (moved : Indicators). FedAt p average (suc k) (record moved { previous = some c }) in
      let P = MeanAt p (suc k) in
      Returns-bind P W _ _ (next_mean-MeanAt p k i.atr _ w.atr_at) (λ atr ha.
        Returns-bind P W _ _ (next_mean-MeanAt p k i.gain _ w.gain_at) (λ gain hg.
          Returns-bind P W _ _ (next_mean-MeanAt p k i.loss _ w.loss_at) (λ loss hl.
            Returns-bind P W _ _ (next_mean-MeanAt p k i.pdm _ w.plus_at) (λ pdm hp.
              Returns-bind P W _ _ (next_mean-MeanAt p k i.mdm _ w.minus_at) (λ mdm hm.
                Returns-bind (MeanAt p (suc (suc k) - p)) W _ _
                  (next_adx-MeanAt p (suc k) atr pdm mdm i.adx ha hp hm w.adx_at)
                  (λ adx hx. record {
                    before = (c, refl);
                    window = ema_window average (suc k) i.closes c.close w.window;
                    mean = m;
                    atr_at = ha;
                    gain_at = hg;
                    loss_at = hl;
                    plus_at = hp;
                    minus_at = hm;
                    adx_at = hx;
                  }))))))

  pub feed_indicators-WarmAt :
      (n : ℕ) (i : Indicators) (c : Candle)
      → WarmAt p average n i
      → Returns (FedAt p average n) (feed_indicators p average i c)
  unfolding feed_indicators
  feed_indicators-WarmAt zero i c w =
      subst (λ i. Returns (FedAt p average 0) (feed_indicators p average i c)) (sym w)
        (Returns-bind (EmaAt average 1) (FedAt p average 0) _ _
          (next_ema-EmaAt average 0 none _ c.close
            (ema_window average 0 [] c.close (ground (arith, warm))) warm)
          (λ ema m. first_fed c ema m))
  feed_indicators-WarmAt (suc k) i c w =
      Returns-bind (EmaAt average (suc (suc k))) (FedAt p average (suc k)) _ _
        (next_ema-EmaAt average (suc k) i.ema _ c.close
          (ema_window average (suc k) i.closes c.close w.window) w.mean)
        (λ ema m. moved ema m i.previous w.before.1)
    where
      moved :
          (ema : Option Decimal)
          → EmaAt average (suc (suc k)) ema
          → (o : Option Candle) → o ≡ some w.before.0
          → Returns
              (FedAt p average (suc k))
              (do fed ← after_first p (opened i c ema) o c; ok (record fed { previous = some c }))
      moved ema m none e = cc
      moved ema m (some old) e =
          Returns-bind (λ fed. FedAt p average (suc k) (record fed { previous = some c }))
            (FedAt p average (suc k)) _ _ (next_fed k i old c ema w m) (λ fed h. h)
