-- ===== src/Backtesting/Metrics/Returns.antt =====
-- The quotients of backtesting/metrics.py divide by a positive number.
use aigold_trader.Base.{
  lt→ltb, ltb→lt, ◌<◌, ◌≤ℤ◌, map, filterb, ℕ, ◌*◌, ◌^◌, suc, zero, ◌≡◌, ◌∙◌, ap, refl, Bool, true,
  false, not, none, some, List, [], ◌∷◌, length, ltb, pos, if◌then◌else◌, arith,
}
use aigold_trader.Decimal.{
  sum_dec, neg_dec, origin, Decimal, of_int, zero_dec, ◌<ᵈ◌, ◌≤ᵈ◌, ◌*ᵈ◌, div_dec,
}
use aigold_trader.Decimal.Order.{div-pos, rank, rank_def, rank-zero_dec, rank→lt, pow-pos}
use aigold_trader.Risk.Domain.{Raises, ok, ◌>>=◌, lift}
use aigold_trader.Backtesting.Domain.{EquityPoint, SimulatedTrade}
use aigold_trader.Backtesting.Metrics.{
  closed_trades, is_win, is_loss, is_even, streaks, no_streak, r_multiples, BacktestMetrics,
  compute_metrics, avg, rate, ratio, return_on,
}

abbrev pub Returns {ℓ} : {A : Type ℓ} → Raises A → Type ℓ
Returns {A = A} m = (a : A) × (m ≡ ok a)

pub bind_step {ℓ κ} :
    {A : Type ℓ} {B : Type κ} (m : Raises A) (f : A → Raises B) {a : A} {b : B}
    → m ≡ ok a
    → f a ≡ ok b
    → (m >>= f) ≡ ok b
bind_step m f h k = ap (λ x. x >>= f) h ∙ k

quotient-Returns {ℓ} :
    {B : Type ℓ} (a b : Decimal) (f : Decimal → B)
    → (b ≤ᵈ zero_dec) ≡ false
    → Returns (lift (div_dec a b) >>= λ q. ok (f q))
quotient-Returns a b f h = let (q, e) = div-pos a b h in (f q, ap (λ o. lift o >>= λ x. ok (f x)) e)

rank-of_int : (n : ℕ) → rank (of_int (pos n)) ≡ pos (n * 10 ^ origin)
unfolding of_int
rank-of_int n = rank_def (of_int (pos n))

product-pos : (n m : ℕ) → 0 < n → 0 < m → 0 < n * m
product-pos zero m h k = elim h [ ]
product-pos (suc n) m h k = omega arith

above_zero : (n m : ℕ) → 0 < n → 0 < m → ¬ (pos (n * m) ≤ℤ pos 0)
above_zero n m h k = omega (arith, product-pos n m h k)

of_pos : (n : ℕ) → ltb 0 n ≡ true → (of_int (pos n) ≤ᵈ zero_dec) ≡ false
unfolding ◌≤ᵈ◌
of_pos n h = ap not (
    rank→lt zero_dec (of_int (pos n)) (
      rw (rank-of_int n, rank-zero_dec)
        (above_zero n (10 ^ origin) (ltb→lt 0 n h) (pow-pos origin))))

flip : (b : Decimal) → (zero_dec <ᵈ b) ≡ true → (b ≤ᵈ zero_dec) ≡ false
unfolding ◌≤ᵈ◌
flip b h = ap not h

pub avg-Returns : (ds : List Decimal) → Returns (avg ds)
avg-Returns [] = (none, refl)
avg-Returns (d ∷ ds) =
    quotient-Returns (sum_dec zero_dec (d ∷ ds)) (of_int (pos (length (d ∷ ds)))) some
      (of_pos (suc (length ds)) (lt→ltb 0 (suc (length ds)) (omega arith)))

guarded-Returns {ℓ} :
    {A : Type ℓ} (b : Bool) (m : Raises A) (a : A)
    → (b ≡ true → Returns m)
    → Returns (if b then m else ok a)
guarded-Returns true m a h = h refl
guarded-Returns false m a h = (a, refl)

pub rate-Returns : (count total : ℕ) → Returns (rate count total)
rate-Returns count total = guarded-Returns (ltb 0 total) _ none (λ h.
    quotient-Returns (of_int (pos count)) (of_int (pos total)) (λ q. some (q *ᵈ of_int (pos 100)))
      (of_pos total h))

pub ratio-Returns : (a b : Decimal) → Returns (ratio a b)
ratio-Returns a b =
    guarded-Returns (zero_dec <ᵈ b) _ none (λ h. quotient-Returns a b some (flip b h))

pub return_on-Returns : (net initial : Decimal) → Returns (return_on net initial)
return_on-Returns net initial =
    guarded-Returns (zero_dec <ᵈ initial) _ zero_dec
      (λ h. quotient-Returns net initial (λ q. q *ᵈ of_int (pos 100)) (flip initial h))

-- The fields that the counts and the streaks give.
pub compute_metrics-Returns :
    (initial : Decimal) (points : List EquityPoint) (trades : List SimulatedTrade)
    → (m : BacktestMetrics) × (compute_metrics initial points trades ≡ ok m)
      × (m.total_trades ≡ length (closed_trades trades))
      × (m.wins ≡ length (filterb is_win (closed_trades trades)))
      × (m.losses ≡ length (filterb is_loss (closed_trades trades)))
      × (m.breakeven ≡ length (filterb is_even (closed_trades trades)))
      × (m.consecutive_wins ≡ (streaks (closed_trades trades) no_streak).best_w)
      × (m.consecutive_losses ≡ (streaks (closed_trades trades) no_streak).best_l)
unfolding compute_metrics
compute_metrics-Returns initial points trades =
    let closed = closed_trades trades in
    let wins = filterb is_win closed in
    let losses = filterb is_loss closed in
    let gains = map (λ t. t.net_pnl) wins in
    let lost = map (λ t. neg_dec t.net_pnl) losses in
    let nets = map (λ t. t.net_pnl) closed in
    let (r1, e1) = rate-Returns (length wins) (length closed) in
    let (r2, e2) = rate-Returns (length losses) (length closed) in
    let (r3, e3) = ratio-Returns (sum_dec zero_dec gains) (sum_dec zero_dec lost) in
    let (r4, e4) = avg-Returns gains in
    let (r5, e5) = avg-Returns lost in
    let (r6, e6) = avg-Returns (r_multiples closed) in
    let (r7, e7) = avg-Returns nets in
    let (r8, e8) = return_on-Returns (sum_dec zero_dec nets) initial in
    (
      _,
      bind_step _ _ e1 (
          bind_step _ _ e2 (
            bind_step _ _ e3 (
              bind_step _ _ e4
                (bind_step _ _ e5 (bind_step _ _ e6 (bind_step _ _ e7 (bind_step _ _ e8 refl))))))),
      refl,
      refl,
      refl,
      refl,
      refl,
      refl,
    )
