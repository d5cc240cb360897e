-- ===== src/MarketData/Aggregation/Valid.antt =====
-- The validation of a candle that market_data/aggregation.py merges.
use aigold_trader.Base.{
  ℕ, ◌≡◌, refl, inl, inr, Bool, true, false, ◌&&◌, ◌||◌, not, Option, none, some, ◌==◌, arith,
  Bool-cases, ◌≤ℤ◌, if_ind,
}
use aigold_trader.Decimal.{Decimal, ◌<ᵈ◌, min_dec, max_dec}
use aigold_trader.Decimal.Order.{
  rank, lt_false→rank, rank→lt_false, min_dec-le, max_dec-ge, min_dec-ge,
}
use aigold_trader.MarketData.Aggregation.{
  Timeframe, m1, m3, m5, m15, m30, h1, h4, d1, w1, bucket, Candle, merge, below_bid, valid_ohlc,
  is_price, is_ask, is_amount, valid_candle,
}

max_dec-le : (a b c : Decimal) → rank a ≤ℤ rank c → rank b ≤ℤ rank c → rank (max_dec a b) ≤ℤ rank c
unfolding max_dec
max_dec-le a b c h k = elim (Bool-cases (a <ᵈ b)) [ inl e ↦ rw e k | inr e ↦ rw e h ]

-- The order of the four prices.
record IsOrdered (o h l c : Decimal) : Type 0 where
  open-high : rank o ≤ℤ rank h
  close-high : rank c ≤ℤ rank h
  low-high : rank l ≤ℤ rank h
  low-open : rank l ≤ℤ rank o
  low-close : rank l ≤ℤ rank c

IsOrdered-of :
    (o h l c : Decimal)
    → (h <ᵈ max_dec (max_dec o c) l) ≡ false
    → (min_dec (min_dec o c) h <ᵈ l) ≡ false
    → IsOrdered o h l c
IsOrdered-of o h l c e f =
    let above = lt_false→rank h (max_dec (max_dec o c) l) e in
    let below = lt_false→rank (min_dec (min_dec o c) h) l f in
    let a = max_dec-ge (max_dec o c) l in
    let b = max_dec-ge o c in
    let p = min_dec-le (min_dec o c) h in
    let q = min_dec-le o c in
    record {
      open-high = omega (arith, above, a.0, b.0);
      close-high = omega (arith, above, a.0, b.1);
      low-high = omega (arith, above, a.1);
      low-open = omega (arith, below, p.0, q.0);
      low-close = omega (arith, below, p.0, q.1);
    }

of_ordered :
    (o h l c : Decimal)
    → IsOrdered o h l c
    → ((h <ᵈ max_dec (max_dec o c) l) ≡ false) × ((min_dec (min_dec o c) h <ᵈ l) ≡ false)
of_ordered o h l c z = (
  rank→lt_false h (max_dec (max_dec o c) l)
      (max_dec-le (max_dec o c) l h (max_dec-le o c h z.open-high z.close-high) z.low-high),
  rank→lt_false (min_dec (min_dec o c) h) l
      (min_dec-ge (min_dec o c) h l (min_dec-ge o c l z.low-open z.low-close) z.low-high),
)

merged-IsOrdered :
    (o h l c o' h' l' c' : Decimal)
    → IsOrdered o h l c
    → IsOrdered o' h' l' c'
    → IsOrdered o (max_dec h h') (min_dec l l') c'
merged-IsOrdered o h l c o' h' l' c' y z =
    let (a, b) = max_dec-ge h h' in
    let (p, q) = min_dec-le l l' in
    record {
      open-high = omega (arith, y.open-high, a);
      close-high = omega (arith, z.close-high, b);
      low-high = omega (arith, y.low-high, a, p);
      low-open = omega (arith, y.low-open, p);
      low-close = omega (arith, z.low-close, q);
    }

bucket_idempotent : (t : ℕ) (tf : Timeframe) → bucket (bucket t tf) tf ≡ bucket t tf
unfolding bucket
bucket_idempotent t m1 = omega arith
bucket_idempotent t m3 = omega arith
bucket_idempotent t m5 = omega arith
bucket_idempotent t m15 = omega arith
bucket_idempotent t m30 = omega arith
bucket_idempotent t h1 = omega arith
bucket_idempotent t h4 = omega arith
bucket_idempotent t d1 = omega arith
bucket_idempotent t w1 = omega arith

same_number : (a b : ℕ) → b ≡ a → (a == b) ≡ true
same_number a b e = ground arith

parts_of :
    (a b c d : Bool)
    → (not (a || b) && not (c || d)) ≡ true
    → (a ≡ false) × (b ≡ false) × (c ≡ false) × (d ≡ false)
parts_of a b c d h = ground arith

of_parts :
    (a b c d : Bool)
    → a ≡ false
    → b ≡ false
    → c ≡ false
    → d ≡ true
    → (not (a || b) && not (c || not d)) ≡ true
of_parts a b c d h1' h2 h3 h4' = ground arith

record IsCandle (c : Candle) : Type 0 where
  below_high : (c.high <ᵈ max_dec (max_dec c.open_price c.close) c.low) ≡ false
  above_low : (min_dec (min_dec c.open_price c.close) c.high <ᵈ c.low) ≡ false
  spread_good : below_bid c.ask_close c.bid_close ≡ false

valid_ohlc-IsCandle : (c : Candle) → valid_ohlc c ≡ true → IsCandle c
unfolding valid_ohlc
valid_ohlc-IsCandle c h =
    let (a, b, ask, t) =
      parts_of (c.high <ᵈ max_dec (max_dec c.open_price c.close) c.low)
        (min_dec (min_dec c.open_price c.close) c.high <ᵈ c.low) (below_bid c.ask_close c.bid_close)
        (not (c.open_time == bucket c.open_time c.timeframe)) h in
    record { below_high = a; above_low = b; spread_good = ask }

IsCandle-valid_ohlc :
    (c : Candle) → IsCandle c → bucket c.open_time c.timeframe ≡ c.open_time → valid_ohlc c ≡ true
unfolding valid_ohlc
IsCandle-valid_ohlc c z e =
    of_parts (c.high <ᵈ max_dec (max_dec c.open_price c.close) c.low)
      (min_dec (min_dec c.open_price c.close) c.high <ᵈ c.low) (below_bid c.ask_close c.bid_close)
      (c.open_time == bucket c.open_time c.timeframe) z.below_high z.above_low z.spread_good
      (same_number c.open_time (bucket c.open_time c.timeframe) e)

merge-valid_ohlc :
    (left : Option Candle) (right : Candle) (tf : Timeframe)
    → ((l : Candle) → left ≡ some l → valid_ohlc l ≡ true)
    → valid_ohlc right ≡ true
    → valid_ohlc (merge left right tf) ≡ true
unfolding merge
merge-valid_ohlc none r tf hl hr =
    let z = valid_ohlc-IsCandle r hr in
    IsCandle-valid_ohlc (merge none r tf)
      (record { below_high = z.below_high; above_low = z.above_low; spread_good = z.spread_good })
      (bucket_idempotent r.open_time tf)
merge-valid_ohlc (some l) r tf hl hr =
    let y = valid_ohlc-IsCandle l (hl l refl) in
    let z = valid_ohlc-IsCandle r hr in
    let m =
      merged-IsOrdered l.open_price l.high l.low l.close r.open_price r.high r.low r.close
        (IsOrdered-of l.open_price l.high l.low l.close y.below_high y.above_low)
        (IsOrdered-of r.open_price r.high r.low r.close z.below_high z.above_low) in
    let (up, down) =
      of_ordered l.open_price (max_dec l.high r.high) (min_dec l.low r.low) r.close m in
    IsCandle-valid_ohlc (merge (some l) r tf)
      (record { below_high = up; above_low = down; spread_good = z.spread_good })
      (bucket_idempotent r.open_time tf)

-- The parts of a validation.
record IsValid (c : Candle) : Type 0 where
  open_good : is_price c.open_price ≡ true
  high_good : is_price c.high ≡ true
  low_good : is_price c.low ≡ true
  close_good : is_price c.close ≡ true
  bid_good : is_price c.bid_close ≡ true
  ask_good : is_ask c.ask_close ≡ true
  ohlc_good : valid_ohlc c ≡ true

both : (a b : Bool) → (a && b) ≡ true → (a ≡ true) × (b ≡ true)
both a b h = (ground arith, ground arith)

valid_candle-IsValid : (c : Candle) → valid_candle c ≡ true → IsValid c
unfolding valid_candle
valid_candle-IsValid c h =
    let (k7, w) = both _ (valid_ohlc c) h in
    let (k6, _) = both _ (is_amount c.volume) k7 in
    let (k5, g) = both _ (is_ask c.ask_close) k6 in
    let (k4, f) = both _ (is_price c.bid_close) k5 in
    let (k3, e) = both _ (is_price c.close) k4 in
    let (k2, d) = both _ (is_price c.low) k3 in
    let (a, b) = both (is_price c.open_price) (is_price c.high) k2 in
    record {
      open_good = a;
      high_good = b;
      low_good = d;
      close_good = e;
      bid_good = f;
      ask_good = g;
      ohlc_good = w;
    }

-- Only the volume is left to be checked.
IsValid-valid_candle : (c : Candle) → IsValid c → valid_candle c ≡ is_amount c.volume
unfolding valid_candle
IsValid-valid_candle c z =
    all_but (is_price c.open_price) (is_price c.high) (is_price c.low) (is_price c.close)
      (is_price c.bid_close) (is_ask c.ask_close) (is_amount c.volume) (valid_ohlc c) z.open_good
      z.high_good z.low_good z.close_good z.bid_good z.ask_good z.ohlc_good
  where
    all_but :
        (a b d e f g v w : Bool)
        → a ≡ true
        → b ≡ true
        → d ≡ true
        → e ≡ true
        → f ≡ true
        → g ≡ true
        → w ≡ true
        → (a && b && d && e && f && g && v && w) ≡ v
    all_but a b d e f g v w p q r s t u x = ground arith

max_good : (a b : Decimal) → is_price a ≡ true → is_price b ≡ true → is_price (max_dec a b) ≡ true
unfolding max_dec
max_good a b h k = if_ind (λ d. is_price d ≡ true) (a <ᵈ b) b a (λ _. k) (λ _. h)

min_good : (a b : Decimal) → is_price a ≡ true → is_price b ≡ true → is_price (min_dec a b) ≡ true
unfolding min_dec
min_good a b h k = elim (Bool-cases (b <ᵈ a)) [ inl e ↦ rw e k | inr e ↦ rw e h ]

-- A merge of valid candles, or of nothing with a valid candle, passes the validation of a Candle
-- exactly where its volume is an Amount, so not negative, with at most five decimal places and below
-- 10 ^ 15. Its prices pass in any case.
pub merge_valid :
    (left : Option Candle) (right : Candle) (tf : Timeframe)
    → ((l : Candle) → left ≡ some l → valid_candle l ≡ true)
    → valid_candle right ≡ true
    → valid_candle (merge left right tf) ≡ is_amount (merge left right tf).volume
unfolding merge
merge_valid none r tf hl hr =
    let z = valid_candle-IsValid r hr in
    IsValid-valid_candle (merge none r tf) (record {
      open_good = z.open_good;
      high_good = z.high_good;
      low_good = z.low_good;
      close_good = z.close_good;
      bid_good = z.bid_good;
      ask_good = z.ask_good;
      ohlc_good = merge-valid_ohlc none r tf (λ l e. cc) z.ohlc_good;
    })
merge_valid (some l) r tf hl hr =
    let y = valid_candle-IsValid l (hl l refl) in
    let z = valid_candle-IsValid r hr in
    IsValid-valid_candle (merge (some l) r tf) (record {
      open_good = y.open_good;
      high_good = max_good l.high r.high y.high_good z.high_good;
      low_good = min_good l.low r.low y.low_good z.low_good;
      close_good = z.close_good;
      bid_good = z.bid_good;
      ask_good = z.ask_good;
      ohlc_good = merge-valid_ohlc (some l) r tf (λ k e. same k e y.ohlc_good) z.ohlc_good;
    })
  where
    same : (k : Candle) → some l ≡ some k → valid_ohlc l ≡ true → valid_ohlc k ≡ true
    same k e h = let q : l ≡ k = cc in rw (← q) h
