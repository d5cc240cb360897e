-- ===== src/Analysis/Engine/Ordered.antt =====
-- The candles that `analyze` of analysis/engine.py accepts.
use mathlib.Core.Path.{subst}
use aigold_trader.Base.{
  ℕ, zero, suc, ◌<◌, ◌≤◌, ◌≡◌, ◌∙◌, sym, Bool, true, false, ◌&&◌, ◌||◌, not, Option, none, some,
  List, [], ◌∷◌, length, get_elem?, All, All-imp, All-get_elem?, if◌then◌else◌, if_true, if_false,
  Bool-cases, inl, inr, arith, ltb, ltb→lt, ltb_false→le, some_eq,
}
use aigold_trader.Risk.Domain.{Raises, ok, raised, input_error, bind-ok}
use aigold_trader.MarketData.Aggregation.{Candle, valid_candle}
use aigold_trader.Analysis.Engine.{Setup, AnalysisEngine, new_analysis}
use aigold_trader.Analysis.Engine.Feed.{is_same_series, admits, feed, analyze_from, analyze}

-- Each candle is admitted after the one before.
abbrev pub Admitted : Setup → Option ℕ → Bool → List Candle → Type 0
Admitted s previous forming [] = Unit
Admitted s previous forming (c ∷ cs) =
    (admits s previous forming c ≡ true) × Admitted s (some c.open_time) (not c.is_closed) cs

admitted :
    (s : Setup) (previous : Option ℕ) (forming : Bool) (c : Candle) {d : Candle}
    → (if admits s previous forming c then ok c else raised input_error) ≡ ok d
    → admits s previous forming c ≡ true
admitted s previous forming c h = elim (Bool-cases (admits s previous forming c)) [
  | inl e ↦ e
  | inr e ↦
      let x : raised input_error ≡ ok _ =
        sym (if_false (admits s previous forming c) (ok c) (raised input_error) e) ∙ h in
      cc
]

pub analyze_from-Admitted :
    (s : Setup) (previous : Option ℕ) (forming : Bool) (e : AnalysisEngine) (cs : List Candle)
    {after : AnalysisEngine}
    → analyze_from s previous forming e cs ≡ ok after
    → Admitted s previous forming cs
unfolding analyze_from
analyze_from-Admitted s previous forming e [] h = tt
analyze_from-Admitted s previous forming e (c ∷ cs) h =
    let (d, e1, f1) =
      bind-ok (if admits s previous forming c then ok c else raised input_error) _ h in
    let (fed, _, f2) = bind-ok (if c.is_closed then feed s e d else ok e) _ f1 in
    (
      admitted s previous forming c e1,
      analyze_from-Admitted s (some c.open_time) (not c.is_closed) fed cs f2,
    )

-- What admission says: of the series, valid, later than the one before, which was closed.
admits-parts :
    (s : Setup) (t : ℕ) (forming : Bool) (c : Candle)
    → admits s (some t) forming c ≡ true
    → (t < c.open_time) × (forming ≡ false)
unfolding admits
admits-parts s t forming c h = split (valid_candle c) (is_same_series s c) h
  where
    split :
        (v w : Bool)
        → (v && w && ltb t c.open_time && not forming) ≡ true
        → (t < c.open_time) × (forming ≡ false)
    split v w k = (
      ltb→lt t c.open_time (third v w (ltb t c.open_time) (not forming) k),
      last v w (ltb t c.open_time) forming k,
    )
      where
        third : (a b d f : Bool) → (a && b && d && f) ≡ true → d ≡ true
        third a b d f k = ground arith

        last : (a b d f : Bool) → (a && b && d && not f) ≡ true → f ≡ false
        last a b d f k = ground arith

-- Every candle is later than one before them all.
pub Admitted-later :
    (s : Setup) (t : ℕ) (forming : Bool) (cs : List Candle)
    → Admitted s (some t) forming cs
    → All (λ c. t < c.open_time) cs
Admitted-later s t forming [] h = tt
Admitted-later s t forming (c ∷ cs) (h, rest) =
    let (late, _) = admits-parts s t forming c h in
    (
      late,
      All-imp (λ d k. omega (arith, late, k)) cs
          (Admitted-later s c.open_time (not c.is_closed) cs rest),
    )

not-not : (b : Bool) → not b ≡ false → b ≡ true
not-not b h = ground arith

-- A candle that others follow is closed.
followed :
    (s : Setup) (t : ℕ) (closed : Bool) (cs : List Candle) (j : ℕ) (b : Candle)
    → Admitted s (some t) (not closed) cs
    → get_elem? cs j ≡ some b
    → closed ≡ true
followed s t closed [] j b h e = cc
followed s t closed (c ∷ cs) j b (h, rest) e =
    not-not closed ((admits-parts s t (not closed) c h).1)

Admitted-IsOrdered :
    (s : Setup) (previous : Option ℕ) (forming : Bool) (cs : List Candle) (i j : ℕ) (a b : Candle)
    → Admitted s previous forming cs
    → get_elem? cs i ≡ some a
    → get_elem? cs j ≡ some b
    → i < j
    → (a.open_time < b.open_time) × (a.is_closed ≡ true)
Admitted-IsOrdered s previous forming [] i j a b h e f l = cc
Admitted-IsOrdered s previous forming (c ∷ cs) i zero a b h e f l = absurd (omega (arith, l))
Admitted-IsOrdered s previous forming (c ∷ cs) zero (suc j) a b (h, rest) e f l =
    let same : c ≡ a = some_eq e in
    let late =
      All-get_elem? (λ d. c.open_time < d.open_time) cs j b
        (Admitted-later s c.open_time (not c.is_closed) cs rest) f in
    let closed = followed s c.open_time c.is_closed cs j b rest f in
    subst (λ (x : Candle). (x.open_time < b.open_time) × (x.is_closed ≡ true)) same (late, closed)
Admitted-IsOrdered s previous forming (c ∷ cs) (suc i) (suc j) a b (h, rest) e f l =
    Admitted-IsOrdered s (some c.open_time) (not c.is_closed) cs i j a b rest e f (omega (arith, l))

first_of : (a b d f : Bool) → (a || b || d || f) ≡ false → a ≡ false
first_of a b d f h = ground arith

second_of : (a b d f : Bool) → (a || b || d || f) ≡ false → b ≡ false
second_of a b d f h = ground arith

-- `analyze` raises for every list of candles that is too long or out of order: where it returns, there
-- are at most 1000 candles and no more than requested, and of any two candles the one that comes
-- first opens before the other and is closed, so that only the last may be forming.
pub analyze_ordered :
    (s : Setup) (requested : ℕ) (cs : List Candle) (after : AnalysisEngine)
    → analyze s requested cs ≡ ok after
    → (length cs ≤ 1000)
      × (length cs ≤ requested)
      × ((i j : ℕ) (a b : Candle)
          → get_elem? cs i ≡ some a
          → get_elem? cs j ≡ some b
          → i < j
          → (a.open_time < b.open_time) × (a.is_closed ≡ true))
unfolding analyze
analyze_ordered s requested cs after h = elim (Bool-cases wrong) [
  | inl e ↦
      let x : raised input_error ≡ ok after = sym (if_true wrong (raised input_error) run e) ∙ h in
      cc
  | inr e ↦ (
    ltb_false→le 1000 (length cs) (first e),
    ltb_false→le requested (length cs) (second e),
    λ i j a b. Admitted-IsOrdered s none false cs i j a b (
        analyze_from-Admitted s none false new_analysis cs
          (sym (if_false wrong (raised input_error) run e) ∙ h)),
  )
]
  where
    run : Raises AnalysisEngine
    run = analyze_from s none false new_analysis cs

    wrong : Bool
    wrong =
        ltb 1000 (length cs) || ltb requested (length cs) || ltb requested 1 || ltb 1000 requested

    first : wrong ≡ false → ltb 1000 (length cs) ≡ false
    first e =
        first_of (ltb 1000 (length cs)) (ltb requested (length cs)) (ltb requested 1)
          (ltb 1000 requested) e

    second : wrong ≡ false → ltb requested (length cs) ≡ false
    second e =
        second_of (ltb 1000 (length cs)) (ltb requested (length cs)) (ltb requested 1)
          (ltb 1000 requested) e
