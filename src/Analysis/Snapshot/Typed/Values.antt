-- ===== src/Analysis/Snapshot/Typed/Values.antt =====
-- The values of an indicator are read where they are there.
use aigold_trader.Base.{
  ℕ, ◌≡◌, ◌≢◌, Bool, true, false, ◌&&◌, Option, none, some, List, length, if◌then◌else◌, if_ind,
  arith, pos, ◌==◌,
}
use aigold_trader.Decimal.{Decimal, of_int, zero_dec, ◌+ᵈ◌, ◌-ᵈ◌, div_dec, eq_dec, sum_dec}
use aigold_trader.Risk.Domain.{Raises, ok, raised, RiskError, type_error, ◌>>=◌, lift}
use aigold_trader.Analysis.Indicators.{Mean, seeding, seeded, value_of, rounded}
use aigold_trader.Analysis.Snapshot.Values.{
  rounded_value, item, strength_index, strength_of, relative_strength, window_mean,
}
use aigold_trader.Analysis.Snapshot.WarmUp.{MeanAt}

abbrev pub Typed {ℓ} : {A : Type ℓ} → Raises A → Type 0
Typed (ok a) = Unit
Typed (raised type_error) = ⊥
Typed (raised _) = Unit

pub Typed-bind {ℓ κ} :
    {A : Type ℓ} {B : Type κ} (m : Raises A) (f : A → Raises B)
    → Typed m
    → ((a : A) → Typed (f a))
    → Typed (m >>= f)
Typed-bind (ok a) f h k = k a
Typed-bind (raised RiskError.validation_error) f h k = tt
Typed-bind (raised RiskError.arithmetic_error) f h k = tt
Typed-bind (raised RiskError.integrity_error) f h k = tt
Typed-bind (raised RiskError.input_error) f h k = tt
Typed-bind (raised type_error) f h k = h

Typed-lift {ℓ} : {A : Type ℓ} (o : Option A) → Typed (lift o)
Typed-lift none = tt
Typed-lift (some a) = tt

pub Typed-ne {ℓ} : {A : Type ℓ} (m : Raises A) → Typed m → m ≢ raised type_error
Typed-ne (ok a) h e = cc
Typed-ne (raised RiskError.validation_error) h e = cc
Typed-ne (raised RiskError.arithmetic_error) h e = cc
Typed-ne (raised RiskError.integrity_error) h e = cc
Typed-ne (raised RiskError.input_error) h e = cc
Typed-ne (raised type_error) h e = h

pub Typed-if {ℓ} :
    {A : Type ℓ} (b : Bool) (m n : Raises A)
    → (b ≡ true → Typed m)
    → (b ≡ false → Typed n)
    → Typed (if b then m else n)
Typed-if b m n h k = if_ind Typed b m n h k

-- A quotient is all that may fail.
pub Typed-lifted {ℓ κ} :
    {A : Type ℓ} {B : Type κ} (o : Option A) (f : A → Raises B)
    → ((a : A) → Typed (f a))
    → Typed (lift o >>= f)
Typed-lifted o f k = Typed-bind (lift o) f (Typed-lift o) k

pub Typed-rounded : (d : Decimal) → Typed (rounded d)
unfolding rounded
Typed-rounded d = Typed-lift _

pub Typed-item : (v : Option Decimal) (n : ℕ) → Typed (item v n)
Typed-item none n = tt
Typed-item (some v) n =
    Typed-bind (rounded_value (some v)) _ (Typed-bind (rounded v) _ (Typed-rounded v) (λ r. tt))
      (λ r. tt)

pub Typed-window_mean : (n : ℕ) (closes values : List Decimal) → Typed (window_mean n closes values)
Typed-window_mean n closes values =
    Typed-if (length closes == n) _ (ok none)
      (λ h. Typed-lifted (div_dec (sum_dec zero_dec values) (of_int (pos n))) _ (λ m. tt)) (λ h. tt)

Typed-strength_of : (gain loss : Decimal) → Typed (strength_of gain loss)
unfolding strength_of
Typed-strength_of gain loss =
    let even = eq_dec gain loss && eq_dec loss zero_dec in
    let zero_loss = eq_dec loss zero_dec in
    let rest = if zero_loss then ok (of_int (pos 100)) else strength_index gain loss in
    Typed-if even (ok (of_int (pos 50))) rest (λ h. tt)
      (λ h.
        Typed-if zero_loss (ok (of_int (pos 100))) (strength_index gain loss) (λ k. tt)
          (λ k. Typed-lifted (div_dec gain loss) _ (λ r.
            Typed-lifted (div_dec (of_int (pos 100)) (of_int (pos 1) +ᵈ r))
              (λ part. ok (of_int (pos 100) -ᵈ part)) (λ part. tt))))

-- Two means of as many values have a value or none.
pub Typed-relative_strength :
    (p k : ℕ) (gain loss : Mean)
    → MeanAt p k gain
    → MeanAt p k loss
    → Typed (relative_strength (value_of gain) (value_of loss))
Typed-relative_strength p k (seeding g) loss hg hl = tt
Typed-relative_strength p k (seeded g) (seeded l) hg hl =
    Typed-bind (strength_of g l) _ (Typed-strength_of g l) (λ r. tt)
Typed-relative_strength p k (seeded g) (seeding l) hg hl = absurd (omega (arith, hg, hl.1))
