-- ===== src/Analysis/Returns.antt =====
-- What a block that may raise returns, where it returns.
use mathlib.Core.Path.{subst, refl}
use aigold_trader.Base.{◌≡◌, Bool, true, false, if◌then◌else◌}
use aigold_trader.Risk.Domain.{Raises, ok, raised, ◌>>=◌}

abbrev pub Returns {ℓ κ} : {A : Type ℓ} → (A → Type κ) → Raises A → Type κ
Returns P (ok a) = P a
Returns P (raised e) = Unit

pub Returns-bind {ℓ ι κ μ} :
    {A : Type ℓ} {B : Type ι} (Q : A → Type κ) (P : B → Type μ) (m : Raises A) (f : A → Raises B)
    → Returns Q m
    → ((a : A) → Q a → Returns P (f a))
    → Returns P (m >>= f)
Returns-bind Q P (ok a) f h k = k a h
Returns-bind Q P (raised e) f h k = tt

-- A value of which nothing is said.
pub Returns-any {ℓ ι κ} :
    {A : Type ℓ} {B : Type ι} (P : B → Type κ) (m : Raises A) (f : A → Raises B)
    → ((a : A) → Returns P (f a))
    → Returns P (m >>= f)
Returns-any P (ok a) f k = k a
Returns-any P (raised e) f k = tt

pub Returns-if {ℓ κ} :
    {A : Type ℓ} (P : A → Type κ) (b : Bool) (m n : Raises A)
    → (b ≡ true → Returns P m)
    → (b ≡ false → Returns P n)
    → Returns P (if b then m else n)
Returns-if P true m n h k = h refl
Returns-if P false m n h k = k refl

pub returned {ℓ κ} :
    {A : Type ℓ} (P : A → Type κ) (m : Raises A) {a : A} → Returns P m → m ≡ ok a → P a
returned P (ok b) h e = let q : b ≡ _ = cc in subst P q h
returned P (raised x) h e = cc

pub Returns-of {ℓ κ} :
    {A : Type ℓ} (P : A → Type κ) (m : Raises A) → ((a : A) → m ≡ ok a → P a) → Returns P m
Returns-of P (ok a) h = h a refl
Returns-of P (raised e) h = tt
