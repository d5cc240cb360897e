-- ===== src/Risk/Portfolio/Budget/Shape.antt =====
-- The two checks of a budget side by side: their results, refusals and grants.
use aigold_trader.Base.{
  ℕ, ◌+◌, ◌≡◌, refl, sym, ap, Bool, true, false, Option, none, some, is_some, leb, leb_ℤ,
  if◌then◌else◌, ℤ, pos, negsuc, ◌+ℤ◌, arith,
}
use aigold_trader.Decimal.{Decimal, div_dec, of_int, ◌*ᵈ◌, quantize}
use aigold_trader.Risk.Domain.{Raises, ok, ◌>>=◌, lift}
use aigold_trader.Risk.Capacity.{
  PureRiskCode, CapacityResult, grant, granted, unattributed_open_risk, concurrent_limit,
  account_capacity, symbol_capacity, directional_capacity, risk_amount, portfolio_reduction,
  per_trade_reduction,
}
use aigold_trader.Risk.Portfolio.{ReservationBudgetCheck, budget_grant}

-- A result of the pure check in the shape of the live one.
abbrev pub as_budget_check : CapacityResult → ReservationBudgetCheck
as_budget_check r = record {
  allowed = r.allowed;
  approved_risk_pct = r.approved_risk_pct;
  approved_risk_amount = r.approved_risk_amount;
  portfolio_exposure_before = r.exposure_before;
  portfolio_exposure_after = r.exposure_after;
  reason = r.code;
  is_reduced = r.is_reduced;
}

abbrev pub as_check : Raises CapacityResult → Raises ReservationBudgetCheck
as_check m = m >>= λ r. ok (as_budget_check r)

reduced_some : (b : Bool) (c : PureRiskCode) → is_some (if b then some c else none) ≡ b
reduced_some true c = refl
reduced_some false c = refl

abbrev pub with_flag :
    Option (Decimal × Option PureRiskCode) → Option (Decimal × Bool × Option PureRiskCode)
with_flag none = none
with_flag (some (pct, code)) = some (pct, is_some code, code)

lift-map {ℓ κ} :
    {A : Type 0} {B : Type ℓ} {C : Type κ} (o : Option A) (g : A → B) (h : B → C)
    → (lift o >>= λ a. ok (h (g a))) ≡ ((lift o >>= λ a. ok (g a)) >>= λ b. ok (h b))
lift-map none g h = refl
lift-map (some a) g h = refl

pub amounts {ℓ κ} :
    {A : Type 0} {B : Type ℓ} {C : Type κ} (o : Option A) (f : A → Option A) (g : A → B) (h : B → C)
    → (lift o >>= λ part. lift (f part) >>= λ a. ok (h (g a)))
      ≡ (((lift o >>= λ part. lift (f part)) >>= λ a. ok (g a)) >>= λ b. ok (h b))
amounts none f g h = refl
amounts (some part) f g h = lift-map (f part) g h

pub same_grant :
    (total equity : Decimal) (c : Option (Decimal × Option PureRiskCode))
    → budget_grant total equity (with_flag c) ≡ as_check (grant total equity c)
unfolding budget_grant grant risk_amount
same_grant total equity none = refl
same_grant total equity (some (pct, code)) =
    amounts (div_dec pct (of_int (pos 100))) (λ part. quantize 2 (part *ᵈ equity))
      (λ amount. granted total pct amount code) as_budget_check

pub flags :
    (short fits : Bool) (q1 q2 : Option Decimal) (less : Decimal → Bool)
    → (if short
        then (if fits
            then (lift q1 >>= λ pct. ok (some (pct, true, some portfolio_reduction)))
            else ok none)
        else (lift q2 >>= λ pct.
            ok (some (pct, less pct, if less pct then some per_trade_reduction else none))))
      ≡ ((if short
            then (if fits
                then (lift q1 >>= λ pct. ok (some (pct, some portfolio_reduction)))
                else ok none)
            else (lift q2 >>= λ pct.
                ok (some (pct, if less pct then some per_trade_reduction else none))))
          >>= λ c. ok (with_flag c))
flags true true none q2 less = refl
flags true true (some d) q2 less = refl
flags true false q1 q2 less = refl
flags false fits q1 none less = refl
flags false fits q1 (some d) less =
    ap (λ b. ok (some (d, b, if less d then some per_trade_reduction else none)))
      (sym (reduced_some (less d) per_trade_reduction))

-- The refusals of both checks, from the outcomes of their tests.
abbrev pub ladder : Bool → Bool → Bool → Bool → Bool → Option PureRiskCode
ladder open_risk full account symbol direction =
    if open_risk
    then some unattributed_open_risk
    else if full
    then some concurrent_limit
    else if account
    then some account_capacity
    else if symbol
    then some symbol_capacity
    else if direction
    then some directional_capacity
    else none

pub same_count : (m l n : ℕ) (c : ℤ) → c ≡ pos n → leb_ℤ (pos m) (pos l +ℤ c) ≡ leb m (l + n)
unfolding ◌+ℤ◌
same_count m l n (pos k) e = ground arith
same_count m l n (negsuc k) e = cc
