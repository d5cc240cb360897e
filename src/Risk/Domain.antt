-- ===== src/Risk/Domain.antt =====
-- The contracts of risk/domain.py with the bounds that they validate. Instants and durations are
-- numbers of microseconds; where a contract bounds a signed integer from below by 0 it is a ℕ.
use aigold_trader.Base.{
  ◌≡◌, refl, ℕ, ◌*◌, String, Bool, ◌&&◌, Option, none, some, ℤ, pos, leb, if◌then◌else◌,
}
use aigold_trader.Decimal.{Decimal, of_int, zero_dec, ◌<ᵈ◌, ◌≤ᵈ◌}

-- Exceptions as values: a failed validation, a trapped decimal signal, a violated constraint of a
-- table, an input that is refused, and a value that is None or missing where the code needs one.
pub data RiskError : Type 0 where
  validation_error arithmetic_error integrity_error input_error type_error : RiskError

pub data Raises {ℓ} (A : Type ℓ) : Type ℓ where
  ok : A → Raises A
  raised : RiskError → Raises A

infixl 5 ◌>>=◌
abbrev pub ◌>>=◌ {ℓ κ} : {A : Type ℓ} {B : Type κ} → Raises A → (A → Raises B) → Raises B
ok a >>= f = f a
raised e >>= f = raised e

-- A block that returned went through each of its steps.
pub bind-ok {ℓ κ} :
    {A : Type ℓ} {B : Type κ} (m : Raises A) (f : A → Raises B) {b : B}
    → (m >>= f) ≡ ok b
    → (a : A) × (m ≡ ok a) × (f a ≡ ok b)
bind-ok (ok a) f h = (a, refl, h)
bind-ok (raised e) f h = cc

abbrev pub lift {ℓ} : {A : Type ℓ} → Option A → Raises A
lift none = raised arithmetic_error
lift (some a) = ok a

pub lift-ok {ℓ} : {A : Type ℓ} (o : Option A) {a : A} → lift o ≡ ok a → o ≡ some a
lift-ok none h = cc
lift-ok (some b) h = cc

pub ok-injective {ℓ} : {A : Type ℓ} {a b : A} → ok a ≡ ok b → a ≡ b
ok-injective h = cc

pub data Direction : Type 0 where
  long short : Direction

pub data Decision : Type 0 where
  approved reduced blocked : Decision

abbrev pub seconds : ℕ → ℕ
seconds n = n * 1000000

abbrev pub minutes : ℕ → ℕ
minutes n = n * 60 * 1000000

pub record RiskPolicy : Type 0 where
  pub max_risk_per_trade_pct : Decimal
  pub min_risk_per_trade_pct : Decimal
  pub max_account_risk_pct : Decimal
  pub max_symbol_risk_pct : Decimal
  pub max_directional_risk_pct : Decimal
  pub max_concurrent_trades : ℕ
  pub daily_loss_limit_pct : Decimal
  pub weekly_loss_limit_pct : Decimal
  pub max_drawdown_pct : Decimal
  pub cooldown_consecutive_losses : ℕ
  pub cooldown_period_minutes : ℕ
  pub max_spread_multiplier : Decimal
  pub max_spread_absolute : Decimal
  pub quote_freshness_seconds : ℕ
  pub account_freshness_seconds : ℕ
  pub symbol_spec_freshness_seconds : ℕ
  pub news_risk_enabled : Bool
  pub news_high_impact_blackout_pre_minutes : ℕ
  pub news_high_impact_pre_minutes : ℕ
  pub news_high_impact_post_minutes : ℕ
  pub news_reduction_factor : Decimal
  pub min_volume : Decimal
  pub max_volume : Decimal
  pub volume_step : Decimal
  pub reservation_ttl_seconds : ℕ
  pub data_health_consecutive_failures : ℕ

-- `Field(gt=0, le=...)` and `Field(ge=..., le=...)`.
abbrev pub pct_field : Decimal → ℕ → Bool
pct_field d most = zero_dec <ᵈ d && d ≤ᵈ of_int (pos most)

abbrev pub int_field : ℕ → ℕ → ℕ → Bool
int_field n least most = leb least n && leb n most

unfoldable pub policy_fields : RiskPolicy → Bool
policy_fields p =
    pct_field p.max_risk_per_trade_pct 5
    && pct_field p.min_risk_per_trade_pct 1
    && pct_field p.max_account_risk_pct 10
    && pct_field p.max_symbol_risk_pct 10
    && pct_field p.max_directional_risk_pct 10
    && int_field p.max_concurrent_trades 1 10
    && pct_field p.daily_loss_limit_pct 10
    && pct_field p.weekly_loss_limit_pct 20
    && pct_field p.max_drawdown_pct 30
    && int_field p.cooldown_consecutive_losses 1 10
    && int_field p.cooldown_period_minutes 5 1440
    && of_int (pos 1) <ᵈ p.max_spread_multiplier
    && p.max_spread_multiplier ≤ᵈ of_int (pos 10)
    && pct_field p.max_spread_absolute 10
    && int_field p.quote_freshness_seconds 1 60
    && int_field p.account_freshness_seconds 5 3600
    && int_field p.symbol_spec_freshness_seconds 60 604800
    && int_field p.news_high_impact_blackout_pre_minutes 1 60
    && int_field p.news_high_impact_pre_minutes 1 120
    && int_field p.news_high_impact_post_minutes 1 120
    && zero_dec <ᵈ p.news_reduction_factor
    && p.news_reduction_factor <ᵈ of_int (pos 1)
    && zero_dec <ᵈ p.min_volume
    && zero_dec <ᵈ p.max_volume
    && zero_dec <ᵈ p.volume_step
    && int_field p.reservation_ttl_seconds 30 1800
    && int_field p.data_health_consecutive_failures 1 10

-- `RiskPolicy.validate_policy`.
unfoldable pub validate_policy : RiskPolicy → Bool
validate_policy p =
    p.min_risk_per_trade_pct ≤ᵈ p.max_risk_per_trade_pct
    && p.max_risk_per_trade_pct ≤ᵈ p.max_account_risk_pct
    && p.max_symbol_risk_pct ≤ᵈ p.max_account_risk_pct
    && p.max_directional_risk_pct ≤ᵈ p.max_account_risk_pct
    && leb p.news_high_impact_blackout_pre_minutes p.news_high_impact_pre_minutes
    && p.min_volume ≤ᵈ p.max_volume

unfoldable pub valid_policy : RiskPolicy → Bool
unfolding policy_fields validate_policy
valid_policy p = policy_fields p && validate_policy p

pub record SymbolSpecification : Type 0 where
  pub symbol : String
  pub tick_size : Decimal
  pub tick_value : Decimal
  pub contract_size : Decimal
  pub volume_min : Decimal
  pub volume_max : Decimal
  pub volume_step : Decimal
  pub digits : ℕ
  pub observed_at : ℕ

-- The fields and `validate_spec` of `SymbolSpecification`.
unfoldable pub valid_spec : SymbolSpecification → Bool
valid_spec s =
    zero_dec <ᵈ s.tick_size
    && zero_dec <ᵈ s.tick_value
    && zero_dec <ᵈ s.contract_size
    && zero_dec <ᵈ s.volume_min
    && zero_dec <ᵈ s.volume_max
    && zero_dec <ᵈ s.volume_step
    && leb s.digits 5
    && s.volume_min ≤ᵈ s.volume_max
    && s.volume_step ≤ᵈ s.volume_min

pub record AccountSnapshot : Type 0 where
  pub account_id : String
  pub balance : Decimal
  pub equity : Decimal
  pub daily_realized_pnl : Decimal
  pub weekly_realized_pnl : Decimal
  pub peak_equity : Decimal
  pub open_risk_pct : Decimal
  pub reserved_risk_pct : Decimal
  pub consecutive_losses : ℕ
  pub last_loss_at : Option ℕ
  pub cooldown_until : Option ℕ
  pub open_positions_count : ℤ
  pub as_of : ℕ

unfoldable pub valid_account : AccountSnapshot → Bool
valid_account a =
    zero_dec ≤ᵈ a.balance
    && zero_dec ≤ᵈ a.equity
    && zero_dec ≤ᵈ a.peak_equity
    && zero_dec ≤ᵈ a.open_risk_pct
    && zero_dec ≤ᵈ a.reserved_risk_pct

-- `AccountSnapshot.validate_equity` raises the peak to the equity.
unfoldable pub validate_equity : AccountSnapshot → AccountSnapshot
validate_equity a =
    if a.peak_equity <ᵈ a.equity && zero_dec <ᵈ a.equity
    then record a { peak_equity = a.equity }
    else a
