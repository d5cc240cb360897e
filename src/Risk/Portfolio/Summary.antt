-- ===== src/Risk/Portfolio/Summary.antt =====
-- risk/portfolio.py: get_summary, the figures of an account's risk. The copies of the reservations and
-- the kill switch, which it leaves unset, are left out.
use text.Mathlib.Text.{◌==◌ as str_eq}
use aigold_trader.Base.{
  ℕ, String, Bool, ◌&&◌, Option, none, List, [], ◌∷◌, length, all, pos, if◌then◌else◌,
}
use aigold_trader.Decimal.{
  Decimal, of_int, zero_dec, ◌<ᵈ◌, ◌≤ᵈ◌, ◌+ᵈ◌, ◌-ᵈ◌, ◌*ᵈ◌, abs_dec, max_dec, div_dec, quantize,
}
use aigold_trader.Risk.Domain.{
  Raises, ok, raised, validation_error, ◌>>=◌, lift, Direction, RiskPolicy, AccountSnapshot,
}
use aigold_trader.Risk.Portfolio.{
  RiskReservationRecord, get_active_reservations, risk_sum, same_direction, is_cooldown_active,
}

pub record PortfolioRiskSummary : Type 0 where
  pub as_of : ℕ
  pub open_risk_pct : Decimal
  pub reserved_risk_pct : Decimal
  pub total_risk_pct : Decimal
  pub max_account_risk_pct : Decimal
  pub available_risk_pct : Decimal
  pub symbol_risk_pct : List (String × Decimal)
  pub directional_risk_pct : List (Direction × Decimal)
  pub active_reservations_count : ℕ
  pub daily_loss_pct : Decimal
  pub weekly_loss_pct : Decimal
  pub drawdown_pct : Decimal
  pub in_cooldown : Bool
  pub cooldown_until : Option ℕ

-- `sums[key] = sums.get(key, 0) + value`
unfoldable pub add_to :
    {K : Type 0} → (K → K → Bool) → K → Decimal → List (K × Decimal) → List (K × Decimal)
add_to same key value [] = (key, zero_dec +ᵈ value) ∷ []
add_to same key value ((k, sum) ∷ rest) =
    let others = add_to same key value rest in
    if same k key then (k, sum +ᵈ value) ∷ rest else (k, sum) ∷ others

unfoldable pub risk_by :
    {K : Type 0}
    → (K → K → Bool)
    → (RiskReservationRecord → K)
    → List (K × Decimal)
    → List RiskReservationRecord
    → List (K × Decimal)
unfolding add_to
risk_by same key sums [] = sums
risk_by same key sums (r ∷ rows) = risk_by same key (add_to same (key r) r.risk_pct sums) rows

-- A part of a whole in percent of two places.
unfoldable pub percent_of : Decimal → Decimal → Raises Decimal
percent_of part whole = do
  ratio ← lift (div_dec part whole)
  lift (quantize 2 (ratio *ᵈ of_int (pos 100)))

unfoldable pub loss_pct : Decimal → Decimal → Raises Decimal
unfolding percent_of
loss_pct pnl equity =
    if pnl <ᵈ zero_dec && zero_dec <ᵈ equity then percent_of (abs_dec pnl) equity else ok zero_dec

unfoldable pub drawdown : Decimal → Decimal → Raises Decimal
unfolding percent_of
drawdown peak equity =
    if zero_dec <ᵈ peak && equity <ᵈ peak then percent_of (peak -ᵈ equity) peak else ok zero_dec

-- The validation of the copied reservations and of the summary's own fields.
abbrev pub is_copied : RiskReservationRecord → Bool
is_copied r = zero_dec <ᵈ r.risk_pct && zero_dec <ᵈ r.risk_amount && zero_dec <ᵈ r.position_size

unfoldable pub valid_summary : List RiskReservationRecord → PortfolioRiskSummary → Bool
valid_summary active s =
    all is_copied active
    && zero_dec ≤ᵈ s.open_risk_pct
    && zero_dec ≤ᵈ s.reserved_risk_pct
    && zero_dec ≤ᵈ s.total_risk_pct
    && zero_dec ≤ᵈ s.max_account_risk_pct
    && zero_dec ≤ᵈ s.available_risk_pct
    && zero_dec ≤ᵈ s.daily_loss_pct
    && zero_dec ≤ᵈ s.weekly_loss_pct
    && zero_dec ≤ᵈ s.drawdown_pct

unfoldable pub get_summary :
    List RiskReservationRecord → AccountSnapshot → RiskPolicy → ℕ → Raises PortfolioRiskSummary
unfolding risk_by loss_pct drawdown valid_summary
get_summary rows account policy now = do
  daily ← loss_pct account.daily_realized_pnl account.equity
  weekly ← loss_pct account.weekly_realized_pnl account.equity
  drawn ← drawdown account.peak_equity account.equity
  let active = get_active_reservations rows account.account_id now none
  let reserved = risk_sum active
  let total = account.open_risk_pct +ᵈ reserved
  let cooldown = is_cooldown_active account policy now
  let summary : PortfolioRiskSummary = record {
    as_of = now;
    open_risk_pct = account.open_risk_pct;
    reserved_risk_pct = reserved;
    total_risk_pct = total;
    max_account_risk_pct = policy.max_account_risk_pct;
    available_risk_pct = max_dec zero_dec (policy.max_account_risk_pct -ᵈ total);
    symbol_risk_pct = risk_by str_eq (λ r. r.symbol) [] active;
    directional_risk_pct = risk_by same_direction (λ r. r.direction) [] active;
    active_reservations_count = length active;
    daily_loss_pct = daily;
    weekly_loss_pct = weekly;
    drawdown_pct = drawn;
    in_cooldown = cooldown.0;
    cooldown_until = cooldown.1;
  }
  (if valid_summary active summary then ok summary else raised validation_error)
