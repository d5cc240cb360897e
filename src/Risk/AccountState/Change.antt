-- ===== src/Risk/AccountState/Change.antt =====
-- risk/account_state.py: update_paper_account_state. The values that are given fit their columns, two
-- decimal places for an amount and four for a percentage, so that they are stored as they are.
use text.Mathlib.Text.{◌==◌ as str_eq}
use aigold_trader.Base.{
  ℕ, ◌+◌, Bool, false, ◌||◌, not, Option, none, some, List, map, ℤ, eq_ℤ, ◌==◌, if◌then◌else◌,
}
use aigold_trader.Decimal.{Decimal, eq_dec, max_dec}
use aigold_trader.Risk.AccountState.{
  PaperAccountState, Account, AccountTables, get_or_create_paper_state,
}

-- The arguments of an update; `none` leaves a field as it is.
pub record Update : Type 0 where
  pub new_balance : Option Decimal
  pub new_equity : Option Decimal
  pub new_free_margin : Option Decimal
  pub new_daily_pnl : Option Decimal
  pub new_weekly_pnl : Option Decimal
  pub new_floating_pnl : Option Decimal
  pub new_open_risk_pct : Option Decimal
  pub new_reserved_risk_pct : Option Decimal
  pub new_positions_count : Option ℤ
  pub new_consecutive_losses : Option ℕ
  pub new_last_loss_at : Option ℕ
  pub new_cooldown_until : Option ℕ

-- Whether a value is given and differs from the one in force, and the one in force after it.
abbrev pub changes {ℓ} : {A : Type ℓ} → (A → A → Bool) → Option A → A → Bool
changes same none old = false
changes same (some new) old = not (same new old)

abbrev pub after_change {ℓ} : {A : Type ℓ} → (A → A → Bool) → Option A → A → A
after_change same none old = old
after_change same (some new) old = if same new old then old else new

abbrev pub same_time : ℕ → Option ℕ → Bool
same_time t none = false
same_time t (some u) = t == u

abbrev pub changes_time : Option ℕ → Option ℕ → Bool
changes_time none old = false
changes_time (some t) old = not (same_time t old)

abbrev pub after_time : Option ℕ → Option ℕ → Option ℕ
after_time none old = old
after_time (some t) old = if same_time t old then old else some t

abbrev pub after_peak : Option Decimal → Decimal → Decimal → Decimal
after_peak none equity peak = peak
after_peak (some new) equity peak = if eq_dec new equity then peak else max_dec peak new

unfoldable pub has_economic_change : Update → PaperAccountState → Bool
has_economic_change u s =
    changes eq_dec u.new_balance s.balance
    || changes eq_dec u.new_equity s.equity
    || changes eq_dec u.new_free_margin s.free_margin
    || changes eq_dec u.new_daily_pnl s.daily_realized_pnl
    || changes eq_dec u.new_weekly_pnl s.weekly_realized_pnl
    || changes eq_dec u.new_floating_pnl s.floating_pnl
    || changes eq_dec u.new_open_risk_pct s.open_risk_pct
    || changes eq_dec u.new_reserved_risk_pct s.reserved_risk_pct
    || changes eq_ℤ u.new_positions_count s.open_positions_count
    || changes ◌==◌ u.new_consecutive_losses s.consecutive_losses
    || changes_time u.new_last_loss_at s.last_loss_at
    || changes_time u.new_cooldown_until s.cooldown_until

unfoldable pub update_state : Update → ℕ → PaperAccountState → PaperAccountState
unfolding has_economic_change
update_state u now s =
    let changed = has_economic_change u s in
    record {
      account_id = s.account_id;
      state_version = if changed then s.state_version + 1 else s.state_version;
      balance = after_change eq_dec u.new_balance s.balance;
      equity = after_change eq_dec u.new_equity s.equity;
      free_margin = after_change eq_dec u.new_free_margin s.free_margin;
      daily_realized_pnl = after_change eq_dec u.new_daily_pnl s.daily_realized_pnl;
      weekly_realized_pnl = after_change eq_dec u.new_weekly_pnl s.weekly_realized_pnl;
      floating_pnl = after_change eq_dec u.new_floating_pnl s.floating_pnl;
      peak_equity = after_peak u.new_equity s.equity s.peak_equity;
      open_risk_pct = after_change eq_dec u.new_open_risk_pct s.open_risk_pct;
      reserved_risk_pct = after_change eq_dec u.new_reserved_risk_pct s.reserved_risk_pct;
      open_positions_count = after_change eq_ℤ u.new_positions_count s.open_positions_count;
      consecutive_losses = after_change ◌==◌ u.new_consecutive_losses s.consecutive_losses;
      last_loss_at = after_time u.new_last_loss_at s.last_loss_at;
      cooldown_until = after_time u.new_cooldown_until s.cooldown_until;
      state_updated_at = if changed then now else s.state_updated_at;
      last_observed_at = now;
    }

abbrev pub put_state : PaperAccountState → List PaperAccountState → List PaperAccountState
put_state s rows = map (λ r. if str_eq r.account_id s.account_id then s else r) rows

unfoldable pub update_paper_account_state :
    Account → Update → ℕ → AccountTables → PaperAccountState × AccountTables
unfolding get_or_create_paper_state update_state
update_paper_account_state a u now t =
    let (s, t1) = get_or_create_paper_state a now t in
    let after = update_state u now s in (after, record t1 { states = put_state after t1.states })
