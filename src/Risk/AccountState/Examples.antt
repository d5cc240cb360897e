-- ===== src/Risk/AccountState/Examples.antt =====
-- The paper account after a loss, and its recovery from a snapshot.
use aigold_trader.Base.{◌≡◌, refl, inr, false, true, none, some, [], ◌∷◌, pos, arith}
use aigold_trader.Decimal.{dec, zero_dec, ◌<ᵈ◌, ◌≤ᵈ◌, eq_dec, max_dec}
use aigold_trader.Risk.Domain.{ok}
use aigold_trader.Risk.AccountState.{
  PaperAccountState, PaperSnapshot, Account, AccountTables, get_or_create_paper_state, find_state,
  latest_snapshot,
}
use aigold_trader.Risk.AccountState.Change.{Update, update_state, has_economic_change}
use aigold_trader.Risk.AccountState.Observe.{
  snapshot_of, record_of, refresh_paper_account_snapshot, valid_snapshot,
}
use aigold_trader.Risk.AccountState.Updates.{update_once}
use aigold_trader.Risk.AccountState.Recovery.{refresh_recovers}

abbrev account : Account
account = record { canonical_id = "paper-1"; starting_balance = some (dec (pos 1000000) 2) }

abbrev state : PaperAccountState
state = record {
  account_id = "paper-1";
  state_version = 3;
  balance = dec (pos 990000) 2;
  equity = dec (pos 990000) 2;
  free_margin = dec (pos 980000) 2;
  daily_realized_pnl = dec (pos 0) 2;
  weekly_realized_pnl = dec (pos 0) 2;
  floating_pnl = dec (pos 0) 2;
  peak_equity = dec (pos 1000000) 2;
  open_risk_pct = dec (pos 0) 4;
  reserved_risk_pct = dec (pos 0) 4;
  open_positions_count = pos 0;
  consecutive_losses = 1;
  last_loss_at = some 50;
  cooldown_until = none;
  state_updated_at = 50;
  last_observed_at = 60;
}

-- A win lifts the equity above the peak.
abbrev win : Update
win = record {
  new_balance = some (dec (pos 1010000) 2);
  new_equity = some (dec (pos 1010000) 2);
  new_free_margin = none;
  new_daily_pnl = none;
  new_weekly_pnl = none;
  new_floating_pnl = none;
  new_open_risk_pct = none;
  new_reserved_risk_pct = none;
  new_positions_count = none;
  new_consecutive_losses = some 0;
  new_last_loss_at = none;
  new_cooldown_until = none;
}

win_counts :
    ((update_state win 100 state).state_version ≡ 4)
    × ((update_state win 100 state).peak_equity ≡ dec (pos 1010000) 2)
    × ((update_state win 100 state).state_updated_at ≡ 100)
unfolding update_state has_economic_change eq_dec ◌≤ᵈ◌ ◌<ᵈ◌ max_dec dec
win_counts = (refl, refl, refl)

update_once_example :
    (update_state win 200 (update_state win 100 state)
      ≡ record (update_state win 100 state) { last_observed_at = 200 })
    × ((state.peak_equity <ᵈ state.equity) ≡ false
        → ((update_state win 100 state).peak_equity <ᵈ (update_state win 100 state).equity) ≡ false)
update_once_example = update_once win 100 200 state

abbrev tables : AccountTables
tables = record {
  states = state ∷ [];
  snapshots = record_of (snapshot_of (record state { state_version = 2 }) "snap-1" 40) ∷ [];
}

abbrev taken : PaperSnapshot
taken = snapshot_of (record state { last_observed_at = 100 }) "snap-2" 100

abbrev after : AccountTables
after = record {
  states = record state { last_observed_at = 100 } ∷ [];
  snapshots =
      record_of (snapshot_of (record state { state_version = 2 }) "snap-1" 40)
      ∷ record_of taken
      ∷ [];
}

refresh_runs : refresh_paper_account_snapshot account true 100 0 "snap-2" tables ≡ ok (taken, after)
unfolding refresh_paper_account_snapshot get_or_create_paper_state find_state latest_snapshot
    valid_snapshot ◌≤ᵈ◌ ◌<ᵈ◌ dec zero_dec
refresh_runs = refl

below_peak : (state.peak_equity <ᵈ state.equity) ≡ false
unfolding ◌<ᵈ◌ dec
below_peak = refl

refresh_recovers_example :
    (get_or_create_paper_state account 300 (record after { states = [] })).0
    ≡ record state { state_updated_at = 100; last_observed_at = 300 }
unfolding find_state
refresh_recovers_example =
    refresh_recovers account state tables 100 300 0 "snap-2" taken after refl (λ e. cc) below_peak
      (inr (omega arith), tt) refresh_runs
