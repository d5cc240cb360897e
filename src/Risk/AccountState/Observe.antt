-- ===== src/Risk/AccountState/Observe.antt =====
-- risk/account_state.py: refresh_paper_account_snapshot, which observes the state in a snapshot.
use aigold_trader.Base.{
  ℕ, ◌+◌, String, Bool, ◌&&◌, Option, none, some, [], ◌∷◌, ◌++◌, leb, ◌==◌, if◌then◌else◌,
}
use aigold_trader.Decimal.{Decimal, zero_dec, ◌<ᵈ◌, ◌≤ᵈ◌}
use aigold_trader.Risk.Domain.{Raises, ok, raised, validation_error, seconds}
use aigold_trader.Risk.AccountState.{
  PaperAccountState, PaperSnapshot, AccountSnapshotRecord, Account, AccountTables, latest_snapshot,
  get_or_create_paper_state,
}
use aigold_trader.Risk.AccountState.Change.{put_state}

-- `AccountSnapshot.validate_equity`
abbrev pub raised_peak : Decimal → Decimal → Decimal
raised_peak peak equity = if peak <ᵈ equity && zero_dec <ᵈ equity then equity else peak

abbrev pub snapshot_of : PaperAccountState → String → ℕ → PaperSnapshot
snapshot_of s id now = record {
  id = id;
  account_id = s.account_id;
  balance = s.balance;
  equity = s.equity;
  free_margin = some s.free_margin;
  daily_realized_pnl = s.daily_realized_pnl;
  weekly_realized_pnl = s.weekly_realized_pnl;
  floating_pnl = some s.floating_pnl;
  peak_equity = raised_peak s.peak_equity s.equity;
  open_risk_pct = s.open_risk_pct;
  reserved_risk_pct = s.reserved_risk_pct;
  consecutive_losses = s.consecutive_losses;
  last_loss_at = s.last_loss_at;
  cooldown_until = s.cooldown_until;
  open_positions_count = s.open_positions_count;
  state_version = s.state_version;
  state_updated_at = s.state_updated_at;
  as_of = now;
}

unfoldable pub valid_snapshot : PaperSnapshot → Bool
valid_snapshot p =
    zero_dec ≤ᵈ p.balance
    && zero_dec ≤ᵈ p.equity
    && zero_dec ≤ᵈ p.peak_equity
    && zero_dec ≤ᵈ p.open_risk_pct
    && zero_dec ≤ᵈ p.reserved_risk_pct

abbrev pub record_of : PaperSnapshot → AccountSnapshotRecord
record_of p = record {
  account_id = p.account_id;
  balance = p.balance;
  equity = p.equity;
  free_margin = p.free_margin;
  daily_realized_pnl = p.daily_realized_pnl;
  weekly_realized_pnl = p.weekly_realized_pnl;
  peak_equity = p.peak_equity;
  open_risk_pct = p.open_risk_pct;
  reserved_risk_pct = p.reserved_risk_pct;
  consecutive_losses = p.consecutive_losses;
  as_of = p.as_of;
  payload = some p;
}

-- The snapshot of the same version that is not too old.
abbrev pub reusable : ℕ → ℕ → ℕ → Option AccountSnapshotRecord → Option PaperSnapshot
reusable version now age none = none
reusable version now age (some r) = of_payload r.payload
  where
    of_payload : Option PaperSnapshot → Option PaperSnapshot
    of_payload none = none
    of_payload (some p) =
        if p.state_version == version && leb now (r.as_of + seconds age) then some p else none

abbrev pub observed :
    Account
    → ℕ
    → PaperAccountState
    → String
    → Option PaperSnapshot
    → AccountTables
    → Raises (PaperSnapshot × AccountTables)
observed a now s id (some p) t = ok (record p { account_id = s.account_id }, t)
observed a now s id none t =
    let p = snapshot_of s id now in
    if valid_snapshot p
    then ok (p, record t { snapshots = t.snapshots ++ record_of p ∷ [] })
    else raised validation_error

-- `id` is the id that is drawn.
unfoldable pub refresh_paper_account_snapshot :
    Account → Bool → ℕ → ℕ → String → AccountTables → Raises (PaperSnapshot × AccountTables)
unfolding get_or_create_paper_state latest_snapshot valid_snapshot
refresh_paper_account_snapshot a force now age id t =
    let (found, t1) = get_or_create_paper_state a now t in
    let s = record found { last_observed_at = now } in
    let t2 = record t1 { states = put_state s t1.states } in
    let latest = latest_snapshot s.account_id t2.snapshots in
    observed a now s id (if force then none else reusable s.state_version now age latest) t2
