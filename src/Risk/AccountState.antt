-- ===== src/Risk/AccountState.antt =====
-- risk/account_state.py: PaperAccountStateService over the rows of `paper_account_states` and
-- `account_snapshots`. The account that the resolver finds and the ids that are drawn are arguments;
-- the locks make each operation one step. A payload is the snapshot that was written to it, or
-- nothing, and instants are aware.
pub mod Change
pub mod Observe
pub mod Updates
pub mod Recovery
mod Examples
use text.Mathlib.Text.{◌==◌ as str_eq}
use aigold_trader.Base.{
  ℕ, ◌+◌, String, Option, none, some, List, [], ◌∷◌, ◌++◌, ℤ, pos, ltb, ◌==◌, if◌then◌else◌,
}
use aigold_trader.Decimal.{Decimal, dec, zero_dec, eq_dec, max_dec}

pub record PaperAccountState : Type 0 where
  pub account_id : String
  pub state_version : ℕ
  pub balance : Decimal
  pub equity : Decimal
  pub free_margin : Decimal
  pub daily_realized_pnl : Decimal
  pub weekly_realized_pnl : Decimal
  pub floating_pnl : Decimal
  pub peak_equity : Decimal
  pub open_risk_pct : Decimal
  pub reserved_risk_pct : Decimal
  pub open_positions_count : ℤ
  pub consecutive_losses : ℕ
  pub last_loss_at : Option ℕ
  pub cooldown_until : Option ℕ
  pub state_updated_at : ℕ
  pub last_observed_at : ℕ

-- The AccountSnapshot of a paper account.
pub record PaperSnapshot : Type 0 where
  pub id : String
  pub account_id : String
  pub balance : Decimal
  pub equity : Decimal
  pub free_margin : Option Decimal
  pub daily_realized_pnl : Decimal
  pub weekly_realized_pnl : Decimal
  pub floating_pnl : Option Decimal
  pub peak_equity : Decimal
  pub open_risk_pct : Decimal
  pub reserved_risk_pct : Decimal
  pub consecutive_losses : ℕ
  pub last_loss_at : Option ℕ
  pub cooldown_until : Option ℕ
  pub open_positions_count : ℤ
  pub state_version : ℕ
  pub state_updated_at : ℕ
  pub as_of : ℕ

-- A row of `account_snapshots`, whose columns stand beside the payload.
pub record AccountSnapshotRecord : Type 0 where
  pub account_id : String
  pub balance : Decimal
  pub equity : Decimal
  pub free_margin : Option Decimal
  pub daily_realized_pnl : Decimal
  pub weekly_realized_pnl : Decimal
  pub peak_equity : Decimal
  pub open_risk_pct : Decimal
  pub reserved_risk_pct : Decimal
  pub consecutive_losses : ℕ
  pub as_of : ℕ
  pub payload : Option PaperSnapshot

pub record Account : Type 0 where
  pub canonical_id : String
  pub starting_balance : Option Decimal

pub record AccountTables : Type 0 where
  pub states : List PaperAccountState
  pub snapshots : List AccountSnapshotRecord

unfoldable pub find_state : String → List PaperAccountState → Option PaperAccountState
find_state id [] = none
find_state id (s ∷ rows) = if str_eq s.account_id id then some s else find_state id rows

abbrev pub newer : AccountSnapshotRecord → Option AccountSnapshotRecord → AccountSnapshotRecord
newer r none = r
newer r (some best) = if ltb best.as_of r.as_of then r else best

-- The newest snapshot of the account.
unfoldable pub latest_snapshot : String → List AccountSnapshotRecord → Option AccountSnapshotRecord
latest_snapshot id [] = none
latest_snapshot id (r ∷ rows) =
    let rest = latest_snapshot id rows in
    if str_eq r.account_id id then some (newer r rest) else rest

-- A starting balance that is missing or zero gives 10000.00.
abbrev pub starting : Option Decimal → Decimal
starting none = dec (pos 1000000) 2
starting (some b) = if eq_dec b zero_dec then dec (pos 1000000) 2 else b

-- The first state of an account without a snapshot.
abbrev pub fresh_state : Account → ℕ → PaperAccountState
fresh_state a now =
    let balance = starting a.starting_balance in
    record {
      account_id = a.canonical_id;
      state_version = 1;
      balance = balance;
      equity = balance;
      free_margin = balance;
      daily_realized_pnl = dec (pos 0) 2;
      weekly_realized_pnl = dec (pos 0) 2;
      floating_pnl = dec (pos 0) 2;
      peak_equity = max_dec balance balance;
      open_risk_pct = dec (pos 0) 4;
      reserved_risk_pct = dec (pos 0) 4;
      open_positions_count = pos 0;
      consecutive_losses = 0;
      last_loss_at = none;
      cooldown_until = none;
      state_updated_at = now;
      last_observed_at = now;
    }

abbrev pub or_value : {A : Type 0} → Option A → A → A
or_value none d = d
or_value (some v) d = v

-- What the columns of a snapshot give.
abbrev pub from_columns : Account → AccountSnapshotRecord → ℕ → PaperAccountState
from_columns a r now = record {
  account_id = a.canonical_id;
  state_version = 1;
  balance = r.balance;
  equity = r.equity;
  free_margin = or_value r.free_margin r.equity;
  daily_realized_pnl = r.daily_realized_pnl;
  weekly_realized_pnl = r.weekly_realized_pnl;
  floating_pnl = dec (pos 0) 2;
  peak_equity = r.peak_equity;
  open_risk_pct = r.open_risk_pct;
  reserved_risk_pct = r.reserved_risk_pct;
  open_positions_count = pos 0;
  consecutive_losses = r.consecutive_losses;
  last_loss_at = none;
  cooldown_until = none;
  state_updated_at = r.as_of;
  last_observed_at = now;
}

-- What its payload adds.
abbrev pub with_payload : Option PaperSnapshot → PaperAccountState → PaperAccountState
with_payload none s = s
with_payload (some p) s = record s {
  state_version = if p.state_version == 0 then s.state_version else p.state_version;
  floating_pnl = or_value p.floating_pnl s.floating_pnl;
  open_positions_count = p.open_positions_count;
  cooldown_until = p.cooldown_until;
  last_loss_at = p.last_loss_at;
}

abbrev pub first_state : Account → Option AccountSnapshotRecord → ℕ → PaperAccountState
first_state a none now = fresh_state a now
first_state a (some r) now = with_payload r.payload (from_columns a r now)

abbrev pub or_created :
    Account → ℕ → Option PaperAccountState → AccountTables → PaperAccountState × AccountTables
or_created a now (some s) t = (s, t)
or_created a now none t =
    let s = first_state a (latest_snapshot a.canonical_id t.snapshots) now in
    (s, record t { states = t.states ++ s ∷ [] })

unfoldable pub get_or_create_paper_state :
    Account → ℕ → AccountTables → PaperAccountState × AccountTables
unfolding find_state latest_snapshot
get_or_create_paper_state a now t = or_created a now (find_state a.canonical_id t.states) t
