-- ===== src/Risk/KillSwitch.antt =====
-- risk/kill_switch.py: the records of the kill switch and the operations on them. The table is the
-- list of its rows in order of insertion; an operation is one step, as its lock makes it. The clock
-- and the id that an operation draws are its arguments, and the reasons are left out.
pub mod Latest
pub mod Triggers
mod Examples
use aigold_trader.Base.{
  ℕ, ◌+◌, String, Bool, true, false, ◌&&◌, ◌||◌, not, Option, none, some, List, [], ◌∷◌, ◌++◌, ltb,
  leb, if◌then◌else◌,
}

pub data KillSwitchStatus : Type 0 where
  active inactive unknown : KillSwitchStatus

pub data KillSwitchTrigger : Type 0 where
  manual automatic_daily_loss automatic_drawdown automatic_data_health : KillSwitchTrigger
  automatic_system_health : KillSwitchTrigger

-- A row of the table, and the state that is read from it.
pub record KillSwitchState : Type 0 where
  pub id : String
  pub state : KillSwitchStatus
  pub trigger_type : KillSwitchTrigger
  pub activated_at : ℕ
  pub activated_by : String
  pub cleared_at : Option ℕ
  pub cleared_by : Option String
  pub policy_version : String

-- `coalesce(cleared_at, activated_at)`
abbrev pub effective_at : KillSwitchState → ℕ
effective_at r = elim r.cleared_at [ none ↦ r.activated_at | some t ↦ t ]

-- The order of the query; rows that it does not tell apart keep theirs.
abbrev pub is_newer : KillSwitchState → KillSwitchState → Bool
is_newer r s =
    ltb (effective_at s) (effective_at r)
    || leb (effective_at s) (effective_at r) && ltb s.activated_at r.activated_at

abbrev pub newest : KillSwitchState → Option KillSwitchState → KillSwitchState
newest r none = r
newest r (some s) = if is_newer s r then s else r

-- The first row in the order of the query.
unfoldable pub latest : List KillSwitchState → Option KillSwitchState
latest [] = none
latest (r ∷ rs) = some (newest r (latest rs))

abbrev pub unknown_state : String → ℕ → KillSwitchState
unknown_state version now = record {
  id = "ks_unknown";
  state = unknown;
  trigger_type = automatic_system_health;
  activated_at = now;
  activated_by = "system";
  cleared_at = none;
  cleared_by = none;
  policy_version = version;
}

abbrev pub state_of : String → ℕ → Option KillSwitchState → KillSwitchState
state_of version now none = unknown_state version now
state_of version now (some r) = r

-- No row at all is the state UNKNOWN.
unfoldable pub get_state : String → ℕ → List KillSwitchState → KillSwitchState
get_state version now rows = state_of version now (latest rows)

-- `is_active` of `check`.
abbrev pub is_blocking : KillSwitchStatus → Bool
is_blocking active = true
is_blocking unknown = true
is_blocking inactive = false

unfoldable pub check : String → ℕ → List KillSwitchState → Bool × KillSwitchState
check version now rows = let state = get_state version now rows in (is_blocking state.state, state)

abbrev pub is_unknown : KillSwitchStatus → Bool
is_unknown unknown = true
is_unknown _ = false

abbrev pub after_clearing : Option ℕ → ℕ → ℕ
after_clearing none now = now
after_clearing (some t) now = if leb now t then t + 1 else now

-- The clock, moved behind the times of the current state.
abbrev pub effective_now : KillSwitchState → ℕ → ℕ
effective_now current now = after_clearing current.cleared_at (
    if not (is_unknown current.state) && leb now current.activated_at
    then current.activated_at + 1
    else now)

abbrev pub activation : String → KillSwitchTrigger → ℕ → String → String → KillSwitchState
activation id trigger at by version = record {
  id = id;
  state = active;
  trigger_type = trigger;
  activated_at = at;
  activated_by = by;
  cleared_at = none;
  cleared_by = none;
  policy_version = version;
}

abbrev pub activate_in :
    KillSwitchStatus
    → KillSwitchState
    → KillSwitchState
    → List KillSwitchState
    → KillSwitchState × List KillSwitchState
activate_in active current row rows = (current, rows)
activate_in _ current row rows = (row, rows ++ row ∷ [])

-- An active switch is left as it is.
unfoldable pub activate :
    String
    → ℕ
    → String
    → KillSwitchTrigger
    → String
    → String
    → List KillSwitchState
    → KillSwitchState × List KillSwitchState
activate default now id trigger by version rows =
    let current = get_state default now rows in
    activate_in current.state current (activation id trigger (effective_now current now) by version)
      rows

-- The row of a clearing has its own time as `activated_at`; the state returned keeps the old one.
abbrev pub clearing : KillSwitchState → String → ℕ → String → ℕ → KillSwitchState
clearing current id at by activated = record {
  id = id;
  state = inactive;
  trigger_type = current.trigger_type;
  activated_at = activated;
  activated_by = current.activated_by;
  cleared_at = some at;
  cleared_by = some by;
  policy_version = current.policy_version;
}

abbrev pub clear_in :
    KillSwitchStatus
    → KillSwitchState
    → String
    → ℕ
    → String
    → List KillSwitchState
    → KillSwitchState × List KillSwitchState
clear_in inactive current id at by rows = (current, rows)
clear_in _ current id at by rows =
    (clearing current id at by current.activated_at, rows ++ clearing current id at by at ∷ [])

unfoldable pub clear :
    String → ℕ → String → String → List KillSwitchState → KillSwitchState × List KillSwitchState
clear default now id by rows =
    let current = get_state default now rows in
    clear_in current.state current id (effective_now current now) by rows
