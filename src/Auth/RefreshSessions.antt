-- ===== src/Auth/RefreshSessions.antt =====
-- services/refresh_sessions.py: the rows of `refresh_sessions` and the set-based updates on them.
-- One update is one step; its clock is an argument, and the ids are texts.
pub mod Once
use text.Mathlib.Text.{◌==◌ as str_eq}
use aigold_trader.Base.{
  ℕ, String, Bool, ◌&&◌, not, Option, some, is_some, List, [], ◌∷◌, ltb, filterb, map, length,
  if◌then◌else◌,
}

pub record RefreshSession : Type 0 where
  pub id : String
  pub user_id : String
  pub family_id : String
  pub refresh_token_hash : String
  pub expires_at : ℕ
  pub consumed_at : Option ℕ
  pub revoked_at : Option ℕ

pub record ConsumedRefreshSession : Type 0 where
  pub consumed_id : String
  pub consumed_user : String
  pub consumed_family : String

-- The condition that the three updates share.
abbrev pub is_active : ℕ → RefreshSession → Bool
is_active now r = not (is_some r.consumed_at) && not (is_some r.revoked_at) && ltb now r.expires_at

abbrev pub has_hash : String → RefreshSession → Bool
has_hash hash r = str_eq r.refresh_token_hash hash

abbrev pub in_family : String → RefreshSession → Bool
in_family family r = str_eq r.family_id family

abbrev pub of_user : String → RefreshSession → Bool
of_user user r = str_eq r.user_id user

abbrev pub is_selected : (RefreshSession → Bool) → ℕ → RefreshSession → Bool
is_selected where_ now r = where_ r && is_active now r

-- An update of the selected rows that returns them as they were.
unfoldable pub update_active :
    (RefreshSession → Bool)
    → (RefreshSession → RefreshSession)
    → ℕ
    → List RefreshSession
    → List RefreshSession × List RefreshSession
update_active where_ values now rows = (
  filterb (is_selected where_ now) rows,
  map (λ r. if is_selected where_ now r then values r else r) rows,
)

-- `one_or_none` raises where there is more than one row; the transaction then leaves the table.
pub data Consumed : Type 0 where
  nothing : Consumed
  consumed : ConsumedRefreshSession → Consumed
  multiple_results : Consumed

abbrev pub one_or_none : List RefreshSession → Consumed
one_or_none [] = nothing
one_or_none (r ∷ []) =
    consumed
      (record { consumed_id = r.id; consumed_user = r.user_id; consumed_family = r.family_id })
one_or_none (r ∷ s ∷ rows) = multiple_results

abbrev pub committed : Consumed → List RefreshSession → List RefreshSession → List RefreshSession
committed multiple_results before after = before
committed _ before after = after

-- `consume_refresh_session`: `now` is the clock of the test, `at` the one of the new value.
unfoldable pub consume_refresh_session :
    String → ℕ → ℕ → List RefreshSession → Consumed × List RefreshSession
consume_refresh_session hash now at rows =
    let (found, after) =
      update_active (has_hash hash) (λ r. record r { consumed_at = some at }) now rows in
    (one_or_none found, committed (one_or_none found) rows after)

-- The revocations return how many rows they changed.
unfoldable pub revoke_active :
    (RefreshSession → Bool) → ℕ → ℕ → List RefreshSession → ℕ × List RefreshSession
revoke_active where_ now at rows =
    let (found, after) = update_active where_ (λ r. record r { revoked_at = some at }) now rows in
    (length found, after)

unfoldable pub revoke_active_family : String → ℕ → List RefreshSession → ℕ × List RefreshSession
revoke_active_family family now rows = revoke_active (in_family family) now now rows

unfoldable pub revoke_active_user_sessions :
    String → ℕ → ℕ → List RefreshSession → ℕ × List RefreshSession
revoke_active_user_sessions user now at rows = revoke_active (of_user user) now at rows
