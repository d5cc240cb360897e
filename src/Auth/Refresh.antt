-- ===== src/Auth/Refresh.antt =====
-- backend/app/api/auth.py: `login`, `refresh` and `logout`, with `_reject_refresh_reuse` and
-- `_revoke_compromised_family`, and the two lookups of services/refresh_sessions.py. A handler gives
-- its answer and the rows that are committed: a rollback leaves the rows that the lock was taken
-- over. The check of the origin, the claims of a token, its hash and the clocks are arguments, and so
-- are the rows that the lookup before the lock sees, since other transactions may commit until then.
-- What others commit under the lock, the audit and the texts are left out.
pub mod Domain
pub mod Claims
pub mod Answers
pub mod Replay
pub mod Rotation
pub mod Logout
use text.Mathlib.Text.{◌==◌ as str_eq}
use aigold_trader.Base.{
  ℕ, ◌+◌, String, Bool, true, false, ◌||◌, not, Option, none, some, is_some, List, [], ◌∷◌, ◌++◌,
  any, leb, if◌then◌else◌,
}
use aigold_trader.Auth.RefreshSessions.{
  RefreshSession, ConsumedRefreshSession, has_hash, Consumed, nothing, consumed, multiple_results,
  consume_refresh_session, revoke_active_family, revoke_active_user_sessions,
}
use aigold_trader.Auth.Refresh.Claims.{by_request}
use aigold_trader.Auth.Refresh.Domain.{
  refresh_reuse_grace, RefreshSessionIdentity, RefreshSessionState, Lookup, missing, single,
  several, has_id, resolve_refresh_session_identity, reread_refresh_session_state, User,
  AuthRequest, Answer, forbidden, auth_error, failed, rate_limited, refreshed, logged_in,
  logged_out, Outcome,
}

abbrev pub within_grace : ℕ → ℕ → Bool
within_grace attempt consumed_at = leb attempt (consumed_at + refresh_reuse_grace)

abbrev pub by_consumption : AuthRequest → String → List RefreshSession → Option ℕ → Outcome
by_consumption q family rows none = (auth_error true, rows)
by_consumption q family rows (some t) =
    if within_grace q.attempt_started_at t
    then (auth_error false, rows)
    else (auth_error true, (revoke_active_family family q.transaction_at rows).1)

-- `_reject_refresh_reuse`
unfoldable pub reject_refresh_reuse :
    AuthRequest → Option RefreshSessionState → List RefreshSession → Outcome
reject_refresh_reuse q none rows = (auth_error true, rows)
reject_refresh_reuse q (some s) rows = by_consumption q s.family_id rows s.consumed_at

-- `_revoke_compromised_family`, and the error that follows it.
abbrev pub revoke_compromised_family : AuthRequest → String → List RefreshSession → Outcome
revoke_compromised_family q family rows =
    (auth_error true, (revoke_active_family family q.transaction_at rows).1)

-- The row of a token that is issued to a user.
abbrev pub issued_session : AuthRequest → User → String → RefreshSession
issued_session q user family = record {
  id = q.new_id;
  user_id = user.id;
  family_id = family;
  refresh_token_hash = q.hash_refresh_token q.new_token;
  expires_at = q.issued_at + q.lifetime;
  consumed_at = none;
  revoked_at = none;
}

abbrev pub violates : RefreshSession → RefreshSession → Bool
violates r s = has_id r.id s || has_hash r.refresh_token_hash s

-- The id and the hash are unique; a violation raises, and the transaction is rolled back.
abbrev pub insert_session :
    Answer → RefreshSession → List RefreshSession → List RefreshSession → Outcome
insert_session answer r before after =
    if any (violates r) after then (failed, before) else (answer, after ++ r ∷ [])

abbrev pub issue :
    AuthRequest → RefreshSession → List RefreshSession → List RefreshSession → Outcome
issue q r before after = insert_session (refreshed q.new_token) r before after

abbrev pub for_user :
    AuthRequest
    → ConsumedRefreshSession
    → List RefreshSession
    → List RefreshSession
    → Option User
    → Outcome
for_user q c before after none = revoke_compromised_family q c.consumed_family after
for_user q c before after (some user) =
    if user.is_active
    then issue q (issued_session q user c.consumed_family) before after
    else revoke_compromised_family q c.consumed_family after

-- What follows a consumption that found no row: the state is read again.
abbrev pub unconsumed : AuthRequest → Lookup RefreshSessionState → List RefreshSession → Outcome
unconsumed q missing rows = reject_refresh_reuse q none rows
unconsumed q (single s) rows = reject_refresh_reuse q (some s) rows
unconsumed q several rows = (failed, rows)

abbrev pub after_consumption :
    AuthRequest → String → String → List RefreshSession → Consumed → List RefreshSession → Outcome
after_consumption q subject id before nothing after =
    unconsumed q (reread_refresh_session_state id after) after
after_consumption q subject id before (consumed c) after =
    if str_eq subject c.consumed_user
    then for_user q c before after (q.find_user c.consumed_user)
    else revoke_compromised_family q c.consumed_family after
after_consumption q subject id before multiple_results after = (failed, before)

abbrev pub is_over : AuthRequest → RefreshSessionState → Bool
is_over q s = is_some s.revoked_at || leb s.expires_at q.locked_at

-- `refresh` under the lock, for the state that was read again.
abbrev pub refresh_locked :
    AuthRequest → String → String → List RefreshSession → Lookup RefreshSessionState → Outcome
refresh_locked q subject hash rows missing = (auth_error true, rows)
refresh_locked q subject hash rows several = (failed, rows)
refresh_locked q subject hash rows (single s) =
    let (found, after) = consume_refresh_session hash q.transaction_at q.clock_timestamp rows in
    if is_some s.consumed_at
    then reject_refresh_reuse q (some s) rows
    else if is_over q s
    then (auth_error true, rows)
    else after_consumption q subject s.id rows found after

abbrev pub refresh_session :
    AuthRequest → List RefreshSession → String → String → RefreshSessionIdentity → Outcome
refresh_session q rows subject hash i =
    refresh_locked q subject hash rows (reread_refresh_session_state i.id rows)

-- `seen` are the rows of the lookup, `rows` those that the lock is taken over.
unfoldable pub refresh : AuthRequest → List RefreshSession → List RefreshSession → Outcome
unfolding resolve_refresh_session_identity reread_refresh_session_state reject_refresh_reuse
refresh q seen rows = by_request q (refresh_session q rows) seen rows

abbrev pub is_late : AuthRequest → Option ℕ → Bool
is_late q none = false
is_late q (some t) = not (within_grace q.attempt_started_at t)

abbrev pub logout_locked :
    AuthRequest → String → List RefreshSession → Lookup RefreshSessionState → Outcome
logout_locked q subject rows missing = (auth_error true, rows)
logout_locked q subject rows several = (failed, rows)
logout_locked q subject rows (single s) =
    if is_over q s
    then (auth_error true, rows)
    else if not (str_eq subject s.user_id)
    then revoke_compromised_family q s.family_id rows
    else if is_late q s.consumed_at
    then (auth_error true, rows)
    else (
      logged_out,
      (revoke_active_user_sessions s.user_id q.transaction_at q.clock_timestamp rows).1,
    )

abbrev pub is_other_user : Option String → String → Bool
is_other_user none user = false
is_other_user (some subject) user = not (str_eq subject user)

abbrev pub logout_session :
    AuthRequest → List RefreshSession → String → String → RefreshSessionIdentity → Outcome
logout_session q rows subject hash i =
    if is_other_user q.access_subject i.user_id
    then (auth_error false, rows)
    else logout_locked q subject rows (reread_refresh_session_state i.id rows)

unfoldable pub logout : AuthRequest → List RefreshSession → List RefreshSession → Outcome
unfolding resolve_refresh_session_identity reread_refresh_session_state
logout q seen rows = by_request q (logout_session q rows) seen rows

-- `login`, for the user that `authenticate` finds and a new family.
abbrev pub login_user : AuthRequest → String → List RefreshSession → Option User → Outcome
login_user q family rows none = (auth_error false, rows)
login_user q family rows (some user) =
    insert_session (logged_in q.new_token) (issued_session q user family) rows rows

unfoldable pub login : AuthRequest → String → Bool → Option User → List RefreshSession → Outcome
login q family is_limited found rows =
    let outcome = login_user q family rows found in
    if not q.is_trusted
    then (forbidden, rows)
    else if is_limited
    then (rate_limited, rows)
    else outcome
