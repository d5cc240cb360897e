-- ===== src/Auth/Examples.antt =====
-- Refresh tokens at concrete rows.
use text.Mathlib.Text.{◌==◌ as str_eq}
use aigold_trader.Base.{
  ◌≡◌, refl, String, true, false, none, some, List, [], ◌∷◌, arith, filterb, if◌then◌else◌,
}
use aigold_trader.Auth.RefreshSessions.{
  RefreshSession, ConsumedRefreshSession, nothing, consumed, of_user, in_family, is_selected,
  update_active, consume_refresh_session, revoke_active, revoke_active_user_sessions,
}
use aigold_trader.Auth.Refresh.{reject_refresh_reuse, refresh, logout, login}
use aigold_trader.Auth.Refresh.Domain.{
  AuthRequest, auth_error, refreshed, logged_in, logged_out, resolve_refresh_session_identity,
  reread_refresh_session_state,
}
use aigold_trader.Auth.Refresh.Replay.{replay_ends_family}
use aigold_trader.Auth.Refresh.Logout.{logout_ends_sessions}
use aigold_trader.Auth.Refresh.Rotation.{IsRotation, refresh_rotates}

abbrev first : RefreshSession
first = record {
  id = "s1";
  user_id = "alice";
  family_id = "f1";
  refresh_token_hash = "h1";
  expires_at = 1000;
  consumed_at = none;
  revoked_at = none;
}

abbrev second : RefreshSession
second = record first { id = "s2"; user_id = "bob"; family_id = "f2"; refresh_token_hash = "h2" }

abbrev rows : List RefreshSession
rows = first ∷ second ∷ []

abbrev taken : ConsumedRefreshSession
taken = record { consumed_id = "s1"; consumed_user = "alice"; consumed_family = "f1" }

abbrev rows_after : List RefreshSession
rows_after = record first { consumed_at = some 10 } ∷ second ∷ []

first_use : consume_refresh_session "h1" 10 10 rows ≡ (consumed taken, rows_after)
unfolding consume_refresh_session update_active
first_use = refl

abbrev request : AuthRequest
request = record {
  is_trusted = true;
  raw_token = some "t1";
  subject = λ token. some "alice";
  access_subject = none;
  hash_refresh_token = λ token. if str_eq token "t1" then "h1" else "h3";
  attempt_started_at = 10;
  transaction_at = 10;
  locked_at = 10;
  clock_timestamp = 10;
  find_user = λ user. some (record { id = user; is_active = true });
  new_id = "s3";
  new_token = "t3";
  issued_at = 10;
  lifetime = 9000000;
}

abbrev third : RefreshSession
third = record first { id = "s3"; refresh_token_hash = "h3"; expires_at = 9000010 }

abbrev rotated : List RefreshSession
rotated = record first { consumed_at = some 10 } ∷ second ∷ third ∷ []

rotates : refresh request rows rows ≡ (refreshed "t3", rotated)
unfolding refresh resolve_refresh_session_identity reread_refresh_session_state
    consume_refresh_session update_active
rotates = refl

refresh_rotates_example :
    (token subject : String) × (request.raw_token ≡ some token)
    × (request.subject token ≡ some subject)
    × IsRotation request (request.hash_refresh_token token) subject rows "t3" rotated
    × (consume_refresh_session (request.hash_refresh_token token) 20 20 rotated
        ≡ (nothing, rotated))
refresh_rotates_example = refresh_rotates request rows rows rotated "t3" 20 20 (omega arith) rotates

-- The same token six seconds later.
abbrev replay : AuthRequest
replay = record request { attempt_started_at = 6000000; transaction_at = 6000000 }

replay_ends_family_example :
    ((refresh replay rotated rotated).0 ≡ auth_error true)
    × (filterb (is_selected (in_family "f1") 6000000) (refresh replay rotated rotated).1 ≡ [])
replay_ends_family_example =
    replay_ends_family replay rotated rotated "t1" "alice" (record first { consumed_at = some 10 })
      (record first { consumed_at = some 10 }) 10 6000000 refl refl refl refl refl refl refl
      (omega arith) (omega arith)

-- A repetition within the grace period leaves the family alone, and keeps the cookie.
repeated : refresh request rotated rotated ≡ (auth_error false, rotated)
unfolding refresh resolve_refresh_session_identity reread_refresh_session_state reject_refresh_reuse
    consume_refresh_session update_active
repeated = refl

-- A logout ends the session of the user.
logs_out :
    logout request rows rows ≡ (logged_out, record first { revoked_at = some 10 } ∷ second ∷ [])
unfolding logout resolve_refresh_session_identity reread_refresh_session_state
    revoke_active_user_sessions revoke_active update_active
logs_out = refl

logout_ends_sessions_example :
    (token subject : String) × (request.raw_token ≡ some token)
    × (request.subject token ≡ some subject)
    × (filterb
          (is_selected (of_user subject) 20)
          (record first { revoked_at = some 10 } ∷ second ∷ [])
        ≡ [])
logout_ends_sessions_example =
    logout_ends_sessions request rows rows (record first { revoked_at = some 10 } ∷ second ∷ []) 20
      (omega arith) logs_out

-- A login of another user adds a family to the sessions.
logs_in :
    login request "f3" false (some (record { id = "bob"; is_active = true })) rows
    ≡ (logged_in "t3", first ∷ second ∷ record third { user_id = "bob"; family_id = "f3" } ∷ [])
unfolding login
logs_in = refl
