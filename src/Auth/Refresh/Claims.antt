-- ===== src/Auth/Refresh/Claims.antt =====
-- How `refresh` and `logout` of backend/app/api/auth.py come to the session of a request.
use text.Mathlib.Text.{◌==◌ as str_eq}
use aigold_trader.Base.{String, true, false, Option, none, some, List, if◌then◌else◌}
use aigold_trader.Auth.RefreshSessions.{RefreshSession}
use aigold_trader.Auth.Refresh.Domain.{
  RefreshSessionIdentity, Lookup, missing, single, several, resolve_refresh_session_identity,
  AuthRequest, forbidden, auth_error, failed, Outcome,
}

-- What `refresh` and `logout` begin with: the origin, the cookie, the claims and the lookup of the
-- session by the hash of the token.
abbrev pub by_identity :
    (RefreshSessionIdentity → Outcome)
    → List RefreshSession
    → Lookup RefreshSessionIdentity
    → Outcome
by_identity next rows missing = (auth_error true, rows)
by_identity next rows (single i) = next i
by_identity next rows several = (failed, rows)

abbrev pub by_subject :
    AuthRequest
    → (String → String → RefreshSessionIdentity → Outcome)
    → List RefreshSession
    → List RefreshSession
    → String
    → Option String
    → Outcome
by_subject q next seen rows token none = (auth_error true, rows)
by_subject q next seen rows token (some subject) =
    let hash = q.hash_refresh_token token in
    by_identity (next subject hash) rows (resolve_refresh_session_identity hash seen)

abbrev pub by_cookie :
    AuthRequest
    → (String → String → RefreshSessionIdentity → Outcome)
    → List RefreshSession
    → List RefreshSession
    → Option String
    → Outcome
by_cookie q next seen rows none = (auth_error false, rows)
by_cookie q next seen rows (some token) =
    if str_eq token ""
    then (auth_error false, rows)
    else by_subject q next seen rows token (q.subject token)

abbrev pub by_request :
    AuthRequest
    → (String → String → RefreshSessionIdentity → Outcome)
    → List RefreshSession
    → List RefreshSession
    → Outcome
by_request q next seen rows =
    if q.is_trusted then by_cookie q next seen rows q.raw_token else (forbidden, rows)
