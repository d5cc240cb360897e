-- ===== src/Auth/Refresh/Replay.antt =====
-- The reuse of a refresh token in `refresh` of backend/app/api/auth.py.
use text.Mathlib.Text.{◌==◌ as str_eq}
use aigold_trader.Base.{
  ℕ, ◌+◌, ◌≤◌, ◌<◌, ◌≡◌, ◌∙◌, ap, refl, String, true, false, some, List, [], ◌∷◌, filterb, arith,
}
use aigold_trader.Auth.RefreshSessions.{
  RefreshSession, has_hash, in_family, is_selected, revoke_active_family,
}
use aigold_trader.Auth.RefreshSessions.Once.{revoke_ends}
use aigold_trader.Auth.Refresh.{
  within_grace, reject_refresh_reuse, refresh_locked, refresh_session, refresh,
}
use aigold_trader.Auth.Refresh.Domain.{
  AuthRequest, auth_error, Outcome, session_identity, has_id, RefreshSessionIdentity,
  refresh_reuse_grace, resolve_refresh_session_identity, reread_refresh_session_state,
}
use aigold_trader.Auth.Refresh.Claims.{by_request}

late : (attempt t : ℕ) → t + refresh_reuse_grace < attempt → within_grace attempt t ≡ false
late attempt t h = ground arith

-- A request from a trusted origin whose token is valid and is that of one session.
module _ (q : AuthRequest) (seen rows : List RefreshSession) (token subject : String)
    (s : RefreshSession) where
  reaches :
      (next : String → String → RefreshSessionIdentity → Outcome)
      → q.is_trusted ≡ true
      → q.raw_token ≡ some token
      → str_eq token "" ≡ false
      → q.subject token ≡ some subject
      → filterb (has_hash (q.hash_refresh_token token)) seen ≡ s ∷ []
      → by_request q next seen rows ≡ next subject (q.hash_refresh_token token) (session_identity s)
  unfolding resolve_refresh_session_identity
  reaches next trusted cookie nonempty claims found =
      rw (trusted, cookie, nonempty, claims, found) refl

-- The session was consumed longer ago than the grace period.
rejected :
    (q : AuthRequest) (rows : List RefreshSession) (subject hash id : String) (r : RefreshSession)
    (t : ℕ)
    → filterb (has_id id) rows ≡ r ∷ []
    → r.consumed_at ≡ some t
    → t + refresh_reuse_grace < q.attempt_started_at
    → refresh_locked q subject hash rows (reread_refresh_session_state id rows)
      ≡ (auth_error true, (revoke_active_family r.family_id q.transaction_at rows).1)
unfolding reread_refresh_session_state reject_refresh_reuse
rejected q rows subject hash id r t held taken old =
    rw (held, taken, late q.attempt_started_at t old) refl

-- A replay of a consumed token ends its family: `refresh` with the token of a session that was
-- consumed longer ago than the grace period answers with an error that clears the cookie, and from
-- then on no session of the family is active, neither the one that took its place nor any other, so
-- that none of their tokens can be consumed. The origin is trusted, the token is valid, and its
-- hash and the id of its session are each those of one row.
pub replay_ends_family :
    (q : AuthRequest) (seen rows : List RefreshSession) (token subject : String)
    (s r : RefreshSession) (t now : ℕ)
    → q.is_trusted ≡ true
    → q.raw_token ≡ some token
    → str_eq token "" ≡ false
    → q.subject token ≡ some subject
    → filterb (has_hash (q.hash_refresh_token token)) seen ≡ s ∷ []
    → filterb (has_id s.id) rows ≡ r ∷ []
    → r.consumed_at ≡ some t
    → t + refresh_reuse_grace < q.attempt_started_at
    → q.transaction_at ≤ now
    → ((refresh q seen rows).0 ≡ auth_error true)
      × (filterb (is_selected (in_family r.family_id) now) (refresh q seen rows).1 ≡ [])
unfolding refresh revoke_active_family
replay_ends_family q seen rows token subject s r t now trusted cookie nonempty claims found held
      taken old later =
    let ends =
      (revoke_ends (in_family r.family_id) q.transaction_at q.transaction_at now rows later).0 in
    let outcome : refresh q seen rows
        ≡ (auth_error true, (revoke_active_family r.family_id q.transaction_at rows).1) =
      reaches q seen rows token subject s (refresh_session q rows) trusted cookie nonempty claims
        found
      ∙ rejected q rows subject (q.hash_refresh_token token) s.id r t held taken old in
    (ap (λ o. o.0) outcome, rw (outcome) ends)
