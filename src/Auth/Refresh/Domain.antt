-- ===== src/Auth/Refresh/Domain.antt =====
-- The sessions as backend/app/api/auth.py finds them, a request and its answer.
use text.Mathlib.Text.{◌==◌ as str_eq}
use aigold_trader.Base.{ℕ, ◌*◌, String, Bool, Option, List, [], ◌∷◌, filterb}
use aigold_trader.Auth.RefreshSessions.{RefreshSession, has_hash}

-- Five seconds.
abbrev pub refresh_reuse_grace : ℕ
refresh_reuse_grace = 5 * 1000000

pub record RefreshSessionIdentity : Type 0 where
  pub id : String
  pub user_id : String
  pub family_id : String

pub record RefreshSessionState : Type 0 where
  pub id : String
  pub user_id : String
  pub family_id : String
  pub expires_at : ℕ
  pub consumed_at : Option ℕ
  pub revoked_at : Option ℕ

-- What `one_or_none` gives: it raises where there is more than one row.
pub data Lookup (A : Type 0) : Type 0 where
  missing : Lookup A
  single : A → Lookup A
  several : Lookup A

abbrev pub lookup : {A : Type 0} → (RefreshSession → A) → List RefreshSession → Lookup A
lookup f [] = missing
lookup f (r ∷ []) = single (f r)
lookup f (r ∷ s ∷ rows) = several

abbrev pub session_identity : RefreshSession → RefreshSessionIdentity
session_identity r = record { id = r.id; user_id = r.user_id; family_id = r.family_id }

abbrev pub session_state : RefreshSession → RefreshSessionState
session_state r = record {
  id = r.id;
  user_id = r.user_id;
  family_id = r.family_id;
  expires_at = r.expires_at;
  consumed_at = r.consumed_at;
  revoked_at = r.revoked_at;
}

abbrev pub has_id : String → RefreshSession → Bool
has_id id r = str_eq r.id id

unfoldable pub resolve_refresh_session_identity :
    String → List RefreshSession → Lookup RefreshSessionIdentity
resolve_refresh_session_identity hash rows = lookup session_identity (filterb (has_hash hash) rows)

unfoldable pub reread_refresh_session_state :
    String → List RefreshSession → Lookup RefreshSessionState
reread_refresh_session_state id rows = lookup session_state (filterb (has_id id) rows)

pub record User : Type 0 where
  pub id : String
  pub is_active : Bool

-- A request with what the code around the handlers finds: `subject` and `access_subject` are none
-- where the token is not valid, `transaction_at` is the clock `now()` of the database.
pub record AuthRequest : Type 0 where
  pub is_trusted : Bool
  pub raw_token : Option String
  pub subject : String → Option String
  pub access_subject : Option String
  pub hash_refresh_token : String → String
  pub attempt_started_at : ℕ
  pub transaction_at : ℕ
  pub locked_at : ℕ
  pub clock_timestamp : ℕ
  pub find_user : String → Option User
  pub new_id : String
  pub new_token : String
  pub issued_at : ℕ
  pub lifetime : ℕ

-- `auth_error` with whether the cookie is cleared, and `failed` for any other exception.
pub data Answer : Type 0 where
  forbidden : Answer
  auth_error : Bool → Answer
  failed : Answer
  rate_limited : Answer
  refreshed : String → Answer
  logged_in : String → Answer
  logged_out : Answer

abbrev pub Outcome : Type 0
Outcome = Answer × List RefreshSession
