-- ===== src/Auth/Refresh/Logout.antt =====
-- What `logout` of backend/app/api/auth.py leaves.
use text.Mathlib.Text.{◌==◌ as str_eq}
use text.Mathlib.TextEquality.{eq_iff}
use aigold_trader.Base.{
  ℕ, ◌≤◌, ◌≡◌, ◌∙◌, ap, refl, sym, inl, inr, String, Bool, true, false, not, some, List, [],
  filterb, if◌then◌else◌, if_true, if_false, Bool-cases,
}
use aigold_trader.Auth.RefreshSessions.{
  RefreshSession, of_user, is_selected, revoke_active_user_sessions,
}
use aigold_trader.Auth.RefreshSessions.Once.{revoke_ends}
use aigold_trader.Auth.Refresh.Answers.{not_refused, broken, by_request-eq}
use aigold_trader.Auth.Refresh.{
  is_over, is_late, is_other_user, logout_locked, logout_session, logout,
}
use aigold_trader.Auth.Refresh.Domain.{
  AuthRequest, auth_error, logged_out, Outcome, Lookup, missing, single, several,
  RefreshSessionState, reread_refresh_session_state,
}

module _ (q : AuthRequest) (rows rows' : List RefreshSession) where
  abbrev LogsOut : Outcome → Type 0
  LogsOut o = o ≡ (logged_out, rows')

  denied : (b : Bool) (left : List RefreshSession) {A : Type 0} → LogsOut (auth_error b, left) → A
  denied b left h = not_refused logged_out rows' refl b left h

  abbrev revoked : String → List RefreshSession
  revoked user = (revoke_active_user_sessions user q.transaction_at q.clock_timestamp rows).1

  logout_locked-revoked :
      (subject : String) (l : Lookup RefreshSessionState)
      → LogsOut (logout_locked q subject rows l)
      → rows' ≡ revoked subject
  logout_locked-revoked subject missing h = denied true rows h
  logout_locked-revoked subject several h = broken logged_out rows' refl rows h
  logout_locked-revoked subject (single s) h = elim (Bool-cases (is_over q s)) [
    | inl over ↦ denied true rows (sym (if_true _ _ _ over) ∙ h)
    | inr live ↦
        let live_eq = sym (if_false _ _ _ live) ∙ h in
        elim (Bool-cases (not (str_eq subject s.user_id))) [
          | inl other ↦ denied true _ (sym (if_true _ _ _ other) ∙ live_eq)
          | inr own ↦
              let own_eq = sym (if_false _ _ _ own) ∙ live_eq in
              elim (Bool-cases (is_late q s.consumed_at)) [
                | inl late ↦ denied true rows (sym (if_true _ _ _ late) ∙ own_eq)
                | inr soon ↦
                    let same = (eq_iff subject s.user_id).0 (not_false _ own) in
                    sym (ap (λ o. o.1) (sym (if_false _ _ _ soon) ∙ own_eq)) ∙ ap revoked (sym same)
              ]
        ]
  ]
    where
      not_false : (b : Bool) → not b ≡ false → b ≡ true
      not_false true k = refl
      not_false false k = cc

  logout_session-revoked :
      (subject : String) (user : String) (l : Lookup RefreshSessionState)
      → LogsOut (
          if is_other_user q.access_subject user
          then (auth_error false, rows)
          else logout_locked q subject rows l)
      → rows' ≡ revoked subject
  logout_session-revoked subject user l h =
      elim (Bool-cases (is_other_user q.access_subject user)) [
        | inl other ↦ denied false rows (sym (if_true _ _ _ other) ∙ h)
        | inr own ↦ logout_locked-revoked subject l (sym (if_false _ _ _ own) ∙ h)
      ]

-- A logout that succeeds ends every session of its user: the request carries a token of the user
-- in its cookie, and from then on no session of the user is active, so that none of the user's
-- tokens can be consumed.
pub logout_ends_sessions :
    (q : AuthRequest) (seen rows rows' : List RefreshSession) (now : ℕ)
    → q.transaction_at ≤ now
    → logout q seen rows ≡ (logged_out, rows')
    → (token subject : String) × (q.raw_token ≡ some token)
      × (q.subject token ≡ some subject)
      × (filterb (is_selected (of_user subject) now) rows' ≡ [])
unfolding logout revoke_active_user_sessions
logout_ends_sessions q seen rows rows' now later h =
    let (token, subject, cookie, claims, (i, k)) =
      by_request-eq logged_out rows' refl q (logout_session q rows) seen rows h in
    let revokes =
      logout_session-revoked q rows rows' subject i.user_id (reread_refresh_session_state i.id rows)
        k in
    let ends =
      (revoke_ends (of_user subject) q.transaction_at q.clock_timestamp now rows later).0 in
    (
      token,
      subject,
      cookie,
      claims,
      ap (filterb (is_selected (of_user subject) now)) revokes ∙ ends,
    )
