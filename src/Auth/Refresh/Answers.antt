-- ===== src/Auth/Refresh/Answers.antt =====
-- The answers of `refresh` and `logout` of backend/app/api/auth.py that are not errors.
use text.Mathlib.Text.{◌==◌ as str_eq}
use aigold_trader.Base.{
  ℕ, ◌≡◌, ◌≢◌, ◌∙◌, ap, refl, sym, inl, inr, String, Bool, true, false, Option, none, some, List,
  if_true, if_false, Bool-cases,
}
use aigold_trader.Auth.RefreshSessions.{RefreshSession}
use aigold_trader.Auth.Refresh.{within_grace, by_consumption, reject_refresh_reuse}
use aigold_trader.Auth.Refresh.Domain.{
  AuthRequest, Answer, forbidden, auth_error, failed, rate_limited, refreshed, logged_in,
  logged_out, Outcome, Lookup, missing, single, several, RefreshSessionIdentity,
  RefreshSessionState, resolve_refresh_session_identity,
}
use aigold_trader.Auth.Refresh.Claims.{by_identity, by_subject, by_cookie, by_request}

abbrev pub is_error : Answer → Bool
is_error forbidden = true
is_error (auth_error _) = true
is_error failed = true
is_error rate_limited = true
is_error (refreshed _) = false
is_error (logged_in _) = false
is_error logged_out = false

module _ (a : Answer) (rows' : List RefreshSession) (success : is_error a ≡ false) where
  abbrev pub Gives : Outcome → Type 0
  Gives o = o ≡ (a, rows')

  errs :
      (b : Answer) (rows : List RefreshSession) {A : Type 0}
      → is_error b ≡ true
      → Gives (b, rows)
      → A
  errs b rows e h = absurd (clash (sym e ∙ ap (λ o. is_error o.0) h ∙ success))
    where
      clash : true ≢ false
      clash k = cc

  pub not_refused :
      (b : Bool) (rows : List RefreshSession) {A : Type 0} → Gives (auth_error b, rows) → A
  not_refused b rows h = errs (auth_error b) rows refl h

  pub broken : (rows : List RefreshSession) {A : Type 0} → Gives (failed, rows) → A
  broken rows h = errs failed rows refl h

  by_consumption-never :
      (q : AuthRequest) (family : String) (rows : List RefreshSession) (o : Option ℕ) {A : Type 0}
      → Gives (by_consumption q family rows o)
      → A
  by_consumption-never q family rows none h = not_refused true rows h
  by_consumption-never q family rows (some s) h =
      elim (Bool-cases (within_grace q.attempt_started_at s)) [
        | inl soon ↦ not_refused false rows (sym (if_true _ _ _ soon) ∙ h)
        | inr late ↦ not_refused true _ (sym (if_false _ _ _ late) ∙ h)
      ]

  pub rejects :
      (q : AuthRequest) (s : Option RefreshSessionState) (rows : List RefreshSession) {A : Type 0}
      → Gives (reject_refresh_reuse q s rows)
      → A
  unfolding reject_refresh_reuse
  rejects q none rows h = not_refused true rows h
  rejects q (some s) rows h = by_consumption-never q s.family_id rows s.consumed_at h

  module _ (q : AuthRequest) (next : String → String → RefreshSessionIdentity → Outcome)
      (seen rows : List RefreshSession) where
    by_identity-eq :
        (step : RefreshSessionIdentity → Outcome) (l : Lookup RefreshSessionIdentity)
        → Gives (by_identity step rows l)
        → (i : RefreshSessionIdentity) × Gives (step i)
    by_identity-eq step missing h = not_refused true rows h
    by_identity-eq step several h = broken rows h
    by_identity-eq step (single i) h = (i, h)

    by_subject-eq :
        (token : String) (claims : Option String)
        → Gives (by_subject q next seen rows token claims)
        → (subject : String) × (claims ≡ some subject)
          × ((i : RefreshSessionIdentity) × Gives (next subject (q.hash_refresh_token token) i))
    by_subject-eq token none h = not_refused true rows h
    by_subject-eq token (some subject) h =
        let hash = q.hash_refresh_token token in
        (
          subject,
          refl,
          by_identity-eq (next subject hash) (resolve_refresh_session_identity hash seen) h,
        )

    by_cookie-eq :
        (cookie : Option String)
        → Gives (by_cookie q next seen rows cookie)
        → (token subject : String) × (cookie ≡ some token)
          × (q.subject token ≡ some subject)
          × ((i : RefreshSessionIdentity) × Gives (next subject (q.hash_refresh_token token) i))
    by_cookie-eq none h = not_refused false rows h
    by_cookie-eq (some token) h = elim (Bool-cases (str_eq token "")) [
      | inl blank ↦ not_refused false rows (sym (if_true _ _ _ blank) ∙ h)
      | inr filled ↦
          let (subject, claims, rest) =
            by_subject-eq token (q.subject token) (sym (if_false _ _ _ filled) ∙ h) in
          (token, subject, refl, claims, rest)
    ]

    -- An answer that is no error is that of the handler, for the claims of the token in the cookie.
    pub by_request-eq :
        Gives (by_request q next seen rows)
        → (token subject : String) × (q.raw_token ≡ some token)
          × (q.subject token ≡ some subject)
          × ((i : RefreshSessionIdentity) × Gives (next subject (q.hash_refresh_token token) i))
    by_request-eq h = elim (Bool-cases q.is_trusted) [
      | inl trusted ↦ by_cookie-eq q.raw_token (sym (if_true _ _ _ trusted) ∙ h)
      | inr foreign ↦ errs forbidden rows refl (sym (if_false _ _ _ foreign) ∙ h)
    ]
