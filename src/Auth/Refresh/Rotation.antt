-- ===== src/Auth/Refresh/Rotation.antt =====
-- What a refresh of backend/app/api/auth.py leaves where it gives a token.
use text.Mathlib.Text.{◌==◌ as str_eq}
use text.Mathlib.TextEquality.{eq_iff}
use aigold_trader.Base.{
  ℕ, ◌≤◌, ◌≡◌, ◌≢◌, ◌∙◌, ap, refl, sym, inl, inr, String, Bool, true, false, ◌&&◌, ◌||◌, Option,
  none, some, is_some, List, [], ◌∷◌, ◌++◌, any, filterb, if_true, if_false, Bool-cases, arith,
}
use aigold_trader.Auth.RefreshSessions.{
  RefreshSession, ConsumedRefreshSession, has_hash, is_selected, Consumed, nothing, consumed,
  multiple_results, consume_refresh_session,
}
use aigold_trader.Auth.RefreshSessions.Once.{nothing_found, consumed-none, consumed-has_hash}
use aigold_trader.Auth.Refresh.Answers.{not_refused, broken, rejects, by_request-eq}
use aigold_trader.Auth.Refresh.{
  issued_session, violates, issue, for_user, unconsumed, after_consumption, is_over, refresh_locked,
  refresh_session, refresh,
}
use aigold_trader.Auth.Refresh.Domain.{
  has_id, AuthRequest, Answer, refreshed, Outcome, Lookup, missing, single, several,
  RefreshSessionState, User, reread_refresh_session_state,
}

-- What was consumed of a session, and what took its place.
pub record IsRotation (q : AuthRequest) (hash subject : String) (rows : List RefreshSession)
    (t : String) (rows' : List RefreshSession) : Type 0 where
  pub session : ConsumedRefreshSession
  pub left : List RefreshSession
  pub user : User
  pub is_consumed :
      consume_refresh_session hash q.transaction_at q.clock_timestamp rows
      ≡ (consumed session, left)
  pub is_subject : str_eq subject session.consumed_user ≡ true
  pub is_known : q.find_user session.consumed_user ≡ some user
  pub is_allowed : user.is_active ≡ true
  pub is_fresh : any (violates (issued_session q user session.consumed_family)) left ≡ false
  pub is_given : t ≡ q.new_token
  pub is_rotated : rows' ≡ left ++ issued_session q user session.consumed_family ∷ []

abbrev token_of : Answer → String → String
token_of (refreshed t) other = t
token_of _ other = other

module _ (t : String) (rows' : List RefreshSession) where
  abbrev Given : Outcome → Type 0
  Given o = o ≡ (refreshed t, rows')

  unconsumed-never :
      (q : AuthRequest) (l : Lookup RefreshSessionState) (rows : List RefreshSession) {A : Type 0}
      → Given (unconsumed q l rows)
      → A
  unconsumed-never q missing rows h = rejects (refreshed t) rows' refl q none rows h
  unconsumed-never q (single s) rows h = rejects (refreshed t) rows' refl q (some s) rows h
  unconsumed-never q several rows h = broken (refreshed t) rows' refl rows h

  issue-eq :
      (q : AuthRequest) (r : RefreshSession) (before after : List RefreshSession)
      → Given (issue q r before after)
      → (any (violates r) after ≡ false) × (t ≡ q.new_token) × (rows' ≡ after ++ r ∷ [])
  issue-eq q r before after h = elim (Bool-cases (any (violates r) after)) [
    | inl on ↦ broken (refreshed t) rows' refl before (sym (if_true _ _ _ on) ∙ h)
    | inr off ↦
        let e : (refreshed q.new_token, after ++ r ∷ []) ≡ (refreshed t, rows') =
          sym (if_false _ _ _ off) ∙ h in
        (off, sym (ap (λ o. token_of o.0 t) e), sym (ap (λ o. o.1) e))
  ]

  abbrev Rotates : AuthRequest → String → String → List RefreshSession → Type 0
  Rotates q hash subject rows = IsRotation q hash subject rows t rows'

  module _ (q : AuthRequest) (hash subject : String) (rows : List RefreshSession) where
    for_user-Rotates :
        (c : ConsumedRefreshSession) (after : List RefreshSession) (found : Option User)
        → consume_refresh_session hash q.transaction_at q.clock_timestamp rows ≡ (consumed c, after)
        → str_eq subject c.consumed_user ≡ true
        → q.find_user c.consumed_user ≡ found
        → Given (for_user q c rows after found)
        → Rotates q hash subject rows
    for_user-Rotates c after none e same known h = not_refused (refreshed t) rows' refl true _ h
    for_user-Rotates c after (some user) e same known h = elim (Bool-cases user.is_active) [
      | inl on ↦
          let (fresh, given, rotated) =
            issue-eq q (issued_session q user c.consumed_family) rows after
              (sym (if_true _ _ _ on) ∙ h) in
          record {
            session = c;
            left = after;
            user = user;
            is_consumed = e;
            is_subject = same;
            is_known = known;
            is_allowed = on;
            is_fresh = fresh;
            is_given = given;
            is_rotated = rotated;
          }
      | inr off ↦ not_refused (refreshed t) rows' refl true _ (sym (if_false _ _ _ off) ∙ h)
    ]

    after_consumption-Rotates :
        (id : String) (found : Consumed) (after : List RefreshSession)
        → consume_refresh_session hash q.transaction_at q.clock_timestamp rows ≡ (found, after)
        → Given (after_consumption q subject id rows found after)
        → Rotates q hash subject rows
    after_consumption-Rotates id nothing after e h = unconsumed-never q _ after h
    after_consumption-Rotates id multiple_results after e h = broken (refreshed t) rows' refl rows h
    after_consumption-Rotates id (consumed c) after e h =
        elim (Bool-cases (str_eq subject c.consumed_user)) [
          | inl same ↦
              for_user-Rotates c after (q.find_user c.consumed_user) e same refl
                (sym (if_true _ _ _ same) ∙ h)
          | inr other ↦ not_refused (refreshed t) rows' refl true _ (sym (if_false _ _ _ other) ∙ h)
        ]

    refresh_locked-Rotates :
        (l : Lookup RefreshSessionState)
        → Given (refresh_locked q subject hash rows l)
        → Rotates q hash subject rows
    refresh_locked-Rotates missing h = not_refused (refreshed t) rows' refl true rows h
    refresh_locked-Rotates several h = broken (refreshed t) rows' refl rows h
    refresh_locked-Rotates (single s) h = elim (Bool-cases (is_some s.consumed_at)) [
      | inl taken ↦ rejects (refreshed t) rows' refl q (some s) rows (sym (if_true _ _ _ taken) ∙ h)
      | inr free ↦
          let open_ = sym (if_false _ _ _ free) ∙ h in
          elim (Bool-cases (is_over q s)) [
            | inl over ↦
                not_refused (refreshed t) rows' refl true rows (sym (if_true _ _ _ over) ∙ open_)
            | inr live ↦ after_consumption-Rotates s.id _ _ refl (sym (if_false _ _ _ live) ∙ open_)
          ]
    ]

  refresh-Rotates :
      (q : AuthRequest) (seen rows : List RefreshSession)
      → Given (refresh q seen rows)
      → (token subject : String) × (q.raw_token ≡ some token)
        × (q.subject token ≡ some subject)
        × Rotates q (q.hash_refresh_token token) subject rows
  unfolding refresh
  refresh-Rotates q seen rows h =
      let (token, subject, cookie, claims, (i, k)) =
        by_request-eq (refreshed t) rows' refl q (refresh_session q rows) seen rows h in
      (
        token,
        subject,
        cookie,
        claims,
        refresh_locked-Rotates q (q.hash_refresh_token token) subject rows
            (reread_refresh_session_state i.id rows) k,
      )

-- A row with the hash of a new row stands in its way.
hash-violates :
    (r : RefreshSession) (hash : String) (rows : List RefreshSession)
    → r.refresh_token_hash ≡ hash
    → any (has_hash hash) rows ≡ true
    → any (violates r) rows ≡ true
hash-violates r hash [] e h = cc
hash-violates r hash (s ∷ rows) e h =
    either (has_id r.id s) (has_hash r.refresh_token_hash s) (any (has_hash hash) rows) _ (rw (e) h)
      (hash-violates r hash rows e)
  where
    either : (a b c d : Bool) → (b || c) ≡ true → (c ≡ true → d ≡ true) → ((a || b) || d) ≡ true
    either a b c d k f = ground arith

other_hash :
    (r : RefreshSession) (hash : String) (rows : List RefreshSession)
    → any (has_hash hash) rows ≡ true
    → any (violates r) rows ≡ false
    → str_eq r.refresh_token_hash hash ≡ false
other_hash r hash rows there fresh = elim (Bool-cases (str_eq r.refresh_token_hash hash)) [
  | inl same ↦
      absurd (clash (hash-violates r hash rows ((eq_iff r.refresh_token_hash hash).0 same) there))
  | inr differs ↦ differs
]
  where
    clash : any (violates r) rows ≢ true
    clash k = cc

none_selected :
    (p : RefreshSession → Bool) (rows : List RefreshSession) (r : RefreshSession)
    → filterb p rows ≡ []
    → p r ≡ false
    → filterb p (rows ++ r ∷ []) ≡ []
none_selected p [] r h off = if_false _ _ _ off
none_selected p (s ∷ rows) r h off = elim (Bool-cases (p s)) [
  | inl on ↦ absurd (full (sym (if_true _ _ _ on) ∙ h))
  | inr skip ↦ if_false _ _ _ skip ∙ none_selected p rows r (sym (if_false _ _ _ skip) ∙ h) off
]
  where
    full : s ∷ filterb p rows ≢ []
    full k = cc

-- A refresh that gives a token is a rotation: the request carries the token of the subject's
-- session, which it consumes, the user is known and active, and one session of the same family is
-- added for the token that is given. Nothing else changes, and the token of the request is not
-- consumed again, at any later time.
pub refresh_rotates :
    (q : AuthRequest) (seen rows rows' : List RefreshSession) (t : String) (now at : ℕ)
    → q.transaction_at ≤ now
    → refresh q seen rows ≡ (refreshed t, rows')
    → (token subject : String) × (q.raw_token ≡ some token)
      × (q.subject token ≡ some subject)
      × IsRotation q (q.hash_refresh_token token) subject rows t rows'
      × (consume_refresh_session (q.hash_refresh_token token) now at rows' ≡ (nothing, rows'))
refresh_rotates q seen rows rows' t now at later h =
    let (token, subject, cookie, claims, rotates) = refresh-Rotates t rows' q seen rows h in
    let hash = q.hash_refresh_token token in
    let added = issued_session q rotates.user rotates.session.consumed_family in
    let none_before =
      consumed-none hash q.transaction_at q.clock_timestamp now rows rotates.left rotates.session
        later rotates.is_consumed in
    let there =
      consumed-has_hash hash q.transaction_at q.clock_timestamp rows rotates.left rotates.session
        rotates.is_consumed in
    let other : is_selected (has_hash hash) now added ≡ false =
      off _ _ (other_hash added hash rotates.left there rotates.is_fresh) in
    let none_after : filterb (is_selected (has_hash hash) now) rows' ≡ [] =
      ap (filterb (is_selected (has_hash hash) now)) rotates.is_rotated
      ∙ none_selected _ rotates.left added none_before other in
    (token, subject, cookie, claims, rotates, nothing_found hash now at rows' none_after)
  where
    off : (a b : Bool) → a ≡ false → (a && b) ≡ false
    off a b k = ground arith
