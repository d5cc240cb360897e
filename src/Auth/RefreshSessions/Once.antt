-- ===== src/Auth/RefreshSessions/Once.antt =====
-- A refresh token of services/refresh_sessions.py is good for one use, and for none once revoked.
use aigold_trader.Base.{
  ℕ, ◌≤◌, ◌≡◌, ◌≢◌, ◌∙◌, ap, refl, sym, inl, inr, String, Bool, true, false, ◌&&◌, ◌||◌, any, not,
  Option, some, is_some, List, [], ◌∷◌, ltb, filterb, map, if◌then◌else◌, arith, Bool-cases, if_ind,
  if_true, if_false, All,
}
use aigold_trader.Auth.RefreshSessions.{
  RefreshSession, ConsumedRefreshSession, is_active, has_hash, of_user, is_selected, update_active,
  Consumed, nothing, consumed, multiple_results, one_or_none, committed, consume_refresh_session,
  revoke_active, revoke_active_user_sessions,
}

abbrev Stops : (RefreshSession → RefreshSession) → Type 0
Stops values = (t : ℕ) (r : RefreshSession) → is_active t (values r) ≡ false

and_false : (a b : Bool) → b ≡ false → (a && b) ≡ false
and_false a b h = ground arith

-- What is not active stays so.
inactive_later :
    (c d : Option ℕ) (expires now now' : ℕ)
    → now ≤ now'
    → (not (is_some c) && not (is_some d) && ltb now expires) ≡ false
    → (not (is_some c) && not (is_some d) && ltb now' expires) ≡ false
inactive_later c d expires now now' h e = ground arith

unselected : (x y z : Bool) → (z ≡ false → y ≡ false) → (x && z) ≡ false → (x && y) ≡ false
unselected x y z g h = ground arith

-- An update that selects nothing changes nothing.
unchanged :
    (p : RefreshSession → Bool) (f : RefreshSession → RefreshSession) (rows : List RefreshSession)
    → filterb p rows ≡ []
    → map (λ r. if p r then f r else r) rows ≡ rows
unchanged p f [] h = refl
unchanged p f (r ∷ rows) h = elim (Bool-cases (p r)) [
  | inl e ↦ absurd (full (sym (if_true (p r) (r ∷ filterb p rows) (filterb p rows) e) ∙ h))
  | inr e ↦
      let rest =
        unchanged p f rows (sym (if_false (p r) (r ∷ filterb p rows) (filterb p rows) e) ∙ h) in
      let same : (if p r then f r else r) ≡ r = if_false (p r) (f r) r e in cc
]
  where
    full : r ∷ filterb p rows ≢ []
    full k = cc

module _ (where_ : RefreshSession → Bool) (now now' : ℕ) (later : now ≤ now') where
  -- After an update that ends what it selects, no selected row is active.
  none_left :
      (values : RefreshSession → RefreshSession) (rows : List RefreshSession)
      → Stops values
      → filterb
          (is_selected where_ now')
          (map (λ r. if is_selected where_ now r then values r else r) rows)
        ≡ []
  none_left values [] stops = refl
  none_left values (r ∷ rows) stops =
      let rest = none_left values rows stops in
      if_false _ _ _ (
        if_ind (λ s. is_selected where_ now' s ≡ false) (is_selected where_ now r) (values r) r
          (λ h. and_false (where_ (values r)) (is_active now' (values r)) (stops now' r))
          (λ h.
            unselected (where_ r) (is_active now' r) (is_active now r)
              (inactive_later r.consumed_at r.revoked_at r.expires_at now now' later) h))
      ∙ rest

consumed-Stops : (at : ℕ) → Stops (λ r. record r { consumed_at = some at })
consumed-Stops at t r = refl

revoked-Stops : (at : ℕ) → Stops (λ r. record r { revoked_at = some at })
revoked-Stops at t r = stopped (not (is_some r.consumed_at)) (ltb t r.expires_at)
  where
    stopped : (a b : Bool) → (a && false && b) ≡ false
    stopped a b = ground arith

-- Where no row is selected, nothing is consumed.
pub nothing_found :
    (hash : String) (now at : ℕ) (rows : List RefreshSession)
    → filterb (is_selected (has_hash hash) now) rows ≡ []
    → consume_refresh_session hash now at rows ≡ (nothing, rows)
unfolding consume_refresh_session update_active
nothing_found hash now at rows h =
    rw
      (
        h,
        unchanged (is_selected (has_hash hash) now) (λ r. record r { consumed_at = some at }) rows
            h,
      )
      refl

committed_after :
    (c : Consumed) (d : ConsumedRefreshSession) (before after rows : List RefreshSession)
    → c ≡ consumed d
    → committed c before after ≡ rows
    → after ≡ rows
committed_after nothing d before after rows h e = e
committed_after (consumed c) d before after rows h e = e
committed_after multiple_results d before after rows h e = cc

-- After a consumption no session of the token is active at any later time.
pub consumed-none :
    (hash : String) (now at now' : ℕ) (rows rows' : List RefreshSession)
    (c : ConsumedRefreshSession)
    → now ≤ now'
    → consume_refresh_session hash now at rows ≡ (consumed c, rows')
    → filterb (is_selected (has_hash hash) now') rows' ≡ []
unfolding consume_refresh_session update_active
consumed-none hash now at now' rows rows' c later e =
    let values : RefreshSession → RefreshSession = λ r. record r { consumed_at = some at } in
    let after = map (λ r. if is_selected (has_hash hash) now r then values r else r) rows in
    let same : after ≡ rows' =
      committed_after (one_or_none (filterb (is_selected (has_hash hash) now) rows)) c rows after
        rows' (ap (λ p. p.0) e) (ap (λ p. p.1) e) in
    ap (filterb (is_selected (has_hash hash) now')) (sym same)
    ∙ none_left (has_hash hash) now now' later values rows (consumed-Stops at)

-- A token that was consumed is not consumed again, at any later time: the second use finds nothing
-- and changes no row.
pub consume_once :
    (hash : String) (now at now' at' : ℕ) (rows rows' : List RefreshSession)
    (c : ConsumedRefreshSession)
    → now ≤ now'
    → consume_refresh_session hash now at rows ≡ (consumed c, rows')
    → consume_refresh_session hash now' at' rows' ≡ (nothing, rows')
consume_once hash now at now' at' rows rows' c later e =
    nothing_found hash now' at' rows' (consumed-none hash now at now' rows rows' c later e)

-- A consumption found one row.
one_or_none-consumed :
    (rows : List RefreshSession) (c : ConsumedRefreshSession)
    → one_or_none rows ≡ consumed c
    → (r : RefreshSession) × (rows ≡ r ∷ [])
one_or_none-consumed [] c h = cc
one_or_none-consumed (r ∷ []) c h = (r, refl)
one_or_none-consumed (r ∷ s ∷ rows) c h = cc

or_left : (a b : Bool) → a ≡ true → (a || b) ≡ true
or_left a b h = ground arith

or_right : (a b : Bool) → b ≡ true → (a || b) ≡ true
or_right a b h = ground arith

-- An update that selects a row keeps its hash.
hash_kept :
    (hash : String) (now : ℕ) (values : RefreshSession → RefreshSession)
    → ((r : RefreshSession) → has_hash hash (values r) ≡ has_hash hash r)
    → (rows : List RefreshSession) (s : RefreshSession)
    → filterb (is_selected (has_hash hash) now) rows ≡ s ∷ []
    → any
        (has_hash hash)
        (map (λ r. if is_selected (has_hash hash) now r then values r else r) rows)
      ≡ true
hash_kept hash now values same [] s h = cc
hash_kept hash now values same (r ∷ rows) s h =
    elim (Bool-cases (is_selected (has_hash hash) now r)) [
      | inl on ↦ or_left _ _ (
          ap (has_hash hash) (if_true _ (values r) r on)
          ∙ same r
          ∙ and_left (has_hash hash r) (is_active now r) on)
      | inr off ↦
          or_right _ _ (hash_kept hash now values same rows s (sym (if_false _ _ _ off) ∙ h))
    ]
  where
    and_left : (a b : Bool) → (a && b) ≡ true → a ≡ true
    and_left a b k = ground arith

-- Some row that a consumption leaves has the hash of the token.
pub consumed-has_hash :
    (hash : String) (now at : ℕ) (rows rows' : List RefreshSession) (c : ConsumedRefreshSession)
    → consume_refresh_session hash now at rows ≡ (consumed c, rows')
    → any (has_hash hash) rows' ≡ true
unfolding consume_refresh_session update_active
consumed-has_hash hash now at rows rows' c e =
    let values : RefreshSession → RefreshSession = λ r. record r { consumed_at = some at } in
    let after = map (λ r. if is_selected (has_hash hash) now r then values r else r) rows in
    let found = filterb (is_selected (has_hash hash) now) rows in
    let same : after ≡ rows' =
      committed_after (one_or_none found) c rows after rows' (ap (λ p. p.0) e) (ap (λ p. p.1) e) in
    let (s, only) = one_or_none-consumed found c (ap (λ p. p.0) e) in
    ap (any (has_hash hash)) (sym same) ∙ hash_kept hash now values (λ r. refl) rows s only

module _ (where_ : RefreshSession → Bool) (now at now' : ℕ) (rows : List RefreshSession)
    (later : now ≤ now') where
  -- After a revocation no selected row is active at any later time, and a second one changes no row.
  pub revoke_ends :
      let rows' = (revoke_active where_ now at rows).1 in
      (filterb (is_selected where_ now') rows' ≡ [])
      × ((at' : ℕ) → revoke_active where_ now' at' rows' ≡ (0, rows'))
  unfolding revoke_active update_active
  revoke_ends =
      let values : RefreshSession → RefreshSession = λ r. record r { revoked_at = some at } in
      let rows' = map (λ r. if is_selected where_ now r then values r else r) rows in
      let none_active = none_left where_ now now' later values rows (revoked-Stops at) in
      (
        none_active,
        λ at'.
            rw
              (
                none_active,
                unchanged (is_selected where_ now') (λ r. record r { revoked_at = some at' }) rows'
                    none_active,
              )
              refl,
      )

narrower :
    (p q : RefreshSession → Bool) (now : ℕ) (rows : List RefreshSession)
    → All (λ r. p r ≡ true → q r ≡ true) rows
    → filterb (is_selected q now) rows ≡ []
    → filterb (is_selected p now) rows ≡ []
narrower p q now [] h e = refl
narrower p q now (r ∷ rows) (h, hs) e = elim (Bool-cases (is_selected q now r)) [
  | inl on ↦
      absurd
        (full (sym (if_true (is_selected q now r) (r ∷ filterb (is_selected q now) rows) _ on) ∙ e))
  | inr off ↦
      if_false (is_selected p now r) (r ∷ filterb (is_selected p now) rows) _
        (both (p r) (q r) (is_active now r) h off)
      ∙ narrower p q now rows hs
          (sym (if_false (is_selected q now r) (r ∷ filterb (is_selected q now) rows) _ off) ∙ e)
]
  where
    full : r ∷ filterb (is_selected q now) rows ≢ []
    full k = cc

    both : (x y z : Bool) → (x ≡ true → y ≡ true) → (y && z) ≡ false → (x && z) ≡ false
    both x y z g k = ground arith

-- After the sessions of a user are revoked, no token that belongs to the user alone is consumed,
-- at any later time.
pub logout_ends_tokens :
    (user hash : String) (now at now' at' : ℕ) (rows : List RefreshSession)
    → now ≤ now'
    → let rows' = (revoke_active_user_sessions user now at rows).1 in
      All (λ r. has_hash hash r ≡ true → of_user user r ≡ true) rows'
      → consume_refresh_session hash now' at' rows' ≡ (nothing, rows')
unfolding revoke_active_user_sessions
logout_ends_tokens user hash now at now' at' rows later own =
    nothing_found hash now' at' (revoke_active_user_sessions user now at rows).1 (
      narrower (has_hash hash) (of_user user) now' (revoke_active_user_sessions user now at rows).1
        own (revoke_ends (of_user user) now at now' rows later).0)
