-- ===== src/Risk/KillSwitch/Latest.antt =====
-- The last operation on the kill switch of risk/kill_switch.py decides its state.
use aigold_trader.Base.{
  ℕ, ◌+◌, ◌≤◌, ◌<◌, ◌≡◌, ◌≢◌, ◌∙◌, refl, ap, String, Bool, false, ◌&&◌, not, Option, none, some,
  List, [], ◌∷◌, ◌++◌, leb, if◌then◌else◌, arith, All, All-append, if_ind,
}
use aigold_trader.Risk.KillSwitch.{
  KillSwitchStatus, active, inactive, unknown, KillSwitchTrigger, KillSwitchState, effective_at,
  is_newer, newest, latest, state_of, get_state, effective_now, after_clearing, is_unknown,
  activation, activate_in, activate, clear_in, clear,
}

-- No row is later than the one that is read.
abbrev Before : ℕ → Option KillSwitchState → Type 0
Before t none = Unit
Before t (some r) = effective_at r < t

newest-ge :
    (r : KillSwitchState) (o : Option KillSwitchState) → effective_at r ≤ effective_at (newest r o)
newest-ge r none = omega arith
newest-ge r (some s) =
    if_ind (λ z. effective_at r ≤ effective_at z) (is_newer s r) s r (λ h. ground arith)
      (λ h. omega arith)

newest-ge_rest : (r s : KillSwitchState) → effective_at s ≤ effective_at (newest r (some s))
newest-ge_rest r s =
    if_ind (λ z. effective_at s ≤ effective_at z) (is_newer s r) s r (λ h. omega arith)
      (λ h. ground arith)

newest_last :
    (r row : KillSwitchState) → effective_at r < effective_at row → newest r (some row) ≡ row
newest_last r row h = ground arith

Before-rest :
    (t : ℕ) (r : KillSwitchState) (o : Option KillSwitchState)
    → Before t (some (newest r o))
    → Before t o
Before-rest t r none h = tt
Before-rest t r (some s) h = omega (arith, newest-ge_rest r s, h)

-- A row that is later than the one that was read is read from then on.
latest-append :
    (rows : List KillSwitchState) (row : KillSwitchState)
    → Before (effective_at row) (latest rows)
    → latest (rows ++ row ∷ []) ≡ some row
unfolding latest
latest-append [] row h = refl
latest-append (r ∷ rows) row h =
    ap (λ o. some (newest r o))
      (latest-append rows row (Before-rest (effective_at row) r (latest rows) h))
    ∙ ap (λ s. some s) (newest_last r row (omega (arith, newest-ge r (latest rows), h)))

abbrev pub IsKnown : KillSwitchState → Type 0
IsKnown r = r.state ≢ unknown

newest-IsKnown :
    (r : KillSwitchState) (o : Option KillSwitchState)
    → IsKnown r
    → ((s : KillSwitchState) → o ≡ some s → IsKnown s)
    → IsKnown (newest r o)
newest-IsKnown r none h g = h
newest-IsKnown r (some s) h g = if_ind IsKnown (is_newer s r) s r (λ e. g s refl) (λ e. h)

latest-IsKnown :
    (rows : List KillSwitchState) (s : KillSwitchState)
    → All IsKnown rows
    → latest rows ≡ some s
    → IsKnown s
unfolding latest
latest-IsKnown [] s h e = cc
latest-IsKnown (r ∷ rows) s (h, hs) e =
    let f : newest r (latest rows) ≡ s = ground arith in
    rw (← f) (newest-IsKnown r (latest rows) h (λ t g. latest-IsKnown rows t hs g))

known_false : (k : KillSwitchStatus) → k ≢ unknown → is_unknown k ≡ false
known_false active h = refl
known_false inactive h = refl
known_false unknown h = absurd (h refl)

behind :
    (cleared : Option ℕ) (a now : ℕ) (u : Bool)
    → u ≡ false
    → elim cleared [ none ↦ a | some t ↦ t ]
      < after_clearing cleared (if not u && leb now a then a + 1 else now)
behind none a now u h = ground arith
behind (some t) a now u h = ground arith

-- The time of a new row lies behind the times of the state that was read.
Before-new :
    (d : String) (now : ℕ) (o : Option KillSwitchState)
    → ((s : KillSwitchState) → o ≡ some s → IsKnown s)
    → Before (effective_now (state_of d now o) now) o
Before-new d now none g = tt
Before-new d now (some s) g =
    behind s.cleared_at s.activated_at now (is_unknown s.state) (known_false s.state (g s refl))

known_state :
    (d d' : String) (now now' : ℕ) (o : Option KillSwitchState)
    → IsKnown (state_of d now o)
    → state_of d' now' o ≡ state_of d now o
known_state d d' now now' none h = absurd (h refl)
known_state d d' now now' (some s) h = refl

module _ (d : String) (now : ℕ) (rows : List KillSwitchState) (known : All IsKnown rows) where
  appended :
      (d' : String) (now' : ℕ) (row : KillSwitchState)
      → effective_at row ≡ effective_now (get_state d now rows) now
      → get_state d' now' (rows ++ row ∷ []) ≡ row
  unfolding get_state
  appended d' now' row e = ap (state_of d' now') (
      latest-append rows row
        (rw e (Before-new d now (latest rows) (λ s. latest-IsKnown rows s known))))

  abbrev Activated : String → ℕ → KillSwitchState × List KillSwitchState → Type 0
  Activated d' now' p = (p.0.state ≡ active) × (get_state d' now' p.1 ≡ p.0) × All IsKnown p.1

  activated_lem :
      (d' : String) (now' : ℕ) (row : KillSwitchState) (k : KillSwitchStatus)
      → (get_state d now rows).state ≡ k
      → row.state ≡ active
      → effective_at row ≡ effective_now (get_state d now rows) now
      → Activated d' now' (activate_in k (get_state d now rows) row rows)
  unfolding get_state
  activated_lem d' now' row active e a t =
      (e, known_state d d' now now' (latest rows) (λ u. cc), known)
  activated_lem d' now' row inactive e a t =
      (a, appended d' now' row t, All-append IsKnown rows (row ∷ []) known ((λ u. cc), tt))
  activated_lem d' now' row unknown e a t =
      (a, appended d' now' row t, All-append IsKnown rows (row ∷ []) known ((λ u. cc), tt))

  -- Where no row is stored as UNKNOWN, the state that `activate` returns is ACTIVE and is the one
  -- that is read from then on, whatever the clocks say; no row is UNKNOWN after it.
  pub activate_in_effect :
      (id : String) (trigger : KillSwitchTrigger) (by version : String) (d' : String) (now' : ℕ)
      → let done = activate d now id trigger by version rows in
        (done.0.state ≡ active) × (get_state d' now' done.1 ≡ done.0) × All IsKnown done.1
  unfolding activate
  activate_in_effect id trigger by version d' now' =
      activated_lem d' now'
        (activation id trigger (effective_now (get_state d now rows) now) by version)
        (get_state d now rows).state refl refl refl

  abbrev Cleared : String → ℕ → KillSwitchState × List KillSwitchState → Type 0
  Cleared d' now' p =
      (p.0.state ≡ inactive) × ((get_state d' now' p.1).state ≡ inactive) × All IsKnown p.1

  cleared_lem :
      (d' : String) (now' : ℕ) (id by : String) (k : KillSwitchStatus)
      → let current = get_state d now rows in
        current.state ≡ k
        → Cleared d' now' (clear_in k current id (effective_now current now) by rows)
  unfolding get_state
  cleared_lem d' now' id by active e = (
    refl,
    ap (λ s. s.state) (appended d' now' _ refl),
    All-append IsKnown rows _ known ((λ u. cc), tt),
  )
  cleared_lem d' now' id by inactive e =
      (e, ap (λ s. s.state) (known_state d d' now now' (latest rows) (λ u. cc)) ∙ e, known)
  cleared_lem d' now' id by unknown e = (
    refl,
    ap (λ s. s.state) (appended d' now' _ refl),
    All-append IsKnown rows _ known ((λ u. cc), tt),
  )

  -- Where no row is stored as UNKNOWN, `clear` returns an INACTIVE state and the switch reads
  -- INACTIVE from then on, whatever the clocks say; no row is UNKNOWN after it.
  pub clear_in_effect :
      (id by d' : String) (now' : ℕ)
      → let done = clear d now id by rows in
        (done.0.state ≡ inactive)
        × ((get_state d' now' done.1).state ≡ inactive)
        × All IsKnown done.1
  unfolding clear
  clear_in_effect id by d' now' = cleared_lem d' now' id by (get_state d now rows).state refl
