-- ===== src/Strategy/Lifecycle/Final/Rows.antt =====
-- The rows of the lifecycle tables that strategy/lifecycle.py keeps: the last one ends a candidate.
use text.Mathlib.Text.{◌==◌ as str_eq}
use text.Mathlib.TextEquality.{eq_iff}
use aigold_trader.Base.{
  ◌≡◌, ◌∙◌, ap, sym, refl, inl, inr, String, Bool, true, ◌||◌, Option, none, some, List, [], ◌∷◌,
  ◌++◌, any, All, All-append, Bool-cases, if_ind, if_true, if_false, arith,
}
use aigold_trader.Risk.PolicyCore.Gates.{is_terminal}
use aigold_trader.Strategy.Lifecycle.Records.{
  Digest, StoredTransition, CandidateTransitionRecord, TradeCandidateRecord, LifecycleTables,
  ResolvedCandidateLifecycle, find_candidate, later_row, is_after, latest_row, resolved,
  resolve_candidate_current_lifecycle, insert_transition,
}

any-append {ℓ} :
    {A : Type ℓ} (p : A → Bool) (xs ys : List A) → any p (xs ++ ys) ≡ (any p xs || any p ys)
any-append p [] ys = refl
any-append p (x ∷ xs) ys = ground (arith, any-append p xs ys)

any-last {ℓ} :
    {A : Type ℓ} (p : A → Bool) (xs : List A) (y : A) → p y ≡ true → any p (xs ++ y ∷ []) ≡ true
any-last p xs y h = ground (arith, any-append p xs (y ∷ []))

any_stays {ℓ} :
    {A : Type ℓ} (p : A → Bool) (xs ys : List A) → any p xs ≡ true → any p (xs ++ ys) ≡ true
any_stays p xs ys h = ground (arith, any-append p xs ys)

any-imp {ℓ κ} :
    {A : Type ℓ} {P : A → Type κ} (p q : A → Bool)
    → ((x : A) → P x → p x ≡ true → q x ≡ true)
    → (xs : List A) → All P xs
    → any p xs ≡ true
    → any q xs ≡ true
any-imp p q f [] h e = cc
any-imp p q f (x ∷ xs) h e = elim (Bool-cases (p x)) [
  | inl holds ↦ ground (arith, f x h.0 holds)
  | inr fails ↦ ground (arith, any-imp p q f xs h.1 (ground arith))
]

-- The id of a row is the digest of its payload, and its payload leads to a terminal status.
abbrev pub RowKept : Digest → CandidateTransitionRecord → Type 0
RowKept d r =
    (is_terminal r.payload.to_status ≡ true)
    × (r.id
        ≡ d.fingerprint r.candidate_id r.payload.in_context r.payload.from_status
            r.payload.to_status)

abbrev pub Kept : Digest → LifecycleTables → Type 0
Kept d t = All (RowKept d) t.transitions

abbrev pub has_ended : String → List CandidateTransitionRecord → Bool
has_ended c rows = any (λ r. str_eq r.candidate_id c) rows

-- A change that the code makes: its id is its digest.
abbrev pub IsMade : Digest → StoredTransition → Type 0
IsMade d s =
    (is_terminal s.to_status ≡ true)
    × (s.transition_id ≡ d.fingerprint s.of_candidate s.in_context s.from_status s.to_status)

abbrev row_of : StoredTransition → CandidateTransitionRecord
row_of s = record {
  id = s.transition_id;
  candidate_id = s.of_candidate;
  row_as_of = s.as_of;
  payload = s;
}

module _ (d : Digest) where
  pub insert-Kept :
      (s : StoredTransition) (rows : List CandidateTransitionRecord)
      → IsMade d s
      → All (RowKept d) rows
      → All (RowKept d) (insert_transition s rows)
  unfolding insert_transition
  insert-Kept s rows m h =
      if_ind (All (RowKept d)) (any (λ r. str_eq r.id s.transition_id) rows) rows
        (rows ++ row_of s ∷ []) (λ _. h)
        (λ _. All-append (RowKept d) rows (row_of s ∷ []) h (m, tt))

  pub insert_ends :
      (s : StoredTransition) (rows : List CandidateTransitionRecord)
      → IsMade d s
      → All (RowKept d) rows
      → has_ended s.of_candidate (insert_transition s rows) ≡ true
  unfolding insert_transition
  insert_ends s rows m h =
      if_ind (λ x. has_ended s.of_candidate x ≡ true) (any (λ r. str_eq r.id s.transition_id) rows)
        rows (rows ++ row_of s ∷ [])
        (any-imp (λ r. str_eq r.id s.transition_id) (λ r. str_eq r.candidate_id s.of_candidate) same
          rows h)
        (λ _.
          any-last (λ r. str_eq r.candidate_id s.of_candidate) rows (row_of s)
            ((eq_iff s.of_candidate s.of_candidate).1 refl))
    where
      same :
          (r : CandidateTransitionRecord)
          → RowKept d r
          → str_eq r.id s.transition_id ≡ true
          → str_eq r.candidate_id s.of_candidate ≡ true
      same r k e = (eq_iff r.candidate_id s.of_candidate).1 (
          d.binds_candidate r.candidate_id s.of_candidate r.payload.in_context s.in_context
            r.payload.from_status s.from_status r.payload.to_status s.to_status
            (sym k.1 ∙ (eq_iff r.id s.transition_id).0 e ∙ m.1))

  pub insert_stays :
      (c : String) (s : StoredTransition) (rows : List CandidateTransitionRecord)
      → has_ended c rows ≡ true
      → has_ended c (insert_transition s rows) ≡ true
  unfolding insert_transition
  insert_stays c s rows h =
      if_ind (λ x. has_ended c x ≡ true) (any (λ r. str_eq r.id s.transition_id) rows) rows
        (rows ++ row_of s ∷ []) (λ _. h)
        (λ _. any_stays (λ r. str_eq r.candidate_id c) rows (row_of s ∷ []) h)

-- A row, if there is one, that leads to a terminal status.
abbrev IsTerminalRow : Option CandidateTransitionRecord → Type 0
IsTerminalRow none = Unit
IsTerminalRow (some r) = is_terminal r.payload.to_status ≡ true

module _ (d : Digest) (id_after : String → String → Bool) (c : String) where
  later_row-IsTerminalRow :
      (r : CandidateTransitionRecord) (o : Option CandidateTransitionRecord)
      → RowKept d r
      → IsTerminalRow o
      → IsTerminalRow (some (later_row id_after r o))
  later_row-IsTerminalRow r none k h = k.0
  later_row-IsTerminalRow r (some s) k h =
      if_ind (λ x. IsTerminalRow (some x)) (is_after id_after r s) r s (λ _. k.0) (λ _. h)

  latest_row-IsTerminalRow :
      (rows : List CandidateTransitionRecord)
      → All (RowKept d) rows
      → IsTerminalRow (latest_row id_after c rows)
  unfolding latest_row
  latest_row-IsTerminalRow [] h = tt
  latest_row-IsTerminalRow (r ∷ rows) h =
      let rest = latest_row-IsTerminalRow rows h.1 in
      if_ind IsTerminalRow (str_eq r.candidate_id c)
        (some (later_row id_after r (latest_row id_after c rows))) (latest_row id_after c rows)
        (λ _. later_row-IsTerminalRow r (latest_row id_after c rows) h.0 rest) (λ _. rest)

  latest_row-some :
      (rows : List CandidateTransitionRecord)
      → has_ended c rows ≡ true
      → (r : CandidateTransitionRecord) × (latest_row id_after c rows ≡ some r)
  unfolding latest_row
  latest_row-some [] h = cc
  latest_row-some (r ∷ rows) h = elim (Bool-cases (str_eq r.candidate_id c)) [
    | inl e ↦ (later_row id_after r (latest_row id_after c rows), if_true _ _ _ e)
    | inr e ↦ let (s, f) = latest_row-some rows (ground (arith)) in (s, if_false _ _ _ e ∙ f)
  ]

  -- What the projection says of a candidate that has ended.
  pub resolved-terminal :
      (t : LifecycleTables) (row : TradeCandidateRecord)
      → Kept d t
      → has_ended c t.transitions ≡ true
      → find_candidate c none t.candidates ≡ some row
      → (r : ResolvedCandidateLifecycle) × (resolve_candidate_current_lifecycle id_after c none t
          ≡ some r)
        × (r.is_terminal_now ≡ true)
  unfolding resolve_candidate_current_lifecycle
  resolved-terminal t row k h f =
      let (last, e) = latest_row-some t.transitions h in
      let terminal : IsTerminalRow (some last) =
        rw e at (latest_row-IsTerminalRow t.transitions k) in
      (
        _,
        ap (λ o. resolved c t.transitions o (find_candidate c none t.candidates)) e
            ∙ ap (resolved c t.transitions (some last)) f,
        terminal,
      )
