-- ===== src/Risk/KillSwitch/Triggers/Counting.antt =====
-- The counters of `data_health_records` in risk/kill_switch.py.
use text.Mathlib.TextPositions.{eq_refl}
use aigold_trader.Base.{
  ℕ, ◌+◌, ◌≡◌, ◌∙◌, ap, refl, inl, inr, String, Bool, true, false, ◌&&◌, Option, none, some, List,
  [], ◌∷◌, ◌++◌, ltb, leb, if◌then◌else◌, Bool-cases, tests, is_some, if_ind, if_none, if_true,
  if_false,
}
use aigold_trader.Risk.Domain.{RiskPolicy}
use aigold_trader.Risk.KillSwitch.{automatic_data_health}
use aigold_trader.Risk.KillSwitch.Triggers.{
  DataHealthRow, Database, is_row, find_row, get_data_health_failures, ensure_row, failed,
  recovered, update_row, failures_of, fresh_row, insert_missing, Call, trigger, data_health,
}

abbrev map_row : (DataHealthRow → DataHealthRow) → Option DataHealthRow → Option DataHealthRow
map_row f none = none
map_row f (some r) = some (f r)

module _ (provider source : String) where
  find_row-update_row :
      (f : DataHealthRow → DataHealthRow) (rows : List DataHealthRow)
      → ((r : DataHealthRow) → is_row provider source (f r) ≡ is_row provider source r)
      → find_row provider source (update_row provider source f rows)
        ≡ map_row f (find_row provider source rows)
  unfolding find_row update_row
  find_row-update_row f [] keeps = refl
  find_row-update_row f (r ∷ rows) keeps = elim (Bool-cases (is_row provider source r)) [
    | inl here ↦ rw here (
        if_true (is_row provider source (f r)) (some (f r)) (find_row provider source rows)
          (keeps r ∙ here))
    | inr away ↦ rw away (
        if_false (is_row provider source r) (some r)
          (find_row provider source (update_row provider source f rows)) away
        ∙ find_row-update_row f rows keeps)
  ]

  find_row-append :
      (rows : List DataHealthRow) (r : DataHealthRow)
      → find_row provider source rows ≡ none
      → is_row provider source r ≡ true
      → find_row provider source (rows ++ r ∷ []) ≡ some r
  unfolding find_row
  find_row-append [] r h e = if_true (is_row provider source r) (some r) none e
  find_row-append (s ∷ rows) r h e =
      let (away, h1) = if_none (is_row provider source s) s (find_row provider source rows) h in
      if_false (is_row provider source s) (some s) (find_row provider source (rows ++ r ∷ [])) away
      ∙ find_row-append rows r h1 e

  failures-ensure_row :
      (now : ℕ) (rows : List DataHealthRow)
      → (r : DataHealthRow) × (find_row provider source (ensure_row provider source now rows)
          ≡ some r)
        × (r.consecutive_failures ≡ get_data_health_failures provider source rows)
  unfolding ensure_row get_data_health_failures
  failures-ensure_row now rows = ensured (find_row provider source rows) refl
    where
      both : {a b : Bool} → a ≡ true → b ≡ true → (a && b) ≡ true
      both h k = cc

      ensured :
          (o : Option DataHealthRow)
          → find_row provider source rows ≡ o
          → (r : DataHealthRow) × (find_row provider source
                (insert_missing o (fresh_row provider source now) rows)
              ≡ some r)
            × (r.consecutive_failures ≡ failures_of o)
      ensured none missing = (
        fresh_row provider source now,
        find_row-append rows _ missing (both (eq_refl provider) (eq_refl source)),
        refl,
      )
      ensured (some r) found = (r, found, refl)

  counted :
      (rows : List DataHealthRow) (r : DataHealthRow)
      → find_row provider source rows ≡ some r
      → get_data_health_failures provider source rows ≡ r.consecutive_failures
  unfolding get_data_health_failures
  counted rows r found = ap failures_of found

  -- A failure adds one to the counter of its provider and source.
  pub failure_counts :
      (now : ℕ) (rows : List DataHealthRow)
      → get_data_health_failures provider source
          (update_row provider source (failed now) (ensure_row provider source now rows))
        ≡ get_data_health_failures provider source rows + 1
  failure_counts now rows =
      let (r, found, n) = failures-ensure_row now rows in
      counted _ (failed now r)
        (find_row-update_row (failed now) _ (λ s. refl) ∙ ap (map_row (failed now)) found)
      ∙ ap (λ k. k + 1) n

  recovery_resets :
      (now : ℕ) (rows : List DataHealthRow)
      → get_data_health_failures provider source
          (update_row provider source (recovered now) (ensure_row provider source now rows))
        ≡ 0
  recovery_resets now rows =
      let (r, found, n) = failures-ensure_row now rows in
      counted _ (recovered now r)
        (find_row-update_row (recovered now) _ keeps ∙ ap (map_row (recovered now)) found)
      ∙ zero_count r
    where
      keeps :
          (s : DataHealthRow) → is_row provider source (recovered now s) ≡ is_row provider source s
      keeps s =
          if_ind {A = DataHealthRow} (λ t. is_row provider source t ≡ is_row provider source s)
            (ltb 0 s.consecutive_failures) _ _ (λ h. refl) (λ h. refl)

      zero_count : (s : DataHealthRow) → (recovered now s).consecutive_failures ≡ 0
      zero_count s =
          if_ind {A = DataHealthRow} (λ t. t.consecutive_failures ≡ 0)
            (ltb 0 s.consecutive_failures) _ _ (λ h. refl) (λ h. omega (tests, h))

  at_threshold :
      (c : Call) (b : Bool) (db : Database)
      → let (fired, db') =
          (if b then trigger c automatic_data_health "system_data_health" db else (none, db)) in
        (db'.data_health_records ≡ db.data_health_records) × (is_some fired ≡ b)
  unfolding trigger
  at_threshold c true db = (refl, refl)
  at_threshold c false db = (refl, refl)

  -- The counter of the health of a source: a stale quote adds one to it, any other sets it to zero,
  -- and the switch is activated exactly when the quote is stale and the count comes to the
  -- threshold.
  pub data_health_counts :
      (c : Call) (p : RiskPolicy) (quote_stale : Bool) (db : Database)
      → let (fired, db') = data_health c p quote_stale provider source db in
        let before = get_data_health_failures provider source db.data_health_records in
        (get_data_health_failures provider source db'.data_health_records
          ≡ (if quote_stale then before + 1 else 0))
        × (is_some fired ≡ (quote_stale && leb p.data_health_consecutive_failures (before + 1)))
  unfolding data_health trigger
  data_health_counts c p false db = (recovery_resets c.now db.data_health_records, refl)
  data_health_counts c p true db =
      let after =
        update_row provider source (failed c.now)
          (ensure_row provider source c.now db.data_health_records) in
      let n = failure_counts c.now db.data_health_records in
      let b =
        leb p.data_health_consecutive_failures (get_data_health_failures provider source after) in
      let (same, fires) = at_threshold c b (record db { data_health_records = after }) in
      (
        ap (get_data_health_failures provider source) same ∙ n,
        fires ∙ ap (leb p.data_health_consecutive_failures) n,
      )
