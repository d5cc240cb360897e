-- ===== src/Risk/KillSwitch/Triggers/Streak.antt =====
-- A streak of unhealthy quotes makes the kill switch of risk/kill_switch.py ACTIVE.
use aigold_trader.Base.{
  ℕ, ◌+◌, ◌≤◌, ◌<◌, ◌≡◌, ◌⊎◌, ◌∙◌, ap, refl, inl, inr, String, Bool, true, ◌&&◌, Option, none, some,
  List, [], ◌∷◌, length, All, leb, if_true, if_ind, arith, leb_false→lt,
}
use aigold_trader.Decimal.{zero_dec, ◌<ᵈ◌}
use aigold_trader.Risk.Domain.{
  Raises, ok, raised, validation_error, ◌>>=◌, RiskPolicy, AccountSnapshot,
}
use aigold_trader.Risk.PolicyCore.Evaluate.{SafetyTriggerFacts}
use aigold_trader.Risk.KillSwitch.{
  KillSwitchState, KillSwitchTrigger, active, automatic_daily_loss, automatic_drawdown,
  automatic_data_health, get_state,
}
use aigold_trader.Risk.KillSwitch.Latest.{IsKnown, activate_in_effect}
use aigold_trader.Risk.KillSwitch.Triggers.{
  update_row, failed, ensure_row, get_data_health_failures, Database, Call, trigger, data_health,
  health_trigger, or_trigger, evaluate_automatic_triggers, is_unhealthy, valid_component,
}
use aigold_trader.Risk.KillSwitch.Triggers.Counting.{failure_counts}

-- One call of the triggers.
pub record Evaluated : Type 0 where
  pub call : Call
  pub account : AccountSnapshot
  pub quote_stale : Bool
  pub facts : SafetyTriggerFacts

abbrev pub IsUnhealthy : Evaluated → Type 0
IsUnhealthy x = is_unhealthy x.facts.quote_safety_state ≡ true

-- The switch reads ACTIVE at any time.
abbrev pub ReadsActive : List KillSwitchState → Type 0
ReadsActive rows = (d : String) (now : ℕ) → (get_state d now rows).state ≡ active

module _ (p : RiskPolicy) (provider source : String) where
  abbrev pub evaluate_one : Evaluated → Database → Raises (Option KillSwitchState × Database)
  evaluate_one x db =
      evaluate_automatic_triggers x.call x.account p x.quote_stale provider source (some x.facts) db

  -- Calls one after the other.
  pub evaluate_each : List Evaluated → Database → Raises Database
  evaluate_each [] db = ok db
  evaluate_each (x ∷ xs) db = do r ← evaluate_one x db; evaluate_each xs r.1

  abbrev failures : Database → ℕ
  failures db = get_data_health_failures provider source db.data_health_records

  -- After an unhealthy quote: the switch is ACTIVE, or the quote was counted below the threshold and
  -- the switch is as it was.
  abbrev Counted : Database → Option KillSwitchState × Database → Type 0
  Counted db r =
      All IsKnown r.1.kill_switch_records
      × (ReadsActive r.1.kill_switch_records
          ⊎ ((r.1.kill_switch_records ≡ db.kill_switch_records)
              × (failures r.1 ≡ failures db + 1)
              × (failures db + 1 < p.data_health_consecutive_failures)))

  trigger-Counted :
      (c : Call) (t : KillSwitchTrigger) (by : String) (db before : Database)
      → All IsKnown db.kill_switch_records
      → Counted before (trigger c t by db)
  unfolding trigger
  trigger-Counted c t by db before known =
      let done = λ (d : String) (now : ℕ).
        activate_in_effect c.default_version c.now db.kill_switch_records known c.record_id t by
          c.version d now in
      ((done "" 0).2, inl (λ d now. ap (λ s. s.state) (done d now).1 ∙ (done d now).0))

  data_health-Counted :
      (c : Call) (db : Database)
      → All IsKnown db.kill_switch_records
      → Counted db (data_health c p true provider source db)
  unfolding data_health
  data_health-Counted c db known =
      let after =
        update_row provider source (failed c.now)
          (ensure_row provider source c.now db.data_health_records) in
      let n = failure_counts provider source c.now db.data_health_records in
      let counted = record db { data_health_records = after } in
      let reached =
        leb p.data_health_consecutive_failures (get_data_health_failures provider source after) in
      if_ind (Counted db) reached (trigger c automatic_data_health "system_data_health" counted)
        (none, counted)
        (λ h. trigger-Counted c automatic_data_health "system_data_health" counted db known)
        (λ h.
          let below =
            leb_false→lt p.data_health_consecutive_failures
              (get_data_health_failures provider source after) h in
          (known, inr (refl, n, omega (arith, n, below))))

  evaluate_one-Counted :
      (x : Evaluated) (db : Database)
      → (valid_component provider && valid_component source) ≡ true
      → IsUnhealthy x
      → All IsKnown db.kill_switch_records
      → (r : Option KillSwitchState × Database) × (evaluate_one x db ≡ ok r) × Counted db r
  unfolding evaluate_automatic_triggers or_trigger health_trigger
  evaluate_one-Counted x db valid bad known =
      let c = x.call in
      let health = data_health c p true provider source db in
      let by : String = "system_risk_engine" in
      let C = λ (m : Raises (Option KillSwitchState × Database)).
        (r : Option KillSwitchState × Database) × (m ≡ ok r) × Counted db r in
      let fired : (t : KillSwitchTrigger) → C (ok (trigger c t by db)) =
        λ t. (trigger c t by db, refl, trigger-Counted c t by db db known) in
      if_ind C (x.facts.breached.daily_loss_breach && zero_dec <ᵈ x.account.equity) _ _
        (λ h. fired automatic_daily_loss)
        (λ h.
          if_ind C (x.facts.breached.max_drawdown_breach && zero_dec <ᵈ x.account.peak_equity) _ _
            (λ h. fired automatic_drawdown)
            (λ h. (
              health,
              rw bad (
                  if_true (valid_component provider && valid_component source) (ok health)
                    (raised validation_error) valid),
              data_health-Counted c db known,
            )))

  -- Where the switch is ACTIVE it stays so, since triggers only activate.
  Active-stays :
      (db : Database) (r : Option KillSwitchState × Database)
      → ReadsActive db.kill_switch_records
      → Counted db r
      → ReadsActive r.1.kill_switch_records
  Active-stays db r h (known, inl now_active) = now_active
  Active-stays db r h (known, inr (same, _, _)) =
      λ d now. ap (λ rows. (get_state d now rows).state) same ∙ h d now

  active_each :
      (xs : List Evaluated) (db : Database)
      → (valid_component provider && valid_component source) ≡ true
      → All IsUnhealthy xs
      → All IsKnown db.kill_switch_records
      → ReadsActive db.kill_switch_records
      → (after : Database) × (evaluate_each xs db ≡ ok after)
        × ReadsActive after.kill_switch_records
  unfolding evaluate_each
  active_each [] db valid bad known h = (db, refl, h)
  active_each (x ∷ xs) db valid bad known h =
      let (r, e, counted) = evaluate_one-Counted x db valid bad.0 known in
      let (after, f, final) =
        active_each xs r.1 valid bad.1 counted.0 (Active-stays db r h counted) in
      (after, rw e f, final)

  -- A streak of unhealthy quotes as long as the threshold, or what is left of it, makes the switch
  -- ACTIVE: for a provider and a source with valid names, calls of the automatic triggers with the
  -- facts of unhealthy quotes return, one after the other, and where the failures counted before and
  -- the calls together come to the threshold, the switch reads ACTIVE after them at any time. No
  -- row of the switch is stored as UNKNOWN, and there is at least one call.
  pub streak_activates :
      (x : Evaluated) (xs : List Evaluated) (db : Database)
      → (valid_component provider && valid_component source) ≡ true
      → All IsUnhealthy (x ∷ xs)
      → All IsKnown db.kill_switch_records
      → p.data_health_consecutive_failures
        ≤ get_data_health_failures provider source db.data_health_records + length (x ∷ xs)
      → (after : Database) × (evaluate_each (x ∷ xs) db ≡ ok after)
        × ReadsActive after.kill_switch_records
  unfolding evaluate_each
  streak_activates x [] db valid bad known enough =
      let (r, e, (k, counted)) = evaluate_one-Counted x db valid bad.0 known in
      (
        r.1,
        rw e refl,
        elim counted [ inl h ↦ h | inr (same, n, below) ↦ absurd (omega (arith, enough, below)) ],
      )
  streak_activates x (y ∷ ys) db valid bad known enough =
      let (r, e, (k, counted)) = evaluate_one-Counted x db valid bad.0 known in
      let (after, f, final) : (after : Database) × (evaluate_each (y ∷ ys) r.1 ≡ ok after)
          × ReadsActive after.kill_switch_records =
        elim counted [
          | inl h ↦ active_each (y ∷ ys) r.1 valid bad.1 k h
          | inr (same, n, below) ↦
              streak_activates y ys r.1 valid bad.1 k (omega (arith, enough, n))
        ] in
      (after, rw e f, final)
