-- ===== src/Risk/KillSwitch/Triggers/Effect.antt =====
-- What `evaluate_automatic_triggers` of risk/kill_switch.py does to the switch.
use aigold_trader.Base.{
  ℕ, ◌≡◌, ◌≢◌, ◌⊎◌, inl, inr, refl, String, Bool, true, false, ◌&&◌, Option, none, some, List, leb,
  if◌then◌else◌, if_ind, All,
}
use aigold_trader.Decimal.{zero_dec, ◌<ᵈ◌}
use aigold_trader.Risk.Domain.{
  Raises, ok, raised, validation_error, bind-ok, ok-injective, RiskPolicy, AccountSnapshot,
}
use aigold_trader.Risk.PolicyCore.Evaluate.{SafetyTriggerFacts}
use aigold_trader.Risk.KillSwitch.{
  KillSwitchState, KillSwitchTrigger, active, automatic_data_health, get_state,
}
use aigold_trader.Risk.KillSwitch.Latest.{IsKnown, activate_in_effect}
use aigold_trader.Risk.KillSwitch.Triggers.{
  DataHealthRow, update_row, failed, ensure_row, get_data_health_failures, Database, Call, trigger,
  data_health, health_trigger, or_trigger, evaluate_automatic_triggers, daily_fact, drawdown_fact,
  stale_fact,
}

module _ (c : Call) (db : Database) (known : All IsKnown db.kill_switch_records) where
  -- Either the switch is as it was, or it is active from now on and its state is the answer.
  abbrev HasEffect : Option KillSwitchState × Database → Type 0
  HasEffect r =
      ((r.0 ≡ none) × (r.1.kill_switch_records ≡ db.kill_switch_records))
      ⊎ ((s : KillSwitchState) × (r.0 ≡ some s)
          × (s.state ≡ active)
          × ((d : String) (now : ℕ) → get_state d now r.1.kill_switch_records ≡ s))

  trigger-HasEffect :
      (t : KillSwitchTrigger) (by : String) (health : List DataHealthRow)
      → HasEffect (trigger c t by (record db { data_health_records = health }))
  unfolding trigger
  trigger-HasEffect t by health =
      let done = λ (d : String) (now : ℕ).
        activate_in_effect c.default_version c.now db.kill_switch_records known c.record_id t by
          c.version d now in
      inr (_, refl, (done "" 0).0, λ d now. (done d now).1)

  threshold-HasEffect :
      (b : Bool) (t : KillSwitchTrigger) (by : String) (health : List DataHealthRow)
      → let after = record db { data_health_records = health } in
        HasEffect (if b then trigger c t by after else (none, after))
  threshold-HasEffect true t by health = trigger-HasEffect t by health
  threshold-HasEffect false t by health = inl (refl, refl)

  data_health-HasEffect :
      (p : RiskPolicy) (quote_stale : Bool) (provider source : String)
      → HasEffect (data_health c p quote_stale provider source db)
  unfolding data_health
  data_health-HasEffect p false provider source = inl (refl, refl)
  data_health-HasEffect p true provider source =
      let after =
        update_row provider source (failed c.now)
          (ensure_row provider source c.now db.data_health_records) in
      threshold-HasEffect
        (leb p.data_health_consecutive_failures (get_data_health_failures provider source after))
        automatic_data_health "system_data_health" after

  or_trigger-HasEffect :
      (b : Bool) (t : KillSwitchTrigger) (by : String)
      (rest : Raises (Option KillSwitchState × Database)) (r : Option KillSwitchState × Database)
      → (rest ≡ ok r → HasEffect r)
      → or_trigger b (trigger c t by db) rest ≡ ok r
      → HasEffect r
  unfolding or_trigger
  or_trigger-HasEffect true t by rest r g e =
      rw (← ok-injective e) (trigger-HasEffect t by db.data_health_records)
  or_trigger-HasEffect false t by rest r g e = g e

  health-HasEffect :
      (p : RiskPolicy) (quote_stale : Bool) (provider source : String)
      (r : Option KillSwitchState × Database)
      → health_trigger c p quote_stale provider source db ≡ ok r
      → HasEffect r
  unfolding health_trigger
  health-HasEffect p quote_stale provider source r =
      if_ind (λ m. m ≡ ok r → HasEffect r) _ _ _
        (λ h e.
          returned (data_health c p quote_stale provider source db) r e
            (data_health-HasEffect p quote_stale provider source))
        (λ h e. absurd (raises r e))
    where
      raises : (r : Option KillSwitchState × Database) → raised validation_error ≢ ok r
      raises r h = cc

      returned : (x r : Option KillSwitchState × Database) → ok x ≡ ok r → HasEffect x → HasEffect r
      returned x r e h = rw (← ok-injective {a = x} {b = r} e) h

  -- The automatic triggers never clear the switch, where no row is stored as UNKNOWN: an
  -- evaluation that returns no state leaves the records of the switch as they were, and one that
  -- returns a state has made the switch ACTIVE, and it is the state that is read from then on.
  pub triggers_in_effect :
      (a : AccountSnapshot) (p : RiskPolicy) (quote_stale : Bool) (provider source : String)
      (facts : Option SafetyTriggerFacts) (r : Option KillSwitchState × Database)
      → evaluate_automatic_triggers c a p quote_stale provider source facts db ≡ ok r
      → ((r.0 ≡ none) × (r.1.kill_switch_records ≡ db.kill_switch_records))
        ⊎ ((s : KillSwitchState) × (r.0 ≡ some s)
            × (s.state ≡ active)
            × ((d : String) (now : ℕ) → get_state d now r.1.kill_switch_records ≡ s))
  unfolding evaluate_automatic_triggers
  triggers_in_effect a p quote_stale provider source facts r e =
      let (daily, e1, f1) = bind-ok (daily_fact facts a p) _ e in
      or_trigger-HasEffect (daily && zero_dec <ᵈ a.equity) _ _ _ r
        (λ e2.
          let (drawdown, e3, f3) = bind-ok (drawdown_fact facts a p) _ e2 in
          or_trigger-HasEffect (drawdown && zero_dec <ᵈ a.peak_equity) _ _ _ r
            (health-HasEffect p (stale_fact facts quote_stale) provider source r) f3)
        f1
