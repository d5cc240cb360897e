-- ===== src/Risk/Engine/Grant.antt =====
-- What stands behind a decision of risk/engine.py that is made new and is not BLOCKED.
use mathlib.Core.Path.{subst}
use aigold_trader.Base.{
  ℕ, ◌+◌, ◌≡◌, ◌≢◌, ◌∙◌, inl, inr, refl, sym, ap, String, Bool, true, false, none, some, List, ℤ,
  pos, negsuc, if_false, if◌then◌else◌,
}
use aigold_trader.Decimal.{Decimal, zero_dec}
use aigold_trader.Risk.Domain.{
  Raises, ok, raised, validation_error, ◌>>=◌, bind-ok, ok-injective, Decision, blocked, seconds,
}
use aigold_trader.Risk.Capacity.{PortfolioExposureSnapshot}
use aigold_trader.Risk.KillSwitch.{KillSwitchStatus, get_state}
use aigold_trader.Risk.PolicyCore.Gates.{kill_switch_code}
use aigold_trader.Risk.KillSwitch.Triggers.{Database, evaluate_automatic_triggers}
use aigold_trader.Risk.PolicyCore.Inputs.{PureRiskEvaluationInput, valid_input, canonical}
use aigold_trader.Risk.PolicyCore.Evaluate.{PureRiskResult, evaluate_pure_risk}
use aigold_trader.Risk.PolicyCore.Decisions.{evaluation_outcome}
use aigold_trader.Risk.PolicyCore.Outcomes.{IsGranted}
use aigold_trader.Risk.Portfolio.{RiskReservationRecord, get_active_reservations}
use aigold_trader.Risk.LiveAdapter.{
  input_state, Evaluation, quote_is_stale, count_of, exposure_of, effective_rows,
  portfolio_snapshot_from_live, pure_kill_switch_from_live, build_live_pure_input,
}
use aigold_trader.Risk.Engine.{
  Tables, RiskDecision, Outside, is_blocked, validated, valid_decision, requested_amount,
  to_live_decision, reconcile, by_cache, preflight, data_health_state, evaluate_final,
  evaluate_candidate, earlier,
}

-- The input of the final evaluation, over the tables with the state of the kill switch that the
-- triggers left.
abbrev pub final_input : Outside → Evaluation → Bool → Tables → Tables → ℕ → PureRiskEvaluationInput
final_input x e stale t after n =
    build_live_pure_input e
      (pure_kill_switch_from_live
        (get_state x.call.default_version x.call.now after.safety.kill_switch_records))
      (data_health_state stale)
      (exposure_of
        (effective_rows e.candidate.id
          (get_active_reservations t.reservations e.account.account_id e.as_of none))
        e.account e.candidate.symbol e.plan.direction n)

-- A decision that is not BLOCKED passes on the figures of the result.
pub record IsIssued (e : Evaluation) (d : RiskDecision) (r : PureRiskResult) : Type 0 where
  pub granted_pct : d.approved_risk_pct ≡ r.approved_risk_pct
  pub approved_amount : d.approved_risk_amount ≡ r.approved_risk_amount
  pub size : d.position_size ≡ r.position_size
  pub distance : d.stop_distance ≡ r.stop_distance
  pub requested_pct : d.requested_risk_pct ≡ r.normalized_requested_risk_pct
  pub before : d.portfolio_exposure_before ≡ r.portfolio_exposure_before
  pub after : d.portfolio_exposure_after ≡ r.portfolio_exposure_after
  pub for_symbol : d.symbol ≡ e.candidate.symbol
  pub for_direction : d.direction ≡ e.plan.direction
  pub warnings : d.warning_codes ≡ r.warning_codes
  pub end :
      d.expires_at ≡ earlier e.plan.expires_at (e.as_of + seconds e.policy.reservation_ttl_seconds)

abbrev pub IsFinal :
    Outside → Evaluation → Tables → Tables → RiskDecision → Bool → ℕ → PureRiskResult → Type 0
IsFinal x e t after d stale n r =
    (evaluate_pure_risk (final_input x e stale t after n) ≡ ok r)
    × (d.decision ≡ r.decision)
    × (is_blocked d.decision ≡ false → IsIssued e d r)
    × (reconcile x e d none t.reservations ≡ ok after.reservations)

counted :
    (z : ℤ) {A : Type 0} (f : ℕ → Raises A) {a : A}
    → (count_of z >>= f) ≡ ok a
    → (n : ℕ) × (f n ≡ ok a)
counted (pos n) f h = (n, h)
counted (negsuc n) f h = cc

final_parts :
    (x : Outside) (e : Evaluation) (stale : Bool) (t : Tables) (w : PureRiskResult × Decimal)
    → evaluate_final x e stale t ≡ ok w
    → (n : ℕ) × (evaluate_pure_risk (final_input x e stale t t n) ≡ ok w.0)
unfolding evaluate_final portfolio_snapshot_from_live
final_parts x e stale t w h =
    let active = get_active_reservations t.reservations e.account.account_id e.as_of none in
    let (s, e1, f1) =
      bind-ok (portfolio_snapshot_from_live e.account e.candidate e.plan active) _ h in
    let (n, g) = counted e.account.open_positions_count _ e1 in
    let state =
      pure_kill_switch_from_live
        (get_state x.call.default_version x.call.now t.safety.kill_switch_records) in
    let (r, e2, f2) =
      bind-ok (evaluate_pure_risk (build_live_pure_input e state (data_health_state stale) s.0)) _
        f1 in
    (
      n,
      ap
            (λ (p : PortfolioExposureSnapshot × Decimal).
              evaluate_pure_risk (build_live_pure_input e state (data_health_state stale) p.0))
            (ok-injective g)
          ∙ e2
          ∙ ap (λ (p : PureRiskResult × Decimal). ok p.0) (ok-injective f2),
    )

validated-same : (e : Evaluation) (d1 d : RiskDecision) → validated e d1 ≡ ok d → d1 ≡ d
validated-same e d1 d h = good (valid_decision e d1) h
  where
    good : (b : Bool) → (if b then ok d1 else raised validation_error) ≡ ok d → d1 ≡ d
    good true k = ok-injective k
    good false k = cc

decided :
    (e : Evaluation) (profile id : String) (r : PureRiskResult) (d : RiskDecision)
    → to_live_decision e profile id r ≡ ok d
    → (d.decision ≡ r.decision) × (is_blocked d.decision ≡ false → IsIssued e d r)
unfolding to_live_decision
decided e profile id r d h =
    let (amount, _, f) = bind-ok (requested_amount e r) _ h in
    let made = validated-same e _ d f in
    let same = ap (λ (x : RiskDecision). x.decision) (sym made) in
    (
      same,
      λ open_.
          let granted : is_blocked r.decision ≡ false = ap is_blocked (sym same) ∙ open_ in
          let ends = e.as_of + seconds e.policy.reservation_ttl_seconds in
          record {
            granted_pct =
                ap (λ (x : RiskDecision). x.approved_risk_pct) (sym made)
                ∙ if_false (is_blocked r.decision) zero_dec r.approved_risk_pct granted;
            approved_amount =
                ap (λ (x : RiskDecision). x.approved_risk_amount) (sym made)
                ∙ if_false (is_blocked r.decision) zero_dec r.approved_risk_amount granted;
            size =
                ap (λ (x : RiskDecision). x.position_size) (sym made)
                ∙ if_false (is_blocked r.decision) zero_dec r.position_size granted;
            distance = ap (λ (x : RiskDecision). x.stop_distance) (sym made);
            requested_pct =
                ap (λ (x : RiskDecision). x.requested_risk_pct) (sym made)
                ∙ if_false (is_blocked r.decision) e.policy.max_risk_per_trade_pct
                    r.normalized_requested_risk_pct granted;
            before = ap (λ (x : RiskDecision). x.portfolio_exposure_before) (sym made);
            after = ap (λ (x : RiskDecision). x.portfolio_exposure_after) (sym made);
            for_symbol = ap (λ (x : RiskDecision). x.symbol) (sym made);
            for_direction = ap (λ (x : RiskDecision). x.direction) (sym made);
            warnings = ap (λ (x : RiskDecision). x.warning_codes) (sym made);
            end =
                ap (λ (x : RiskDecision). x.expires_at) (sym made)
                ∙ if_false (is_blocked r.decision) ends (earlier e.plan.expires_at ends) granted;
          },
    )

closing :
    (x : Outside) (e : Evaluation) (t : Tables) (d : RiskDecision) (after : Tables)
    (safety : Database) (stale : Bool) (n : ℕ) (r : PureRiskResult) (d1 : RiskDecision)
    (written : List RiskReservationRecord) (done : RiskDecision × List RiskReservationRecord)
    → (d1, written) ≡ done
    → ◌≡◌ {A = Raises (RiskDecision × Tables)}
        (ok (done.0, record { safety = safety; reservations = done.1 }))
        (ok (d, after))
    → evaluate_pure_risk
        (final_input x e stale t (record { safety = safety; reservations = t.reservations }) n)
      ≡ ok r
    → d1.decision ≡ r.decision
    → (is_blocked d1.decision ≡ false → IsIssued e d1 r)
    → reconcile x e d1 none t.reservations ≡ ok written
    → (stale : Bool) × (n : ℕ) × (r : PureRiskResult) × IsFinal x e t after d stale n r
closing x e t d after safety stale n r d1 written done f h e7 same amount e6 =
    let end : (d1, record { safety = safety; reservations = written }) ≡ (d, after) =
      ap
        (λ (p : RiskDecision × List RiskReservationRecord).
          (p.0, record { safety = safety; reservations = p.1 }))
        f
      ∙ ok-injective h in
    subst
      (λ (p : RiskDecision × Tables).
        (stale : Bool) × (n : ℕ) × (r : PureRiskResult) × IsFinal x e t p.1 p.0 stale n r)
      end (stale, n, r, (e7, same, amount, e6))

-- An evaluation whose decision is not found went through the final evaluation.
pub fresh_IsFinal :
    (x : Outside) (e : Evaluation) (t : Tables) (d : RiskDecision) (after : Tables)
    → ((id : String) → x.find_existing_decision id ≡ none)
    → evaluate_candidate x e t ≡ ok (d, after)
    → (stale : Bool) × (n : ℕ) × (r : PureRiskResult) × IsFinal x e t after d stale n r
unfolding evaluate_candidate
fresh_IsFinal x e t d after new h =
    let (early, _, f1) = bind-ok (preflight e) _ h in
    let stale = quote_is_stale early in
    let (triggered, _, f2) =
      bind-ok
        (evaluate_automatic_triggers x.call e.account e.policy stale x.provider x.source
          (some early.safety_trigger_facts) t.safety)
        _ f1 in
    let mid : Tables = record t { safety = triggered.1 } in
    let (final, e3, f3) = bind-ok (evaluate_final x e stale mid) _ f2 in
    let id = x.decision_id final.0 final.1 in
    let made = to_live_decision e x.profile_id id final.0 in
    let (done, e4, f4) =
      bind-ok (by_cache x e (x.find_existing_decision id) made t.reservations) _ f3 in
    let (d1, e5, f5) =
      bind-ok made _ (ap (λ o. by_cache x e o made t.reservations) (sym (new id)) ∙ e4) in
    let (written, e6, f6) = bind-ok (reconcile x e d1 none t.reservations) _ f5 in
    let (n, e7) = final_parts x e stale mid final e3 in
    let (same, amount) = decided e x.profile_id id final.0 d1 e5 in
    closing x e t d after triggered.1 stale n final.0 d1 written done (ok-injective f6) f4 e7 same
      amount e6

pub not_blocked : (d r : Decision) → is_blocked d ≡ false → d ≡ r → r ≢ blocked
not_blocked d r h e f = both (is_blocked d) (ap is_blocked (e ∙ f)) h
  where
    both : (b : Bool) → b ≡ true → b ≡ false → ⊥
    both b x y = cc

inactive_state :
    (s : KillSwitchStatus) → kill_switch_code (input_state s) ≡ none → s ≡ KillSwitchStatus.inactive
inactive_state KillSwitchStatus.active h = cc
inactive_state KillSwitchStatus.inactive h = refl
inactive_state KillSwitchStatus.unknown h = cc

-- A new decision that is not BLOCKED has the pure core's grant over the live state: the kill switch
-- is INACTIVE after the automatic triggers of this very evaluation, and the decision passes on the
-- figures of a result of `evaluate_pure_risk`, its percentage, amount, size, distance to the stop and
-- exposures. The input of that result is valid and built from the tables, with the exposure of the
-- effective reservations, and for it every check passed: the news give no code that blocks, the plan
-- is live, the quote, the account and the specification are fresh, no loss limit is reached and no
-- cooldown runs, the portfolio has capacity, and the percentage, the amount and the size are the
-- ones that it leaves.
pub approval-IsGranted :
    (x : Outside) (e : Evaluation) (t : Tables) (d : RiskDecision) (after : Tables)
    → ((id : String) → x.find_existing_decision id ≡ none)
    → evaluate_candidate x e t ≡ ok (d, after)
    → is_blocked d.decision ≡ false
    → ((get_state x.call.default_version x.call.now after.safety.kill_switch_records).state
        ≡ KillSwitchStatus.inactive)
      × ((stale : Bool) × (n : ℕ) × (r : PureRiskResult) × (evaluate_pure_risk
              (final_input x e stale t after n)
            ≡ ok r)
          × (valid_input (final_input x e stale t after n) ≡ true)
          × (d.decision ≡ r.decision)
          × IsIssued e d r
          × IsGranted (canonical (final_input x e stale t after n)) r)
unfolding build_live_pure_input
approval-IsGranted x e t d after new h open_ =
    let (stale, n, r, (e1, same, issued, _)) = fresh_IsFinal x e t d after new h in
    let (valid, outcome) = evaluation_outcome (final_input x e stale t after n) r e1 in
    elim outcome [
      | inl refused ↦ absurd (not_blocked d.decision r.decision open_ same refused.decision)
      | inr (_, g) ↦ (
        inactive_state
            (get_state x.call.default_version x.call.now after.safety.kill_switch_records).state
            g.clear.switch,
        (stale, n, r, e1, valid, same, issued open_, g),
      )
    ]
