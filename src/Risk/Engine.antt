-- ===== src/Risk/Engine.antt =====
-- risk/engine.py: RiskEngine.evaluate_candidate over the tables of the kill switch, of the health of
-- the data and of the reservations. The lock of the account makes an evaluation one step. The
-- fingerprint and the decision that is found for it are arguments, and so are the ids that are drawn,
-- the names of provider and source, and the text of a refusal.
pub mod OneToOne
pub mod Limit
pub mod Grant
pub mod WithinLimit
use aigold_trader.Base.{
  ℕ, ◌+◌, String, Bool, true, false, ◌&&◌, Option, none, some, List, ltb, if◌then◌else◌,
}
use aigold_trader.Decimal.{Decimal, zero_dec, ◌<ᵈ◌, ◌≤ᵈ◌}
use aigold_trader.Risk.Domain.{
  Raises, ok, raised, validation_error, ◌>>=◌, Direction, Decision, approved, reduced, blocked,
  seconds,
}
use aigold_trader.Risk.Capacity.{PureRiskCode, risk_amount}
use aigold_trader.Risk.KillSwitch.{get_state}
use aigold_trader.Risk.KillSwitch.Triggers.{Database, Call, evaluate_automatic_triggers}
use aigold_trader.Risk.PolicyCore.Inputs.{switch_unknown, healthy, degraded, DataHealthInputState}
use aigold_trader.Risk.PolicyCore.Evaluate.{PureRiskResult, evaluate_pure_risk}
use aigold_trader.Risk.Portfolio.{RiskReservationRecord, get_active_reservations}
use aigold_trader.Risk.Portfolio.Reservations.{Request, create_reservation}
use aigold_trader.Risk.Portfolio.Reservations.Release.{release_candidate_reservations}
use aigold_trader.Risk.LiveAdapter.{
  Evaluation, baseline_portfolio_snapshot, portfolio_snapshot_from_live, pure_kill_switch_from_live,
  build_live_pure_input, quote_is_stale,
}

pub record Tables : Type 0 where
  pub safety : Database
  pub reservations : List RiskReservationRecord

-- What the engine reads and returns of a RiskDecision.
pub record RiskDecision : Type 0 where
  pub id : String
  pub profile_id : String
  pub symbol : String
  pub direction : Direction
  pub decision : Decision
  pub requested_risk_pct : Decimal
  pub requested_risk_amount : Decimal
  pub approved_risk_pct : Decimal
  pub approved_risk_amount : Decimal
  pub position_size : Decimal
  pub stop_distance : Decimal
  pub portfolio_exposure_before : Decimal
  pub portfolio_exposure_after : Decimal
  pub blocked_codes : List PureRiskCode
  pub warning_codes : List PureRiskCode
  pub as_of : ℕ
  pub expires_at : ℕ

-- What comes from outside the engine. `decision_id` is that of the fingerprint of all dependencies.
pub record Outside : Type 0 where
  pub call : Call
  pub provider : String
  pub source : String
  pub profile_id : String
  pub reservation_id : String
  pub decision_id : PureRiskResult → Decimal → String
  pub find_existing_decision : String → Option RiskDecision
  pub reason : List PureRiskCode → String

abbrev pub is_blocked : Decision → Bool
is_blocked blocked = true
is_blocked approved = false
is_blocked reduced = false

abbrev pub earlier : ℕ → ℕ → ℕ
earlier a b = if ltb b a then b else a

abbrev pub requested_amount : Evaluation → PureRiskResult → Raises Decimal
requested_amount e r =
    if is_blocked r.decision
    then risk_amount e.policy.max_risk_per_trade_pct e.account.equity
    else ok r.normalized_requested_risk_amount

-- The bounds of the fields of a RiskDecision.
unfoldable pub valid_decision : Evaluation → RiskDecision → Bool
valid_decision e d =
    zero_dec ≤ᵈ d.requested_risk_pct
    && zero_dec ≤ᵈ d.approved_risk_pct
    && zero_dec ≤ᵈ d.requested_risk_amount
    && zero_dec ≤ᵈ d.approved_risk_amount
    && zero_dec ≤ᵈ d.position_size
    && zero_dec <ᵈ e.plan.entry_lower
    && zero_dec <ᵈ e.plan.entry_upper
    && zero_dec <ᵈ e.plan.stop_loss
    && zero_dec ≤ᵈ d.stop_distance
    && zero_dec ≤ᵈ d.portfolio_exposure_before
    && zero_dec ≤ᵈ d.portfolio_exposure_after

abbrev pub validated : Evaluation → RiskDecision → Raises RiskDecision
validated e d = if valid_decision e d then ok d else raised validation_error

-- `_to_live_decision`
unfoldable pub to_live_decision :
    Evaluation → String → String → PureRiskResult → Raises RiskDecision
to_live_decision e profile id r =
    let ends = e.as_of + seconds e.policy.reservation_ttl_seconds in
    let refused = is_blocked r.decision in
    do
      requested ← requested_amount e r
      validated e (record {
        id = id;
        profile_id = profile;
        symbol = e.candidate.symbol;
        direction = e.plan.direction;
        decision = r.decision;
        requested_risk_pct =
            if refused then e.policy.max_risk_per_trade_pct else r.normalized_requested_risk_pct;
        requested_risk_amount = requested;
        approved_risk_pct = if refused then zero_dec else r.approved_risk_pct;
        approved_risk_amount = if refused then zero_dec else r.approved_risk_amount;
        position_size = if refused then zero_dec else r.position_size;
        stop_distance = r.stop_distance;
        portfolio_exposure_before = r.portfolio_exposure_before;
        portfolio_exposure_after = r.portfolio_exposure_after;
        blocked_codes = r.blocked_codes;
        warning_codes = r.warning_codes;
        as_of = e.as_of;
        expires_at = if refused then ends else earlier e.plan.expires_at ends;
      })

-- `release_pending_active_reservations`
unfoldable pub release_pending :
    Evaluation → String → List RiskReservationRecord → List RiskReservationRecord
release_pending e reason rows =
    (release_candidate_reservations e.candidate.id e.as_of reason (some e.account.account_id)
      rows).0

abbrev pub request_of : Evaluation → RiskDecision → Option ℕ → Request
request_of e d cap = record {
  decision_id = d.id;
  account_id = e.account.account_id;
  profile_id = d.profile_id;
  symbol = d.symbol;
  direction = d.direction;
  risk_pct = d.approved_risk_pct;
  risk_amount = d.approved_risk_amount;
  position_size = d.position_size;
  policy = e.policy;
  now = e.as_of;
  candidate_id = some e.candidate.id;
  reserved_until_cap = cap;
}

-- The reservations after a decision, cached or new: released where it is BLOCKED, else one is made.
unfoldable pub reconcile :
    Outside
    → Evaluation
    → RiskDecision
    → Option ℕ
    → List RiskReservationRecord
    → Raises (List RiskReservationRecord)
unfolding release_pending
reconcile x e d cap rows =
    let made = create_reservation (request_of e d cap) x.reservation_id rows rows in
    if is_blocked d.decision
    then ok (release_pending e (x.reason d.blocked_codes) rows)
    else (do written ← made; ok written.0)

-- A decision that is found is returned as it is, with its own end. A new one is built first here, and
-- after the reservation there; both raise or neither does, if not always with the same error.
abbrev pub by_cache :
    Outside
    → Evaluation
    → Option RiskDecision
    → Raises RiskDecision
    → List RiskReservationRecord
    → Raises (RiskDecision × List RiskReservationRecord)
by_cache x e (some cached) fresh rows = do
  written ← reconcile x e cached (some cached.expires_at) rows
  ok (cached, written)
by_cache x e none fresh rows = do
  decision ← fresh
  written ← reconcile x e decision none rows
  ok (decision, written)

-- The preflight, whose kill switch is UNKNOWN, so that it approves nothing.
unfoldable pub preflight : Evaluation → Raises PureRiskResult
preflight e = do
  portfolio ← baseline_portfolio_snapshot e.account e.candidate e.plan
  evaluate_pure_risk (build_live_pure_input e switch_unknown healthy portfolio)

abbrev pub data_health_state : Bool → DataHealthInputState
data_health_state stale = if stale then degraded else healthy

-- The final evaluation, on what the triggers left.
unfoldable pub evaluate_final :
    Outside → Evaluation → Bool → Tables → Raises (PureRiskResult × Decimal)
evaluate_final x e stale t = do
  let state = get_state x.call.default_version x.call.now t.safety.kill_switch_records
  let rows = get_active_reservations t.reservations e.account.account_id e.as_of none
  snapshot ← portfolio_snapshot_from_live e.account e.candidate e.plan rows
  result ← evaluate_pure_risk (
      build_live_pure_input e (pure_kill_switch_from_live state) (data_health_state stale)
        snapshot.0)
  ok (result, snapshot.1)

unfoldable pub evaluate_candidate : Outside → Evaluation → Tables → Raises (RiskDecision × Tables)
evaluate_candidate x e t = do
  early ← preflight e
  triggered ←
      evaluate_automatic_triggers x.call e.account e.policy (quote_is_stale early) x.provider
        x.source (some early.safety_trigger_facts) t.safety
  let after = record t { safety = triggered.1 }
  final ← evaluate_final x e (quote_is_stale early) after
  let id = x.decision_id final.0 final.1
  let fresh = to_live_decision e x.profile_id id final.0
  done ← by_cache x e (x.find_existing_decision id) fresh t.reservations
  ok (done.0, record after { reservations = done.1 })
