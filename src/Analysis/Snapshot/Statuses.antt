-- ===== src/Analysis/Snapshot/Statuses.antt =====
-- analysis/engine.py: the status that `snapshot` gives to each module.
use aigold_trader.Base.{
  ℕ, ◌+◌, ◌-◌, ◌*◌, ◌/◌, ◌%◌, max, min, String, Bool, true, false, ◌&&◌, List, [], ◌∷◌, any, ltb,
  ◌==◌, if◌then◌else◌,
}
use aigold_trader.MarketData.Aggregation.{seconds_of}
use aigold_trader.Analysis.Domain.{
  Scope, internal, external, ZoneKind, fvg, ifvg, ob, breaker, HistoryStatus, complete, partial,
  empty, Status, ready, partial_history, insufficient_data, no_structure, ModuleStatus,
}
use aigold_trader.Analysis.Engine.{Setup, AnalysisEngine}
use aigold_trader.Analysis.Range.{is_scope}

pub data Module : Type 0 where
  structure : Scope → Module
  liquidity gaps order_blocks indicators sessions regime : Module

abbrev pub module_names : List (String × Module)
module_names =
    ("internal_structure", structure internal)
    ∷ ("external_structure", structure external)
    ∷ ("liquidity", liquidity)
    ∷ ("fvg", gaps)
    ∷ ("order_blocks", order_blocks)
    ∷ ("indicators", indicators)
    ∷ ("sessions", sessions)
    ∷ ("regime", regime)
    ∷ []

-- The bars of the sessions that are whole numbers of them.
unfoldable pub session_bars : ℕ → List (String × ℕ × ℕ) → List ℕ
session_bars period [] = []
session_bars period ((name, start, stop) ∷ rest) =
    let more = session_bars period rest in
    if (stop - start) * 3600 % period == 0 && start * 3600 % period == 0
    then (stop - start) * 3600 / period ∷ more
    else more

abbrev pub least_or : ℕ → List ℕ → ℕ
least_or n [] = n
least_or n (x ∷ []) = x
least_or n (x ∷ y ∷ rest) = min x (least_or n (y ∷ rest))

abbrev pub minimum_of : Setup → Module → ℕ
minimum_of s (structure internal) = s.config.internal_left + s.config.internal_right + 1
minimum_of s (structure external) = s.config.external_left + s.config.external_right + 1
minimum_of s liquidity = s.config.external_left + s.config.external_right + 1
minimum_of s gaps = 3
minimum_of s order_blocks =
    max (s.config.atr_period + 2) (s.config.internal_left + s.config.internal_right + 2)
minimum_of s indicators = max (s.config.atr_period * 2) s.config.average_period
minimum_of s sessions = least_or 1 (session_bars (seconds_of s.timeframe) s.config.session_hours)
minimum_of s regime = max (s.config.atr_period * 2) s.config.average_period

abbrev pub is_gap : ZoneKind → Bool
is_gap fvg = true
is_gap ifvg = true
is_gap ob = false
is_gap breaker = false

abbrev pub is_block : ZoneKind → Bool
is_block ob = true
is_block breaker = true
is_block fvg = false
is_block ifvg = false

abbrev pub is_filled : {A : Type 0} → List A → Bool
is_filled [] = false
is_filled (x ∷ xs) = true

abbrev pub is_available : AnalysisEngine → Module → Bool
is_available e (structure scope) = any (λ w. is_scope w.scope scope) e.swings
is_available e liquidity = is_filled e.levels
is_available e gaps = any (λ z. is_gap z.kind) e.zones
is_available e order_blocks = any (λ z. is_block z.kind) e.zones
is_available e sessions = is_filled e.sessions
is_available e indicators = true
is_available e regime = true

abbrev pub history_status : ℕ → ℕ → HistoryStatus
history_status requested returned =
    if returned == 0 then empty else if ltb returned requested then partial else complete

abbrev pub with_history : HistoryStatus → Status
with_history partial = partial_history
with_history complete = ready
with_history empty = ready

abbrev pub status_of : Setup → AnalysisEngine → HistoryStatus → Module → Status
status_of s e history m =
    if ltb e.count (minimum_of s m)
    then insufficient_data
    else if is_available e m
    then with_history history
    else no_structure

abbrev pub module_status : Setup → AnalysisEngine → HistoryStatus → Module → ModuleStatus
module_status s e history m = record {
  status = status_of s e history m;
  minimum_bars_required = minimum_of s m;
  available_bars = e.count;
}
