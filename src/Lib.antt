-- ===== src/Lib.antt =====
-- Verification of the backend of AIGoldTrader, a decision-support system for trading gold. The
-- paths below are from the root of the repository; the services stand in backend/app/services.
--
-- The parts of the program and how they interact. The analysis engine reads swings, levels and
-- zones off the candles that the market data are aggregated to, and the strategy engine proposes a
-- candidate with a trade plan over them. The risk subsystem evaluates
-- the plan against a policy, the account, the symbol, the quote, the news and the kill switch, and
-- answers APPROVED, REDUCED or BLOCKED with a position size. The backtests replay candidates
-- through the same risk core and simulate fills. The AI agents comment on a candidate within one
-- resource budget for each request. Refresh sessions carry the authority of a login from one token
-- to the next.
--
-- Which file models which part:
--   Base                  native numbers, lists, integers: what the components share
--   Decimal               `decimal.Decimal` with 28 digits and ROUND_HALF_EVEN, the context of
--                         `_pure_risk_decimal_context`; Decimal/Order has its order,
--                         Decimal/Sums when a sum is exact
--   Risk/Domain           risk/domain.py: RiskPolicy, SymbolSpecification, AccountSnapshot with
--                         their validators
--   Risk/Sizing           risk/sizing.py: calculate_position_size, in stages
--   Risk/Cooldown         is_pure_cooldown_active of risk/policy_core.py
--   Risk/Capacity         _risk_amount and _portfolio_capacity of risk/policy_core.py
--   Risk/News             _news_evaluation of risk/policy_core.py
--   Risk/PolicyCore       evaluate_pure_risk: the input and its validation (Inputs), the checks
--                         before capacity (Gates), the decision (Evaluate)
--   Risk/KillSwitch       risk/kill_switch.py: get_state, check, activate, clear; its child
--                         Triggers has evaluate_automatic_triggers and the health counters
--   Risk/Portfolio        risk/portfolio.py: the active rows and check_budget_capacity; its
--                         children have create_reservation with the constraints of models/risk.py
--                         (Reservations), release_candidate_reservations and
--                         check_budget_and_reserve (Reservations/Release), get_summary (Summary)
--   Risk/LiveAdapter      risk/live_adapter.py: the input of the pure core from the live state
--   Risk/Engine           risk/engine.py: RiskEngine.evaluate_candidate
--   Risk/AccountState     risk/account_state.py: the state of a paper account and its creation; its
--                         children have the update (Change) and the snapshot (Observe)
--   Auth/RefreshSessions  refresh_sessions.py: consume_refresh_session and the revocations
--   Auth/Refresh          backend/app/api/auth.py: login, refresh and logout, with the two
--                         lookups of refresh_sessions.py
--   Backtesting/Domain    backtesting/simulation_domain.py
--   Backtesting/Simulation  the loop of backtesting/simulation.py
--   Backtesting/Metrics   compute_metrics of backtesting/metrics.py
--   Strategy/Lifecycle    transition of strategy/lifecycle.py; its child Records has the stored
--                         lifecycle, resolve_candidate_current_lifecycle and
--                         apply_terminal_candidate_transition, and the step of
--                         strategy/repository.py that ends the previous candidate
--   MarketData/Aggregation  bucket of market_data/domain.py and market_data/aggregation.py
--   Analysis/Domain       analysis/domain.py: the configuration and the objects of an analysis
--   Analysis/Indicators   analysis/indicators.py: the streaming indicators
--   Analysis/Engine       analysis/engine.py: AnalysisEngine; its children have _breaks (Breaks),
--                         _swing and _pivots (Swings), _liquidity, _zones and _fvg (Lifecycle),
--                         _periods (Periods), feed and analyze (Feed)
--   Analysis/Range        analysis/engine.py: _range
--   Analysis/Snapshot     analysis/engine.py: snapshot and analyze; its children have the status of
--                         each module (Statuses), the regime (Regimes) and values of
--                         analysis/indicators.py (Values)
--   Ai/Budget             ai/budget.py: AnalysisBudget and AnalysisReservation
-- The modules below a component are named for what they prove; Examples and Tests hold runs at
-- concrete inputs.
--
-- How state is modelled. A table is the list of its rows and an operation a function from rows to
-- rows; a lock or a transaction makes the operation one step. The objects of the budget stand in a
-- list that their index names, so that a shared reservation is one entry. An exception is a value
-- beside the state that it leaves. Instants and durations are numbers of microseconds, of ticks in
-- the budget and of seconds in aggregation and analysis; the clock, the ids that are drawn and the
-- rows that a query may find are arguments, and so are the decision that the engine finds by its
-- fingerprint and the table that an insertion of a reservation meets, since other transactions may
-- commit in between.
-- A comparison of differences of instants is written with sums, since subtraction stops at 0.
--
-- Bounds and fuel. A Decimal has any exponent at or above Etiny and no Overflow; InvalidOperation
-- and DivisionByZero are `none`. The count of digits runs on the number itself as fuel, which is
-- enough since n / 10 < n, and the removal of trailing zeros likewise. All other loops are
-- structural. Integers of Python are unbounded.
--
-- The numbers of a candle have the bounds of `Price` and `Amount`. The candle engine does not raise
-- here where a merge or a tick leaves a volume that is no Amount.
--
-- What is not modelled: texts for people (one code stands for each), the copies of the inputs kept
-- for audit, fingerprints and serialised payloads, the ORM and its sessions, caches in the
-- process, timeouts, the foreign key from a reservation to its decision. The Bollinger bands of a
-- snapshot, since a power of a decimal is not always rounded correctly and the way it is rounded is
-- not part of the source, the replay, the engines of strategies and news, the feeds of market data
-- and the AI providers are not modelled.
pub mod Base
pub mod Decimal
pub mod Risk
pub mod Analysis
pub mod Auth
pub mod Backtesting
pub mod Strategy
pub mod MarketData
pub mod Ai
