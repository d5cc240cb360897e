-- ===== src/Backtesting/Domain.antt =====
-- The data of backtesting/simulation_domain.py, and what simulation.py reads of plans, candles and
-- risk results. The keys that name a trade are left out.
use aigold_trader.Base.{ℕ, Bool, false, Option, none}
use aigold_trader.Decimal.{Decimal, zero_dec}
use aigold_trader.Risk.Domain.{Direction, Decision}

pub record Candle : Type 0 where
  pub open_time : ℕ
  pub open_price : Decimal
  pub high : Decimal
  pub low : Decimal
  pub close : Decimal

pub record Costs : Type 0 where
  pub spread_price : Decimal
  pub slippage_price_per_side : Decimal
  pub commission_usd_per_lot_per_side : Decimal

-- `target` is the price of the first target.
pub record Plan : Type 0 where
  pub direction : Direction
  pub entry_lower : Decimal
  pub entry_upper : Decimal
  pub stop_loss : Decimal
  pub target : Decimal
  pub expires_at : ℕ

pub record PureResult : Type 0 where
  pub decision : Decision
  pub position_size : Decimal
  pub approved_risk_amount : Decimal

-- The risk evaluation of an event: none, or not EVALUATED; EVALUATED with or without a result.
pub data RiskEvidence : Type 0 where
  not_evaluated : RiskEvidence
  evaluated : Option PureResult → RiskEvidence

pub record Event : Type 0 where
  pub as_of : ℕ
  pub trade_plan : Option Plan
  pub risk : RiskEvidence

pub data TradeStatus : Type 0 where
  no_plan risk_blocked not_filled_concurrent expired_unfilled filled_closed : TradeStatus

pub data ExitReason : Type 0 where
  end_of_run stop_hit take_profit : ExitReason

pub record SimulatedTrade : Type 0 where
  pub status : TradeStatus
  pub exit_reason : Option ExitReason
  pub ambiguous_sl_tp : Bool
  pub entry_at : Option ℕ
  pub exit_at : Option ℕ
  pub entry_price : Option Decimal
  pub exit_price : Option Decimal
  pub size : Decimal
  pub risk_amount : Decimal
  pub gross_pnl : Decimal
  pub commission : Decimal
  pub net_pnl : Decimal
  pub r_multiple : Option Decimal

-- `equity` is the balance.
pub record EquityPoint : Type 0 where
  pub at : ℕ
  pub balance : Decimal
  pub drawdown : Decimal
  pub drawdown_pct : Decimal

-- A trade that was not filled.
abbrev pub unfilled : TradeStatus → Decimal → Decimal → SimulatedTrade
unfilled status size amount = record {
  status = status;
  exit_reason = none;
  ambiguous_sl_tp = false;
  entry_at = none;
  exit_at = none;
  entry_price = none;
  exit_price = none;
  size = size;
  risk_amount = amount;
  gross_pnl = zero_dec;
  commission = zero_dec;
  net_pnl = zero_dec;
  r_multiple = none;
}
