-- ===== src/Risk/Examples.antt =====
-- The inputs of the runs of the risk subsystem.
mod Evaluations
mod Parts
mod Live
use aigold_trader.Base.{true, none, pos}
use aigold_trader.Decimal.{Decimal, dec, of_int, zero_dec}
use aigold_trader.Risk.Domain.{long, RiskPolicy, SymbolSpecification, AccountSnapshot}
use aigold_trader.Risk.Capacity.{PortfolioExposureSnapshot, integrity_ok}
use aigold_trader.Risk.News.{Quote}
use aigold_trader.Risk.PolicyCore.Inputs.{TradePlan}

-- A policy with limits that the request meets.
abbrev pub policy : RiskPolicy
policy = record {
  max_risk_per_trade_pct = dec (pos 100) 2;
  min_risk_per_trade_pct = dec (pos 10) 2;
  max_account_risk_pct = dec (pos 300) 2;
  max_symbol_risk_pct = dec (pos 200) 2;
  max_directional_risk_pct = dec (pos 200) 2;
  max_concurrent_trades = 3;
  daily_loss_limit_pct = dec (pos 300) 2;
  weekly_loss_limit_pct = dec (pos 600) 2;
  max_drawdown_pct = dec (pos 1000) 2;
  cooldown_consecutive_losses = 3;
  cooldown_period_minutes = 60;
  max_spread_multiplier = dec (pos 20) 1;
  max_spread_absolute = dec (pos 50) 2;
  quote_freshness_seconds = 5;
  account_freshness_seconds = 60;
  symbol_spec_freshness_seconds = 86400;
  news_risk_enabled = true;
  news_high_impact_blackout_pre_minutes = 15;
  news_high_impact_pre_minutes = 60;
  news_high_impact_post_minutes = 30;
  news_reduction_factor = dec (pos 50) 2;
  min_volume = dec (pos 1) 2;
  max_volume = dec (pos 1000) 2;
  volume_step = dec (pos 1) 2;
  reservation_ttl_seconds = 300;
  data_health_consecutive_failures = 3;
}

abbrev pub gold : SymbolSpecification
gold = record {
  symbol = "XAUUSD";
  tick_size = dec (pos 1) 2;
  tick_value = of_int (pos 1);
  contract_size = of_int (pos 100);
  volume_min = dec (pos 1) 2;
  volume_max = of_int (pos 10);
  volume_step = dec (pos 1) 2;
  digits = 2;
  observed_at = 1000000000;
}

abbrev pub account : AccountSnapshot
account = record {
  account_id = "demo";
  balance = of_int (pos 10000);
  equity = of_int (pos 10000);
  daily_realized_pnl = zero_dec;
  weekly_realized_pnl = zero_dec;
  peak_equity = of_int (pos 10000);
  open_risk_pct = zero_dec;
  reserved_risk_pct = zero_dec;
  consecutive_losses = 0;
  last_loss_at = none;
  cooldown_until = none;
  open_positions_count = pos 0;
  as_of = 1000000000;
}

abbrev pub plan : TradePlan
plan = record {
  candidate_id = "c1";
  symbol = "XAUUSD";
  direction = long;
  entry_lower = of_int (pos 2000);
  entry_upper = of_int (pos 2001);
  stop_loss = of_int (pos 1990);
  status = "SUGGESTION_ONLY";
  expires_at = 5000000000;
}

abbrev pub quote : Quote
quote = record {
  timestamp = 1000000000;
  bid = dec (pos 20000) 1;
  ask = dec (pos 20002) 1;
  spread = dec (pos 2) 1;
}

abbrev pub portfolio : PortfolioExposureSnapshot
portfolio = record {
  symbol = "XAUUSD";
  direction = long;
  open_risk_pct = zero_dec;
  reserved_risk_pct = dec (pos 50) 2;
  symbol_risk_pct = dec (pos 150) 2;
  directional_risk_pct = dec (pos 50) 2;
  active_reservation_count = 1;
  open_position_count = 0;
  reservation_integrity = integrity_ok;
}

abbrev pub requested : Decimal
requested = dec (pos 100) 2
