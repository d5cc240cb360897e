-- ===== src/MarketData.antt =====
-- The market data, backend/app/services/market_data: candles of higher timeframes.
pub mod Aggregation
mod Examples
