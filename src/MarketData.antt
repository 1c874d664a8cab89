-- ===== src/MarketData.antt =====
-- The adapters of market data, infrastructure/market_data.
pub mod Retries
pub mod Json
pub mod Series
pub mod TwelveData
pub mod Cache
pub mod Fakes
