-- ===== src/Ingest.antt =====
-- app/ingest: what feeds the data platform.
pub mod Scheduler
pub mod StrategySync
pub mod Collectors
pub mod MarketBars
