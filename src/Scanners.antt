-- ===== src/Scanners.antt =====
-- app/scanners: the stages that turn the stored market data into candidates.
pub mod Universe
pub mod Events
pub mod StrategyRules
pub mod Pipeline
pub mod Persistence
pub mod Evidence
pub mod Flags
