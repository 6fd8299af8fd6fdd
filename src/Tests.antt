-- ===== src/Tests.antt =====
-- The theorems at concrete inputs.
pub mod Http
mod Toss
pub mod Db
mod Scanners
mod Signals
mod Ingest
mod Collectors
mod Training
mod Models
mod Orders
mod Research
mod AiContext
