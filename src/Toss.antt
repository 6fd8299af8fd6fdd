-- ===== src/Toss.antt =====
-- app/toss: the read-only client of the Toss Open API, from the mapping of statuses up to the
-- gateways.
pub mod Status
pub mod StatusRetry
pub mod Throttle
pub mod Token
pub mod Auth
pub mod Client
pub mod Dto
pub mod Gateways
