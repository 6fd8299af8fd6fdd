-- ===== src/Db/Repositories/Keys.antt =====
-- The logical keys of the revisioned tables.
use toss_api.Prelude.{ℕ, String, ◌≡◌, ◌↔◌, Bool, true, ◌&&◌, ◌==◌, str_eq, eq_iff, arith}
use toss_api.Db.Sql.{Eq}

-- market_bars: instrument_id, timeframe, event_time, source
pub record BarKey : Type 0 where
  pub instrument_id : ℕ
  pub timeframe : String
  pub event_time : ℕ
  pub source : String

-- news_events and disclosure_events: source, external_id
pub record EventKey : Type 0 where
  pub source : String
  pub external_id : String

abbrev pub bar_beq : BarKey → BarKey → Bool
bar_beq a b =
    a.instrument_id == b.instrument_id
    && str_eq a.timeframe b.timeframe
    && a.event_time == b.event_time
    && str_eq a.source b.source

pub bar_beq_iff : (a b : BarKey) → (bar_beq a b ≡ true) ↔ (a ≡ b)
bar_beq_iff a b = (
  λ h. ground (arith, eq_iff a.timeframe b.timeframe, eq_iff a.source b.source),
  λ h. ground (arith, eq_iff a.timeframe b.timeframe, eq_iff a.source b.source),
)

abbrev pub event_beq : EventKey → EventKey → Bool
event_beq a b = str_eq a.source b.source && str_eq a.external_id b.external_id

pub event_beq_iff : (a b : EventKey) → (event_beq a b ≡ true) ↔ (a ≡ b)
event_beq_iff a b = (
  λ h. ground (arith, eq_iff a.source b.source, eq_iff a.external_id b.external_id),
  λ h. ground (arith, eq_iff a.source b.source, eq_iff a.external_id b.external_id),
)

abbrev pub bar_key_eq : Eq BarKey
bar_key_eq = record { beq = bar_beq; beq_iff = bar_beq_iff }

abbrev pub event_key_eq : Eq EventKey
event_key_eq = record { beq = event_beq; beq_iff = event_beq_iff }

-- orderbook_snapshots: instrument_id, event_time, source
pub record SnapshotKey : Type 0 where
  pub instrument_id : ℕ
  pub event_time : ℕ
  pub source : String

-- trade_ticks: instrument_id, event_time, source, price, volume
pub record TickKey (D : Type 0) : Type 0 where
  pub instrument_id : ℕ
  pub event_time : ℕ
  pub source : String
  pub price : D
  pub volume : D

abbrev pub snapshot_beq : SnapshotKey → SnapshotKey → Bool
snapshot_beq a b =
    a.instrument_id == b.instrument_id && a.event_time == b.event_time && str_eq a.source b.source

pub snapshot_beq_iff : (a b : SnapshotKey) → (snapshot_beq a b ≡ true) ↔ (a ≡ b)
snapshot_beq_iff a b =
    (λ h. ground (arith, eq_iff a.source b.source), λ h. ground (arith, eq_iff a.source b.source))

abbrev pub snapshot_key_eq : Eq SnapshotKey
snapshot_key_eq = record { beq = snapshot_beq; beq_iff = snapshot_beq_iff }
