-- ===== src/Db/Repositories/Portfolio.antt =====
-- app/db/repositories/positions.py and account.py: snapshots of what an account holds.
pub mod Current
use toss_api.Prelude.{
  ℕ, String, ◌≡◌, ◌↔◌, Bool, true, ◌&&◌, Option, List, leb, last?, ◌==◌, str_eq, eq_iff, arith,
}
use toss_api.Action.{Result}
use toss_api.Runtime.{JsonFields}
use toss_api.Db.Sql.{Eq, Engine}
use toss_api.Db.Upsert.{EventRow, update, upsert_event_rows, select_as_of}

pub record PositionKey : Type 0 where
  pub account_id : String
  pub instrument_id : ℕ
  pub event_time : ℕ
  pub source : String

pub record PositionValues (D : Type 0) : Type 0 where
  pub quantity : D
  pub avg_price : Option D

abbrev pub PositionRow : Type 0 → Type 0
PositionRow D = EventRow PositionKey (PositionValues D)

abbrev pub position_beq : PositionKey → PositionKey → Bool
position_beq a b =
    str_eq a.account_id b.account_id
    && a.instrument_id == b.instrument_id
    && a.event_time == b.event_time
    && str_eq a.source b.source

pub position_beq_iff : (a b : PositionKey) → (position_beq a b ≡ true) ↔ (a ≡ b)
position_beq_iff a b = (
  λ h. ground (arith, eq_iff a.account_id b.account_id, eq_iff a.source b.source),
  λ h. ground (arith, eq_iff a.account_id b.account_id, eq_iff a.source b.source),
)

abbrev pub position_key_eq : Eq PositionKey
position_key_eq = record { beq = position_beq; beq_iff = position_beq_iff }

module _ {D : Type 0} where
  -- `PositionRepository.upsert_positions`, which updates both value columns
  unfoldable pub upsert_positions :
      {F : Type 0}
      → Engine (PositionRow D) PositionKey
      → List (PositionRow D)
      → List (PositionRow D)
      → Result F (List (PositionRow D))
  upsert_positions eng = upsert_event_rows position_key_eq eng update (λ old excluded. excluded)

  abbrev pub position_filters : String → ℕ → PositionRow D → Bool
  position_filters account_id as_of r =
      str_eq r.key.account_id account_id && leb r.available_at as_of

  -- `PositionRepository.get_current_positions_as_of`: DISTINCT ON (instrument_id), ORDER BY
  -- instrument_id, event_time DESC and nothing more
  unfoldable pub get_current_positions_as_of :
      Engine (PositionRow D) ℕ → String → ℕ → List (PositionRow D) → List (PositionRow D)
  get_current_positions_as_of eng account_id as_of =
      eng.distinct_on (λ r. r.key.instrument_id) (position_filters account_id as_of)
        (λ r. r.key.event_time) (λ r. 0)

-- account_snapshots
pub record AccountKey : Type 0 where
  pub account_id : String
  pub event_time : ℕ
  pub source : String

pub record AccountValues (D : Type 0) : Type 0 where
  pub cash_balance : Option D
  pub buying_power : Option D
  pub raw_payload : Option JsonFields

abbrev pub AccountSnapshotRow : Type 0 → Type 0
AccountSnapshotRow D = EventRow AccountKey (AccountValues D)

abbrev pub account_beq : AccountKey → AccountKey → Bool
account_beq a b =
    str_eq a.account_id b.account_id && a.event_time == b.event_time && str_eq a.source b.source

pub account_beq_iff : (a b : AccountKey) → (account_beq a b ≡ true) ↔ (a ≡ b)
account_beq_iff a b = (
  λ h. ground (arith, eq_iff a.account_id b.account_id, eq_iff a.source b.source),
  λ h. ground (arith, eq_iff a.account_id b.account_id, eq_iff a.source b.source),
)

abbrev pub account_key_eq : Eq AccountKey
account_key_eq = record { beq = account_beq; beq_iff = account_beq_iff }

module _ {D : Type 0} (eng : Engine (AccountSnapshotRow D) AccountKey) where
  -- `AccountSnapshotRepository.upsert_snapshots`, which updates every value column
  unfoldable pub upsert_account_snapshots :
      {F : Type 0}
      → List (AccountSnapshotRow D)
      → List (AccountSnapshotRow D)
      → Result F (List (AccountSnapshotRow D))
  upsert_account_snapshots = upsert_event_rows account_key_eq eng update (λ old excluded. excluded)

  abbrev pub account_filters : String → AccountSnapshotRow D → Bool
  account_filters account_id r = str_eq r.key.account_id account_id

  -- `AccountSnapshotRepository.get_latest_as_of`: ORDER BY event_time DESC LIMIT 1 takes the last of
  -- the ascending order.
  unfoldable pub get_latest_account_as_of :
      String → ℕ → List (AccountSnapshotRow D) → Option (AccountSnapshotRow D)
  get_latest_account_as_of account_id as_of t =
      last? (
        select_as_of account_key_eq eng (λ r. r.key.event_time) (account_filters account_id) as_of
          t)
