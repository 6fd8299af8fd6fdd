-- ===== src/Db/Repositories/Market.antt =====
-- app/db/repositories/market_data.py, the tables without revisions: instruments, trade_ticks and
-- orderbook_snapshots. The count of the rows that an upsert returns is left out.
use toss_api.Prelude.{
  ℕ, String, Bool, ◌&&◌, Option, none, some, List, [], ◌∷◌, leb, filter, last?, ◌==◌, str_eq,
  if◌then◌else◌,
}
use toss_api.Action.{Result}
use toss_api.Runtime.{Json, JsonFields}
use toss_api.Db.Sql.{Eq, Engine}
use toss_api.Db.Upsert.{EventRow, update, nothing, upsert_event_rows, select_as_of}
use toss_api.Db.Repositories.{optionally}
use toss_api.Db.Repositories.Keys.{SnapshotKey, TickKey, snapshot_key_eq}

-- instruments; only `raw_payload` is read as more than a label.
pub record InstrumentRow : Type 0 where
  pub id : ℕ
  pub exchange : String
  pub symbol : String
  pub name : Option String
  pub currency : Option String
  pub source : String
  pub raw_payload : Option Json

abbrev pub is_named : String → String → InstrumentRow → Bool
is_named exchange symbol i = str_eq i.exchange exchange && str_eq i.symbol symbol

-- `InstrumentRepository.get_by_symbol`, `one_or_none` under the unique constraint
unfoldable pub get_by_symbol : String → String → List InstrumentRow → Option InstrumentRow
get_by_symbol exchange symbol [] = none
get_by_symbol exchange symbol (i ∷ t) =
    if is_named exchange symbol i then some i else get_by_symbol exchange symbol t

-- `InstrumentRepository.get_or_create`, on the row with the `id` that the sequence gives next:
-- ON CONFLICT (exchange, symbol) only `updated_at` is set, which no row here carries, and RETURNING
-- gives the row of the conflict or the new one.
unfoldable pub get_or_create :
    {K : Type 0}
    → Engine InstrumentRow K
    → InstrumentRow
    → List InstrumentRow
    → Option InstrumentRow × List InstrumentRow
unfolding get_by_symbol
get_or_create eng new t =
    let t' =
      eng.insert_on_conflict (λ i old. is_named i.exchange i.symbol old) (λ old excluded. old) new
        t in
    (get_by_symbol new.exchange new.symbol t', t')

-- `InstrumentRepository.list_all`, with the ORDER BY of two text columns as a parameter
abbrev pub in_exchange : Option String → InstrumentRow → Bool
in_exchange exchange i = optionally exchange (λ x. str_eq i.exchange x)

unfoldable pub list_all :
    (List InstrumentRow → List InstrumentRow)
    → Option String
    → List InstrumentRow
    → List InstrumentRow
list_all ordered exchange t = ordered (filter (in_exchange exchange) t)

pub record TickValues : Type 0 where
  pub currency : Option String

abbrev pub TradeTickRow : Type 0 → Type 0
TradeTickRow D = EventRow (TickKey D) TickValues

-- The equality of the key columns is the database's, on a type `D` of decimals.
module _ {D : Type 0} (e : Eq (TickKey D)) (eng : Engine (TradeTickRow D) (TickKey D)) where
  -- `TradeTickRepository.upsert_ticks`
  unfoldable pub upsert_ticks :
      {F : Type 0}
      → List (TradeTickRow D)
      → List (TradeTickRow D)
      → Result F (List (TradeTickRow D))
  upsert_ticks = upsert_event_rows e eng nothing (λ old excluded. old)

  abbrev pub tick_filters : ℕ → ℕ → ℕ → TradeTickRow D → Bool
  tick_filters instrument_id start end r =
      r.key.instrument_id == instrument_id && leb start r.key.event_time && leb r.key.event_time end

  -- `TradeTickRepository.get_ticks_as_of`
  unfoldable pub get_ticks_as_of : ℕ → ℕ → ℕ → ℕ → List (TradeTickRow D) → List (TradeTickRow D)
  get_ticks_as_of instrument_id start end as_of =
      select_as_of e eng (λ r. r.key.event_time) (tick_filters instrument_id start end) as_of

pub record SnapshotValues : Type 0 where
  pub currency : Option String
  pub asks : List JsonFields
  pub bids : List JsonFields

abbrev pub OrderBookSnapshotRow : Type 0
OrderBookSnapshotRow = EventRow SnapshotKey SnapshotValues

module _ (eng : Engine OrderBookSnapshotRow SnapshotKey) where
  -- `OrderbookRepository.upsert_snapshots`, which updates every value column
  unfoldable pub upsert_snapshots :
      {F : Type 0}
      → List OrderBookSnapshotRow
      → List OrderBookSnapshotRow
      → Result F (List OrderBookSnapshotRow)
  upsert_snapshots = upsert_event_rows snapshot_key_eq eng update (λ old excluded. excluded)

  abbrev pub snapshot_filters : ℕ → OrderBookSnapshotRow → Bool
  snapshot_filters instrument_id r = r.key.instrument_id == instrument_id

  -- `OrderbookRepository.get_latest_as_of`: ORDER BY event_time DESC LIMIT 1 takes the last of the
  -- ascending order.
  unfoldable pub get_latest_as_of : ℕ → ℕ → List OrderBookSnapshotRow → Option OrderBookSnapshotRow
  get_latest_as_of instrument_id as_of t = last? (
      select_as_of snapshot_key_eq eng (λ r. r.key.event_time) (snapshot_filters instrument_id)
        as_of t)
