-- ===== src/Ingest/MarketBars.antt =====
-- app/ingest/market_data_ingestor.py: the candles of a symbol, from the server into the table of
-- bars. `now` is `clock()`, and `id` what the sequence of the instruments gives next.
pub mod Stored
use toss_api.Prelude.{ℕ, String, Bool, Option, none, some, List, map, length}
use toss_api.Prelude.Int.{ℤ}
use toss_api.Exceptions.{plain, python_exception}
use toss_api.Action.{ok, err, Result, Action}
use toss_api.Numeric.{Numeric}
use toss_api.Runtime.{Environment}
use toss_api.World.{World}
use toss_api.Db.Sql.{Engine}
use toss_api.Db.Revisions.{NewRow}
use toss_api.Db.Repositories.Keys.{BarKey}
use toss_api.Db.Repositories.{BarValues, MarketBarRow, upsert_bars}
use toss_api.Db.Repositories.Market.{InstrumentRow, get_or_create}
use toss_api.Toss.Client.{ClientConfig}
use toss_api.Toss.Dto.{Candle, CandleSeries}
use toss_api.Toss.Gateways.{Readers, CandleInterval, get_candles}
use toss_api.Ingest.Collectors.{IngestResult}

pub record MarketBarIngestor : Type 0 where
  pub exchange : String
  pub source : String

-- What a call reads and changes: the world of the client, and the two tables of the session.
pub record IngestState (F D : Type 0) : Type 0 where
  pub world : World F
  pub instruments : List InstrumentRow
  pub market_bars : List (MarketBarRow D)

abbrev pub new_instrument : MarketBarIngestor → ℕ → String → InstrumentRow
new_instrument ingestor id symbol = record {
  id = id;
  exchange = ingestor.exchange;
  symbol = symbol;
  name = none;
  currency = none;
  source = ingestor.source;
  raw_payload = none;
}

abbrev pub candle_row :
    {D : Type 0} → String → ℕ → ℕ → String → Candle D → NewRow BarKey (BarValues D)
candle_row source now instrument_id timeframe candle = record {
  key = record {
    instrument_id = instrument_id;
    timeframe = timeframe;
    event_time = candle.timestamp;
    source = source;
  };
  available_at = now;
  ingested_at = now;
  values = record {
    open_price = candle.open_price;
    high_price = candle.high_price;
    low_price = candle.low_price;
    close_price = candle.close_price;
    volume = candle.volume;
    currency = some candle.currency;
  };
}

abbrev pub rows_of :
    {D : Type 0} → String → ℕ → ℕ → CandleSeries D → List (NewRow BarKey (BarValues D))
rows_of source now instrument_id series =
    map (candle_row source now instrument_id series.interval) series.candles

module _ {F D K : Type 0} (bars : Engine (MarketBarRow D) BarKey)
    (instruments : Engine InstrumentRow K) (num : Numeric F) (env : Environment F)
    (c : ClientConfig F) (read : Readers D) (capture_raw_payload : Bool)
    (ingestor : MarketBarIngestor) where
  -- After the call of the adapter, which left `w`.
  after_candles :
      ℕ
      → ℕ
      → IngestState F D
      → Result F (CandleSeries D)
      → World F
      → Result F IngestResult × IngestState F D
  after_candles now instrument_id s (err e) w = (err e, record s { world = w })
  after_candles now instrument_id s (ok series) w =
      let rows = rows_of ingestor.source now instrument_id series in
      let (t, upserted) = upsert_bars bars rows s.market_bars in
      (
        ok (record { source = ingestor.source; attempted = length rows; upserted = upserted }),
        record s { world = w; market_bars = t },
      )

  -- `.one()` of the instrument, and what follows it.
  with_instrument :
      ℕ
      → String
      → CandleInterval
      → ℤ
      → Option InstrumentRow
      → Action F (IngestState F D) IngestResult
  unfolding after_candles
  with_instrument now symbol interval count none s = (err (plain python_exception), s)
  with_instrument now symbol interval count (some instrument) s =
      let (r, w) =
        get_candles num env c read capture_raw_payload symbol interval count none s.world in
      after_candles now instrument.id s r w

  -- `MarketBarIngestor.ingest_candles`
  unfoldable pub ingest_candles :
      ℕ → ℕ → String → CandleInterval → ℤ → Action F (IngestState F D) IngestResult
  unfolding with_instrument
  ingest_candles id now symbol interval count s =
      let (instrument, t) =
        get_or_create instruments (new_instrument ingestor id symbol) s.instruments in
      with_instrument now symbol interval count instrument (record s { instruments = t })
