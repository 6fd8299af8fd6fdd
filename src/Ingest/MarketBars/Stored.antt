-- ===== src/Ingest/MarketBars/Stored.antt =====
-- What a call of the ingestor of candles leaves in the tables.
use mathlib.Core.Path.{subst}
use toss_api.Prelude.{
  sym, ℕ, String, ◌≡◌, refl, Bool, none, List, Has, Has-map, length, length-map, arith, Pairs,
  map-Pairs, some, none,
}
use toss_api.Prelude.Int.{ℤ}
use toss_api.Action.{Result, ok, err}
use toss_api.Numeric.{Numeric}
use toss_api.Runtime.{Environment}
use toss_api.World.{World}
use toss_api.Db.Sql.{Engine, IsPostgres}
use toss_api.Db.Revisions.{NewRow}
use toss_api.Db.Revisions.History.{IsLog}
use toss_api.Db.Repositories.Keys.{BarKey, bar_key_eq}
use toss_api.Db.Repositories.{BarValues, MarketBarRow, upsert_bars}
use toss_api.Db.Repositories.Market.{InstrumentRow, get_or_create}
use toss_api.Db.Repositories.Instruments.{IsUnique, get_or_create-row, get_or_create-one}
use toss_api.Toss.Client.{ClientConfig}
use toss_api.Toss.Dto.{Candle, CandleSeries}
use toss_api.Toss.Gateways.{Readers, CandleInterval, interval_value, get_candles}
use toss_api.Toss.Gateways.Conversions.{Answers, get_candles-IsSeries}
use toss_api.Ingest.Collectors.{IngestResult}
use toss_api.Ingest.Collectors.Stored.{Stored, append-Stored}
use toss_api.Ingest.MarketBars.{
  MarketBarIngestor, IngestState, new_instrument, candle_row, rows_of, after_candles,
  with_instrument, ingest_candles,
}

rows_of-timed :
    {D : Type 0} (source : String) (now instrument_id : ℕ) (series : CandleSeries D)
    (new : NewRow BarKey (BarValues D))
    → Has new (rows_of source now instrument_id series)
    → new.available_at ≡ now
rows_of-timed source now instrument_id series new m =
    let (a, _, q) =
      Has-map (candle_row source now instrument_id series.interval) series.candles new m in
    ground (arith, q)

-- The row of a candle, as known from `now` on.
pub record IsBarRow {D : Type 0} (source : String) (now instrument_id : ℕ) (timeframe : String)
    (k : Candle D) (new : NewRow BarKey (BarValues D)) : Type 0 where
  pub source_ : new.key.source ≡ source
  pub instrument : new.key.instrument_id ≡ instrument_id
  pub frame : new.key.timeframe ≡ timeframe
  pub event_time : new.key.event_time ≡ k.timestamp
  pub available_at : new.available_at ≡ now
  pub ingested_at : new.ingested_at ≡ now
  pub open_price : new.values.open_price ≡ k.open_price
  pub high_price : new.values.high_price ≡ k.high_price
  pub low_price : new.values.low_price ≡ k.low_price
  pub close_price : new.values.close_price ≡ k.close_price
  pub volume : new.values.volume ≡ k.volume
  pub currency : new.values.currency ≡ some k.currency

candle_row-IsBarRow :
    {D : Type 0} (source : String) (now instrument_id : ℕ) (timeframe frame : String)
    → timeframe ≡ frame
    → (k : Candle D)
    → IsBarRow source now instrument_id frame k (candle_row source now instrument_id timeframe k)
candle_row-IsBarRow source now instrument_id timeframe frame same k = record {
  source_ = refl;
  instrument = refl;
  frame = same;
  event_time = refl;
  available_at = refl;
  ingested_at = refl;
  open_price = refl;
  high_price = refl;
  low_price = refl;
  close_price = refl;
  volume = refl;
  currency = refl;
}

module _ {F D : Type 0} (bars : Engine (MarketBarRow D) BarKey) (num : Numeric F)
    (env : Environment F) (c : ClientConfig F) (read : Readers D) (capture : Bool)
    (ingestor : MarketBarIngestor) where
  -- The outcome of a call, of a state before it.
  pub record IsIngested (now : ℕ) (symbol : String) (interval : CandleInterval) (count : ℤ)
      (before after : IngestState F D) (r : Result F IngestResult) : Type 0 where
    pub one_row : IsUnique after.instruments
    pub instruments_kept : (i : InstrumentRow) → Has i before.instruments → Has i after.instruments
    -- a call that raises stores no bar
    pub failed : (e : _) → r ≡ err e → after.market_bars ≡ before.market_bars
    pub stored :
        (result : IngestResult)
        → r ≡ ok result
        → (i : InstrumentRow) × Has i after.instruments
          × (i.exchange ≡ ingestor.exchange)
          × (i.symbol ≡ symbol)
          × (series : CandleSeries D) × Answers read num env c capture symbol interval count none
              before.world series
          × (result.attempted ≡ length series.candles)
          × (rows : List (NewRow BarKey (BarValues D))) × Pairs
              (IsBarRow ingestor.source now i.id (interval_value interval))
              series.candles
              rows
          × Stored bar_key_eq bars now rows before.market_bars after.market_bars

module _ {F D K : Type 0} (bars : Engine (MarketBarRow D) BarKey) (pg : IsPostgres bars)
    (instruments : Engine InstrumentRow K) (pg' : IsPostgres instruments) (num : Numeric F)
    (env : Environment F) (c : ClientConfig F) (read : Readers D) (capture : Bool)
    (ingestor : MarketBarIngestor) where
  upsert_bars-Stored :
      (now : ℕ) (rows : List (NewRow BarKey (BarValues D))) (t : List (MarketBarRow D))
      → IsLog t
      → ((new : NewRow BarKey (BarValues D)) → Has new rows → new.available_at ≡ now)
      → Stored bar_key_eq bars now rows t (upsert_bars bars rows t).0
  unfolding upsert_bars
  upsert_bars-Stored now rows t log timed = append-Stored bar_key_eq bars pg now rows t log timed

  abbrev Ends :
      ℕ
      → String
      → CandleInterval
      → ℤ
      → IngestState F D
      → Result F IngestResult × IngestState F D
      → Type 0
  Ends now symbol interval count before out =
      IsIngested bars num env c read capture ingestor now symbol interval count before out.1 out.0

  after_candles-IsIngested :
      (now : ℕ) (symbol : String) (interval : CandleInterval) (count : ℤ) (s : IngestState F D)
      (i : InstrumentRow) (t : List InstrumentRow) (r : Result F (CandleSeries D)) (w : World F)
      → IsLog s.market_bars
      → IsUnique t
      → ((j : InstrumentRow) → Has j s.instruments → Has j t)
      → Has i t
      → i.exchange ≡ ingestor.exchange
      → i.symbol ≡ symbol
      → ((series : CandleSeries D)
          → r ≡ ok series
          → Answers read num env c capture symbol interval count none s.world series)
      → Ends now symbol interval count s (
          after_candles bars instruments num env c read capture ingestor now i.id
            (record s { instruments = t })
            r
            w)
  unfolding after_candles
  after_candles-IsIngested now symbol interval count s i t (err e) w log unique kept there exchange
        named gives =
      record {
        one_row = unique;
        instruments_kept = kept;
        failed = λ e' q. refl;
        stored = λ result q. absurd (ground (arith, q));
      }
  after_candles-IsIngested now symbol interval count s i t (ok series) w log unique kept there
        exchange named gives =
      let rows = rows_of ingestor.source now i.id series in
      record {
        one_row = unique;
        instruments_kept = kept;
        failed = λ e q. absurd (ground (arith, q));
        stored = λ result q. (
          i,
          there,
          exchange,
          named,
          series,
          gives series refl,
          ground (
            arith,
            q,
            length-map (candle_row ingestor.source now i.id series.interval) series.candles,
          ),
          rows,
          map-Pairs (IsBarRow ingestor.source now i.id (interval_value interval))
              (candle_row ingestor.source now i.id series.interval) series.candles
              (candle_row-IsBarRow ingestor.source now i.id series.interval
                (interval_value interval) (gives series refl).2.interval_),
          upsert_bars-Stored now rows s.market_bars log
              (rows_of-timed ingestor.source now i.id series),
        );
      }

  -- The table of instruments has one row for each symbol of an exchange, and the table of bars is a
  -- log. Then a call loses no instrument and makes no second row of one, and stores no bar if it
  -- raises. If it returns, it counts the candles of the series of the response to one call, a candle
  -- for each item, and has stored a batch with one row for each candle, in order, with the prices,
  -- the time, the interval, the id of the instrument's row and the source of the ingestor, as known
  -- from now on: no revision is lost, each row of the batch has one in the table of its key that is
  -- available now, what is new in the table is of the batch, every read as of an earlier time returns
  -- what it returned before, and the same batch at the same time adds nothing.
  pub ingest_candles-IsIngested :
      (id now : ℕ) (symbol : String) (interval : CandleInterval) (count : ℤ) (s : IngestState F D)
      → IsUnique s.instruments
      → IsLog s.market_bars
      → let (r, s') =
          ingest_candles bars instruments num env c read capture ingestor id now symbol interval
            count s in
        IsIngested bars num env c read capture ingestor now symbol interval count s s' r
  unfolding ingest_candles with_instrument
  ingest_candles-IsIngested id now symbol interval count s unique log =
      let new = new_instrument ingestor id symbol in
      let (i, found, there, exchange, named) =
        get_or_create-row instruments pg' new s.instruments unique in
      let (_, _, kept, unique') = get_or_create-one instruments pg' new s.instruments unique in
      let t = (get_or_create instruments new s.instruments).1 in
      let call = get_candles num env c read capture symbol interval count none s.world in
      let series = get_candles-IsSeries read num env c capture symbol interval count none s.world in
      subst
        (λ o. Ends now symbol interval count s (
          with_instrument bars instruments num env c read capture ingestor now symbol interval count
            o (record s { instruments = t })))
        (sym found)
        (after_candles-IsIngested now symbol interval count s i t call.0 call.1 log unique' kept
          there exchange named series.1)
