-- ===== src/Toss/Dto.antt =====
-- app/toss/dto.py and models.py: the shapes of responses as pydantic reads them, and the records
-- that the adapters return. A field that is not declared is ignored. A Decimal is of a type `D`.
pub mod Decoded
use toss_api.Prelude.{ℕ, String, Option, none, some, List, [], ◌∷◌}
use toss_api.Exceptions.{plain, validation_error}
use toss_api.Action.{Result, ok, err, bind, traverse}
use toss_api.Runtime.{Json, JsonItems, JsonFields, null, string, array, object, nil, item}
use toss_api.Toss.Status.{get_field}

pub record PriceDto : Type 0 where
  pub symbol : String
  pub timestamp : String
  pub last_price : String
  pub currency : String

pub record OrderbookLevelDto : Type 0 where
  pub price : String
  pub volume : String

pub record OrderbookDto : Type 0 where
  pub timestamp : String
  pub currency : String
  pub asks : List OrderbookLevelDto
  pub bids : List OrderbookLevelDto

pub record TradeDto : Type 0 where
  pub price : String
  pub volume : String
  pub timestamp : String
  pub currency : String

pub record CandleDto : Type 0 where
  pub timestamp : String
  pub open_price : String
  pub high_price : String
  pub low_price : String
  pub close_price : String
  pub volume : String
  pub currency : String

pub record CandlesResultDto : Type 0 where
  pub candles : List CandleDto
  pub next_before : Option String

unfoldable pub items_of : JsonItems → List Json
items_of nil = []
items_of (item j rest) = j ∷ items_of rest

module _ {F : Type 0} where
  -- A required field of type `str`.
  unfoldable pub str_field : String → JsonFields → Result F String
  unfolding get_field
  str_field name fields = elim (get_field name fields) [
    | some (string s) ↦ ok s
    | _ ↦ err (plain validation_error)
  ]

  -- `str | None = None`
  unfoldable pub optional_str_field : String → JsonFields → Result F (Option String)
  unfolding get_field
  optional_str_field name fields = elim (get_field name fields) [
    | none ↦ ok none
    | some null ↦ ok none
    | some (string s) ↦ ok (some s)
    | _ ↦ err (plain validation_error)
  ]

  -- A model reads an object.
  unfoldable pub as_object : Json → Result F JsonFields
  as_object (object fields) = ok fields
  as_object _ = err (plain validation_error)

  -- `list[…]` reads an array.
  unfoldable pub as_list : Json → Result F (List Json)
  unfolding items_of
  as_list (array items) = ok (items_of items)
  as_list _ = err (plain validation_error)

  -- A required field of any type.
  unfoldable pub any_field : String → JsonFields → Result F Json
  unfolding get_field
  any_field name fields = elim (get_field name fields) [
    | some j ↦ ok j
    | none ↦ err (plain validation_error)
  ]

  unfoldable pub price_dto : Json → Result F PriceDto
  unfolding str_field as_object
  price_dto j = bind (as_object j) λ fields. bind (str_field "symbol" fields) λ symbol.
      bind (str_field "timestamp" fields) λ timestamp.
        bind (str_field "lastPrice" fields) λ last_price.
          bind (str_field "currency" fields) λ currency. ok (record {
            symbol = symbol;
            timestamp = timestamp;
            last_price = last_price;
            currency = currency;
          })

  unfoldable pub level_dto : Json → Result F OrderbookLevelDto
  unfolding str_field as_object
  level_dto j = bind (as_object j) λ fields. bind (str_field "price" fields) λ price.
      bind (str_field "volume" fields) λ volume. ok (record { price = price; volume = volume })

  unfoldable pub levels_dto : String → JsonFields → Result F (List OrderbookLevelDto)
  unfolding level_dto any_field as_list
  levels_dto name fields =
      bind (any_field name fields) λ j. bind (as_list j) λ levels. traverse level_dto levels

  unfoldable pub orderbook_dto : Json → Result F OrderbookDto
  unfolding levels_dto str_field as_object
  orderbook_dto j = bind (as_object j) λ fields. bind (str_field "timestamp" fields) λ timestamp.
      bind (str_field "currency" fields) λ currency. bind (levels_dto "asks" fields) λ asks.
        bind (levels_dto "bids" fields) λ bids.
          ok (record { timestamp = timestamp; currency = currency; asks = asks; bids = bids })

  unfoldable pub trade_dto : Json → Result F TradeDto
  unfolding str_field as_object
  trade_dto j = bind (as_object j) λ fields. bind (str_field "price" fields) λ price.
      bind (str_field "volume" fields) λ volume. bind (str_field "timestamp" fields) λ timestamp.
        bind (str_field "currency" fields) λ currency.
          ok (record { price = price; volume = volume; timestamp = timestamp; currency = currency })

  unfoldable pub candle_dto : Json → Result F CandleDto
  unfolding str_field as_object
  candle_dto j = bind (as_object j) λ fields. bind (str_field "timestamp" fields) λ timestamp.
      bind (str_field "openPrice" fields) λ open_price.
        bind (str_field "highPrice" fields) λ high_price.
          bind (str_field "lowPrice" fields) λ low_price.
            bind (str_field "closePrice" fields) λ close_price.
              bind (str_field "volume" fields) λ volume.
                bind (str_field "currency" fields) λ currency. ok (record {
                  timestamp = timestamp;
                  open_price = open_price;
                  high_price = high_price;
                  low_price = low_price;
                  close_price = close_price;
                  volume = volume;
                  currency = currency;
                })

  unfoldable pub candles_result_dto : Json → Result F CandlesResultDto
  unfolding candle_dto as_object any_field as_list optional_str_field
  candles_result_dto j = bind (as_object j) λ fields.
      bind (any_field "candles" fields) λ candles_field. bind (as_list candles_field) λ items.
        bind (traverse candle_dto items) λ candles.
          bind (optional_str_field "nextBefore" fields)
            λ next_before. ok (record { candles = candles; next_before = next_before })

  -- `RawEnvelopeDto`, and the `result` of every other response
  unfoldable pub raw_envelope_dto : Json → Result F Json
  unfolding as_object any_field
  raw_envelope_dto j = bind (as_object j) λ fields. any_field "result" fields

pub record RecordMetadata : Type 0 where
  pub source : String
  pub event_time : Option ℕ
  pub available_at : ℕ
  pub ingested_at : ℕ
  pub raw_payload : Option Json

module _ (D : Type 0) where
  pub record Quote : Type 0 where
    pub metadata : RecordMetadata
    pub symbol : String
    pub last_price : D
    pub currency : String

  pub record OrderBookLevel : Type 0 where
    pub price : D
    pub volume : D

  pub record OrderBookSnapshot : Type 0 where
    pub metadata : RecordMetadata
    pub symbol : String
    pub currency : String
    pub asks : List OrderBookLevel
    pub bids : List OrderBookLevel

  pub record TradeTick : Type 0 where
    pub metadata : RecordMetadata
    pub symbol : String
    pub price : D
    pub volume : D
    pub currency : String

  pub record Candle : Type 0 where
    pub timestamp : ℕ
    pub open_price : D
    pub high_price : D
    pub low_price : D
    pub close_price : D
    pub volume : D
    pub currency : String

  pub record CandleSeries : Type 0 where
    pub metadata : RecordMetadata
    pub symbol : String
    pub interval : String
    pub candles : List Candle
    pub next_before : Option String

pub record UnparsedRecord : Type 0 where
  pub metadata : RecordMetadata
  pub result : Json
