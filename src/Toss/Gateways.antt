-- ===== src/Toss/Gateways.antt =====
-- app/toss/market_data.py, portfolio.py and conversions.py: the calls of the two adapters.
pub mod ReadOnly
pub mod Conversions
use Prim.Native.String.{◌++◌}
use toss_api.Prelude.{
  ℕ, String, Bool, true, false, ◌&&◌, Option, none, some, List, [], ◌∷◌, if◌then◌else◌,
}
use toss_api.Prelude.Int.{ℤ, pos, leb_ℤ}
use toss_api.Exceptions.{plain, value_error, data_validation_error}
use toss_api.Action.{Result, ok, err, bind, traverse, Action, raise, from_result, ◌>>=◌}
use toss_api.Numeric.{Numeric}
use toss_api.Runtime.{Json, Environment}
use toss_api.World.{RateLimitGroup, account, asset, stock, World}
use toss_api.Toss.Client.{ClientConfig, TossResponseEnvelope, get_envelope}
use toss_api.Toss.Dto.{
  PriceDto, OrderbookLevelDto, TradeDto, CandleDto, price_dto, orderbook_dto, trade_dto,
  candles_result_dto, raw_envelope_dto, as_list, RecordMetadata, Quote, OrderBookLevel,
  OrderBookSnapshot, TradeTick, Candle, CandleSeries, UnparsedRecord,
}

-- What the adapters ask of Python: `Decimal(text)`; `datetime.fromisoformat(text)`, with the instant
-- where the result has a time zone; and the text of a number in a query.
pub record Readers (D : Type 0) : Type 0 where
  pub decimal : String → Option D
  pub fromisoformat : String → Option (Option ℕ)
  pub show : ℤ → String

abbrev pub toss_source_name : String
toss_source_name = "toss_openapi"

abbrev pub min_candle_count : ℤ
min_candle_count = pos 1

abbrev pub max_candle_count : ℤ
max_candle_count = pos 200

pub data CandleInterval : Type 0 where
  one_minute one_day : CandleInterval

unfoldable pub interval_value : CandleInterval → String
interval_value one_minute = "1m"
interval_value one_day = "1d"

module _ {F D : Type 0} (read : Readers D) where
  unfoldable pub to_decimal : String → Result F D
  to_decimal value = elim (read.decimal value) [
    | none ↦ err (plain data_validation_error)
    | some d ↦ ok d
  ]

  -- A text that does not parse, and a time without a zone, are refused alike.
  unfoldable pub parse_timestamp : String → Result F ℕ
  parse_timestamp value = elim (read.fromisoformat value) [
    | none ↦ err (plain data_validation_error)
    | some none ↦ err (plain data_validation_error)
    | some (some instant) ↦ ok instant
  ]

-- `_metadata`, of both adapters
unfoldable pub metadata : Bool → TossResponseEnvelope → Option ℕ → RecordMetadata
metadata capture_raw_payload envelope event_time = record {
  source = toss_source_name;
  event_time = event_time;
  available_at = envelope.received_at;
  ingested_at = envelope.received_at;
  raw_payload = if capture_raw_payload then some envelope.payload else none;
}

module _ {F D : Type 0} (read : Readers D) (capture_raw_payload : Bool) where
  -- `get_price` after the call: the first of the results.
  first_quote : TossResponseEnvelope → List PriceDto → Result F (Quote D)
  unfolding parse_timestamp to_decimal metadata
  first_quote envelope [] = err (plain data_validation_error)
  first_quote envelope (dto ∷ more) = bind (parse_timestamp read dto.timestamp) λ event_time.
      bind (to_decimal read dto.last_price) λ last_price. ok (record {
        metadata = metadata capture_raw_payload envelope (some event_time);
        symbol = dto.symbol;
        last_price = last_price;
        currency = dto.currency;
      })

  unfoldable pub quote_of : TossResponseEnvelope → Result F (Quote D)
  unfolding first_quote
  quote_of envelope = bind (raw_envelope_dto envelope.payload) λ result.
      bind (as_list result) λ items. bind (traverse price_dto items) (first_quote envelope)

  -- `_level`
  unfoldable pub level_of : OrderbookLevelDto → Result F (OrderBookLevel D)
  unfolding to_decimal
  level_of dto = bind (to_decimal read dto.price) λ price.
      bind (to_decimal read dto.volume) λ volume. ok (record { price = price; volume = volume })

  unfoldable pub orderbook_of : String → TossResponseEnvelope → Result F (OrderBookSnapshot D)
  unfolding level_of parse_timestamp metadata
  orderbook_of symbol envelope = bind (raw_envelope_dto envelope.payload) λ result.
      bind (orderbook_dto result) λ dto. bind (parse_timestamp read dto.timestamp) λ event_time.
        bind (traverse level_of dto.asks) λ asks. bind (traverse level_of dto.bids) λ bids.
          ok (record {
            metadata = metadata capture_raw_payload envelope (some event_time);
            symbol = symbol;
            currency = dto.currency;
            asks = asks;
            bids = bids;
          })

  unfoldable pub tick_of : String → TossResponseEnvelope → TradeDto → Result F (TradeTick D)
  unfolding parse_timestamp to_decimal metadata
  tick_of symbol envelope dto = bind (parse_timestamp read dto.timestamp) λ event_time.
      bind (to_decimal read dto.price) λ price. bind (to_decimal read dto.volume) λ volume.
        ok (record {
          metadata = metadata capture_raw_payload envelope (some event_time);
          symbol = symbol;
          price = price;
          volume = volume;
          currency = dto.currency;
        })

  unfoldable pub ticks_of : String → TossResponseEnvelope → Result F (List (TradeTick D))
  unfolding tick_of
  ticks_of symbol envelope = bind (raw_envelope_dto envelope.payload) λ result.
      bind (as_list result)
        λ items. bind (traverse trade_dto items) (traverse (tick_of symbol envelope))

  unfoldable pub candle_of : CandleDto → Result F (Candle D)
  unfolding parse_timestamp to_decimal
  candle_of dto = bind (parse_timestamp read dto.timestamp) λ timestamp.
      bind (to_decimal read dto.open_price) λ open_price.
        bind (to_decimal read dto.high_price) λ high_price.
          bind (to_decimal read dto.low_price) λ low_price.
            bind (to_decimal read dto.close_price) λ close_price.
              bind (to_decimal read dto.volume) λ volume. ok (record {
                timestamp = timestamp;
                open_price = open_price;
                high_price = high_price;
                low_price = low_price;
                close_price = close_price;
                volume = volume;
                currency = dto.currency;
              })

  unfoldable pub candles_of :
      String → CandleInterval → TossResponseEnvelope → Result F (CandleSeries D)
  unfolding candle_of metadata interval_value
  candles_of symbol interval envelope = bind (raw_envelope_dto envelope.payload) λ result.
      bind (candles_result_dto result) λ dto. bind (traverse candle_of dto.candles) λ candles.
        ok (record {
          metadata = metadata capture_raw_payload envelope none;
          symbol = symbol;
          interval = interval_value interval;
          candles = candles;
          next_before = dto.next_before;
        })

unfoldable pub unparsed_of : {F : Type 0} → Bool → TossResponseEnvelope → Result F UnparsedRecord
unfolding metadata
unparsed_of capture_raw_payload envelope =
    bind (raw_envelope_dto envelope.payload) λ result.
      ok (record { metadata = metadata capture_raw_payload envelope none; result = result })

abbrev pub before_param : Option String → List (String × String)
before_param none = []
before_param (some before) = ("before", before) ∷ []

module _ {F D : Type 0} (num : Numeric F) (env : Environment F) (c : ClientConfig F)
    (read : Readers D) (capture_raw_payload : Bool) where
  -- `MarketDataAdapter`
  unfoldable pub get_price : String → Action F (World F) (Quote D)
  get_price symbol =
      get_envelope num env c "/api/v1/prices" (("symbol", symbol) ∷ []) false (some stock)
      >>= λ envelope. from_result (quote_of read capture_raw_payload envelope)

  unfoldable pub get_orderbook : String → Action F (World F) (OrderBookSnapshot D)
  get_orderbook symbol =
      get_envelope num env c "/api/v1/orderbook" (("symbol", symbol) ∷ []) false (some stock)
      >>= λ envelope. from_result (orderbook_of read capture_raw_payload symbol envelope)

  unfoldable pub get_trades : String → Action F (World F) (List (TradeTick D))
  get_trades symbol =
      get_envelope num env c "/api/v1/trades" (("symbol", symbol) ∷ []) false (some stock)
      >>= λ envelope. from_result (ticks_of read capture_raw_payload symbol envelope)

  candle_params : String → CandleInterval → ℤ → Option String → List (String × String)
  unfolding interval_value
  candle_params symbol interval count before =
      ("symbol", symbol)
      ∷ ("interval", interval_value interval)
      ∷ ("count", read.show count)
      ∷ before_param before

  unfoldable pub get_candles :
      String → CandleInterval → ℤ → Option String → Action F (World F) (CandleSeries D)
  unfolding candle_params
  get_candles symbol interval count before =
      if leb_ℤ min_candle_count count && leb_ℤ count max_candle_count
      then (get_envelope num env c "/api/v1/candles" (candle_params symbol interval count before)
            false (some stock)
          >>= λ envelope.
              from_result (candles_of read capture_raw_payload symbol interval envelope))
      else raise (plain value_error)

module _ {F : Type 0} (num : Numeric F) (env : Environment F) (c : ClientConfig F)
    (capture_raw_payload : Bool) where
  -- `_get_unparsed` of the one adapter, and `_get` of the other, which asks for the account
  unfoldable pub get_unparsed :
      String → List (String × String) → Bool → RateLimitGroup → Action F (World F) UnparsedRecord
  get_unparsed path params requires_account group =
      get_envelope num env c path params requires_account (some group) >>= λ envelope.
      from_result (unparsed_of capture_raw_payload envelope)

  unfoldable pub get_price_limits : String → Action F (World F) UnparsedRecord
  get_price_limits symbol =
      get_unparsed "/api/v1/price-limits" (("symbol", symbol) ∷ []) false stock

  unfoldable pub get_stocks : List (String × String) → Action F (World F) UnparsedRecord
  get_stocks params = get_unparsed "/api/v1/stocks" params false stock

  -- `PortfolioReadAdapter`
  unfoldable pub get_accounts : Action F (World F) UnparsedRecord
  get_accounts = get_unparsed "/api/v1/accounts" [] true account

  unfoldable pub get_holdings : Action F (World F) UnparsedRecord
  get_holdings = get_unparsed "/api/v1/holdings" [] true asset

  unfoldable pub get_orders : List (String × String) → Action F (World F) UnparsedRecord
  get_orders params = get_unparsed "/api/v1/orders" params true account

  unfoldable pub get_order : String → Action F (World F) UnparsedRecord
  get_order order_id = get_unparsed ("/api/v1/orders/" ++ order_id) [] true account

  unfoldable pub get_buying_power : List (String × String) → Action F (World F) UnparsedRecord
  get_buying_power params = get_unparsed "/api/v1/buying-power" params true account

  unfoldable pub get_sellable_quantity : String → Action F (World F) UnparsedRecord
  get_sellable_quantity symbol =
      get_unparsed "/api/v1/sellable-quantity" (("symbol", symbol) ∷ []) true account

  unfoldable pub get_commissions : List (String × String) → Action F (World F) UnparsedRecord
  get_commissions params = get_unparsed "/api/v1/commissions" params true account
