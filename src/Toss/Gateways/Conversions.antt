-- ===== src/Toss/Gateways/Conversions.antt =====
-- What a series of candles is made of.
use toss_api.Prelude.{
  ℕ, String, ◌≡◌, refl, Bool, false, ◌&&◌, Option, none, some, ◌∷◌, Pairs, Pairs-compose,
  if◌then◌else◌, arith, Bool-cases, Option-cases, inl, inr,
}
use mathlib.Core.Path.{subst}
use toss_api.Prelude.Int.{ℤ, leb_ℤ}
use toss_api.Exceptions.{plain, value_error}
use toss_api.Action.{ok, err, bind-ok, traverse, traverse-Pairs, >>=-returned, from_result}
use toss_api.Numeric.{Numeric}
use toss_api.Runtime.{Json, JsonItems, JsonFields, string, object, Environment}
use toss_api.Toss.Status.{get_field}
use toss_api.Toss.Dto.Decoded.{
  IsPage, Elements, HasText, IsItem, items_of-Elements, candles_result_dto-IsPage,
}
use toss_api.World.{stock, World}
use toss_api.Toss.Client.{ClientConfig, TossResponseEnvelope, get_envelope}
use toss_api.Toss.Dto.{CandleDto, candles_result_dto, raw_envelope_dto, Candle, CandleSeries}
use toss_api.Toss.Gateways.{
  Readers, CandleInterval, interval_value, toss_source_name, min_candle_count, max_candle_count,
  to_decimal, parse_timestamp, metadata, candle_of, candles_of, candle_params, before_param,
  get_candles,
}

module _ {D : Type 0} (read : Readers D) where
  -- The candle has the numbers and the time, with its zone, that the texts of the item say.
  pub record Converts (dto : CandleDto) (k : Candle D) : Type 0 where
    pub timestamp : read.fromisoformat dto.timestamp ≡ some (some k.timestamp)
    pub open_price : read.decimal dto.open_price ≡ some k.open_price
    pub high_price : read.decimal dto.high_price ≡ some k.high_price
    pub low_price : read.decimal dto.low_price ≡ some k.low_price
    pub close_price : read.decimal dto.close_price ≡ some k.close_price
    pub volume : read.decimal dto.volume ≡ some k.volume
    pub currency : k.currency ≡ dto.currency

  module _ {F : Type 0} where
    to_decimal-ok :
        (text : String) (d : D) → to_decimal {F = F} read text ≡ ok d → read.decimal text ≡ some d
    unfolding to_decimal
    to_decimal-ok text d h = elim (Option-cases (read.decimal text)) [
      | inl e ↦ absurd (ground (arith, h, e))
      | inr (d', e) ↦ ground (arith, h, e)
    ]

    parse_timestamp-ok :
        (text : String) (n : ℕ)
        → parse_timestamp {F = F} {D = D} read text ≡ ok n
        → read.fromisoformat text ≡ some (some n)
    unfolding parse_timestamp
    parse_timestamp-ok text n h = elim (Option-cases (read.fromisoformat text)) [
      | inl e ↦ absurd (ground (arith, h, e))
      | inr (none, e) ↦ absurd (ground (arith, h, e))
      | inr (some n', e) ↦ ground (arith, h, e)
    ]

    candle_of-Converts :
        (capture : Bool) (dto : CandleDto) (k : Candle D)
        → candle_of {F = F} read capture dto ≡ ok k
        → Converts dto k
    unfolding candle_of
    candle_of-Converts capture dto k h =
        let (t, h0, r0) = bind-ok (parse_timestamp read dto.timestamp) _ k h in
        let (o, h1, r1) = bind-ok (to_decimal read dto.open_price) _ k r0 in
        let (u, h2, r2) = bind-ok (to_decimal read dto.high_price) _ k r1 in
        let (l, h3, r3) = bind-ok (to_decimal read dto.low_price) _ k r2 in
        let (c, h4, r4) = bind-ok (to_decimal read dto.close_price) _ k r3 in
        let (v, h5, r5) = bind-ok (to_decimal read dto.volume) _ k r4 in
        record {
          timestamp = ground (arith, parse_timestamp-ok dto.timestamp t h0, r5);
          open_price = ground (arith, to_decimal-ok dto.open_price o h1, r5);
          high_price = ground (arith, to_decimal-ok dto.high_price u h2, r5);
          low_price = ground (arith, to_decimal-ok dto.low_price l h3, r5);
          close_price = ground (arith, to_decimal-ok dto.close_price c h4, r5);
          volume = ground (arith, to_decimal-ok dto.volume v h5, r5);
          currency = ground (arith, r5);
        }

  -- The candle has the numbers, the time with its zone and the currency that the texts of the item say.
  pub record IsCandle (j : Json) (k : Candle D) : Type 0 where
    pub fields : JsonFields
    pub is_object : j ≡ object fields
    pub timestamp : HasText fields "timestamp" (λ x. read.fromisoformat x ≡ some (some k.timestamp))
    pub open_price : HasText fields "openPrice" (λ x. read.decimal x ≡ some k.open_price)
    pub high_price : HasText fields "highPrice" (λ x. read.decimal x ≡ some k.high_price)
    pub low_price : HasText fields "lowPrice" (λ x. read.decimal x ≡ some k.low_price)
    pub close_price : HasText fields "closePrice" (λ x. read.decimal x ≡ some k.close_price)
    pub volume : HasText fields "volume" (λ x. read.decimal x ≡ some k.volume)
    pub currency : get_field "currency" fields ≡ some (string k.currency)

  Converts-IsCandle :
      (j : Json) (dto : CandleDto) (k : Candle D) → IsItem j dto → Converts dto k → IsCandle j k
  Converts-IsCandle j dto k i c = record {
    fields = i.fields;
    is_object = i.is_object;
    timestamp = (dto.timestamp, i.timestamp, c.timestamp);
    open_price = (dto.open_price, i.open_price, c.open_price);
    high_price = (dto.high_price, i.high_price, c.high_price);
    low_price = (dto.low_price, i.low_price, c.low_price);
    close_price = (dto.close_price, i.close_price, c.close_price);
    volume = (dto.volume, i.volume, c.volume);
    currency = rw c.currency i.currency;
  }

  -- The series for the symbol and the interval that the response holds, as known from its receipt on.
  pub record IsSeries (symbol : String) (interval : CandleInterval) (capture : Bool)
      (e : TossResponseEnvelope) (s : CandleSeries D) : Type 0 where
    pub symbol_ : s.symbol ≡ symbol
    pub interval_ : s.interval ≡ interval_value interval
    pub source : s.metadata.source ≡ toss_source_name
    pub available_at : s.metadata.available_at ≡ e.received_at
    pub ingested_at : s.metadata.ingested_at ≡ e.received_at
    pub raw_payload : s.metadata.raw_payload ≡ (if capture then some e.payload else none)
    pub items : JsonItems
    pub page : IsPage e.payload items s.next_before
    pub candles : Elements IsCandle items s.candles

  candles_of-IsSeries :
      {F : Type 0} (capture : Bool) (symbol : String) (interval : CandleInterval)
      (e : TossResponseEnvelope) (s : CandleSeries D)
      → candles_of {F = F} read capture symbol interval e ≡ ok s
      → IsSeries symbol interval capture e s
  unfolding candles_of metadata
  candles_of-IsSeries {F} capture symbol interval e s h =
      let (result, h0, r0) = bind-ok (raw_envelope_dto {F = F} e.payload) _ s h in
      let (dto, h1, r1) = bind-ok (candles_result_dto {F = F} result) _ s r0 in
      let (ks, h2, r2) = bind-ok (traverse (candle_of {F = F} read capture) dto.candles) _ s r1 in
      let (items, js, page, same, read_all) =
        candles_result_dto-IsPage {F = F} e.payload result dto h0 h1 in
      let converted =
        traverse-Pairs Converts (candle_of {F = F} read capture) dto.candles ks
          (candle_of-Converts capture) h2 in
      let all : Pairs IsCandle js ks =
        Pairs-compose IsItem Converts IsCandle js dto.candles ks Converts-IsCandle read_all
          converted in
      let ends : (dto.next_before ≡ s.next_before) × (ks ≡ s.candles) =
        (ground (arith, r2), ground (arith, r2)) in
      record {
        symbol_ = ground (arith, r2);
        interval_ = ground (arith, r2);
        source = ground (arith, r2);
        available_at = ground (arith, r2);
        ingested_at = ground (arith, r2);
        raw_payload = ground (arith, r2);
        items = items;
        page = subst (IsPage e.payload items) ends.0 page;
        candles =
            subst (Elements IsCandle items) ends.1
              (items_of-Elements IsCandle items ks (subst (λ x. Pairs IsCandle x ks) same all));
      }

  module _ {F : Type 0} (num : Numeric F) (env : Environment F) (c : ClientConfig F)
      (capture : Bool) where
    -- The series of the response to one call of the path, with the parameters of the query.
    abbrev pub Answers :
        String → CandleInterval → ℤ → Option String → World F → CandleSeries D → Type 0
    Answers symbol interval count before w s =
        (e : TossResponseEnvelope) × ((get_envelope num env c "/api/v1/candles"
            (("symbol", symbol)
              ∷ ("interval", interval_value interval)
              ∷ ("count", read.show count)
              ∷ before_param before)
            false (some stock) w).0
          ≡ ok e)
        × IsSeries symbol interval capture e s

    -- A count that is not from 1 to 200 raises ValueError before anything is sent. A series that is
    -- returned is that of the response to a call of the path with the symbol, the interval and the
    -- count: it has a candle for each item of the response, in order, with the numbers, the time with
    -- its zone and the currency that the item's texts say; it names the page that the response names
    -- as next; it is stamped as available and ingested when the response was received; and it has the
    -- raw payload exactly if one is captured.
    pub get_candles-IsSeries :
        (symbol : String) (interval : CandleInterval) (count : ℤ) (before : Option String)
        (w : World F)
        → let out = get_candles num env c read capture symbol interval count before w in
          ((leb_ℤ min_candle_count count && leb_ℤ count max_candle_count) ≡ false
            → out ≡ (err (plain value_error), w))
          × ((s : CandleSeries D) → out.0 ≡ ok s → Answers symbol interval count before w s)
    unfolding get_candles candle_params
    get_candles-IsSeries symbol interval count before w = (
      λ b. rw b refl,
      λ s h. elim (Bool-cases (leb_ℤ min_candle_count count && leb_ℤ count max_candle_count)) [
        | inl b ↦
            let asked =
              get_envelope num env c "/api/v1/candles"
                (candle_params num env c read capture symbol interval count before) false
                (some stock) in
            let (e, answered, gives) =
              >>=-returned asked (λ x. from_result (candles_of read capture symbol interval x)) w s
                (rw b at h) in
            (e, answered, candles_of-IsSeries capture symbol interval e s gives)
        | inr b ↦ absurd (ground (arith, h, b))
      ],
    )
