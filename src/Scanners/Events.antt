-- ===== src/Scanners/Events.antt =====
-- app/scanners/events.py: the plugins of the second stage.
use toss_api.Prelude.{
  ℕ, String, Bool, false, Option, none, some, List, [], ◌∷◌, map, length, last?, leb, if◌then◌else◌,
}
use toss_api.Exceptions.{plain, decimal_error}
use toss_api.Action.{Result, ok, err, bind, traverse}
use toss_api.Numeric.{Numeric}
use toss_api.Runtime.{JsonFields, number, string}
use toss_api.Db.Repositories.{MarketBarRow, NewsEventRow, DisclosureEventRow}
use toss_api.Db.Repositories.Market.{OrderBookSnapshotRow}
use toss_api.Toss.Status.{get_field}
use toss_api.Scanners.Universe.{total}

pub record EventScanInput (D : Type 0) : Type 0 where
  pub bars : List (MarketBarRow D)
  pub news : List NewsEventRow
  pub disclosures : List DisclosureEventRow
  pub orderbook : Option OrderBookSnapshotRow

module _ (D : Type 0) where
  -- An observed value or a threshold; only `Decimal`s become features.
  pub data Amount : Type 0 where
    no_amount : Amount
    decimal : D → Amount
    count : ℕ → Amount

  pub data Reason : Type 0 where
    fewer_than_two_bars previous_close_is_zero average_volume_is_zero : Reason
    no_bars close_is_zero no_orderbook no_orderbook_depth : Reason
    below : D → D → Reason
    too_few : ℕ → ℕ → Reason

  pub record EventDetection : Type 0 where
    pub event_name : String
    pub detected : Bool
    pub observed_value : Amount
    pub threshold : Amount
    pub market : Option String
    pub reason : Option Reason

  -- The protocol: a name, a market, and a detection that may raise.
  pub record EventScannerPlugin (F : Type 0) : Type 0 where
    pub name : String
    pub market : Option String
    pub detect : EventScanInput D → Result F EventDetection

module _ {D : Type 0} (name : String) (market : Option String) where
  -- `EventDetection(self.name, False, None, threshold, self.market, reason)`
  abbrev pub undetected : D → Reason D → EventDetection D
  undetected threshold why = record {
    event_name = name;
    detected = false;
    observed_value = no_amount;
    threshold = decimal threshold;
    market = market;
    reason = some why;
  }

  -- The end of the plugins that compare a ratio.
  abbrev pub by_ratio : Numeric D → D → D → EventDetection D
  by_ratio num threshold ratio =
      let detected = num.leb threshold ratio in
      record {
        event_name = name;
        detected = detected;
        observed_value = decimal ratio;
        threshold = decimal threshold;
        market = market;
        reason = if detected then none else some (below ratio threshold);
      }

  -- The end of the plugins that count.
  abbrev pub by_count : ℕ → ℕ → EventDetection D
  by_count min_count n =
      let detected = leb min_count n in
      record {
        event_name = name;
        detected = detected;
        observed_value = count n;
        threshold = count min_count;
        market = market;
        reason = if detected then none else some (too_few n min_count);
      }

  -- `NewsOccurrenceEventScanner.detect`
  unfoldable pub detect_news : {F : Type 0} → ℕ → EventScanInput D → Result F (EventDetection D)
  detect_news min_count data_in = ok (by_count min_count (length data_in.news))

  -- `DisclosureOccurrenceEventScanner.detect`
  unfoldable pub detect_disclosures :
      {F : Type 0} → ℕ → EventScanInput D → Result F (EventDetection D)
  detect_disclosures min_count data_in = ok (by_count min_count (length data_in.disclosures))

-- `xs[-2], xs[-1]`, `none` for fewer than two
abbrev pub last_two : {A : Type 0} → List A → Option (A × A)
last_two [] = none
last_two (x ∷ []) = none
last_two (x ∷ y ∷ []) = some (x, y)
last_two (x ∷ y ∷ z ∷ xs) = last_two (y ∷ z ∷ xs)

-- all but the last
abbrev pub init : {A : Type 0} → List A → List A
init [] = []
init (x ∷ []) = []
init (x ∷ y ∷ xs) = x ∷ init (y ∷ xs)

module _ {D : Type 0} (num : Numeric D) where
  -- `Decimal(str(level.get("volume", 0)))`: the text of anything but a number and a string is not a
  -- numeral, and `Decimal` raises.
  unfoldable pub volume_of : {F : Type 0} → JsonFields → Result F D
  volume_of level = elim (get_field "volume" level) [
    | none ↦ ok (num.of_ℕ 0)
    | some (number s) ↦ elim (num.of_text s) [ none ↦ err (plain decimal_error) | some v ↦ ok v ]
    | some (string s) ↦ elim (num.of_text s) [ none ↦ err (plain decimal_error) | some v ↦ ok v ]
    | some _ ↦ err (plain decimal_error)
  ]

  module _ (name : String) (market : Option String) where
    -- `PriceGapEventScanner.detect`
    unfoldable pub detect_price_gap :
        {F : Type 0} → D → EventScanInput D → Result F (EventDetection D)
    detect_price_gap min_gap_ratio data_in = ok (elim (last_two data_in.bars) [
      | none ↦ undetected name market min_gap_ratio fewer_than_two_bars
      | some (previous, latest) ↦
          let close = previous.values.close_price in
          if num.eqb close (num.of_ℕ 0)
          then undetected name market min_gap_ratio previous_close_is_zero
          else by_ratio name market num min_gap_ratio
              (num.div (num.abs (num.sub latest.values.open_price close)) close)
    ])

    -- `AbnormalVolumeEventScanner.detect`
    unfoldable pub detect_abnormal_volume :
        {F : Type 0} → D → EventScanInput D → Result F (EventDetection D)
    detect_abnormal_volume min_volume_multiple data_in =
        let history = init data_in.bars in
        let average =
          num.div (total num (map (λ bar. bar.values.volume) history))
            (num.of_ℕ (length history)) in
        ok (elim (last_two data_in.bars) [
          | none ↦ undetected name market min_volume_multiple fewer_than_two_bars
          | some (_, latest) ↦
              if num.eqb average (num.of_ℕ 0)
              then undetected name market min_volume_multiple average_volume_is_zero
              else by_ratio name market num min_volume_multiple
                  (num.div latest.values.volume average)
        ])

    -- `VolatilitySpikeEventScanner.detect`
    unfoldable pub detect_volatility_spike :
        {F : Type 0} → D → EventScanInput D → Result F (EventDetection D)
    detect_volatility_spike min_range_ratio data_in = ok (elim (last? data_in.bars) [
      | none ↦ undetected name market min_range_ratio no_bars
      | some latest ↦
          let v = latest.values in
          if num.eqb v.close_price (num.of_ℕ 0)
          then undetected name market min_range_ratio close_is_zero
          else by_ratio name market num min_range_ratio
              (num.div (num.sub v.high_price v.low_price) v.close_price)
    ])

    -- `OrderbookImbalanceEventScanner.detect`
    unfoldable pub detect_orderbook_imbalance :
        {F : Type 0} → D → EventScanInput D → Result F (EventDetection D)
    detect_orderbook_imbalance min_imbalance_ratio data_in = elim data_in.orderbook [
      | none ↦ ok (undetected name market min_imbalance_ratio no_orderbook)
      | some book ↦ bind (traverse (volume_of) book.values.bids) λ bids.
          bind (traverse (volume_of) book.values.asks) λ asks.
            let bid_volume = total num bids in
            let ask_volume = total num asks in
            let depth = num.add bid_volume ask_volume in
            ok (
              if num.eqb depth (num.of_ℕ 0)
              then undetected name market min_imbalance_ratio no_orderbook_depth
              else by_ratio name market num min_imbalance_ratio
                  (num.div (num.abs (num.sub bid_volume ask_volume)) depth))
    ]
