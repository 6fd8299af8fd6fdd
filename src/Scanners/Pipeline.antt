-- ===== src/Scanners/Pipeline.antt =====
-- app/scanners/candidate.py and app/scanners/pipeline.py: an instrument goes through the stages
-- until one of them turns it away, and becomes a candidate in any case.
pub mod Outcome
pub mod Stages
use toss_api.Prelude.{
  ℕ, ◌*◌, String, Bool, true, false, ◌&&◌, Option, none, some, List, [], ◌∷◌, map, filter, all, any,
  last?, str_eq, if◌then◌else◌,
}
use toss_api.Action.{Result, ok, err, bind, traverse}
use toss_api.Numeric.{Numeric}
use toss_api.Time.{day, earlier}
use toss_api.Db.Sql.{Engine}
use toss_api.Db.Repositories.{
  MarketBarRow, NewsEventRow, DisclosureEventRow, get_bars_as_of, get_news_as_of,
  get_disclosures_as_of,
}
use toss_api.Db.Repositories.Keys.{BarKey, EventKey, SnapshotKey}
use toss_api.Db.Repositories.Market.{
  InstrumentRow, OrderBookSnapshotRow, list_all, get_latest_as_of,
}
use toss_api.Scanners.Universe.{UniverseFilterInput, UniverseFilterResult, UniverseFilter}
use toss_api.Scanners.Events.{
  EventScanInput, EventDetection, EventScannerPlugin, Amount, no_amount, decimal, count,
}
use toss_api.Scanners.StrategyRules.{
  FeatureSet, StrategyRuleSet, StrategyScanResult, passed_all, evaluate,
}

pub record Candidate (D : Type 0) : Type 0 where
  pub instrument_id : ℕ
  pub symbol : String
  pub exchange : String
  pub as_of : ℕ
  pub data_source : String
  pub universe_results : List (UniverseFilterResult D)
  pub event_detections : List (EventDetection D)
  pub strategy_result : Option (StrategyScanResult D)
  pub qualified : Bool
  pub generated_at : ℕ

-- The properties of the class.
module _ {D : Type 0} where
  abbrev pub passed_universe : Candidate D → Bool
  passed_universe c = all (λ r. r.passed) c.universe_results

  abbrev pub has_triggering_event : Candidate D → Bool
  has_triggering_event c = any (λ d. d.detected) c.event_detections

  abbrev pub passed_strategy : Candidate D → Bool
  passed_strategy c = elim c.strategy_result [ none ↦ false | some s ↦ passed_all s ]

pub record PipelineConfig : Type 0 where
  pub timeframe : String
  pub lookback_days : ℕ
  pub news_lookback_days : ℕ
  pub disclosure_lookback_days : ℕ
  pub exchange : Option String

-- What the pipeline asks of the repositories.
pub record MarketReads (D : Type 0) : Type 0 where
  pub instruments : Option String → List InstrumentRow
  -- instrument, timeframe, start, end, as_of
  pub bars : ℕ → String → ℕ → ℕ → ℕ → List (MarketBarRow D)
  -- start, end, as_of
  pub news : ℕ → ℕ → ℕ → Option String → List NewsEventRow
  pub disclosures : ℕ → ℕ → ℕ → Option ℕ → List DisclosureEventRow
  -- instrument, as_of
  pub orderbook : ℕ → ℕ → Option OrderBookSnapshotRow

pub record Tables (D : Type 0) : Type 0 where
  pub instruments : List InstrumentRow
  pub market_bars : List (MarketBarRow D)
  pub news_events : List NewsEventRow
  pub disclosure_events : List DisclosureEventRow
  pub orderbook_snapshots : List OrderBookSnapshotRow

-- The repositories of one session, on its tables.
unfoldable pub session_reads :
    {D : Type 0}
    → (List InstrumentRow → List InstrumentRow)
    → Engine (MarketBarRow D) BarKey
    → Engine NewsEventRow EventKey
    → Engine DisclosureEventRow EventKey
    → Engine OrderBookSnapshotRow SnapshotKey
    → Tables D
    → MarketReads D
session_reads ordered bars news disclosures orderbooks t = record {
  instruments = λ exchange. list_all ordered exchange t.instruments;
  bars = λ i f start end as_of. get_bars_as_of bars i f start end as_of t.market_bars;
  news = λ start end as_of s. get_news_as_of news start end as_of s t.news_events;
  disclosures =
      λ start end as_of i. get_disclosures_as_of disclosures start end as_of i t.disclosure_events;
  orderbook = λ i as_of. get_latest_as_of orderbooks i as_of t.orderbook_snapshots;
}

module _ {D : Type 0} where
  -- `values[name] = value`: the new entry is the one that is found.
  abbrev pub set_value : String → D → List (String × D) → List (String × D)
  set_value name value values = (name, value) ∷ values

  -- The loop over the detections, which keeps the `Decimal`s.
  unfoldable pub with_detections : List (EventDetection D) → List (String × D) → List (String × D)
  with_detections [] values = values
  with_detections (d ∷ ds) values = elim d.observed_value [
    | decimal v ↦ with_detections ds (set_value d.event_name v values)
    | _ ↦ with_detections ds values
  ]

  abbrev pub bar_features : List (MarketBarRow D) → List (String × D)
  bar_features bars = elim (last? bars) [
    | none ↦ []
    | some latest ↦
        set_value "volume" latest.values.volume
          (set_value "close_price" latest.values.close_price [])
  ]

  -- `_build_feature_set`
  unfoldable pub build_feature_set :
      String → InstrumentRow → List (MarketBarRow D) → List (EventDetection D) → ℕ → FeatureSet D
  unfolding with_detections
  build_feature_set data_source instrument bars detections as_of = record {
    instrument_symbol = instrument.symbol;
    as_of = as_of;
    data_source = data_source;
    values = with_detections detections (bar_features bars);
  }

-- The arguments of the constructor. A filter, a plugin or a window outside the range of `datetime`
-- may raise.
pub record ScannerPipeline (D F : Type 0) : Type 0 where
  pub config : PipelineConfig
  pub universe_filters : List (UniverseFilter D F)
  pub event_scanners : List (EventScannerPlugin D F)
  pub strategy_rule_set : Option (StrategyRuleSet D)
  pub data_source : String

module _ {D F : Type 0} (num : Numeric D) (reads : MarketReads D) (p : ScannerPipeline D F) where
  -- The parts of a candidate that every return of `_scan_instrument` shares.
  abbrev pub candidate :
      InstrumentRow
      → ℕ
      → List (UniverseFilterResult D)
      → List (EventDetection D)
      → Option (StrategyScanResult D)
      → Bool
      → Candidate D
  candidate instrument as_of universe_results event_detections strategy_result qualified = record {
    instrument_id = instrument.id;
    symbol = instrument.symbol;
    exchange = instrument.exchange;
    as_of = as_of;
    data_source = p.data_source;
    universe_results = universe_results;
    event_detections = event_detections;
    strategy_result = strategy_result;
    qualified = qualified;
    generated_at = as_of;
  }

  abbrev pub is_applicable : InstrumentRow → EventScannerPlugin D F → Bool
  is_applicable instrument scanner = elim scanner.market [
    | none ↦ true
    | some m ↦ str_eq m instrument.exchange
  ]

  abbrev pub triggered : List (EventScannerPlugin D F) → List (EventDetection D) → Bool
  triggered [] detections = true
  triggered (_ ∷ _) detections = any (λ d. d.detected) detections

  -- The third stage, after an event.
  unfoldable pub scan_strategy :
      InstrumentRow
      → ℕ
      → List (MarketBarRow D)
      → List (UniverseFilterResult D)
      → List (EventDetection D)
      → Candidate D
  unfolding build_feature_set evaluate
  scan_strategy instrument as_of bars results detections =
      let features = build_feature_set p.data_source instrument bars detections as_of in
      elim p.strategy_rule_set [
        | none ↦ candidate instrument as_of results detections none true
        | some rules ↦
            let result = evaluate num rules features in
            candidate instrument as_of results detections (some result) (passed_all result)
      ]

  -- The inputs of the second stage.
  unfoldable pub event_input :
      InstrumentRow → ℕ → List (MarketBarRow D) → Result F (EventScanInput D)
  unfolding earlier
  event_input instrument as_of bars =
      bind (earlier as_of (p.config.news_lookback_days * day)) λ news_start.
        bind (earlier as_of (p.config.disclosure_lookback_days * day)) λ disclosure_start.
          ok (record {
            bars = bars;
            news = reads.news news_start as_of as_of (some instrument.symbol);
            disclosures = reads.disclosures disclosure_start as_of as_of (some instrument.id);
            orderbook = reads.orderbook instrument.id as_of;
          })

  -- The second stage, after the filters.
  unfoldable pub scan_events :
      InstrumentRow
      → ℕ
      → List (MarketBarRow D)
      → List (UniverseFilterResult D)
      → Result F (Candidate D)
  unfolding event_input scan_strategy
  scan_events instrument as_of bars results =
      let applicable = filter (is_applicable instrument) p.event_scanners in
      bind (event_input instrument as_of bars) λ data_in.
        bind (traverse (λ scanner. scanner.detect data_in) applicable) λ detections. ok (
          if triggered applicable detections
          then scan_strategy instrument as_of bars results detections
          else candidate instrument as_of results detections none false)

  -- `_scan_instrument`
  unfoldable pub scan_instrument : ℕ → InstrumentRow → Result F (Candidate D)
  unfolding scan_events earlier
  scan_instrument as_of instrument = bind (earlier as_of (p.config.lookback_days * day)) λ start.
      let bars = reads.bars instrument.id p.config.timeframe start as_of as_of in
      let data_in : UniverseFilterInput D = record {
        instrument = instrument;
        recent_bars = bars;
      } in
      bind (traverse (λ f. f.evaluate data_in) p.universe_filters) λ results.
        if all (λ r. r.passed) results
        then scan_events instrument as_of bars results
        else ok (candidate instrument as_of results [] none false)

  -- `scan`
  unfoldable pub scan : ℕ → Result F (List (Candidate D))
  unfolding scan_instrument
  scan as_of = traverse (scan_instrument as_of) (reads.instruments p.config.exchange)
