-- ===== src/Scanners/Pipeline/Outcome.antt =====
-- What the stages of the pipeline make of an instrument, said of the evidence that a candidate has.
use toss_api.Prelude.{
  ℕ, ◌+◌, ◌*◌, ◌≡◌, refl, String, Bool, true, false, ◌||◌, ◌⊎◌, Option, none, some, List, [], ◌∷◌,
  any, Pairs, last?, str_eq, arith, Option-cases, if◌then◌else◌,
}
use toss_api.Action.{ok}
use toss_api.Numeric.{Numeric}
use toss_api.Time.{day}
use toss_api.Db.Repositories.{MarketBarRow}
use toss_api.Db.Repositories.Market.{InstrumentRow}
use toss_api.Scanners.Events.{
  EventScanInput, EventDetection, EventScannerPlugin, Amount, no_amount, decimal, count,
}
use toss_api.Scanners.StrategyRules.{
  FeatureSet, StrategyRuleSet, lookup, get_feature, passed_all, evaluate,
}
use toss_api.Scanners.Pipeline.{
  Candidate, passed_universe, MarketReads, ScannerPipeline, set_value, with_detections,
  bar_features, build_feature_set,
}

abbrev pub is_empty : {A : Type 0} → List A → Bool
is_empty [] = true
is_empty (_ ∷ _) = false

-- No plugin was run, or one of them has detected its event.
abbrev pub has_trigger : {D : Type 0} → List (EventDetection D) → Bool
has_trigger ds = is_empty ds || any (λ d. d.detected) ds

-- A plugin without a market watches every exchange.
abbrev pub Watches : Option String → String → Type 0
Watches none exchange = Unit
Watches (some m) exchange = m ≡ exchange

-- The detections of the plugins that watch the exchange, in their order, on one input.
abbrev pub Ran :
    {D F : Type 0}
    → EventScanInput D
    → String
    → List (EventScannerPlugin D F)
    → List (EventDetection D)
    → Type 0
Ran data_in exchange [] ds = ds ≡ []
Ran {D} data_in exchange (s ∷ plugins) ds =
    ((d : EventDetection D) × (rest : List (EventDetection D)) × (ds ≡ d ∷ rest)
      × Watches s.market exchange
      × (s.detect data_in ≡ ok d)
      × Ran data_in exchange plugins rest)
    ⊎ (¬ Watches s.market exchange × Ran data_in exchange plugins ds)

module _ {D : Type 0} where
  -- The value under a name: of the last detection of the name that observed a Decimal, else the volume
  -- or the closing price of the last bar.
  abbrev pub observed : String → EventDetection D → Option D
  observed name d = elim d.observed_value [
    | decimal v ↦ if str_eq d.event_name name then some v else none
    | _ ↦ none
  ]

  abbrev pub last_observed : String → List (EventDetection D) → Option D
  last_observed name [] = none
  last_observed name (d ∷ ds) = elim (last_observed name ds) [
    | some v ↦ some v
    | none ↦ observed name d
  ]

  abbrev pub bar_value : String → Option (MarketBarRow D) → Option D
  bar_value name none = none
  bar_value name (some bar) =
      if str_eq "volume" name
      then some bar.values.volume
      else if str_eq "close_price" name
      then some bar.values.close_price
      else none

  abbrev pub value_of : String → List (EventDetection D) → List (MarketBarRow D) → Option D
  value_of name ds bars = elim (last_observed name ds) [
    | some v ↦ some v
    | none ↦ bar_value name (last? bars)
  ]

  abbrev latest : Option D → Option D → Option D
  latest newer older = elim newer [ some v ↦ some v | none ↦ older ]

  one_detection :
      (name event : String) (a : Amount D) (ds : List (EventDetection D))
      (values : List (String × D))
      → ((vs : List (String × D))
          → lookup name (with_detections ds vs) ≡ latest (last_observed name ds) (lookup name vs))
      → lookup name (elim a [
        | decimal v ↦ with_detections ds (set_value event v values)
        | _ ↦ with_detections ds values
      ])
        ≡ latest
            (latest
              (last_observed name ds)
              (elim a [ decimal v ↦ if str_eq event name then some v else none | _ ↦ none ]))
            (lookup name values)
  one_detection name event no_amount ds values ih = ground (arith, ih values)
  one_detection name event (count n) ds values ih = ground (arith, ih values)
  one_detection name event (decimal v) ds values ih = ground (arith, ih (set_value event v values))

  with_detections-lookup :
      (name : String) (ds : List (EventDetection D)) (values : List (String × D))
      → lookup name (with_detections ds values)
        ≡ latest (last_observed name ds) (lookup name values)
  unfolding with_detections
  with_detections-lookup name [] values = refl
  with_detections-lookup name (d ∷ ds) values =
      one_detection name d.event_name d.observed_value ds values (with_detections-lookup name ds)

  -- The features of an instrument that its conditions are evaluated on.
  pub record HasFeatures (data_source : String) (instrument : InstrumentRow)
      (bars : List (MarketBarRow D)) (ds : List (EventDetection D)) (as_of : ℕ)
      (features : FeatureSet D) : Type 0 where
    pub symbol : features.instrument_symbol ≡ instrument.symbol
    pub as_of_ : features.as_of ≡ as_of
    pub source : features.data_source ≡ data_source
    pub values : (name : String) → get_feature features name ≡ value_of name ds bars

  pub build_feature_set-HasFeatures :
      (data_source : String) (instrument : InstrumentRow) (bars : List (MarketBarRow D))
      (ds : List (EventDetection D)) (as_of : ℕ)
      → HasFeatures data_source instrument bars ds as_of
          (build_feature_set data_source instrument bars ds as_of)
  unfolding build_feature_set
  build_feature_set-HasFeatures data_source instrument bars ds as_of = record {
    symbol = refl;
    as_of_ = refl;
    source = refl;
    values = λ name.
        ground
          (arith, with_detections-lookup name ds (bar_features bars), Option-cases (last? bars));
  }

module _ {D F : Type 0} (reads : MarketReads D) (p : ScannerPipeline D F) (as_of : ℕ)
    (instrument : InstrumentRow) where
  -- The bars of the instrument in a window until `as_of`, as known then.
  abbrev pub bars_from : ℕ → List (MarketBarRow D)
  bars_from start = reads.bars instrument.id p.config.timeframe start as_of as_of

  -- What the plugins are given: the bars, the news of the symbol and the disclosures of the
  -- instrument in their windows, and the order book, each as known at `as_of`.
  pub record IsInput (bars : List (MarketBarRow D)) (data_in : EventScanInput D) : Type 0 where
    pub news_start : ℕ
    pub news_window : news_start + p.config.news_lookback_days * day ≡ as_of
    pub disclosure_start : ℕ
    pub disclosure_window : disclosure_start + p.config.disclosure_lookback_days * day ≡ as_of
    pub bars_ : data_in.bars ≡ bars
    pub news : data_in.news ≡ reads.news news_start as_of as_of (some instrument.symbol)
    pub disclosures :
        data_in.disclosures ≡ reads.disclosures disclosure_start as_of as_of (some instrument.id)
    pub orderbook : data_in.orderbook ≡ reads.orderbook instrument.id as_of

module _ {D F : Type 0} (num : Numeric D) (reads : MarketReads D) (p : ScannerPipeline D F)
    (as_of : ℕ) (instrument : InstrumentRow) where
  -- The third stage: no rules, or the verdict of the rules on the features.
  abbrev pub Judged : List (MarketBarRow D) → Candidate D → Type 0
  Judged bars c =
      ((p.strategy_rule_set ≡ none) × (c.strategy_result ≡ none) × (c.qualified ≡ true))
      ⊎ ((rules : StrategyRuleSet D) × (features : FeatureSet D) × (p.strategy_rule_set
            ≡ some rules)
          × HasFeatures p.data_source instrument bars c.event_detections as_of features
          × (c.strategy_result ≡ some (evaluate num rules features))
          × (c.qualified ≡ passed_all (evaluate num rules features)))

  -- The outcome of the stages.
  pub record IsStaged (c : Candidate D) : Type 0 where
    pub instrument_id : c.instrument_id ≡ instrument.id
    pub symbol : c.symbol ≡ instrument.symbol
    pub exchange : c.exchange ≡ instrument.exchange
    pub stamped : (c.as_of ≡ as_of) × (c.generated_at ≡ as_of)
    pub source : c.data_source ≡ p.data_source
    pub start : ℕ
    pub window : start + p.config.lookback_days * day ≡ as_of
    -- each filter, on the bars of the window
    pub filtered :
        Pairs
          (λ f r.
            f.evaluate (record {
              instrument = instrument;
              recent_bars = bars_from reads p as_of instrument start;
            })
            ≡ ok r)
          p.universe_filters
          c.universe_results
    -- the plugins run exactly after the filters have passed
    pub unscanned : passed_universe c ≡ false → c.event_detections ≡ []
    pub scanned :
        passed_universe c ≡ true
        → (data_in : EventScanInput D) × IsInput reads p as_of instrument
            (bars_from reads p as_of instrument start)
            data_in
          × Ran data_in instrument.exchange p.event_scanners c.event_detections
    -- the rules are judged exactly after an event, or where no plugin watches
    pub unjudged :
        (passed_universe c ≡ false) ⊎ (has_trigger c.event_detections ≡ false)
        → (c.strategy_result ≡ none) × (c.qualified ≡ false)
    pub judged :
        passed_universe c ≡ true
        → has_trigger c.event_detections ≡ true
        → Judged (bars_from reads p as_of instrument start) c
