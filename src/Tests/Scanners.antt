-- ===== src/Tests/Scanners.antt =====
-- app/scanners and app/regime, run on integers: one instrument with two bars and one news item.
use toss_api.Prelude.{Bool, false, str_eq, ◌≡◌, true, none, some, List, [], ◌∷◌, length}
use toss_api.Prelude.Int.{ℤ, pos}
use toss_api.Numeric.{integers}
use toss_api.Db.Repositories.{MarketBarRow}
use toss_api.Db.Repositories.Market.{InstrumentRow}
use toss_api.Scanners.Universe
use toss_api.Scanners.Events
use toss_api.Scanners.Universe.{
  UniverseFilter, UniverseFilterInput, evaluate_liquidity, evaluate_raw_flag, split_dots,
}
use toss_api.Scanners.Events.{
  EventScannerPlugin, EventDetection, detect_news, detect_disclosures, detect_price_gap,
  detect_abnormal_volume, detect_volatility_spike, detect_orderbook_imbalance,
}
use toss_api.Scanners.Flags.{FlagOutcome, value_in, evaluate_raw_flag-FlagOutcome}
use toss_api.Runtime.{Json, string, object, field, end}
use toss_api.Scanners.StrategyRules.{FeatureSet, StrategyCondition, StrategyRuleSet, Comparator}
use toss_api.Scanners.Pipeline.{Candidate, MarketReads, ScannerPipeline}
use toss_api.Regime.{RegimeClassifier, RegimeInput, classify}
use toss_api.Regime.Assessment.{
  IsPlaced, place_of_trend, place_of_level, place_of_breadth, classify-IsPlaced,
}
use toss_api.Tests.Db.{bar}

abbrev samsung : InstrumentRow
samsung = record {
  id = 1;
  exchange = "KR";
  symbol = "005930";
  name = none;
  currency = none;
  source = "toss";
  raw_payload = none;
}

abbrev bars : List (MarketBarRow ℤ)
bars = bar ∷ record bar { revision = 2 } ∷ []

abbrev gap_up : StrategyCondition ℤ
gap_up = record {
  name = "price";
  field = "close_price";
  comparator = Comparator.gte;
  threshold = pos 10;
  description = "";
}

abbrev rules : StrategyRuleSet ℤ
rules = record { strategy_id = "s"; strategy_version = "1"; conditions = gap_up ∷ [] }

abbrev features : FeatureSet ℤ
features = record {
  instrument_symbol = "005930";
  as_of = 20;
  data_source = "toss";
  values = ("close_price", pos 11) ∷ [];
}

abbrev reads : MarketReads ℤ
reads = record {
  instruments = λ exchange. samsung ∷ [];
  bars = λ i f start end as_of. bars;
  news = λ start end as_of s. [];
  disclosures = λ start end as_of i. [];
  orderbook = λ i as_of. none;
}

abbrev news_plugin : EventScannerPlugin ℤ ℤ
news_plugin = record {
  name = "news";
  market = some "KR";
  detect = detect_news "news" (some "KR") 0;
}

abbrev liquid : UniverseFilter ℤ ℤ
liquid = record { name = "liquidity"; evaluate = evaluate_liquidity integers "liquidity" (pos 0) }

abbrev pipeline : ScannerPipeline ℤ ℤ
pipeline = record {
  config = record {
    timeframe = "1d";
    lookback_days = 0;
    news_lookback_days = 0;
    disclosure_lookback_days = 0;
    exchange = none;
  };
  universe_filters = liquid ∷ [];
  event_scanners = news_plugin ∷ [];
  strategy_rule_set = some rules;
  data_source = "toss";
}

-- What the pipeline makes of the instrument: it passes every stage.
abbrev pub staged : Candidate ℤ
staged = record {
  instrument_id = 1;
  symbol = "005930";
  exchange = "KR";
  as_of = 20;
  data_source = "toss";
  universe_results =
      record {
        filter_name = "liquidity";
        passed = true;
        observed_value = Universe.decimal (pos 1100);
        threshold = Universe.at_least (pos 0);
        reason = none;
      }
      ∷ [];
  event_detections =
      record {
        event_name = "news";
        detected = true;
        observed_value = Events.count 0;
        threshold = Events.count 0;
        market = some "KR";
        reason = none;
      }
      ∷ [];
  strategy_result = some (record {
    strategy_id = "s";
    strategy_version = "1";
    instrument_symbol = "005930";
    as_of = 20;
    data_source = "toss";
    condition_results =
        record {
          condition_name = "price";
          field = "close_price";
          passed = true;
          observed_value = some (pos 11);
          threshold = pos 10;
          reason = none;
        }
        ∷ [];
  });
  qualified = true;
  generated_at = 20;
}

abbrev pub classifier : RegimeClassifier ℤ
classifier = record {
  trend_lookback_bars = 1;
  trend_up_threshold = pos 1;
  trend_down_threshold = pos 0;
  volatility_lookback_bars = 1;
  high_volatility_threshold = pos 2;
  low_volatility_threshold = pos 1;
  breadth_expanding_threshold = pos 1;
  breadth_contracting_threshold = pos 0;
}

abbrev window : RegimeInput ℤ
window = record { bars = bars; advancing_count = some 3; declining_count = some 0 }

abbrev pub deviation : List ℤ → ℤ
deviation returns = pos (length returns)

classify-IsPlaced_example :
    let a = classify integers deviation classifier window 20 in
    IsPlaced integers (pos 1) (pos 0) (place_of_trend a.trend) a.observed_return
    × IsPlaced integers (pos 2) (pos 1) (place_of_level a.volatility_level) a.observed_volatility
    × IsPlaced integers (pos 1) (pos 0) (place_of_breadth a.breadth) a.observed_breadth_ratio
    × (length a.reasons ≡ 3)
    × (a.as_of ≡ 20)
classify-IsPlaced_example = classify-IsPlaced integers classifier deviation window 20

-- A payload whose field "state" is "halted".
abbrev halted : Json
halted = object (field "state" (string "halted") end)

abbrev flagged : UniverseFilterInput ℤ
flagged = record { instrument = record samsung { raw_payload = some halted }; recent_bars = [] }

abbrev same_text : Json → Json → Bool
same_text (string a) (string b) = str_eq a b
same_text a b = false

evaluate_raw_flag-FlagOutcome_example :
    FlagOutcome ℤ integers same_text "flag" "state"
      (string "halted" ∷ [])
      false
      flagged
      (value_in integers (split_dots "state") (some halted))
      (evaluate_raw_flag integers same_text "flag" "state" (string "halted" ∷ []) false flagged)
evaluate_raw_flag-FlagOutcome_example =
    evaluate_raw_flag-FlagOutcome ℤ integers same_text "flag" "state" (string "halted" ∷ []) false
      flagged
