-- ===== src/Tests/Signals.antt =====
-- app/scanners/persistence.py and app/signals: one candidate that is persisted, and two databases
-- that differ in a bar that became known later.
use toss_api.Prelude.{◌≡◌, refl, true, none, some, [], ◌∷◌, arith, ltb, if◌then◌else◌}
use toss_api.Prelude.Int.{ℤ, pos}
use toss_api.Numeric.{integers}
use toss_api.Db.Sql.Lists.{lists, lists-IsPostgres}
use toss_api.Db.Inserts.Lists.{unique_insert, unique_insert-IsInsert}
use toss_api.Db.Repositories.Runs.{has_key}
use toss_api.Db.Repositories.Runs.Resume.{run_id, key_conflict}
use toss_api.Db.Repositories.Signals.{signal_key_eq}
use toss_api.Scanners.Persistence.{ScanTables, scan_run, persist_scan_results}
use toss_api.Scanners.Persistence.Recorded.{Records, persist_scan_results-Records}
use toss_api.Models.Quant.{QuantModelConfig, from_fitted_estimator}
use toss_api.Signals.{SignalEngine, build_signal_input}
use toss_api.Signals.LookAhead.{BarReads, on, build_signal_input-SameUntil}
use toss_api.Tests.Db.{bar}
use toss_api.Tests.Orders.{racing, commit_first-Keeps, identity-Keeps}
use toss_api.Tests.Scanners.{staged, classifier, deviation}

abbrev no_rows : ScanTables ℤ
no_rows = record { model_runs = []; signals = [] }

-- Another session starts the run of the key first.
persist_scan_results-Records_example :
    Records integers
      (unique_insert key_conflict (λ r. true))
      racing
      (λ r. true)
      (unique_insert-IsInsert key_conflict (λ r. true))
      (lists signal_key_eq)
      (lists-IsPostgres signal_key_eq)
      20
      (staged ∷ [])
      "daily"
      (persist_scan_results integers {F = ℤ}
        (unique_insert key_conflict (λ r. true))
        racing
        (lists signal_key_eq)
        (λ n. "1")
        8
        30
        31
        (staged ∷ [])
        (scan_run "quant" "s" "1")
        20
        (some "daily")
        no_rows)
persist_scan_results-Records_example =
    persist_scan_results-Records integers (unique_insert key_conflict (λ r. true)) racing
      (λ r. true) (unique_insert-IsInsert key_conflict (λ r. true)) (lists signal_key_eq)
      (lists-IsPostgres signal_key_eq) (λ n. "1") 8 30 31 20 (staged ∷ [])
      (scan_run "quant" "s" "1") "daily" no_rows refl commit_first-Keeps
      (identity-Keeps run_id (has_key "daily")) (ground arith) ((λ d m. elim m [ ]), tt)

-- The second database has a correction that is known from 51 on.
abbrev before_correction : BarReads ℤ
before_correction i f start end as_of = bar ∷ []

abbrev after_correction : BarReads ℤ
after_correction i f start end as_of =
    if ltb 50 as_of then record bar { revision = 2 } ∷ [] else bar ∷ []

abbrev config : QuantModelConfig ℤ
config = record {
  regularization_c = pos 1;
  calibration_method = "sigmoid";
  calibration_splits = 3;
  random_state = 0;
}

abbrev engine : SignalEngine ℤ ℤ
engine = record {
  bars = before_correction;
  regime_provider = record {
    bars = before_correction;
    classifier = classifier;
    benchmark_instrument_id = 1;
    timeframe = "1d";
    lookback_days = 0;
  };
  quant_model = some (from_fitted_estimator (λ v. pos 1) config);
  quant_model_name = "quant";
  quant_model_version = "1";
  quant_feature_schema_version = "1";
  quant_label_definition_version = "1";
  feature_timeframe = "1d";
  feature_lookback_days = 0;
}

build_signal_input-SameUntil_example :
    build_signal_input integers integers
      (λ d. d)
      deviation
      deviation
      (on engine before_correction before_correction)
      {E = ℤ}
      60
      1
      "005930"
      50
      []
      none
      none
    ≡ build_signal_input integers integers
        (λ d. d)
        deviation
        deviation
        (on engine after_correction after_correction)
        60
        1
        "005930"
        50
        []
        none
        none
build_signal_input-SameUntil_example =
    build_signal_input-SameUntil integers integers (λ d. d) deviation deviation engine
      before_correction after_correction before_correction after_correction 60 1 "005930" 50 [] none
      none (λ i f start. refl) (λ i f start. refl)
