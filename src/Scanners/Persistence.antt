-- ===== src/Scanners/Persistence.antt =====
-- app/scanners/persistence.py: the candidates of a scan as signals of one run. A value in a payload
-- stands for its JSON text. `clock` is `clock()`, `now` the database's time, and `show` the text of
-- a number.
pub mod Recorded
use toss_api.Prelude.{
  ℕ, String, Bool, true, false, Option, none, some, List, [], ◌∷◌, map, filter, length,
  if◌then◌else◌,
}
use toss_api.Action.{Result, ok, err, Action, pure, modify, from_result, ◌>>=◌, ◌>>◌}
use toss_api.Numeric.{Numeric}
use toss_api.Runtime.{JsonFields, number, end, field}
use toss_api.Db.Sql.{Engine}
use toss_api.Db.Inserts.{Insert, Others}
use toss_api.Db.Repositories.Runs.{RunRow, ModelRun, start_run, finish_run}
use toss_api.Db.Repositories.Signals.{SignalKey, SignalRow, upsert_signals}
use toss_api.Scanners.Universe.{UniverseFilterResult}
use toss_api.Scanners.Events.{EventDetection}
use toss_api.Scanners.StrategyRules.{StrategyScanResult}
use toss_api.Scanners.Pipeline.{Candidate}

pub record CandidatePayload (D : Type 0) : Type 0 where
  pub universe_results : List (UniverseFilterResult D)
  pub event_detections : List (EventDetection D)
  pub strategy_result : Option (StrategyScanResult D)
  pub qualified : Bool

-- The two tables of the session.
pub record ScanTables (D : Type 0) : Type 0 where
  pub model_runs : List (RunRow ModelRun)
  pub signals : List (SignalRow D (CandidatePayload D))

unfoldable pub complete_run : {D : Type 0} → ℕ → JsonFields → ℕ → ScanTables D → ScanTables D
complete_run run_id metrics now t = record t {
  model_runs = finish_run run_id "completed" (some metrics) now t.model_runs;
}

-- The arguments of `start_run`.
abbrev pub scan_run : String → String → String → ModelRun
scan_run model_name strategy_id strategy_version = record {
  model_name = model_name;
  model_version = none;
  strategy_id = some strategy_id;
  strategy_version = some strategy_version;
}

module _ {D : Type 0} (num : Numeric D) where
  -- `_candidate_payload`
  unfoldable pub candidate_payload : Candidate D → CandidatePayload D
  candidate_payload c = record {
    universe_results = c.universe_results;
    event_detections = c.event_detections;
    strategy_result = c.strategy_result;
    qualified = c.qualified;
  }

  -- The row of a candidate.
  unfoldable pub signal_of : ℕ → ℕ → ℕ → String → Candidate D → SignalRow D (CandidatePayload D)
  unfolding candidate_payload
  signal_of run_id as_of clock model_name c = record {
    key = record { model_run_id = run_id; instrument_id = c.instrument_id; event_time = as_of };
    available_at = clock;
    ingested_at = clock;
    values = record {
      signal_value = some (if c.qualified then num.of_ℕ 1 else num.of_ℕ 0);
      signal_label = some (if c.qualified then "qualified" else "not_qualified");
      payload = some (candidate_payload c);
      source = model_name;
    };
  }

  metrics_of : (ℕ → String) → List (Candidate D) → JsonFields
  metrics_of show candidates =
      field "candidate_count" (number (show (length candidates))) (
        field "qualified_count" (number (show (length (filter (λ c. c.qualified) candidates)))) end)

  module _ {F : Type 0} (insert : Insert (RunRow ModelRun)) (others : Others (RunRow ModelRun))
      (eng : Engine (SignalRow D (CandidatePayload D)) SignalKey) where
    -- Calls of the two repositories, on the tables of the session.
    unfoldable pub start_scan : ℕ → ModelRun → Option String → Action F (ScanTables D) (ℕ × Bool)
    start_scan id run idempotency_key t =
        let (r, runs) = start_run insert others id run none idempotency_key t.model_runs in
        (r, record t { model_runs = runs })

    write_signals :
        Result F (List (SignalRow D (CandidatePayload D))) → Action F (ScanTables D) (Unit {0})
    write_signals (ok signals) t = (ok tt, record t { signals = signals })
    write_signals (err e) t = (err e, t)

    unfoldable pub save_signals :
        List (SignalRow D (CandidatePayload D)) → Action F (ScanTables D) (Unit {0})
    unfolding write_signals
    save_signals rows t = write_signals (upsert_signals eng rows t.signals) t

    -- `persist_scan_results`
    unfoldable pub persist_scan_results :
        (ℕ → String)
        → ℕ
        → ℕ
        → ℕ
        → List (Candidate D)
        → ModelRun
        → ℕ
        → Option String
        → Action F (ScanTables D) ℕ
    unfolding start_scan save_signals complete_run metrics_of
    persist_scan_results show id clock now candidates run as_of idempotency_key =
        start_scan id run idempotency_key >>= λ started.
        (save_signals (map (signal_of started.0 as_of clock run.model_name) candidates)
          >> (modify (complete_run started.0 (metrics_of show candidates) now)
              >> pure (length candidates)))
