-- ===== src/Scanners/Persistence/Recorded.antt =====
-- What a scan leaves in the tables.
use mathlib.Core.Path.{subst}
use toss_api.Prelude.{
  ℕ, String, ◌≡◌, ◌≢◌, refl, sym, ◌∙◌, inl, inr, Bool, true, false, none, some, List, [], ◌∷◌, map,
  Has, map-Has, any, length, arith, eq_iff, if◌then◌else◌,
}
use toss_api.Action.{Result, ok, pure, modify, ◌>>◌, >>=-ok}
use toss_api.Numeric.{Numeric}
use toss_api.Db.Sql.{Engine, IsPostgres}
use toss_api.Db.Inserts.{Insert, IsInsert, Others, get_or_insert}
use toss_api.Db.Inserts.Race.{AtMostOne, Holds, Keeps, get_or_insert-Settled}
use toss_api.Db.Repositories.Runs.{RunRow, ModelRun, has_key, new_run, start_keyed, start_run}
use toss_api.Db.Repositories.Runs.Resume.{run_id, key_conflict, Stands, finish_run-Stands}
use toss_api.Db.Repositories.Signals.{
  SignalKey, SignalRow, signal_key_eq, set_signal_values, upsert_signals,
}
use toss_api.Db.Upsert.{update, set_columns, collides, insert_rows, upsert_event_rows}
use toss_api.Db.Upsert.Writes.{Written, upsert_event_rows-Written}
use toss_api.Scanners.Pipeline.{Candidate}
use toss_api.Scanners.Persistence.{
  CandidatePayload, ScanTables, candidate_payload, signal_of, metrics_of, start_scan, write_signals,
  save_signals, complete_run, persist_scan_results,
}

-- No two candidates are of one instrument.
abbrev pub Distinct : {D : Type 0} → List (Candidate D) → Type 0
Distinct [] = Unit
Distinct (c ∷ cs) = ((d : _) → Has d cs → c.instrument_id ≢ d.instrument_id) × Distinct cs

module _ {D : Type 0} (num : Numeric D) (eng : Engine (SignalRow D (CandidatePayload D)) SignalKey)
    (i as_of clock : ℕ) (name : String) where
  abbrev rows_of : List (Candidate D) → List (SignalRow D (CandidatePayload D))
  rows_of = map (signal_of num i as_of clock name)

  apart :
      (c : Candidate D) (cs : List (Candidate D))
      → ((d : Candidate D) → Has d cs → c.instrument_id ≢ d.instrument_id)
      → any (λ old. signal_key_eq.beq old.key (signal_of num i as_of clock name c).key) (rows_of cs)
        ≡ false
  unfolding signal_of
  apart c [] h = refl
  apart c (d ∷ cs) h =
      let other = h d (inl refl) in ground (arith, other, apart c cs (λ x m. h x (inr m)))

  rows_of-apart :
      (cs : List (Candidate D)) → Distinct cs → collides signal_key_eq eng (rows_of cs) ≡ false
  unfolding collides
  rows_of-apart [] h = refl
  rows_of-apart (c ∷ cs) h = ground (arith, apart c cs h.0, rows_of-apart cs h.1)

-- The signal of a candidate in the run.
pub record IsRecorded {D : Type 0} (num : Numeric D) (i as_of : ℕ) (c : Candidate D)
    (s : SignalRow D (CandidatePayload D)) : Type 0 where
  pub run : s.key.model_run_id ≡ i
  pub instrument : s.key.instrument_id ≡ c.instrument_id
  pub time : s.key.event_time ≡ as_of
  pub value : s.values.signal_value ≡ some (if c.qualified then num.of_ℕ 1 else num.of_ℕ 0)
  pub label : s.values.signal_label ≡ some (if c.qualified then "qualified" else "not_qualified")
  pub payload : s.values.payload ≡ some (candidate_payload num c)

module _ {D : Type 0} (num : Numeric D) (eng : Engine (SignalRow D (CandidatePayload D)) SignalKey)
    (i as_of clock : ℕ) (name : String) where
  Written-IsRecorded :
      (c : Candidate D) (t t' : List (SignalRow D (CandidatePayload D)))
      → Written signal_key_eq eng (set_signal_values eng) (signal_of num i as_of clock name c) t t'
      → (s : SignalRow D (CandidatePayload D)) × Has s t' × IsRecorded num i as_of c s
  unfolding signal_of
  Written-IsRecorded c t t' (inl (there, free)) = (
    signal_of num i as_of clock name c,
    there,
    record {
      run = refl;
      instrument = refl;
      time = refl;
      value = refl;
      label = refl;
      payload = refl;
    },
  )
  Written-IsRecorded c t t' (inr (old, m, k, there)) = (
    set_columns signal_key_eq eng (set_signal_values eng) old (signal_of num i as_of clock name c),
    there,
    record {
      run = ground (arith, k);
      instrument = ground (arith, k);
      time = ground (arith, k);
      value = refl;
      label = refl;
      payload = refl;
    },
  )

module _ {F D : Type 0} (num : Numeric D) (insert : Insert (RunRow ModelRun))
    (others : Others (RunRow ModelRun)) (accepts : RunRow ModelRun → Bool)
    (law : IsInsert insert key_conflict accepts)
    (eng : Engine (SignalRow D (CandidatePayload D)) SignalKey) (pg : IsPostgres eng) where
  abbrev pub Records : ℕ → List (Candidate D) → String → Result F ℕ × ScanTables D → Type 0
  Records as_of candidates key out =
      (out.0 ≡ ok (length candidates))
      × (i : ℕ) × Stands key i "completed" out.1.model_runs
      × ((c : Candidate D)
          → Has c candidates
          → (s : SignalRow D (CandidatePayload D)) × Has s out.1.signals
            × IsRecorded num i as_of c s)

  save_signals-ok :
      (rows : List (SignalRow D (CandidatePayload D))) (t : ScanTables D)
      → collides signal_key_eq eng rows ≡ false
      → (signals : List (SignalRow D (CandidatePayload D))) × (save_signals num {F = F} insert
            others eng rows t
          ≡ (ok tt, record t { signals = signals }))
        × (upsert_signals eng {F = F} rows t.signals ≡ ok signals)
  unfolding save_signals write_signals upsert_signals upsert_event_rows
  save_signals-ok rows t h = (
    insert_rows signal_key_eq eng update (set_signal_values eng) rows t.signals,
    rw h refl,
    rw h refl,
  )

  start_scan-Settled :
      (id : ℕ) (run : ModelRun) (key : String) (t : ScanTables D)
      → accepts (new_run id run none (some key)) ≡ true
      → Keeps run_id (has_key key) others.before_insert
      → Keeps run_id (has_key key) others.before_reread
      → AtMostOne run_id (has_key key) t.model_runs
      → (i : ℕ) × (created : Bool) × (runs : List (RunRow ModelRun)) × (start_scan num {F = F}
            insert others eng id run
            (some key)
            t
          ≡ (ok (i, created), record t { model_runs = runs }))
        × Holds run_id (has_key key) i runs
  unfolding start_scan start_run start_keyed
  start_scan-Settled id run key t good kept kept' n =
      let new = new_run id run none (some key) in
      let named : has_key key new ≡ true = ground (arith, eq_iff key key) in
      let (i, created, first, holds, single, made) =
        get_or_insert-Settled run_id (has_key key) {F = F} insert others key_conflict accepts law
          new named good (λ r. (λ h. h, λ h. h)) t.model_runs kept kept' n in
      let runs = (get_or_insert {F = F} insert others run_id (has_key key) new t.model_runs).1 in
      (i, created, runs, λ j. (first j, record t { model_runs = runs }), holds)

  -- The candidates are of different instruments, the run breaks no constraint but perhaps that of
  -- its key, and other sessions keep the run of the key. Then a scan is persisted whatever they
  -- commit meanwhile: the run of the key is completed, and every candidate has a signal in it, of
  -- its instrument and the time of the scan, with its value, label and payload.
  pub persist_scan_results-Records :
      (show : ℕ → String) (id clock now as_of : ℕ) (candidates : List (Candidate D))
      (run : ModelRun) (key : String) (t : ScanTables D)
      → accepts (new_run id run none (some key)) ≡ true
      → Keeps run_id (has_key key) others.before_insert
      → Keeps run_id (has_key key) others.before_reread
      → AtMostOne run_id (has_key key) t.model_runs
      → Distinct candidates
      → Records as_of candidates key (
          persist_scan_results num {F = F} insert others eng show id clock now candidates run as_of
            (some key)
            t)
  unfolding persist_scan_results complete_run upsert_signals upsert_event_rows
  persist_scan_results-Records show id clock now as_of candidates run key t good kept kept' n d =
      let (i, created, runs, started, holds) = start_scan-Settled id run key t good kept kept' n in
      let t1 : ScanTables D = record t { model_runs = runs } in
      let rows = rows_of num eng i as_of clock run.model_name candidates in
      let apart = rows_of-apart num eng i as_of clock run.model_name candidates d in
      let (signals, saved, upserted) = save_signals-ok rows t1 apart in
      let t2 : ScanTables D = record t1 { signals = signals } in
      let metrics = metrics_of num show candidates in
      let last =
        λ (x : Unit {0}). modify {F = F} (complete_run i metrics now) >> pure (length candidates) in
      let inner = >>=-ok (save_signals num {F = F} insert others eng rows) last t1 tt t2 saved in
      let rest = λ (started : ℕ × Bool).
        save_signals num {F = F} insert others eng
          (map (signal_of num started.0 as_of clock run.model_name) candidates)
        >> (modify (complete_run started.0 metrics now) >> pure (length candidates)) in
      let outer =
        >>=-ok (start_scan num {F = F} insert others eng id run (some key)) rest t (i, created) t1
          started in
      let written =
        (upsert_event_rows-Written signal_key_eq eng pg (set_signal_values eng) {F = F} rows
          t.signals signals upserted).0 in
      subst (Records as_of candidates key) (sym (outer ∙ inner)) (
        refl,
        i,
        finish_run-Stands key i "completed" (some metrics) now runs holds,
        λ c m. Written-IsRecorded num eng i as_of clock run.model_name c t.signals signals (
            written (signal_of num i as_of clock run.model_name c)
              (map-Has (signal_of num i as_of clock run.model_name) candidates c m)),
      )
