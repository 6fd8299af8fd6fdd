-- ===== src/Tests/Ingest.antt =====
-- app/ingest/scheduler.py, run on integers and a counter: a job that fails before one that does not.
use toss_api.Prelude.{
  ℕ, suc, ◌≡◌, ◌≢◌, ◌↔◌, ◌++◌, Has, refl, String, none, List, [], ◌∷◌, map, filter,
}
use toss_api.Prelude.Int.{ℤ, pos}
use toss_api.Exceptions.{plain, runtime_error, value_error}
use toss_api.Action.{ok, err, Action}
use toss_api.Numeric.{Numeric, integers}
use toss_api.Ingest.Scheduler.{ScheduledJob, register_job, unregister_job, is_due, tick}
use toss_api.Ingest.Scheduler.Rounds.{run_all, first_error_of, marked, outcome, tick-runs_due}
use toss_api.Ingest.Scheduler.Registry.{IsRegistry, Taken, IsNew, IsRegistry-kept}

abbrev failing : ScheduledJob ℤ ℕ
failing = record {
  name = "news";
  interval_seconds = pos 60;
  fn = λ n. (err (plain runtime_error), suc n);
  last_run_at = none;
}

abbrev counting : ScheduledJob ℤ ℕ
counting = record {
  name = "bars";
  interval_seconds = pos 60;
  fn = λ n. (ok tt, suc n);
  last_run_at = none;
}

abbrev jobs : List (ScheduledJob ℤ ℕ)
jobs = failing ∷ counting ∷ []

tick-runs_due_example :
    ((tick integers 100 jobs 0).0
      ≡ outcome
          (first_error_of integers 100 (filter (is_due integers 100) jobs) 0)
          (map (λ j. j.name) (filter (is_due integers 100) jobs)))
    × ((tick integers 100 jobs 0).1 ≡ map (marked integers 100) jobs)
    × ((tick integers 100 jobs 0).2 ≡ run_all integers 100 (filter (is_due integers 100) jobs) 0)
tick-runs_due_example = tick-runs_due integers 100 jobs 0

IsRegistry-kept_example :
    ((name : String) (i : ℤ) (fn : Action ℤ ℕ (Unit {0}))
      → (Taken name jobs → register_job name i fn jobs ≡ err (plain value_error))
        × (¬ Taken name jobs
            → (new : ScheduledJob ℤ ℕ) × IsNew name i fn new
              × (register_job name i fn jobs ≡ ok (jobs ++ new ∷ []))
              × IsRegistry (jobs ++ new ∷ [])))
    × ((name : String)
        → ((job : ScheduledJob ℤ ℕ)
            → Has job (unregister_job name jobs) ↔ (Has job jobs × (job.name ≢ name)))
          × IsRegistry (unregister_job name jobs))
    × ((num : Numeric ℤ) (now : ℕ) (s : ℕ) → IsRegistry (tick num now jobs s).1)
unfolding IsRegistry
IsRegistry-kept_example = IsRegistry-kept jobs (refl, (refl, tt))
