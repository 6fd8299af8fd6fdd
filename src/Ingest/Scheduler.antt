-- ===== src/Ingest/Scheduler.antt =====
-- app/ingest/scheduler.py: `IngestScheduler`, whose jobs are calls that change a state and may raise.
pub mod Rounds
pub mod Registry
use toss_api.Prelude.{
  ℕ, String, Bool, true, false, Option, none, some, List, [], ◌∷◌, ◌++◌, any, filter, not, str_eq,
  if◌then◌else◌,
}
use toss_api.Exceptions.{Raised, plain, value_error}
use toss_api.Action.{Result, ok, err, Action}
use toss_api.Numeric.{Numeric}

pub record ScheduledJob (F S : Type 0) : Type 0 where
  pub name : String
  pub interval_seconds : F
  pub fn : Action F S (Unit {0})
  pub last_run_at : Option ℕ

module _ {F S : Type 0} where
  abbrev pub has_name : String → ScheduledJob F S → Bool
  has_name name job = str_eq job.name name

  -- `register_job`; the dict keeps the order of registration.
  unfoldable pub register_job :
      String
      → F
      → Action F S (Unit {0})
      → List (ScheduledJob F S)
      → Result F (List (ScheduledJob F S))
  register_job name interval_seconds fn jobs =
      if any (has_name name) jobs
      then err (plain value_error)
      else ok (
          jobs
          ++ record {
            name = name;
            interval_seconds = interval_seconds;
            fn = fn;
            last_run_at = none;
          }
            ∷ [])

  -- `unregister_job`
  unfoldable pub unregister_job : String → List (ScheduledJob F S) → List (ScheduledJob F S)
  unregister_job name jobs = filter (λ job. not (has_name name job)) jobs

module _ {F : Type 0} where
  -- The error of a call, if it raised.
  abbrev pub error_of : Result F (Unit {0}) → Option (Raised F)
  error_of (ok _) = none
  error_of (err e) = some e

  abbrev pub first_of : Option (Raised F) → Option (Raised F) → Option (Raised F)
  first_of none later = later
  first_of (some e) later = some e

-- What the loop of `tick` has at its end.
pub record Round (F S : Type 0) : Type 0 where
  pub jobs : List (ScheduledJob F S)
  pub ran : List String
  pub first_error : Option (Raised F)
  pub state : S

module _ {F : Type 0} (num : Numeric F) (now : ℕ) where
  -- `(now - last).total_seconds()`
  abbrev pub seconds_since : ℕ → F
  seconds_since last = num.div (num.sub (num.of_ℕ now) (num.of_ℕ last)) (num.of_ℕ 1000000)

module _ {F S : Type 0} (num : Numeric F) (now : ℕ) where
  abbrev pub is_due : ScheduledJob F S → Bool
  is_due job = elim job.last_run_at [
    | none ↦ true
    | some last ↦ num.leb job.interval_seconds (seconds_since num now last)
  ]

  -- The loop over the jobs, from the error so far on.
  unfoldable pub run_jobs : Option (Raised F) → List (ScheduledJob F S) → S → Round F S
  run_jobs error [] s = record { jobs = []; ran = []; first_error = error; state = s }
  run_jobs error (job ∷ jobs) s =
      let (result, s') = job.fn s in
      let run = run_jobs (first_of error (error_of result)) jobs s' in
      let skip = run_jobs error jobs s in
      if is_due job
      then record {
        jobs = record job { last_run_at = some now } ∷ run.jobs;
        ran = job.name ∷ run.ran;
        first_error = run.first_error;
        state = run.state;
      }
      else record skip { jobs = job ∷ skip.jobs }

  -- `tick`: its outcome, and the jobs and the state that it leaves.
  unfoldable pub tick :
      List (ScheduledJob F S) → S → Result F (List String) × List (ScheduledJob F S) × S
  unfolding run_jobs
  tick jobs s =
      let round = run_jobs none jobs s in
      (elim round.first_error [ none ↦ ok round.ran | some e ↦ err e ], round.jobs, round.state)
