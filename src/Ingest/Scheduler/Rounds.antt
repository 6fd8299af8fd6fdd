-- ===== src/Ingest/Scheduler/Rounds.antt =====
-- A round runs every due job, whatever the others do.
use toss_api.Prelude.{
  ℕ, String, ◌≡◌, refl, ap, ◌∙◌, Has, false, Option, none, some, List, [], ◌∷◌, map, filter, arith,
  Bool-cases, inl, inr, if◌then◌else◌,
}
use toss_api.Exceptions.{Raised}
use toss_api.Action.{Result, ok, err}
use toss_api.Numeric.{Numeric}
use toss_api.Ingest.Scheduler.{
  ScheduledJob, Round, error_of, first_of, seconds_since, is_due, run_jobs, tick,
}

abbrev pub outcome : {F : Type 0} → Option (Raised F) → List String → Result F (List String)
outcome none ran = ok ran
outcome (some e) ran = err e

module _ {F S : Type 0} (num : Numeric F) (now : ℕ) where
  -- The due jobs, one after the other, without regard to their errors.
  pub run_all : List (ScheduledJob F S) → S → S
  run_all [] s = s
  run_all (job ∷ jobs) s = run_all jobs (job.fn s).1

  -- The first error of them in order.
  pub first_error_of : List (ScheduledJob F S) → S → Option (Raised F)
  first_error_of [] s = none
  first_error_of (job ∷ jobs) s =
      first_of (error_of (job.fn s).0) (first_error_of jobs (job.fn s).1)

  abbrev pub marked : ScheduledJob F S → ScheduledJob F S
  marked job = if is_due num now job then record job { last_run_at = some now } else job

  pub record IsRound (error : Option (Raised F)) (jobs : List (ScheduledJob F S)) (s : S)
      (r : Round F S) : Type 0 where
    pub jobs_marked : r.jobs ≡ map marked jobs
    pub ran_due : r.ran ≡ map (λ j. j.name) (filter (is_due num now) jobs)
    pub state_reached : r.state ≡ run_all (filter (is_due num now) jobs) s
    pub error_kept :
        r.first_error ≡ first_of error (first_error_of (filter (is_due num now) jobs) s)

  run_jobs-IsRound :
      (error : Option (Raised F)) (jobs : List (ScheduledJob F S)) (s : S)
      → IsRound error jobs s (run_jobs num now error jobs s)
  unfolding run_jobs run_all first_error_of
  run_jobs-IsRound none [] s = record {
    jobs_marked = refl;
    ran_due = refl;
    state_reached = refl;
    error_kept = refl;
  }
  run_jobs-IsRound (some e) [] s = record {
    jobs_marked = refl;
    ran_due = refl;
    state_reached = refl;
    error_kept = refl;
  }
  run_jobs-IsRound error (job ∷ jobs) s = elim (Bool-cases (is_due num now job)) [
    | inl due ↦
        let ih = run_jobs-IsRound (first_of error (error_of (job.fn s).0)) jobs (job.fn s).1 in
        record {
          jobs_marked = ground (arith, due, ih.jobs_marked);
          ran_due = ground (arith, due, ih.ran_due);
          state_reached = ground (arith, due, ih.state_reached);
          error_kept = ground (arith, due, ih.error_kept);
        }
    | inr early ↦
        let ih = run_jobs-IsRound error jobs s in
        record {
          jobs_marked = ground (arith, early, ih.jobs_marked);
          ran_due = ground (arith, early, ih.ran_due);
          state_reached = ground (arith, early, ih.state_reached);
          error_kept = ground (arith, early, ih.error_kept);
        }
  ]

  -- A tick runs exactly the due jobs, each once and in the order of registration, a failing job
  -- included and those after it as well; it marks exactly them as run now, and then raises the first
  -- error, if there was one, else returns their names.
  pub tick-runs_due :
      (jobs : List (ScheduledJob F S)) (s : S)
      → ((tick num now jobs s).0
          ≡ outcome
              (first_error_of (filter (is_due num now) jobs) s)
              (map (λ j. j.name) (filter (is_due num now) jobs)))
        × ((tick num now jobs s).1 ≡ map marked jobs)
        × ((tick num now jobs s).2 ≡ run_all (filter (is_due num now) jobs) s)
  unfolding tick
  tick-runs_due jobs s =
      let r = run_jobs-IsRound none jobs s in
      (ground (arith, r.error_kept, r.ran_due), r.jobs_marked, r.state_reached)

  none_due :
      (jobs : List (ScheduledJob F S))
      → ((j : ScheduledJob F S)
          → Has j jobs
          → num.leb j.interval_seconds (seconds_since num now now) ≡ false)
      → filter (is_due num now) (map marked jobs) ≡ []
  none_due [] late = refl
  none_due (job ∷ jobs) late =
      ground (arith, late job (inl refl), none_due jobs (λ j m. late j (inr m)))

  tick-quiet :
      (jobs : List (ScheduledJob F S)) (s : S)
      → filter (is_due num now) jobs ≡ []
      → ((tick num now jobs s).0 ≡ ok []) × ((tick num now jobs s).2 ≡ s)
  unfolding run_all first_error_of
  tick-quiet jobs s h = let t = tick-runs_due jobs s in (t.0 ∙ rw h refl, t.2 ∙ rw h refl)

  -- After a tick, a tick at the same time runs nothing, raises nothing and leaves the state, also
  -- where the first one failed, if no interval is over at once.
  pub tick-again :
      (jobs : List (ScheduledJob F S)) (s : S)
      → ((j : ScheduledJob F S)
          → Has j jobs
          → num.leb j.interval_seconds (seconds_since num now now) ≡ false)
      → ((tick num now (tick num now jobs s).1 (tick num now jobs s).2).0 ≡ ok [])
        × ((tick num now (tick num now jobs s).1 (tick num now jobs s).2).2
            ≡ (tick num now jobs s).2)
  tick-again jobs s late =
      tick-quiet (tick num now jobs s).1 (tick num now jobs s).2
        (ap (filter (is_due num now)) (tick-runs_due jobs s).1 ∙ none_due jobs late)
