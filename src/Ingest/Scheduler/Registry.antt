-- ===== src/Ingest/Scheduler/Registry.antt =====
-- The registry of jobs is a dict: no two jobs have one name.
use toss_api.Prelude.{
  ℕ, String, ◌≡◌, ◌≢◌, ◌↔◌, Has, filter-Has, sym, ◌∙◌, refl, Bool, true, false, none, List, [], ◌∷◌,
  ◌++◌, map, any, filter, not, arith, Bool-cases, inl, inr, str_eq, eq_iff,
}
use mathlib.Core.Path.{subst}
use toss_api.Exceptions.{plain, value_error}
use toss_api.Action.{ok, err, Action}
use toss_api.Numeric.{Numeric}
use toss_api.Ingest.Scheduler.{ScheduledJob, has_name, register_job, unregister_job, tick}
use toss_api.Ingest.Scheduler.Rounds.{marked, tick-runs_due}

module _ {F S : Type 0} where
  -- The keys of a dict.
  unfoldable pub IsRegistry : List (ScheduledJob F S) → Type 0
  IsRegistry [] = Unit
  IsRegistry (job ∷ jobs) = (any (has_name job.name) jobs ≡ false) × IsRegistry jobs

  any-append :
      (name : String) (jobs : List (ScheduledJob F S)) (new : ScheduledJob F S)
      → any (has_name name) jobs ≡ false
      → str_eq new.name name ≡ false
      → any (has_name name) (jobs ++ new ∷ []) ≡ false
  any-append name [] new h n = ground (arith, n)
  any-append name (job ∷ jobs) new h n =
      let ih = any-append name jobs new in ground (arith, ih, h, n)

  append-IsRegistry :
      (jobs : List (ScheduledJob F S)) (new : ScheduledJob F S)
      → IsRegistry jobs
      → any (has_name new.name) jobs ≡ false
      → IsRegistry (jobs ++ new ∷ [])
  unfolding IsRegistry
  append-IsRegistry [] new r h = (refl, tt)
  append-IsRegistry (job ∷ jobs) new r h =
      let apart : str_eq new.name job.name ≡ false =
        ground (arith, h, eq_iff new.name job.name, eq_iff job.name new.name) in
      (any-append job.name jobs new r.0 apart, append-IsRegistry jobs new r.1 (ground (arith, h)))

  any-filter :
      (name : String) (p : ScheduledJob F S → Bool) (jobs : List (ScheduledJob F S))
      → any (has_name name) jobs ≡ false
      → any (has_name name) (filter p jobs) ≡ false
  any-filter name p [] h = refl
  any-filter name p (job ∷ jobs) h = let ih = any-filter name p jobs in ground (arith, ih, h)

  filter-IsRegistry :
      (p : ScheduledJob F S → Bool) (jobs : List (ScheduledJob F S))
      → IsRegistry jobs
      → IsRegistry (filter p jobs)
  unfolding IsRegistry
  filter-IsRegistry p [] r = tt
  filter-IsRegistry p (job ∷ jobs) r = elim (Bool-cases (p job)) [
    | inl b ↦ rw b (any-filter job.name p jobs r.0, filter-IsRegistry p jobs r.1)
    | inr b ↦ rw b (filter-IsRegistry p jobs r.1)
  ]

  any-marked :
      (num : Numeric F) (now : ℕ) (name : String) (jobs : List (ScheduledJob F S))
      → any (has_name name) (map (marked num now) jobs) ≡ any (has_name name) jobs
  any-marked num now name [] = refl
  any-marked num now name (job ∷ jobs) = let ih = any-marked num now name jobs in ground (arith, ih)

  marked-IsRegistry :
      (num : Numeric F) (now : ℕ) (jobs : List (ScheduledJob F S))
      → IsRegistry jobs
      → IsRegistry (map (marked num now) jobs)
  unfolding IsRegistry
  marked-IsRegistry num now [] r = tt
  marked-IsRegistry num now (job ∷ jobs) r =
      let same = any-marked num now job.name jobs in
      let name : (marked num now job).name ≡ job.name = ground arith in
      (rw name (same ∙ r.0), marked-IsRegistry num now jobs r.1)

  -- A job of the name is there.
  abbrev pub Taken : String → List (ScheduledJob F S) → Type 0
  Taken name jobs = (job : ScheduledJob F S) × Has job jobs × (job.name ≡ name)

  Taken-any :
      (name : String) (jobs : List (ScheduledJob F S))
      → Taken name jobs
      → any (has_name name) jobs ≡ true
  Taken-any name [] (job, m, n) = elim m [ ]
  Taken-any name (first ∷ jobs) (job, m, n) = elim m [
    | inl same ↦ ground (arith, same, n, eq_iff first.name name)
    | inr later ↦ ground (arith, Taken-any name jobs (job, later, n))
  ]

  untaken-any :
      (name : String) (jobs : List (ScheduledJob F S))
      → ¬ Taken name jobs
      → any (has_name name) jobs ≡ false
  untaken-any name [] h = refl
  untaken-any name (first ∷ jobs) h = elim (Bool-cases (has_name name first)) [
    | inl b ↦ absurd (h (first, inl refl, (eq_iff first.name name).0 b))
    | inr b ↦
        let rest = untaken-any name jobs (λ (job, m, n). h (job, inr m, n)) in
        ground (arith, b, rest)
  ]

  -- The job that a registration adds, which has not run.
  pub record IsNew (name : String) (interval : F) (fn : Action F S (Unit {0}))
      (job : ScheduledJob F S) : Type 0 where
    pub name_ : job.name ≡ name
    pub interval_ : job.interval_seconds ≡ interval
    pub fn_ : job.fn ≡ fn
    pub never_ran : job.last_run_at ≡ none

  filter-other :
      (name : String) (jobs : List (ScheduledJob F S)) (job : ScheduledJob F S)
      → Has job (filter (λ j. not (has_name name j)) jobs) ↔ (Has job jobs × (job.name ≢ name))
  filter-other name jobs job =
      let all = filter-Has (λ j. not (has_name name j)) jobs job in
      (
        λ m.
            let (there, kept) = all.0 m in
            (there, λ n. ground (arith, kept, (eq_iff job.name name).1 n)),
        λ (there, other). elim (Bool-cases (has_name name job)) [
          | inl b ↦ absurd (other ((eq_iff job.name name).0 b))
          | inr b ↦ all.1 (there, ground (arith, b))
        ],
      )

  -- On a registry whose names are unique, a registration under a name that is taken raises
  -- ValueError; one under a free name returns the jobs that were there, in their order, and after
  -- them the new one, which has not run; an unregistration leaves exactly the jobs of other names.
  -- After each of them, and after a tick, the names are unique.
  pub IsRegistry-kept :
      (jobs : List (ScheduledJob F S))
      → IsRegistry jobs
      → ((name : String) (i : F) (fn : Action F S (Unit {0}))
          → (Taken name jobs → register_job name i fn jobs ≡ err (plain value_error))
            × (¬ Taken name jobs
                → (new : ScheduledJob F S) × IsNew name i fn new
                  × (register_job name i fn jobs ≡ ok (jobs ++ new ∷ []))
                  × IsRegistry (jobs ++ new ∷ [])))
        × ((name : String)
            → ((job : ScheduledJob F S)
                → Has job (unregister_job name jobs) ↔ (Has job jobs × (job.name ≢ name)))
              × IsRegistry (unregister_job name jobs))
        × ((num : Numeric F) (now : ℕ) (s : S) → IsRegistry (tick num now jobs s).1)
  unfolding register_job unregister_job
  IsRegistry-kept jobs r = (
    λ name i fn. (
      λ taken. ground (arith, Taken-any name jobs taken),
      λ free.
          let none_there = untaken-any name jobs free in
          let new : ScheduledJob F S = record {
            name = name;
            interval_seconds = i;
            fn = fn;
            last_run_at = none;
          } in
          (
            new,
            record { name_ = refl; interval_ = refl; fn_ = refl; never_ran = refl },
            ground (arith, none_there),
            append-IsRegistry jobs new r none_there,
          ),
    ),
    λ name. (
      λ job. filter-other name jobs job,
      filter-IsRegistry (λ job. not (has_name name job)) jobs r,
    ),
    λ num now s.
        subst IsRegistry (sym (tick-runs_due num now jobs s).1) (marked-IsRegistry num now jobs r),
  )
