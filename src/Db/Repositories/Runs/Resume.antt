-- ===== src/Db/Repositories/Runs/Resume.antt =====
-- A run that is started again under its key is the same run, also once it is finished.
use toss_api.Prelude.{
  ℕ, String, ◌≡◌, refl, inl, inr, Bool, true, false, Option, none, some, List, [], ◌∷◌, Has, filter,
  length, arith, Bool-cases, ◌==◌, eq_iff, if◌then◌else◌,
}
use toss_api.Action.{ok}
use toss_api.Runtime.{JsonFields}
use toss_api.Db.Inserts.{Insert, IsInsert, Others, get_or_insert}
use toss_api.Db.Inserts.Race.{AtMostOne, Holds, Keeps, get_or_insert-Settled, get_or_insert-found}
use toss_api.Db.Repositories.Runs.{
  RunRow, has_key, new_run, start_keyed, start_run, finished, finish_run,
}

module _ {V : Type 0} where
  abbrev pub run_id : RunRow V → ℕ
  run_id r = r.id

  -- UNIQUE (idempotency_key), which NULLs do not break
  abbrev pub key_conflict : RunRow V → RunRow V → Bool
  key_conflict new old = elim new.idempotency_key [ none ↦ false | some k ↦ has_key k old ]

  finish_run-filter :
      (key : String) (i : ℕ) (status : String) (metrics : Option JsonFields) (now : ℕ)
      (t : List (RunRow V))
      → length (filter (has_key key) (finish_run i status metrics now t))
        ≡ length (filter (has_key key) t)
  unfolding finish_run finished
  finish_run-filter key i status metrics now [] = refl
  finish_run-filter key i status metrics now (r ∷ t) =
      ground (arith, finish_run-filter key i status metrics now t)

  -- The run that has the id is finished; every run keeps its key and its id.
  pub finish_run-Has :
      (i : ℕ) (status : String) (metrics : Option JsonFields) (now : ℕ) (t : List (RunRow V))
      (r : RunRow V)
      → Has r t
      → Has
          (if r.id == i then finished status metrics now r else r)
          (finish_run i status metrics now t)
  unfolding finish_run
  finish_run-Has i status metrics now [] r m = elim m [ ]
  finish_run-Has i status metrics now (s ∷ t) r m = elim m [
    | inl same ↦ inl (rw same refl)
    | inr later ↦ inr (finish_run-Has i status metrics now t r later)
  ]

  pub finish_run-Keeps :
      (key : String) (i : ℕ) (status : String) (metrics : Option JsonFields) (now : ℕ)
      → Keeps run_id (has_key key) (finish_run i status metrics now)
  finish_run-Keeps key i status metrics now = record {
    single = λ t n. rw (finish_run-filter key i status metrics now t) n;
    held = λ t j n h.
        let (r, m, k, e) = h in
        let there = finish_run-Has i status metrics now t r m in
        elim (Bool-cases (r.id == i)) [
          | inl b ↦ (
            finished status metrics now r,
            rw b at there,
            unfold finished in k,
            unfold finished in e,
          )
          | inr b ↦ (r, rw b at there, k, e)
        ];
  }

  -- A run of the key with the id and a status.
  abbrev pub Stands : String → ℕ → String → List (RunRow V) → Type 0
  Stands key i status t =
      (r : RunRow V) × Has r t × (has_key key r ≡ true) × (r.id ≡ i) × (r.status ≡ status)

  pub finish_run-Stands :
      (key : String) (i : ℕ) (status : String) (metrics : Option JsonFields) (now : ℕ)
      (t : List (RunRow V))
      → Holds run_id (has_key key) i t
      → Stands key i status (finish_run i status metrics now t)
  unfolding finished
  finish_run-Stands key i status metrics now t (r, m, k, e) =
      let there = finish_run-Has i status metrics now t r m in
      let same : (r.id == i) ≡ true = ground (arith, e) in
      (finished status metrics now r, rw same at there, k, e, refl)

module _ {F V : Type 0} (insert : Insert (RunRow V)) (others : Others (RunRow V))
    (accepts : RunRow V → Bool) (law : IsInsert insert key_conflict accepts) where
  -- The run breaks no constraint but perhaps that of its key, at most one run has the key, and what
  -- other sessions commit meanwhile keeps the run of the key. Then a run that is started under the
  -- key and finished is the run that a second start under the key returns, not created anew: it
  -- keeps its id and the status that it was finished with, and the values of the second start are
  -- not applied.
  pub start_run-resumes :
      (id id' now : ℕ) (values values' : V) (params params' metrics : Option JsonFields)
      (key status : String) (t : List (RunRow V))
      → accepts (new_run id values params (some key)) ≡ true
      → Keeps run_id (has_key key) others.before_insert
      → Keeps run_id (has_key key) others.before_reread
      → AtMostOne run_id (has_key key) t
      → let (first, t1) = start_run {F = F} insert others id values params (some key) t in
        (i : ℕ) × (created : Bool) × (first ≡ ok (i, created))
        × (let t2 = finish_run i status metrics now t1 in
            (start_run {F = F} insert others id' values' params' (some key) t2
              ≡ (ok (i, false), t2))
            × Stands key i status t2)
  unfolding start_run start_keyed
  start_run-resumes id id' now values values' params params' metrics key status t good kept kept'
        n =
      let new = new_run id values params (some key) in
      let named : has_key key new ≡ true = ground (arith, eq_iff key key) in
      let (i, created, first, holds, single, made) =
        get_or_insert-Settled run_id (has_key key) {F = F} insert others key_conflict accepts law
          new named good (λ r. (λ h. h, λ h. h)) t kept kept' n in
      let keeps = finish_run-Keeps key i status metrics now in
      let t1 = (get_or_insert {F = F} insert others run_id (has_key key) new t).1 in
      (
        i,
        created,
        first,
        (
          get_or_insert-found run_id (has_key key) insert others
              (new_run id' values' params' (some key)) (finish_run i status metrics now t1) i
              (keeps.single t1 single) (keeps.held t1 i single holds),
          finish_run-Stands key i status metrics now t1 holds,
        ),
      )
