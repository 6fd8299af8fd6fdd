-- ===== src/Db/Repositories/Runs.antt =====
-- app/db/repositories/runs.py: runs of models and of backtests, resumed by their idempotency key.
pub mod Resume
use toss_api.Prelude.{
  ℕ, String, Bool, true, false, Option, none, some, List, map, ◌==◌, str_eq, if◌then◌else◌,
}
use toss_api.Exceptions.{plain, python_exception}
use toss_api.Action.{Action, ok, err, modify}
use toss_api.Runtime.{JsonFields}
use toss_api.Db.Inserts.{
  Insert, Inserted, inserted, integrity_error, other_error, Others, get_or_insert,
}

-- The columns that both tables have; `V` holds the others.
pub record RunRow (V : Type 0) : Type 0 where
  pub id : ℕ
  pub status : String
  pub idempotency_key : Option String
  pub finished_at : Option ℕ
  pub params : Option JsonFields
  pub metrics : Option JsonFields
  pub values : V

-- model_runs
pub record ModelRun : Type 0 where
  pub model_name : String
  pub model_version : Option String
  pub strategy_id : Option String
  pub strategy_version : Option String

-- backtest_runs
pub record BacktestRun : Type 0 where
  pub strategy_id : String
  pub strategy_version : String
  pub period_start : ℕ
  pub period_end : ℕ

-- `idempotency_key = …`, which is not true of NULL
abbrev pub has_key : {V : Type 0} → String → RunRow V → Bool
has_key key r = elim r.idempotency_key [ none ↦ false | some k ↦ str_eq k key ]

-- A new row: "running", not finished, with the `id` that the sequence gives next.
abbrev pub new_run : {V : Type 0} → ℕ → V → Option JsonFields → Option String → RunRow V
new_run id values params idempotency_key = record {
  id = id;
  status = "running";
  idempotency_key = idempotency_key;
  finished_at = none;
  params = params;
  metrics = none;
  values = values;
}

module _ {F V : Type 0} (insert : Insert (RunRow V)) (others : Others (RunRow V)) where
  -- The plain INSERT, whose exception goes through.
  unfoldable pub inserted_id :
      RunRow V → Inserted (RunRow V) → Action F (List (RunRow V)) (ℕ × Bool)
  inserted_id new (inserted t') t = (ok (new.id, true), t')
  inserted_id new integrity_error t = (err (plain python_exception), t)
  inserted_id new other_error t = (err (plain python_exception), t)

  unfoldable pub start_keyed : RunRow V → Option String → Action F (List (RunRow V)) (ℕ × Bool)
  unfolding inserted_id
  start_keyed new none t = inserted_id new (insert new t) t
  start_keyed new (some key) t = get_or_insert insert others (λ r. r.id) (has_key key) new t

  -- `ModelRunRepository.start_run` at `ModelRun`
  unfoldable pub start_run :
      ℕ → V → Option JsonFields → Option String → Action F (List (RunRow V)) (ℕ × Bool)
  unfolding start_keyed
  start_run id values params idempotency_key =
      start_keyed (new_run id values params idempotency_key) idempotency_key

module _ {V : Type 0} where
  unfoldable pub finished : String → Option JsonFields → ℕ → RunRow V → RunRow V
  finished status metrics now r = record r {
    status = status;
    finished_at = some now;
    metrics = metrics;
  }

  -- `ModelRunRepository.finish_run`: UPDATE … WHERE id = run_id, at the database's time `now`
  unfoldable pub finish_run : ℕ → String → Option JsonFields → ℕ → List (RunRow V) → List (RunRow V)
  unfolding finished
  finish_run run_id status metrics now =
      map (λ r. if r.id == run_id then finished status metrics now r else r)

-- `BacktestRunRepository`, with the same two statements on its own table
unfoldable pub start_backtest :
    {F : Type 0}
    → Insert (RunRow BacktestRun)
    → Others (RunRow BacktestRun)
    → ℕ
    → BacktestRun
    → Option JsonFields
    → Option String
    → Action F (List (RunRow BacktestRun)) (ℕ × Bool)
start_backtest insert others = start_run insert others

unfoldable pub finish_backtest :
    ℕ → String → Option JsonFields → ℕ → List (RunRow BacktestRun) → List (RunRow BacktestRun)
finish_backtest = finish_run
