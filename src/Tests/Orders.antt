-- ===== src/Tests/Orders.antt =====
-- app/db/repositories: runs, orders, the audit log and positions, on plain lists.
use toss_api.Prelude.{
  ℕ, ◌≡◌, ◌≤◌, ◌↔◌, refl, Bool, true, false, none, some, List, [], ◌∷◌, Has, arith, ◌==◌,
}
use toss_api.Prelude.Int.{ℤ, pos}
use toss_api.Action.{ok}
use toss_api.Db.Inserts.{Insert, Others, get_or_insert}
use toss_api.Db.Inserts.Lists.{unique_insert, unique_insert-IsInsert}
use toss_api.Db.Inserts.Race.{AtMostOne, Holds, Keeps}
use toss_api.Db.Sql.{Eq, Engine}
use toss_api.Db.Sql.Lists.{lists, lists-IsPostgres}
use toss_api.Db.Repositories.Keys.{EventKey, event_key_eq}
use toss_api.Db.Repositories.SystemEvents.{SystemEventRow}
use toss_api.Db.Repositories.Portfolio.{PositionRow, get_current_positions_as_of}
use toss_api.Db.Repositories.Portfolio.Current.{IsKnown, get_current_positions_as_of-latest}
use toss_api.Db.Repositories.Runs.{RunRow, ModelRun, has_key, new_run, start_run, finish_run}
use toss_api.Db.Repositories.Runs.Resume.{run_id, key_conflict, Stands, start_run-resumes}
use toss_api.Db.Repositories.Orders.{PaperOrderRow}
use toss_api.Db.Repositories.Orders.Submission.{order_conflict}

-- Another session commits the run before the insert of this one: the loser of the race.
abbrev quant : ModelRun
quant = record {
  model_name = "quant";
  model_version = none;
  strategy_id = none;
  strategy_version = none;
}

abbrev other_row : RunRow ModelRun
other_row = new_run 7 quant none (some "daily")

abbrev commit_first : List (RunRow ModelRun) → List (RunRow ModelRun)
commit_first [] = other_row ∷ []
commit_first (r ∷ t) = r ∷ t

abbrev pub racing : Others (RunRow ModelRun)
racing = record { before_insert = commit_first; before_reread = λ t. t }

commit_first-single :
    (t : List (RunRow ModelRun))
    → AtMostOne run_id (has_key "daily") t
    → AtMostOne run_id (has_key "daily") (commit_first t)
commit_first-single [] n = omega arith
commit_first-single (r ∷ t) n = n

commit_first-held :
    (t : List (RunRow ModelRun)) (i : ℕ)
    → Holds run_id (has_key "daily") i t
    → Holds run_id (has_key "daily") i (commit_first t)
commit_first-held [] i (r, m, k, e) = elim m [ ]
commit_first-held (s ∷ t) i held = held

pub commit_first-Keeps : Keeps run_id (has_key "daily") commit_first
commit_first-Keeps = record {
  single = commit_first-single;
  held = λ t i n h. commit_first-held t i h;
}

pub identity-Keeps : {R : Type 0} (id : R → ℕ) (lookup : R → Bool) → Keeps id lookup (λ t. t)
identity-Keeps id lookup = record { single = λ t n. n; held = λ t i n h. h }

abbrev runs_insert : Insert (RunRow ModelRun)
runs_insert = unique_insert key_conflict (λ r. true)

start_run-resumes_example :
    let (first, t1) = start_run {F = ℤ} runs_insert racing 8 quant none (some "daily") [] in
    (i : ℕ) × (created : Bool) × (first ≡ ok (i, created))
    × (let t2 = finish_run i "done" none 100 t1 in
        (start_run {F = ℤ} runs_insert racing 9 quant none (some "daily") t2 ≡ (ok (i, false), t2))
        × Stands "daily" i "done" t2)
start_run-resumes_example =
    start_run-resumes runs_insert racing (λ r. true)
      (unique_insert-IsInsert key_conflict (λ r. true)) 8 9 100 quant quant none none none "daily"
      "done" [] refl commit_first-Keeps (identity-Keeps run_id (has_key "daily")) (omega arith)

-- The loser gets the id of the winner.
lost_race : (start_run {F = ℤ} runs_insert racing 8 quant none (some "daily") []).0 ≡ ok (7, false)
unfolding start_run unique_insert get_or_insert
lost_race = refl

abbrev order : PaperOrderRow ℤ
order = record {
  id = 3;
  client_order_id = "c-1";
  instrument_id = 1;
  side = "buy";
  order_type = "limit";
  quantity = pos 10;
  limit_price = some (pos 70000);
  status = "submitted";
  submitted_at = 5;
  updated_at = 5;
  raw_payload = none;
}

abbrev alone : Others (PaperOrderRow ℤ)
alone = record { before_insert = λ t. t; before_reread = λ t. t }

abbrev orders_insert : Insert (PaperOrderRow ℤ)
orders_insert = unique_insert order_conflict (λ r. true)

abbrev logged : ℕ → SystemEventRow
logged at = record {
  id = at;
  event_type = "ingest";
  source = "scheduler";
  severity = "INFO";
  message = "";
  details = none;
  occurred_at = at;
  ingested_at = at;
  dedup_key = none;
}

abbrev events : List SystemEventRow
events = logged 1 ∷ logged 2 ∷ logged 3 ∷ []

abbrev events_engine : Engine SystemEventRow EventKey
events_engine = lists event_key_eq

abbrev position : ℕ → ℕ → PositionRow ℤ
position at quantity = record {
  key = record { account_id = "a"; instrument_id = 1; event_time = at; source = "toss" };
  available_at = at;
  ingested_at = at;
  values = record { quantity = pos quantity; avg_price = none };
}

abbrev positions : List (PositionRow ℤ)
positions = position 1 5 ∷ position 2 7 ∷ []

-- Instruments are told apart by their ids.
==_iff : (a b : ℕ) → ((a == b) ≡ true) ↔ (a ≡ b)
==_iff a b = (λ h. ground (arith, h), λ h. ground (arith, h))

abbrev ℕ_eq : Eq ℕ
ℕ_eq = record { beq = λ a b. a == b; beq_iff = ==_iff }

get_current_positions_as_of-latest_example :
    let rows = get_current_positions_as_of (lists ℕ_eq) "a" 9 positions in
    ((r : PositionRow ℤ)
      → Has r rows
      → IsKnown "a" 9 positions r
        × ((s : PositionRow ℤ)
            → IsKnown "a" 9 positions s
            → s.key.instrument_id ≡ r.key.instrument_id
            → s.key.event_time ≤ r.key.event_time))
    × ((s : PositionRow ℤ)
        → IsKnown "a" 9 positions s
        → (r : PositionRow ℤ) × Has r rows × (r.key.instrument_id ≡ s.key.instrument_id))
    × ((r s : PositionRow ℤ)
        → Has r rows
        → Has s rows
        → r.key.instrument_id ≡ s.key.instrument_id
        → r ≡ s)
get_current_positions_as_of-latest_example =
    get_current_positions_as_of-latest (lists ℕ_eq) (lists-IsPostgres ℕ_eq) "a" 9 positions
