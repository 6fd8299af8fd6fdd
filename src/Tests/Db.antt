-- ===== src/Tests/Db.antt =====
-- app/db, run on plain lists: one event with an original and a correction.
use toss_api.Prelude.{ℕ, ◌↔◌, refl, Bool, true, none, List, [], ◌∷◌, arith, ltb, Has}
use toss_api.Prelude.Int.{ℤ, pos}
use toss_api.Db.Sql.{Engine}
use toss_api.Prelude.Sort.{Ascending}
use toss_api.Db.Sql.Lists.{lists, lists-IsPostgres}
use toss_api.Db.Revisions.{NewRow, Row, append_revision_rows, select_latest_revision_as_of}
use toss_api.Db.Revisions.History.{IsLog, Alike}
use toss_api.Db.Revisions.Batches.{append_revision_rows-keeps, append_revision_rows-idempotent}
use toss_api.Db.Revisions.PointInTime.{
  IsCurrent, select_latest_revision_as_of-iff-IsCurrent, select_latest-append,
}
use toss_api.Db.Repositories.{MarketBarRow, get_bars_as_of}
use toss_api.Db.Repositories.Keys.{EventKey, bar_key_eq, event_key_eq}
use toss_api.Db.Repositories.Reads.{IsCurrentBar, get_bars_as_of_iff}
use toss_api.Db.Upsert.{EventRow, upsert_event_rows, select_as_of}
use toss_api.Db.Upsert.Observed.{select_as_of-stable}
use toss_api.Db.Repositories.Market.{InstrumentRow}
use toss_api.Db.Repositories.Instruments.{IsUnique}

abbrev the_event : EventKey
the_event = record { source = "wire"; external_id = "7" }

-- The value column counts the mentions.
abbrev original : Row EventKey ℕ
original = record { key = the_event; available_at = 10; ingested_at = 11; revision = 1; values = 5 }

abbrev correction : Row EventKey ℕ
correction = record {
  key = the_event;
  available_at = 20;
  ingested_at = 21;
  revision = 2;
  values = 0;
}

abbrev late : NewRow EventKey ℕ
late = record { key = the_event; available_at = 30; ingested_at = 31; values = 8 }

abbrev log : List (Row EventKey ℕ)
log = original ∷ correction ∷ []

log-IsLog : IsLog log
log-IsLog = record {
  unique = λ r s m n k a. ground (arith, m, n, a);
  numbers = λ r s m n k a. ground (arith, m, n, a);
  positive = λ r m. ground (arith, m);
}

abbrev rows_engine : Engine (Row EventKey ℕ) EventKey
rows_engine = lists event_key_eq

append_revision_rows-keeps_example :
    let t' = (append_revision_rows event_key_eq rows_engine (late ∷ []) log).0 in
    IsLog t' × ((r : Row EventKey ℕ) → Has r log → (s : Row EventKey ℕ) × Has s t' × Alike s r)
append_revision_rows-keeps_example =
    append_revision_rows-keeps event_key_eq rows_engine (lists-IsPostgres event_key_eq) (late ∷ [])
      log log-IsLog

append_revision_rows-idempotent_example :
    let t' = (append_revision_rows event_key_eq rows_engine (late ∷ []) log).0 in
    let t'' = (append_revision_rows event_key_eq rows_engine (late ∷ []) t').0 in
    ((s : Row EventKey ℕ) → Has s t'' → (r : Row EventKey ℕ) × Has r t' × Alike s r)
    × ((r : Row EventKey ℕ) → Has r t' → (s : Row EventKey ℕ) × Has s t'' × Alike s r)
append_revision_rows-idempotent_example =
    append_revision_rows-idempotent event_key_eq rows_engine (lists-IsPostgres event_key_eq)
      (late ∷ []) log

abbrev by_time : Row EventKey ℕ → ℕ
by_time r = r.available_at

abbrev mentioned : Row EventKey ℕ → Bool
mentioned r = ltb 0 r.values

select_latest_revision_as_of-iff-IsCurrent_example :
    ((r : Row EventKey ℕ)
      → Has r (select_latest_revision_as_of event_key_eq rows_engine by_time mentioned 25 log)
        ↔ IsCurrent mentioned 25 log r)
    × Ascending by_time
        (select_latest_revision_as_of event_key_eq rows_engine by_time mentioned 25 log)
select_latest_revision_as_of-iff-IsCurrent_example =
    select_latest_revision_as_of-iff-IsCurrent event_key_eq rows_engine
      (lists-IsPostgres event_key_eq) by_time mentioned 25 log log-IsLog

select_latest-append_example :
    Has original (
      select_latest_revision_as_of event_key_eq rows_engine by_time mentioned 25
        (append_revision_rows event_key_eq rows_engine (late ∷ []) log).0)
    ↔ Has original (select_latest_revision_as_of event_key_eq rows_engine by_time mentioned 25 log)
select_latest-append_example =
    select_latest-append event_key_eq rows_engine (lists-IsPostgres event_key_eq) by_time mentioned
      25 (late ∷ []) log log-IsLog (λ new m. ground (arith, m)) original

abbrev pub bar : MarketBarRow ℤ
bar = record {
  key = record { instrument_id = 1; timeframe = "1d"; event_time = 10; source = "toss" };
  available_at = 12;
  ingested_at = 12;
  revision = 1;
  values = record {
    open_price = pos 10;
    high_price = pos 12;
    low_price = pos 9;
    close_price = pos 11;
    volume = pos 100;
    currency = none;
  };
}

pub bars-IsLog : IsLog (bar ∷ [])
bars-IsLog = record {
  unique = λ r s m n k a. ground (arith, m, n);
  numbers = λ r s m n k a. ground (arith, m, n);
  positive = λ r m. ground (arith, m);
}

get_bars_as_of_iff_example :
    ((r : MarketBarRow ℤ)
      → Has r (get_bars_as_of (lists bar_key_eq) 1 "1d" 0 20 20 (bar ∷ []))
        ↔ IsCurrentBar (lists bar_key_eq) (lists-IsPostgres bar_key_eq) 1 "1d" 0 20 20 (bar ∷ []) r)
    × Ascending
        (λ r. r.key.event_time)
        (get_bars_as_of (lists bar_key_eq) 1 "1d" 0 20 20 (bar ∷ []))
get_bars_as_of_iff_example =
    get_bars_as_of_iff (lists bar_key_eq) (lists-IsPostgres bar_key_eq) 1 "1d" 0 20 20 (bar ∷ [])
      bars-IsLog

abbrev observed : ℕ → ℕ → EventRow EventKey ℕ
observed t v = record { key = the_event; available_at = t; ingested_at = t; values = v }

abbrev event_engine : Engine (EventRow EventKey ℕ) EventKey
event_engine = lists event_key_eq

abbrev excluded : ℕ → ℕ → ℕ
excluded old new = new

select_as_of-stable_example :
    Has (observed 10 5) (
      select_as_of event_key_eq event_engine
        (λ r. r.available_at)
        (λ r. true)
        15
        (observed 10 5 ∷ []))
    ↔ Has (observed 10 5) (
        select_as_of event_key_eq event_engine
          (λ r. r.available_at)
          (λ r. true)
          15
          (observed 10 5 ∷ []))
unfolding upsert_event_rows lists
select_as_of-stable_example =
    select_as_of-stable event_key_eq event_engine (lists-IsPostgres event_key_eq)
      (λ r. r.available_at) (λ r. true) 15 {F = ℤ} excluded (observed 20 9 ∷ [])
      (observed 10 5 ∷ []) (observed 10 5 ∷ []) (observed 10 5) (λ s m. ground (arith, m)) refl

abbrev pub samsung : ℕ → InstrumentRow
samsung id = record {
  id = id;
  exchange = "KR";
  symbol = "005930";
  name = none;
  currency = none;
  source = "toss";
  raw_payload = none;
}

pub instruments-IsUnique : IsUnique (samsung 1 ∷ [])
unfolding IsUnique
instruments-IsUnique i j m n x s = ground (arith, m, n)
