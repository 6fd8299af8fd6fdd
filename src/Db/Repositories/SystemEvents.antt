-- ===== src/Db/Repositories/SystemEvents.antt =====
-- app/db/repositories/system_events.py: the audit log.
pub mod Recent
use mathlib.Core.List.{reverse}
use toss_api.Prelude.{ℕ, String, Bool, true, false, Option, none, some, List, filter, take, str_eq}
use toss_api.Exceptions.{plain, python_exception}
use toss_api.Action.{Action, ok, err}
use toss_api.Runtime.{JsonFields}
use toss_api.Db.Sql.{Engine}
use toss_api.Db.Inserts.{
  Insert, Inserted, inserted, integrity_error, other_error, Others, get_or_insert,
}
use toss_api.Db.Repositories.{optionally}

pub record SystemEventRow : Type 0 where
  pub id : ℕ
  pub event_type : String
  pub source : String
  pub severity : String
  pub message : String
  pub details : Option JsonFields
  pub occurred_at : ℕ
  pub ingested_at : ℕ
  pub dedup_key : Option String

-- `dedup_key = …`, which is not true of NULL
abbrev pub has_dedup_key : String → SystemEventRow → Bool
has_dedup_key key r = elim r.dedup_key [ none ↦ false | some k ↦ str_eq k key ]

-- `occurred_at` is left to the column's default, the database's time, where it is not given.
abbrev pub time_or_now : Option ℕ → ℕ → ℕ
time_or_now none now = now
time_or_now (some occurred_at) now = occurred_at

module _ {F : Type 0} (insert : Insert SystemEventRow) (others : Others SystemEventRow) where
  logged : SystemEventRow → Inserted SystemEventRow → Action F (List SystemEventRow) (ℕ × Bool)
  logged new (inserted t') t = (ok (new.id, true), t')
  logged new integrity_error t = (err (plain python_exception), t)
  logged new other_error t = (err (plain python_exception), t)

  unfoldable pub log_keyed :
      SystemEventRow → Option String → Action F (List SystemEventRow) (ℕ × Bool)
  unfolding logged
  log_keyed new none t = logged new (insert new t) t
  log_keyed new (some key) t = get_or_insert insert others (λ r. r.id) (has_dedup_key key) new t

  -- `SystemEventRepository.log_event`, with the `id` that the sequence gives next and the
  -- database's time `now`; of `event` the other columns are taken
  unfoldable pub log_event :
      ℕ → ℕ → SystemEventRow → Option ℕ → Action F (List SystemEventRow) (ℕ × Bool)
  unfolding log_keyed
  log_event id now event occurred_at =
      log_keyed
        (record event { id = id; occurred_at = time_or_now occurred_at now; ingested_at = now })
        event.dedup_key

abbrev pub of_type : Option String → SystemEventRow → Bool
of_type event_type r = optionally event_type (λ x. str_eq r.event_type x)

-- `SystemEventRepository.list_recent`: ORDER BY occurred_at DESC is the ascending order from its end.
unfoldable pub list_recent :
    {K : Type 0}
    → Engine SystemEventRow K
    → Option String
    → ℕ
    → List SystemEventRow
    → List SystemEventRow
list_recent eng event_type limit t =
    take limit (reverse (eng.order_by (λ r. r.occurred_at) (filter (of_type event_type) t)))
