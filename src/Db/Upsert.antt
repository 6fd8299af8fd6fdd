-- ===== src/Db/Upsert.antt =====
-- app/db/upsert.py, `upsert_event_rows`: the tables whose rows are not expected to be corrected. A row
-- has the columns of its natural key, its two times and its other columns.
pub mod Observed
pub mod Writes
use toss_api.Prelude.{
  ℕ, String, Bool, true, false, ◌&&◌, ◌||◌, Option, none, some, List, [], ◌∷◌, any, filter, leb,
  ◌==◌, if◌then◌else◌,
}
use toss_api.Exceptions.{plain, python_exception}
use toss_api.Action.{Result, ok, err}
use toss_api.Db.Sql.{Eq, Engine}

pub record EventRow (K V : Type 0) : Type 0 where
  pub key : K
  pub available_at : ℕ
  pub ingested_at : ℕ
  pub values : V

-- `on_conflict: Literal["update", "nothing"]`
pub data OnConflict : Type 0 where
  update nothing : OnConflict

module _ {K V : Type 0} (e : Eq K) (eng : Engine (EventRow K V) K) where
  abbrev pub same_key : EventRow K V → EventRow K V → Bool
  same_key new old = e.beq old.key new.key

  -- The SET clause: the value columns and `ingested_at`, but not `available_at`. `set_values` makes
  -- the other columns from those of the old row and of EXCLUDED, by the table's `update_columns`.
  abbrev pub set_columns : (V → V → V) → EventRow K V → EventRow K V → EventRow K V
  set_columns set_values old excluded = record old {
    ingested_at = excluded.ingested_at;
    values = set_values old.values excluded.values;
  }

  abbrev pub on_hit : OnConflict → (V → V → V) → EventRow K V → EventRow K V → EventRow K V
  on_hit update set_values = set_columns set_values
  on_hit nothing set_values = λ old excluded. old

  -- The rows of the statement, one after the other.
  unfoldable pub insert_rows :
      OnConflict → (V → V → V) → List (EventRow K V) → List (EventRow K V) → List (EventRow K V)
  insert_rows mode set_values [] t = t
  insert_rows mode set_values (new ∷ rows) t =
      insert_rows mode set_values rows
        (eng.insert_on_conflict same_key (on_hit mode set_values) new t)

  -- Two rows of the statement have one key.
  unfoldable pub collides : List (EventRow K V) → Bool
  collides [] = false
  collides (new ∷ rows) = any (same_key new) rows || collides rows

  -- `upsert_event_rows`, without the count that the driver reports. PostgreSQL refuses a statement
  -- whose DO UPDATE would come to one row twice, and the exception goes through.
  unfoldable pub upsert_event_rows :
      {F : Type 0}
      → OnConflict
      → (V → V → V)
      → List (EventRow K V)
      → List (EventRow K V)
      → Result F (List (EventRow K V))
  unfolding insert_rows collides
  upsert_event_rows nothing set_values rows t = ok (insert_rows nothing set_values rows t)
  upsert_event_rows update set_values rows t =
      if collides rows
      then err (plain python_exception)
      else ok (insert_rows update set_values rows t)

  -- SELECT … WHERE … AND available_at <= as_of
  unfoldable pub select_as_of :
      (EventRow K V → ℕ) → (EventRow K V → Bool) → ℕ → List (EventRow K V) → List (EventRow K V)
  select_as_of event_time filters as_of t =
      eng.order_by event_time (filter (λ r. filters r && leb r.available_at as_of) t)
