-- ===== src/Db/Revisions.antt =====
-- app/db/upsert.py, `append_revision_rows`, and app/db/repositories/_revisions.py: the append-only
-- tables. A row has the columns of its logical key, its two times and its revision, and the value
-- columns.
pub mod History
pub mod Batches
pub mod PointInTime
use toss_api.Prelude.{
  ℕ, suc, ◌+◌, ◌≤◌, Bool, true, false, ◌&&◌, Option, none, some, List, [], ◌∷◌, leb, ◌==◌,
}
use toss_api.Prelude.Int.{ℤ, pos, ◌+ℤ◌}
use toss_api.Db.Sql.{Eq, Engine}

module _ (K V : Type 0) where
  -- A row as the caller hands it over, without a revision.
  pub record NewRow : Type 0 where
    pub key : K
    pub available_at : ℕ
    pub ingested_at : ℕ
    pub values : V

  pub record Row : Type 0 where
    pub key : K
    pub available_at : ℕ
    pub ingested_at : ℕ
    pub revision : ℕ
    pub values : V

module _ {K V : Type 0} (e : Eq K) (eng : Engine (Row K V) K) where
  -- `UniqueConstraint(*logical_key_columns, "available_at")`, the target of ON CONFLICT
  abbrev pub conflicts : Row K V → Row K V → Bool
  conflicts new old = e.beq old.key new.key && old.available_at == new.available_at

  -- DO UPDATE SET ingested_at = EXCLUDED.ingested_at
  abbrev pub touch : Row K V → Row K V → Row K V
  touch old excluded = record old { ingested_at = excluded.ingested_at }

  -- COALESCE(MAX(revision), 0) + 1 over the rows of the same logical key
  unfoldable pub next_revision : K → List (Row K V) → ℕ
  next_revision k t = elim (eng.select_max (λ r. e.beq r.key k) (λ r. r.revision) t) [
    | none ↦ 1
    | some m ↦ suc m
  ]

  abbrev pub numbered : NewRow K V → ℕ → Row K V
  numbered new n = record {
    key = new.key;
    available_at = new.available_at;
    ingested_at = new.ingested_at;
    revision = n;
    values = new.values;
  }

  -- One pass of the loop: the statement for one row.
  unfoldable pub append_row : NewRow K V → List (Row K V) → List (Row K V)
  unfolding next_revision
  append_row new t =
      eng.insert_on_conflict conflicts touch (numbered new (next_revision new.key t)) t

  -- The loop: the table afterwards, and `affected`.
  unfoldable pub append_rows : List (NewRow K V) → ℤ → List (Row K V) → List (Row K V) × ℤ
  unfolding append_row
  append_rows [] affected t = (t, affected)
  append_rows (new ∷ rows) affected t =
      let count = eng.rowcount (numbered new (next_revision new.key t)) t in
      append_rows rows (affected +ℤ count) (append_row new t)

  -- `append_revision_rows`
  unfoldable pub append_revision_rows : List (NewRow K V) → List (Row K V) → List (Row K V) × ℤ
  unfolding append_rows
  append_revision_rows rows t = append_rows rows (pos 0) t

  -- `select_latest_revision_as_of`, with the caller's filters and the event time of a row
  unfoldable pub select_latest_revision_as_of :
      (Row K V → ℕ) → (Row K V → Bool) → ℕ → List (Row K V) → List (Row K V)
  select_latest_revision_as_of event_time filters as_of t = eng.order_by event_time (
      eng.distinct_on (λ r. r.key) (λ r. filters r && leb r.available_at as_of)
        (λ r. r.available_at) (λ r. r.revision) t)
