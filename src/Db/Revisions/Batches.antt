-- ===== src/Db/Revisions/Batches.antt =====
-- `append_revision_rows` on a whole batch: what it keeps, what it adds, and a batch sent twice.
use toss_api.Prelude.{◌≡◌, refl, inl, inr, List, [], ◌∷◌, Has, arith}
use toss_api.Prelude.Int.{ℤ, pos}
use toss_api.Db.Sql.{Eq, Engine, IsPostgres}
use toss_api.Db.Revisions.{NewRow, Row, append_row, append_rows, append_revision_rows}
use toss_api.Db.Revisions.History.{
  Alike, IsLog, settle, settle-Alike, append_row-settle, append_row-from, append_row-IsLog,
  append_row-Has,
}

module _ {K V : Type 0} where
  -- The row of the table that a row of the batch stands for.
  pub record StandsFor (s : Row K V) (new : NewRow K V) : Type 0 where
    pub key : s.key ≡ new.key
    pub available_at : s.available_at ≡ new.available_at

  Alike-trans : (r s u : Row K V) → Alike r s → Alike s u → Alike r u
  Alike-trans r s u h k = ground arith

module _ {K V : Type 0} (e : Eq K) (eng : Engine (Row K V) K) (pg : IsPostgres eng) where
  abbrev pub after : List (NewRow K V) → ℤ → List (Row K V) → List (Row K V)
  after rows n t = (append_rows e eng rows n t).0

  pub append_rows-IsLog :
      (rows : List (NewRow K V)) (n : ℤ) (t : List (Row K V)) → IsLog t → IsLog (after rows n t)
  unfolding append_rows
  append_rows-IsLog [] n t log = log
  append_rows-IsLog (new ∷ rows) n t log =
      append_rows-IsLog rows _ (append_row e eng new t) (append_row-IsLog e eng pg new t log)

  append_rows-keeps :
      (rows : List (NewRow K V)) (n : ℤ) (t : List (Row K V)) (r : Row K V)
      → Has r t
      → (s : Row K V) × Has s (after rows n t) × Alike s r
  unfolding append_rows
  append_rows-keeps [] n t r m =
      (r, m, record { key = refl; available_at = refl; revision = refl; values = refl })
  append_rows-keeps (new ∷ rows) n t r m =
      let r' = settle e eng pg new t r in
      let (s, ms, a) =
        append_rows-keeps rows _ (append_row e eng new t) r'
          (append_row-settle e eng pg new t r m) in
      (s, ms, Alike-trans s r' r a (settle-Alike e eng pg new t r))

  -- After any batch the table is still a log, and every revision that it held is there with the
  -- same key, `available_at`, number and values.
  pub append_revision_rows-keeps :
      (rows : List (NewRow K V)) (t : List (Row K V))
      → IsLog t
      → let t' = (append_revision_rows e eng rows t).0 in
        IsLog t' × ((r : Row K V) → Has r t → (s : Row K V) × Has s t' × Alike s r)
  unfolding append_revision_rows
  append_revision_rows-keeps rows t log =
      (append_rows-IsLog rows (pos 0) t log, append_rows-keeps rows (pos 0) t)

  pub append_rows-Has :
      (rows : List (NewRow K V)) (n : ℤ) (t : List (Row K V)) (new : NewRow K V)
      → Has new rows
      → (s : Row K V) × Has s (after rows n t) × StandsFor s new
  unfolding append_rows
  append_rows-Has [] n t new m = elim m [ ]
  append_rows-Has (first ∷ rows) n t new m = elim m [
    | inl at ↦
        let (s, ms, k, a) = append_row-Has e eng pg first t in
        let (u, mu, alike) = append_rows-keeps rows _ (append_row e eng first t) s ms in
        (u, mu, ground arith)
    | inr m' ↦ append_rows-Has rows _ (append_row e eng first t) new m'
  ]

  -- Rows that all stand in the table already add nothing.
  append_rows-again :
      (rows : List (NewRow K V)) (n : ℤ) (t : List (Row K V))
      → ((new : NewRow K V) → Has new rows → (s : Row K V) × Has s t × StandsFor s new)
      → (s : Row K V) → Has s (after rows n t)
      → (r : Row K V) × Has r t × Alike s r
  unfolding append_rows
  append_rows-again [] n t there s m =
      (s, m, record { key = refl; available_at = refl; revision = refl; values = refl })
  append_rows-again (new ∷ rows) n t there s m =
      let t' = append_row e eng new t in
      let there' : (other : NewRow K V)
          → Has other rows
          → (u : Row K V) × Has u t' × StandsFor u other =
        λ other mo.
          let (u, mu, f) = there other (inr mo) in
          let alike = settle-Alike e eng pg new t u in
          (settle e eng pg new t u, append_row-settle e eng pg new t u mu, ground arith) in
      let (r, mr, alike) = append_rows-again rows _ t' there' s m in
      elim (append_row-from e eng pg new t r mr) [
        | inl (o, mo, q) ↦
            (o, mo, Alike-trans s r o alike (ground (arith, settle-Alike e eng pg new t o)))
        | inr (apart, q) ↦
            let (u, mu, f) = there new (inl refl) in absurd (apart u mu f.key f.available_at)
      ]

  -- A batch that is sent twice adds nothing the second time: each row then in the table was there
  -- after the first time, with at most another `ingested_at`.
  pub append_revision_rows-idempotent :
      (rows : List (NewRow K V)) (t : List (Row K V))
      → let t' = (append_revision_rows e eng rows t).0 in
        let t'' = (append_revision_rows e eng rows t').0 in
        ((s : Row K V) → Has s t'' → (r : Row K V) × Has r t' × Alike s r)
        × ((r : Row K V) → Has r t' → (s : Row K V) × Has s t'' × Alike s r)
  unfolding append_revision_rows
  append_revision_rows-idempotent rows t =
      let t' = after rows (pos 0) t in
      (
        append_rows-again rows (pos 0) t' (append_rows-Has rows (pos 0) t),
        append_rows-keeps rows (pos 0) t',
      )
