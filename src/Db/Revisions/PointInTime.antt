-- ===== src/Db/Revisions/PointInTime.antt =====
-- `select_latest_revision_as_of`: it returns the latest revision that was available, and no later
-- write changes what it returns for an earlier `as_of`.
use mathlib.Core.Path.{subst}
use toss_api.Prelude.{
  ℕ, ◌≤◌, ◌<◌, ◌≡◌, refl, ◌↔◌, inl, inr, Bool, true, false, ◌&&◌, List, [], ◌∷◌, Has, leb,
  Bool-cases, arith, sym, ◌∙◌,
}
use toss_api.Prelude.Int.{ℤ, pos}
use toss_api.Db.Sql.{Eq, Engine, IsPostgres}
use toss_api.Prelude.Sort.{Ascending}
use toss_api.Db.Revisions.{
  NewRow, Row, append_row, append_rows, append_revision_rows, select_latest_revision_as_of,
}
use toss_api.Db.Revisions.History.{
  IsLog, settle-Alike, append_row-settle, append_row-from, settle-other, fresh-available_at,
}
use toss_api.Db.Revisions.Batches.{append_rows-IsLog}

module _ {K V : Type 0} (filters : Row K V → Bool) (as_of : ℕ) (t : List (Row K V)) where
  -- A row that the caller's filters let through and that was available at `as_of`.
  pub record IsVisible (r : Row K V) : Type 0 where
    pub present : Has r t
    pub wanted : filters r ≡ true
    pub available : r.available_at ≤ as_of

  -- The specification of a read: the visible row that became available last among the visible rows
  -- of its event.
  pub record IsCurrent (r : Row K V) : Type 0 where
    pub visible : IsVisible r
    pub last : (s : Row K V) → IsVisible s → s.key ≡ r.key → s.available_at ≤ r.available_at

module _ {K V : Type 0} (e : Eq K) (eng : Engine (Row K V) K) (pg : IsPostgres eng) where
  module _ (event_time : Row K V → ℕ) (filters : Row K V → Bool) (as_of : ℕ) where
    abbrev read : List (Row K V) → List (Row K V)
    read = select_latest_revision_as_of e eng event_time filters as_of

    abbrev passes : Row K V → Bool
    passes r = filters r && leb r.available_at as_of

    passes-IsVisible :
        (t : List (Row K V)) (r : Row K V) → Has r t → passes r ≡ true → IsVisible filters as_of t r
    passes-IsVisible t r m h = ground arith

    visible-passes :
        (t : List (Row K V)) (r : Row K V) → IsVisible filters as_of t r → passes r ≡ true
    visible-passes t r h = ground arith

    -- A read returns exactly the latest visible revision of each event, in the order of the events'
    -- times.
    pub select_latest_revision_as_of-iff-IsCurrent :
        (t : List (Row K V))
        → IsLog t
        → ((r : Row K V) → Has r (read t) ↔ IsCurrent filters as_of t r)
          × Ascending event_time (read t)
    unfolding select_latest_revision_as_of
    select_latest_revision_as_of-iff-IsCurrent t log =
        let d = pg.distinct_law (λ r. r.key) in
        let a = λ (r : Row K V). r.available_at in
        let n = λ (r : Row K V). r.revision in
        let kept = eng.distinct_on (λ r. r.key) passes a n t in
        let ordered = pg.order_law event_time kept in
        (
          λ r. (
            λ h.
                let m = (ordered.0 r).0 h in
                let (mt, q) = d.kept passes a n t r m in
                record {
                  visible = passes-IsVisible t r mt q;
                  last = λ s v k.
                      ground (arith, d.first passes a n t r s m v.present (visible-passes t s v) k);
                },
            λ h.
                let q = visible-passes t r h.visible in
                let (u, mu, k) = d.every_key passes a n t r h.visible.present q in
                let (ut, uq) = d.kept passes a n t u mu in
                let newest = d.first passes a n t u r mu h.visible.present q (sym k) in
                let bound = h.last u (passes-IsVisible t u ut uq) k in
                let same : u ≡ r =
                  log.unique u r ut h.visible.present k (ground (arith, newest, bound)) in
                (ordered.0 r).1 (subst (λ x. Has x kept) same mu),
          ),
          ordered.1,
        )

  -- A write of rows that become available after `as_of` changes no row available by then, and adds
  -- none.
  append_row-after :
      (new : NewRow K V) (as_of : ℕ) (t : List (Row K V)) (r : Row K V)
      → as_of < new.available_at
      → r.available_at ≤ as_of
      → Has r (append_row e eng new t) ↔ Has r t
  append_row-after new as_of t r late early = (
    λ m. elim (append_row-from e eng pg new t r m) [
      | inl (o, mo, q) ↦
          let alike = settle-Alike e eng pg new t o in
          let kept = settle-other e eng pg new t o (ground arith) in
          subst (λ x. Has x t) (sym (q ∙ kept)) mo
      | inr (_, q) ↦ absurd (ground (arith, fresh-available_at e eng pg new t))
    ],
    λ m.
        let kept = settle-other e eng pg new t r (ground arith) in
        subst (λ x. Has x (append_row e eng new t)) kept (append_row-settle e eng pg new t r m),
  )

  append_rows-after :
      (rows : List (NewRow K V)) (n : ℤ) (as_of : ℕ) (t : List (Row K V)) (r : Row K V)
      → ((new : NewRow K V) → Has new rows → as_of < new.available_at)
      → r.available_at ≤ as_of
      → Has r (append_rows e eng rows n t).0 ↔ Has r t
  unfolding append_rows
  append_rows-after [] n as_of t r late early = (λ m. m, λ m. m)
  append_rows-after (new ∷ rows) n as_of t r late early =
      let one = append_row-after new as_of t r (late new (inl refl)) early in
      let rest =
        append_rows-after rows _ as_of (append_row e eng new t) r (λ x m. late x (inr m)) early in
      (λ m. one.0 (rest.0 m), λ m. rest.1 (one.1 m))

  -- A correction never changes what was read before it: if every row of a batch becomes available
  -- after `as_of`, a read at `as_of` returns the same rows after the batch as before it.
  pub select_latest-append :
      (event_time : Row K V → ℕ) (filters : Row K V → Bool) (as_of : ℕ) (rows : List (NewRow K V))
      (t : List (Row K V))
      → IsLog t
      → ((new : NewRow K V) → Has new rows → as_of < new.available_at)
      → (r : Row K V)
      → Has r (
          select_latest_revision_as_of e eng event_time filters as_of
            (append_revision_rows e eng rows t).0)
        ↔ Has r (select_latest_revision_as_of e eng event_time filters as_of t)
  unfolding append_revision_rows
  select_latest-append event_time filters as_of rows t log late r =
      let t' = (append_rows e eng rows (pos 0) t).0 in
      let log' = append_rows-IsLog e eng pg rows (pos 0) t log in
      let same = λ (s : Row K V). append_rows-after rows (pos 0) as_of t s late in
      let old = (select_latest_revision_as_of-iff-IsCurrent event_time filters as_of t log).0 r in
      let new = (select_latest_revision_as_of-iff-IsCurrent event_time filters as_of t' log').0 r in
      (
        λ m.
            let l = new.0 m in
            let v = l.visible in
            old.1 (record {
              visible = record {
                present = (same r v.available).0 v.present;
                wanted = v.wanted;
                available = v.available;
              };
              last = λ s w k.
                  l.last s
                    (record {
                      present = (same s w.available).1 w.present;
                      wanted = w.wanted;
                      available = w.available;
                    })
                    k;
            }),
        λ m.
            let l = old.0 m in
            let v = l.visible in
            new.1 (record {
              visible = record {
                present = (same r v.available).1 v.present;
                wanted = v.wanted;
                available = v.available;
              };
              last = λ s w k.
                  l.last s
                    (record {
                      present = (same s w.available).0 w.present;
                      wanted = w.wanted;
                      available = w.available;
                    })
                    k;
            }),
      )

  -- The filters stand before the choice of a revision: where the latest available revision of an
  -- event no longer passes them, a read returns the latest one that does, although it has been
  -- superseded.
  pub select_latest-superseded :
      (event_time : Row K V → ℕ) (filters : Row K V → Bool) (as_of : ℕ) (t : List (Row K V))
      (old new : Row K V)
      → IsLog t
      → IsVisible filters as_of t old
      → Has new t
      → new.key ≡ old.key
      → new.available_at ≤ as_of
      → old.available_at < new.available_at
      → ((s : Row K V)
          → IsVisible filters as_of t s
          → s.key ≡ old.key
          → s.available_at ≤ old.available_at)
      → (filters new ≡ false)
        × Has old (select_latest_revision_as_of e eng event_time filters as_of t)
  select_latest-superseded event_time filters as_of t old new log v m k available later last = (
    elim (Bool-cases (filters new)) [
      | inl passed ↦
          let bound = last new (record { present = m; wanted = passed; available = available }) k in
          absurd (omega arith)
      | inr dropped ↦ dropped
    ],
    ((select_latest_revision_as_of-iff-IsCurrent event_time filters as_of t log).0 old).1
        (record { visible = v; last = last }),
  )
