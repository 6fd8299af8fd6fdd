-- ===== src/Db/Upsert/Observed.antt =====
-- What `upsert_event_rows` keeps of the rows that are there, and what it does not.
use toss_api.Prelude.{
  ℕ, ◌≤◌, ◌≡◌, refl, ◌↔◌, inl, inr, Bool, true, ◌&&◌, List, [], ◌∷◌, Has, filter-Has, ◌<◌, filter,
  arith, Bool-cases, leb, sym, ◌∙◌,
}
use mathlib.Core.Path.{subst}
use toss_api.Action.{ok}
use toss_api.Db.Sql.{Eq, Engine, IsPostgres}
use toss_api.Db.Upsert.{
  EventRow, OnConflict, update, nothing, same_key, set_columns, on_hit, insert_rows, collides,
  upsert_event_rows, select_as_of,
}

module _ {K V : Type 0} (e : Eq K) (eng : Engine (EventRow K V) K) (pg : IsPostgres eng) where
  -- A row of the same key that was available at the same time.
  abbrev pub Stands : EventRow K V → List (EventRow K V) → Type 0
  Stands r t = (s : EventRow K V) × Has s t × (s.key ≡ r.key) × (s.available_at ≡ r.available_at)

  on_hit-key :
      (mode : OnConflict) (set_values : V → V → V) (old new : EventRow K V)
      → ((on_hit e eng mode set_values old new).key ≡ old.key)
        × ((on_hit e eng mode set_values old new).available_at ≡ old.available_at)
  on_hit-key update set_values old new = (refl, refl)
  on_hit-key nothing set_values old new = (refl, refl)

  insert-Stands :
      (mode : OnConflict) (set_values : V → V → V) (new : EventRow K V) (t : List (EventRow K V))
      (r : EventRow K V)
      → Has r t
      → Stands r (eng.insert_on_conflict (same_key e eng) (on_hit e eng mode set_values) new t)
  insert-Stands mode set_values new t r m =
      let law = pg.insert_law (same_key e eng) (on_hit e eng mode set_values) new t in
      elim (Bool-cases (same_key e eng new r)) [
        | inl hit ↦
            let u = on_hit e eng mode set_values r new in
            let kept = on_hit-key mode set_values r new in
            (u, (law u).1 (inl (r, m, hit, refl)), kept.0, kept.1)
        | inr miss ↦ (r, (law r).1 (inr (inl (m, miss))), refl, refl)
      ]

  insert_rows-Stands :
      (mode : OnConflict) (set_values : V → V → V) (rows t : List (EventRow K V)) (r : EventRow K V)
      → Has r t
      → Stands r (insert_rows e eng mode set_values rows t)
  unfolding insert_rows
  insert_rows-Stands mode set_values [] t r m = (r, m, refl, refl)
  insert_rows-Stands mode set_values (new ∷ rows) t r m =
      let (s, there, key, at) = insert-Stands mode set_values new t r m in
      let (s', there', key', at') = insert_rows-Stands mode set_values rows _ s there in
      (s', there', key' ∙ key, at' ∙ at)

  -- In either mode an upsert that returns loses no event and does not move its `available_at`.
  pub upsert_event_rows-keeps_time :
      {F : Type 0} (mode : OnConflict) (set_values : V → V → V) (rows t t' : List (EventRow K V))
      (r : EventRow K V)
      → upsert_event_rows e eng {F = F} mode set_values rows t ≡ ok t'
      → Has r t
      → Stands r t'
  unfolding upsert_event_rows
  upsert_event_rows-keeps_time update set_values rows t t' r h m =
      let end : insert_rows e eng update set_values rows t ≡ t' = ground (arith, h) in
      subst (Stands r) end (insert_rows-Stands update set_values rows t r m)
  upsert_event_rows-keeps_time nothing set_values rows t t' r h m =
      let end : insert_rows e eng nothing set_values rows t ≡ t' = ground (arith, h) in
      subst (Stands r) end (insert_rows-Stands nothing set_values rows t r m)

  module _ (event_time : EventRow K V → ℕ) (filters : EventRow K V → Bool) (as_of : ℕ) where
    -- A read as of a time: the rows that pass the filters and were available then.
    pub select_as_of_iff :
        (t : List (EventRow K V)) (r : EventRow K V)
        → Has r (select_as_of e eng event_time filters as_of t)
          ↔ (Has r t × (filters r ≡ true) × (r.available_at ≤ as_of))
    unfolding select_as_of
    select_as_of_iff t r =
        let ordered =
          (pg.order_law event_time (filter (λ s. filters s && leb s.available_at as_of) t)).0 r in
        let kept = filter-Has (λ s. filters s && leb s.available_at as_of) t r in
        (λ h. ground (arith, ordered, kept, h), λ h. ground (arith, ordered, kept, h.0, h.1, h.2))

    -- An update is seen at once by the reads of the past: whatever `available_at` the new row says, a
    -- read as of a time when only the old row was there returns the new values in its place.
    pub select_as_of-rewritten :
        {F : Type 0} (set_values : V → V → V) (old new : EventRow K V) (t t' : List (EventRow K V))
        → upsert_event_rows e eng {F = F} update set_values (new ∷ []) t ≡ ok t'
        → Has old t
        → old.key ≡ new.key
        → old.available_at ≤ as_of
        → filters (set_columns e eng set_values old new) ≡ true
        → Has
            (set_columns e eng set_values old new)
            (select_as_of e eng event_time filters as_of t')
    unfolding upsert_event_rows insert_rows collides
    select_as_of-rewritten set_values old new t t' h m k a f =
        let u = set_columns e eng set_values old new in
        let law = pg.insert_law (same_key e eng) (set_columns e eng set_values) new t u in
        let hit : e.beq old.key new.key ≡ true = (e.beq_iff old.key new.key).1 k in
        let there : Has u t' =
          subst (Has u) (ground (arith, h)) (law.1 (inl (old, m, hit, refl))) in
        (select_as_of_iff t' u).1 (there, f, a)

    insert_one_iff :
        (new r : EventRow K V) (t : List (EventRow K V))
        → as_of < new.available_at
        → r.available_at ≤ as_of
        → Has r (eng.insert_on_conflict (same_key e eng) (λ old excluded. old) new t) ↔ Has r t
    insert_one_iff new r t late a =
        let law = pg.insert_law (same_key e eng) (λ old excluded. old) new t r in
        (
          λ h. elim (law.0 h) [
            | inl (old, m, hit, same) ↦ subst (λ s. Has s t) (sym same) m
            | inr (inl (m, miss)) ↦ m
            | inr (inr (free, same)) ↦ absurd (ground (arith, same, late, a))
          ],
          λ m. elim (Bool-cases (same_key e eng new r)) [
            | inl hit ↦ law.1 (inl (r, m, hit, refl))
            | inr miss ↦ law.1 (inr (inl (m, miss)))
          ],
        )

    insert_nothing_iff :
        (set_values : V → V → V) (rows t : List (EventRow K V)) (r : EventRow K V)
        → ((s : EventRow K V) → Has s rows → as_of < s.available_at)
        → r.available_at ≤ as_of
        → Has r (insert_rows e eng nothing set_values rows t) ↔ Has r t
    unfolding insert_rows
    insert_nothing_iff set_values [] t r late a = (λ h. h, λ h. h)
    insert_nothing_iff set_values (new ∷ rows) t r late a =
        let t' = eng.insert_on_conflict (same_key e eng) (λ old excluded. old) new t in
        let one = insert_one_iff new r t (late new (inl refl)) a in
        let rest = insert_nothing_iff set_values rows t' r (λ s m. late s (inr m)) a in
        (λ h. one.0 (rest.0 h), λ h. rest.1 (one.1 h))

    -- With ON CONFLICT DO NOTHING the reads of the past stay as they were: rows that are available
    -- only after `as_of` change nothing of what a read as of then returns.
    pub select_as_of-stable :
        {F : Type 0} (set_values : V → V → V) (rows t t' : List (EventRow K V)) (r : EventRow K V)
        → ((s : EventRow K V) → Has s rows → as_of < s.available_at)
        → upsert_event_rows e eng {F = F} nothing set_values rows t ≡ ok t'
        → Has r (select_as_of e eng event_time filters as_of t')
          ↔ Has r (select_as_of e eng event_time filters as_of t)
    unfolding upsert_event_rows
    select_as_of-stable set_values rows t t' r late h =
        let end : insert_rows e eng nothing set_values rows t ≡ t' = ground (arith, h) in
        let after = select_as_of_iff t' r in
        let prior = select_as_of_iff t r in
        let step : r.available_at ≤ as_of → Has r t' ↔ Has r t =
          λ a. subst (λ u. Has r u ↔ Has r t) end (insert_nothing_iff set_values rows t r late a) in
        (
          λ m. let (there, f, a) = after.0 m in prior.1 ((step a).0 there, f, a),
          λ m. let (there, f, a) = prior.0 m in after.1 ((step a).1 there, f, a),
        )
