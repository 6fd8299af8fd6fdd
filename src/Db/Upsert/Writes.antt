-- ===== src/Db/Upsert/Writes.antt =====
-- What `upsert_event_rows` writes.
use mathlib.Core.Path.{subst}
use toss_api.Prelude.{
  ◌≡◌, ◌≢◌, refl, sym, ◌∙◌, ◌↔◌, ◌⊎◌, inl, inr, Bool, false, List, [], ◌∷◌, Has, Has-search, any,
  arith, Bool-cases,
}
use toss_api.Action.{ok}
use toss_api.Db.Sql.{Eq, Engine, IsPostgres}
use toss_api.Db.Upsert.{
  EventRow, update, same_key, set_columns, insert_rows, collides, upsert_event_rows,
}

any-miss :
    {A : Type 0} (c : A → Bool) (xs : List A) (a : A) → any c xs ≡ false → Has a xs → c a ≡ false
any-miss c [] a h m = elim m [ ]
any-miss c (x ∷ xs) a h m = ground (arith, h, m, any-miss c xs a)

module _ {K V : Type 0} where
  -- Two rows of the statement have one key.
  abbrev pub Twice : List (EventRow K V) → Type 0
  Twice [] = ⊥
  Twice (new ∷ rows) = ((s : EventRow K V) × Has s rows × (s.key ≡ new.key)) ⊎ Twice rows

module _ {K V : Type 0} (set_values : V → V → V) where
  -- The row of a key that was taken has the ingestion time of the new row, the updated values, and
  -- the old `available_at`.
  pub record IsUpdate (old new u : EventRow K V) : Type 0 where
    pub key : u.key ≡ new.key
    pub available_at : u.available_at ≡ old.available_at
    pub ingested_at : u.ingested_at ≡ new.ingested_at
    pub values : u.values ≡ set_values old.values new.values

  abbrev pub Stands : EventRow K V → List (EventRow K V) → List (EventRow K V) → Type 0
  Stands new t t' =
      (((old : EventRow K V) → Has old t → old.key ≢ new.key) × Has new t')
      ⊎ ((old : EventRow K V) × (u : EventRow K V) × Has old t × Has u t' × IsUpdate old new u)

module _ {K V : Type 0} (e : Eq K) (eng : Engine (EventRow K V) K) (set_values : V → V → V) where
  -- The row is there as it was given, or as an update of the row of its key.
  abbrev pub Written : EventRow K V → List (EventRow K V) → List (EventRow K V) → Type 0
  Written new t t' =
      (Has new t' × ((old : EventRow K V) → Has old t → old.key ≢ new.key))
      ⊎ ((old : EventRow K V) × Has old t
          × (old.key ≡ new.key)
          × Has (set_columns e eng set_values old new) t')

module _ {K V : Type 0} (e : Eq K) (eng : Engine (EventRow K V) K) (pg : IsPostgres eng)
    (set_values : V → V → V) where
  abbrev Rows : Type 0
  Rows = List (EventRow K V)

  abbrev after_row : EventRow K V → Rows → Rows
  after_row = eng.insert_on_conflict (same_key e eng) (set_columns e eng set_values)

  after_row-Written :
      (new : EventRow K V) (t : Rows) → Written e eng set_values new t (after_row new t)
  after_row-Written new t = elim (Has-search (same_key e eng new) t) [
    | inl (old, m, hit) ↦
        let u = set_columns e eng set_values old new in
        let law = pg.insert_law (same_key e eng) (set_columns e eng set_values) new t u in
        inr (old, m, (e.beq_iff old.key new.key).0 hit, law.1 (inl (old, m, hit, refl)))
    | inr free ↦
        let law = pg.insert_law (same_key e eng) (set_columns e eng set_values) new t new in
        inl (
          law.1 (inr (inr (free, refl))),
          λ old m k. ground (arith, free old m, (e.beq_iff old.key new.key).1 k),
        )
  ]

  -- A row of a key that no row of the statement has stays as it is.
  after_row-stays :
      (new r : EventRow K V) (t : Rows) → r.key ≢ new.key → Has r (after_row new t) ↔ Has r t
  after_row-stays new r t other =
      let law = pg.insert_law (same_key e eng) (set_columns e eng set_values) new t r in
      let miss : e.beq r.key new.key ≡ false = elim (Bool-cases (e.beq r.key new.key)) [
        | inl hit ↦ absurd (other ((e.beq_iff r.key new.key).0 hit))
        | inr b ↦ b
      ] in
      (
        λ h. elim (law.0 h) [
          | inl (old, m, hit, same) ↦
              let k = (e.beq_iff old.key new.key).0 hit in
              let k' : r.key ≡ old.key = ground (arith, same) in absurd (other (k' ∙ k))
          | inr (inl (m, b)) ↦ m
          | inr (inr (free, same)) ↦ absurd (other (ground (arith, same)))
        ],
        λ m. law.1 (inr (inl (m, miss))),
      )

  insert_rows-stays :
      (rows t : Rows) (r : EventRow K V)
      → ((new : EventRow K V) → Has new rows → r.key ≢ new.key)
      → Has r (insert_rows e eng update set_values rows t) ↔ Has r t
  unfolding insert_rows
  insert_rows-stays [] t r other = (λ m. m, λ m. m)
  insert_rows-stays (new ∷ rows) t r other =
      let one = after_row-stays new r t (other new (inl refl)) in
      let rest = insert_rows-stays rows (after_row new t) r (λ s m. other s (inr m)) in
      (λ m. one.0 (rest.0 m), λ m. rest.1 (one.1 m))

  insert_rows-Written :
      (rows t : Rows) (new : EventRow K V)
      → collides e eng rows ≡ false
      → Has new rows
      → Written e eng set_values new t (insert_rows e eng update set_values rows t)
  unfolding insert_rows collides
  insert_rows-Written [] t new apart m = elim m [ ]
  insert_rows-Written (first ∷ rows) t new apart m =
      let t' = after_row first t in
      let others : (s : EventRow K V) → Has s rows → first.key ≢ s.key = λ s k same. ground (
        arith,
        any-miss (same_key e eng first) rows s (ground (arith, apart)) k,
        (e.beq_iff s.key first.key).1 (sym same),
      ) in
      elim m [
        | inl same ↦
            subst (λ n. Written e eng set_values n t (insert_rows e eng update set_values rows t'))
              (sym same)
              (elim (after_row-Written first t) [
                | inl (there, free) ↦ inl ((insert_rows-stays rows t' first others).1 there, free)
                | inr (old, k, key, there) ↦
                    let u = set_columns e eng set_values old first in
                    let apart' : (s : EventRow K V) → Has s rows → old.key ≢ s.key =
                      λ s l q. others s l (sym key ∙ q) in
                    inr (old, k, key, (insert_rows-stays rows t' u apart').1 there)
              ])
        | inr later ↦
            let apart' : collides e eng rows ≡ false = ground (arith, apart) in
            let far : (r : EventRow K V) → r.key ≡ new.key → r.key ≢ first.key =
              λ r key q. others new later (sym q ∙ key) in
            elim (insert_rows-Written rows t' new apart' later) [
              | inl (there, free) ↦ inl (
                there,
                λ old k key. free old ((after_row-stays first old t (far old key)).1 k) key,
              )
              | inr (old, k, key, there) ↦
                  inr (old, (after_row-stays first old t (far old key)).0 k, key, there)
            ]
      ]

  -- What a row that came in or was changed has to do with the statement is all that is known of it:
  -- a property of the table's rows that each written row has is kept.
  insert_rows-All :
      (P : EventRow K V → Type 0) (rows t : Rows)
      → ((new r : EventRow K V)
          → Has new rows
          → r.key ≡ new.key
          → P (set_columns e eng set_values r new))
      → ((new : EventRow K V) → Has new rows → P new)
      → ((r : EventRow K V) → Has r t → P r)
      → (r : EventRow K V) → Has r (insert_rows e eng update set_values rows t)
      → P r
  unfolding insert_rows
  insert_rows-All P [] t set given all r m = all r m
  insert_rows-All P (new ∷ rows) t set given all r m =
      insert_rows-All P rows (after_row new t) (λ n s k. set n s (inr k)) (λ n k. given n (inr k))
        (λ s k.
          let law = pg.insert_law (same_key e eng) (set_columns e eng set_values) new t s in
          elim (law.0 k) [
            | inl (old, there, hit, same) ↦
                subst P (sym same) (set new old (inl refl) ((e.beq_iff old.key new.key).0 hit))
            | inr (inl (there, miss)) ↦ all s there
            | inr (inr (free, same)) ↦ subst P (sym same) (given new (inl refl))
          ])
        r m

  pub upsert_event_rows-All :
      {F : Type 0} (P : EventRow K V → Type 0) (rows t t' : Rows)
      → upsert_event_rows e eng {F = F} update set_values rows t ≡ ok t'
      → ((new r : EventRow K V)
          → Has new rows
          → r.key ≡ new.key
          → P (set_columns e eng set_values r new))
      → ((new : EventRow K V) → Has new rows → P new)
      → ((r : EventRow K V) → Has r t → P r)
      → (r : EventRow K V) → Has r t'
      → P r
  unfolding upsert_event_rows
  upsert_event_rows-All P rows t t' h set given all r m = elim (Bool-cases (collides e eng rows)) [
    | inl b ↦ absurd (ground (arith, h, b))
    | inr b ↦
        let end : insert_rows e eng update set_values rows t ≡ t' = ground (arith, h, b) in
        insert_rows-All P rows t set given all r (subst (Has r) (sym end) m)
  ]

  -- The same in terms of the SET clause.
  pub upsert_event_rows-Written :
      {F : Type 0} (rows t t' : Rows)
      → upsert_event_rows e eng {F = F} update set_values rows t ≡ ok t'
      → ((new : EventRow K V) → Has new rows → Written e eng set_values new t t')
        × ((r : EventRow K V)
            → ((new : EventRow K V) → Has new rows → r.key ≢ new.key)
            → Has r t' ↔ Has r t)
  unfolding upsert_event_rows
  upsert_event_rows-Written rows t t' h = elim (Bool-cases (collides e eng rows)) [
    | inl b ↦ absurd (ground (arith, h, b))
    | inr b ↦
        let end : insert_rows e eng update set_values rows t ≡ t' = ground (arith, h, b) in
        (
          λ new m. subst (Written e eng set_values new t) end (insert_rows-Written rows t new b m),
          λ r other. subst (λ u. Has r u ↔ Has r t) end (insert_rows-stays rows t r other),
        )
  ]
