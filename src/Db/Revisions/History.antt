-- ===== src/Db/Revisions/History.antt =====
-- What `append_revision_rows` keeps: no revision is lost or changed, and the keys and the numbers
-- of the revisions stay apart.
use toss_api.Prelude.{
  ◌≤◌, ◌<◌, ◌≡◌, ◌≢◌, refl, ◌⊎◌, inl, inr, List, Has, Has-search, if◌then◌else◌, Bool-cases, arith,
  sym, ◌∙◌,
}
use toss_api.Db.Sql.{Eq, Engine, IsPostgres}
use toss_api.Db.Revisions.{NewRow, Row, conflicts, touch, next_revision, numbered, append_row}

module _ {K V : Type 0} where
  -- Equal but for `ingested_at`.
  pub record Alike (r s : Row K V) : Type 0 where
    pub key : r.key ≡ s.key
    pub available_at : r.available_at ≡ s.available_at
    pub revision : r.revision ≡ s.revision
    pub values : r.values ≡ s.values

  -- The unique constraint, and revisions that tell the rows of one event apart and begin at 1.
  pub record IsLog (t : List (Row K V)) : Type 0 where
    pub unique :
        (r s : Row K V)
        → Has r t
        → Has s t
        → r.key ≡ s.key
        → r.available_at ≡ s.available_at
        → r ≡ s
    pub numbers :
        (r s : Row K V) → Has r t → Has s t → r.key ≡ s.key → r.revision ≡ s.revision → r ≡ s
    pub positive : (r : Row K V) → Has r t → 1 ≤ r.revision

module _ {K V : Type 0} (e : Eq K) (eng : Engine (Row K V) K) (pg : IsPostgres eng) where
  next_revision-pos : (k : K) (t : List (Row K V)) → 1 ≤ next_revision e eng k t
  unfolding next_revision
  next_revision-pos k t = ground arith

  next_revision-above :
      (k : K) (t : List (Row K V)) (r : Row K V)
      → Has r t
      → r.key ≡ k
      → r.revision < next_revision e eng k t
  unfolding next_revision
  next_revision-above k t r m q = elim (pg.max_law (λ s. e.beq s.key k) (λ s. s.revision) t) [
    | inl (none_found, no_row) ↦ absurd (ground (arith, no_row r m, (e.beq_iff r.key k).1 q))
    | inr (n, found, bound, _) ↦
        rw (found, next_revision) (ground (arith, bound r m ((e.beq_iff r.key k).1 q)))
  ]

  module _ (new : NewRow K V) (t : List (Row K V)) where
    pub fresh : Row K V
    fresh = numbered e eng new (next_revision e eng new.key t)

    -- What the statement makes of a row that is there.
    pub settle : Row K V → Row K V
    unfolding fresh
    settle r = if conflicts e eng fresh r then touch e eng r fresh else r

    pub settle-Alike : (r : Row K V) → Alike (settle r) r
    unfolding settle
    settle-Alike r = ground arith

    pub settle-other : (r : Row K V) → r.available_at ≢ new.available_at → settle r ≡ r
    unfolding settle
    settle-other r h = ground arith

    pub fresh-columns :
        (fresh.key ≡ new.key)
        × (fresh.available_at ≡ new.available_at)
        × (fresh.values ≡ new.values)
    unfolding fresh
    fresh-columns = (refl, refl, refl)

    pub fresh-available_at : fresh.available_at ≡ new.available_at
    unfolding fresh
    fresh-available_at = refl

    pub append_row-settle : (r : Row K V) → Has r t → Has (settle r) (append_row e eng new t)
    unfolding append_row settle
    append_row-settle r m = elim (Bool-cases (conflicts e eng fresh r)) [
      | inl hit ↦
          rw hit
            ((pg.insert_law (conflicts e eng) (touch e eng) fresh t _).1 (inl (r, m, hit, refl)))
      | inr miss ↦
          rw miss
            ((pg.insert_law (conflicts e eng) (touch e eng) fresh t r).1 (inr (inl (m, miss))))
    ]

    -- A row of the table afterwards was there before and was settled, or is the new one; then no
    -- row had its key and its `available_at`.
    pub append_row-from :
        (s : Row K V)
        → Has s (append_row e eng new t)
        → ((r : Row K V) × Has r t × (s ≡ settle r))
          ⊎ (((r : Row K V) → Has r t → r.key ≡ new.key → r.available_at ≢ new.available_at)
              × (s ≡ fresh))
    unfolding append_row settle
    append_row-from s m = elim ((pg.insert_law (conflicts e eng) (touch e eng) fresh t s).0 m) [
      | inl (old, mo, hit, q) ↦ inl (old, mo, ground arith)
      | inr (inl (mo, miss)) ↦ inl (s, mo, ground arith)
      | inr (inr (none_hit, q)) ↦
          inr (λ r mr k a. ground (arith, none_hit r mr, (e.beq_iff r.key new.key).1 k), q)
    ]

    fresh-numbers : (r : Row K V) → Has r t → r.key ≡ new.key → r.revision ≢ fresh.revision
    unfolding fresh
    fresh-numbers r m k q = absurd (omega (arith, next_revision-above new.key t r m k))

    pub append_row-IsLog : IsLog t → IsLog (append_row e eng new t)
    unfolding fresh
    append_row-IsLog log = record {
      unique = λ r s mr ms k a. elim (append_row-from r mr) [
        | inl (o, mo, qo) ↦ elim (append_row-from s ms) [
          | inl (o', mo', qo') ↦
              ground (arith, settle-Alike o, settle-Alike o', log.unique o o' mo mo')
          | inr (apart, q) ↦ absurd (ground (arith, settle-Alike o, apart o mo))
        ]
        | inr (apart, q) ↦ elim (append_row-from s ms) [
          | inl (o, mo, qo) ↦ absurd (ground (arith, settle-Alike o, apart o mo))
          | inr (_, q') ↦ q ∙ sym q'
        ]
      ];
      numbers = λ r s mr ms k n. elim (append_row-from r mr) [
        | inl (o, mo, qo) ↦ elim (append_row-from s ms) [
          | inl (o', mo', qo') ↦
              ground (arith, settle-Alike o, settle-Alike o', log.numbers o o' mo mo')
          | inr (apart, q) ↦ absurd (ground (arith, settle-Alike o, fresh-numbers o mo))
        ]
        | inr (apart, q) ↦ elim (append_row-from s ms) [
          | inl (o, mo, qo) ↦ absurd (ground (arith, settle-Alike o, fresh-numbers o mo))
          | inr (_, q') ↦ q ∙ sym q'
        ]
      ];
      positive = λ r mr. elim (append_row-from r mr) [
        | inl (o, mo, qo) ↦ ground (arith, settle-Alike o, log.positive o mo)
        | inr (apart, q) ↦ rw q (next_revision-pos new.key t)
      ];
    }

    -- The row is in the table afterwards, by its key and its `available_at`; with its own values
    -- if nothing stood there under them.
    pub append_row-Has :
        (s : Row K V) × Has s (append_row e eng new t)
        × (s.key ≡ new.key)
        × (s.available_at ≡ new.available_at)
    unfolding fresh append_row
    append_row-Has = elim (Has-search (conflicts e eng fresh) t) [
      | inl (r, m, hit) ↦ (
        settle r,
        append_row-settle r m,
        ground (arith, settle-Alike r, (e.beq_iff r.key new.key).0),
        ground (arith, settle-Alike r),
      )
      | inr miss ↦ (
        fresh,
        (pg.insert_law (conflicts e eng) (touch e eng) fresh t fresh).1 (inr (inr (miss, refl))),
        refl,
        refl,
      )
    ]
