-- ===== src/Db/Repositories/Instruments.antt =====
-- `get_or_create` finds the one row of a symbol, or makes it.
use toss_api.Prelude.{
  String, ◌≡◌, refl, ◌↔◌, ◌⊎◌, inl, inr, true, false, some, List, [], ◌∷◌, Has, arith, Bool-cases,
  eq_iff, sym, ◌∙◌, Has-search,
}
use mathlib.Core.Path.{subst}
use toss_api.Db.Sql.{Engine, IsPostgres}
use toss_api.Db.Repositories.Market.{InstrumentRow, is_named, get_by_symbol, get_or_create}

-- `UniqueConstraint("exchange", "symbol")`
unfoldable pub IsUnique : List InstrumentRow → Type 0
IsUnique t =
    (i j : InstrumentRow)
    → Has i t
    → Has j t
    → i.exchange ≡ j.exchange
    → i.symbol ≡ j.symbol
    → i ≡ j

unfold_unique :
    (t : List InstrumentRow)
    → IsUnique t
    → (i j : InstrumentRow) → Has i t
    → Has j t
    → i.exchange ≡ j.exchange
    → i.symbol ≡ j.symbol
    → i ≡ j
unfolding IsUnique
unfold_unique t u = u

is_named_refl :
    (i j : InstrumentRow)
    → i.exchange ≡ j.exchange
    → i.symbol ≡ j.symbol
    → is_named j.exchange j.symbol i ≡ true
is_named_refl i j x s = ground (arith, eq_iff i.exchange j.exchange, eq_iff i.symbol j.symbol, x, s)

is_named-eq :
    (i : InstrumentRow) (x s : String) → is_named x s i ≡ true → (i.exchange ≡ x) × (i.symbol ≡ s)
is_named-eq i x s h = (ground (arith, eq_iff i.exchange x, h), ground (arith, eq_iff i.symbol s, h))

-- The search returns a row of the symbol that is there, if there is any.
get_by_symbol-finds :
    (x s : String) (t : List InstrumentRow) (i : InstrumentRow)
    → Has i t
    → is_named x s i ≡ true
    → (j : InstrumentRow) × (get_by_symbol x s t ≡ some j) × Has j t × (is_named x s j ≡ true)
unfolding get_by_symbol
get_by_symbol-finds x s [] i m n = elim m [ ]
get_by_symbol-finds x s (k ∷ t) i m n = elim (Bool-cases (is_named x s k)) [
  | inl b ↦ (k, rw b refl, inl refl, b)
  | inr b ↦
      let later : Has i t = ground (arith, m, n, b) in
      let (j, found, there, named) = get_by_symbol-finds x s t i later n in
      (j, rw b found, inr there, named)
]

module _ {K : Type 0} (eng : Engine InstrumentRow K) (pg : IsPostgres eng) where
  abbrev pub after : InstrumentRow → List InstrumentRow → List InstrumentRow
  after new t =
      eng.insert_on_conflict (λ i old. is_named i.exchange i.symbol old) (λ old excluded. old) new t

  after_iff :
      (new : InstrumentRow) (t : List InstrumentRow) (i : InstrumentRow)
      → Has i (after new t) ↔ (
          Has i t
          ⊎ (((old : InstrumentRow) → Has old t → is_named new.exchange new.symbol old ≡ false)
              × (i ≡ new)))
  after_iff new t i =
      let law =
        pg.insert_law (λ i old. is_named i.exchange i.symbol old) (λ old excluded. old) new t i in
      (
        λ h. elim (law.0 h) [
          | inl (old, m, hit, same) ↦ inl (subst (λ s. Has s t) (sym same) m)
          | inr (inl (m, miss)) ↦ inl m
          | inr (inr fresh) ↦ inr fresh
        ],
        λ h. elim h [
          | inl m ↦ elim (Bool-cases (is_named new.exchange new.symbol i)) [
            | inl hit ↦ law.1 (inl (i, m, hit, refl))
            | inr miss ↦ law.1 (inr (inl (m, miss)))
          ]
          | inr fresh ↦ law.1 (inr (inr fresh))
        ],
      )

  after-IsUnique :
      (new : InstrumentRow) (t : List InstrumentRow) → IsUnique t → IsUnique (after new t)
  unfolding IsUnique
  after-IsUnique new t u i j m n x s = elim ((after_iff new t i).0 m) [
    | inl mi ↦ elim ((after_iff new t j).0 n) [
      | inl mj ↦ u i j mi mj x s
      | inr (free, same) ↦ absurd (ground (arith, free i mi, is_named_refl i j x s, same))
    ]
    | inr (free, same) ↦ elim ((after_iff new t j).0 n) [
      | inl mj ↦ absurd (ground (arith, free j mj, is_named_refl j i (sym x) (sym s), same))
      | inr (_, same') ↦ same ∙ sym same'
    ]
  ]

  get_or_create-is :
      (new i : InstrumentRow) (t : List InstrumentRow)
      → IsUnique t
      → Has i (after new t)
      → is_named new.exchange new.symbol i ≡ true
      → (get_or_create eng new t).0 ≡ some i
  unfolding get_or_create
  get_or_create-is new i t u m n =
      let unique = after-IsUnique new t u in
      let (j, found, there, named) =
        get_by_symbol-finds new.exchange new.symbol (after new t) i m n in
      let vi = is_named-eq i new.exchange new.symbol n in
      let vj = is_named-eq j new.exchange new.symbol named in
      let same : j ≡ i =
        unfold_unique (after new t) unique j i there m (vj.0 ∙ sym vi.0) (vj.1 ∙ sym vi.1) in
      ground (arith, found, same)

  -- A symbol of an exchange keeps the row that it has: `get_or_create` returns that row, whatever else
  -- it is given, and makes the new one only where there is none; no row is lost, and no second row of
  -- a symbol appears.
  pub get_or_create-one :
      (new : InstrumentRow) (t : List InstrumentRow)
      → IsUnique t
      → ((old : InstrumentRow)
          → Has old t
          → is_named new.exchange new.symbol old ≡ true
          → (get_or_create eng new t).0 ≡ some old)
        × (((old : InstrumentRow) → Has old t → is_named new.exchange new.symbol old ≡ false)
            → (get_or_create eng new t).0 ≡ some new)
        × ((i : InstrumentRow) → Has i t → Has i (get_or_create eng new t).1)
        × IsUnique (get_or_create eng new t).1
  unfolding get_or_create
  get_or_create-one new t u = (
    λ old m n. get_or_create-is new old t u ((after_iff new t old).1 (inl m)) n,
    λ free.
        get_or_create-is new new t u ((after_iff new t new).1 (inr (free, refl)))
          (is_named_refl new new refl refl),
    λ i m. (after_iff new t i).1 (inl m),
    after-IsUnique new t u,
  )

  -- What is returned is the row of the symbol in the table afterwards.
  pub get_or_create-row :
      (new : InstrumentRow) (t : List InstrumentRow)
      → IsUnique t
      → (i : InstrumentRow) × ((get_or_create eng new t).0 ≡ some i)
        × Has i (get_or_create eng new t).1
        × (i.exchange ≡ new.exchange)
        × (i.symbol ≡ new.symbol)
  unfolding get_or_create
  get_or_create-row new t u = elim (Has-search (is_named new.exchange new.symbol) t) [
    | inl (old, m, named) ↦
        let there = (after_iff new t old).1 (inl m) in
        let (exchange, symbol) = is_named-eq old new.exchange new.symbol named in
        (old, get_or_create-is new old t u there named, there, exchange, symbol)
    | inr free ↦
        let there = (after_iff new t new).1 (inr (free, refl)) in
        (
          new,
          get_or_create-is new new t u there (is_named_refl new new refl refl),
          there,
          refl,
          refl,
        )
  ]
