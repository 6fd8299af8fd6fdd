-- ===== src/Db/Inserts/Race.antt =====
-- Whatever other sessions commit meanwhile, a key has one row and every caller gets its id.
use toss_api.Prelude.{
  ℕ, ◌≤◌, ◌≡◌, refl, sym, ap, ◌↔◌, ◌⊎◌, inl, inr, Bool, true, false, none, some, List, [], ◌∷◌, Has,
  filter, filter-Has, length, arith, Bool-cases,
}
use mathlib.Core.Path.{subst}
use toss_api.Action.{Result, ok}
use toss_api.Db.Inserts.{
  Insert, Inserted, inserted, integrity_error, other_error, IsInsert, Others, one_or_none,
  scalar_one_or_none, after_integrity_error, after_insert, insert_new, after_lookup, get_or_insert,
}

module _ {R : Type 0} (id : R → ℕ) (lookup : R → Bool) where
  -- The unique constraint on the columns of the lookup.
  abbrev pub AtMostOne : List R → Type 0
  AtMostOne t = length (filter lookup t) ≤ 1

  -- A row of the key, with the id.
  abbrev pub Holds : ℕ → List R → Type 0
  Holds i t = (r : R) × Has r t × (lookup r ≡ true) × (id r ≡ i)

  -- Statements of other sessions that do not delete the row of the key or change its id; the
  -- unique constraint holds after them too.
  pub record Keeps (f : List R → List R) : Type 0 where
    pub single : (t : List R) → AtMostOne t → AtMostOne (f t)
    pub held : (t : List R) (i : ℕ) → AtMostOne t → Holds i t → Holds i (f t)

  one_of_filter :
      {F : Type 0} (t xs : List R)
      → filter lookup t ≡ xs
      → length xs ≤ 1
      → ((one_or_none {F = F} xs ≡ ok none) × ((r : R) → Has r t → lookup r ≡ false))
        ⊎ ((r : R) × (one_or_none {F = F} xs ≡ ok (some r))
            × Has r t
            × (lookup r ≡ true)
            × ((s : R) → Has s t → lookup s ≡ true → s ≡ r))
  unfolding one_or_none
  one_of_filter t [] e n = inl (
    refl,
    λ r m. elim (Bool-cases (lookup r)) [
      | inl b ↦ elim (subst (Has r) e ((filter-Has lookup t r).1 (m, b))) [ ]
      | inr b ↦ b
    ],
  )
  one_of_filter t (r ∷ []) e n =
      let kept = (filter-Has lookup t r).0 (subst (Has r) (sym e) (inl refl)) in
      inr (
        r,
        refl,
        kept.0,
        kept.1,
        λ s m b. elim (subst (Has s) e ((filter-Has lookup t s).1 (m, b))) [
          | inl same ↦ same
          | inr further ↦ elim further [ ]
        ],
      )
  one_of_filter t (r ∷ s ∷ xs) e n = absurd (omega arith)

  -- The SELECT, under the constraint.
  pub scalar_one_or_none-cases :
      {F : Type 0} (t : List R)
      → AtMostOne t
      → ((scalar_one_or_none {F = F} lookup t ≡ ok none) × ((r : R) → Has r t → lookup r ≡ false))
        ⊎ ((r : R) × (scalar_one_or_none {F = F} lookup t ≡ ok (some r))
            × Has r t
            × (lookup r ≡ true)
            × ((s : R) → Has s t → lookup s ≡ true → s ≡ r))
  unfolding scalar_one_or_none
  scalar_one_or_none-cases t n = one_of_filter t (filter lookup t) refl n

  filter_none : (t : List R) → ((r : R) → Has r t → lookup r ≡ false) → length (filter lookup t) ≡ 0
  filter_none [] h = refl
  filter_none (x ∷ t) h = ground (arith, h x (inl refl), filter_none t (λ r m. h r (inr m)))

  module _ {F : Type 0} (insert : Insert R) (others : Others R) where
    -- A call under a key that has a row returns its id and changes nothing.
    pub get_or_insert-found :
        (new : R) (t : List R) (i : ℕ)
        → AtMostOne t
        → Holds i t
        → get_or_insert {F = F} insert others id lookup new t ≡ (ok (i, false), t)
    unfolding get_or_insert
    get_or_insert-found new t i n (r, m, b, e) = elim (scalar_one_or_none-cases {F = F} t n) [
      | inl (found, free) ↦ absurd (ground (arith, free r m, b))
      | inr (s, found, there, hit, only) ↦
          rw (found, after_lookup) (ground (arith, only r m b, e, ap id (only r m b)))
    ]

    reread-found :
        (t : List R) (i : ℕ)
        → AtMostOne t
        → Holds i t
        → after_integrity_error {F = F} insert others id lookup t ≡ (ok (i, false), t)
    unfolding after_integrity_error
    reread-found t i n (r, m, b, e) = elim (scalar_one_or_none-cases {F = F} t n) [
      | inl (found, free) ↦ absurd (ground (arith, free r m, b))
      | inr (s, found, there, hit, only) ↦ rw found (ground (arith, ap id (only r m b), e))
    ]

    -- A call that returned an id and whether it made the row; the key has one row, with that id.
    abbrev pub Settled : R → Result F (ℕ × Bool) × List R → Type 0
    Settled new out =
        (i : ℕ) × (created : Bool) × (out.0 ≡ ok (i, created))
        × Holds i out.1
        × AtMostOne out.1
        × (created ≡ true → Has new out.1)

    module _ (conflicts : R → R → Bool) (accepts : R → Bool)
        (law : IsInsert insert conflicts accepts) (new : R) (named : lookup new ≡ true)
        (accepted : accepts new ≡ true)
        (unique : (r : R) → (conflicts new r ≡ true) ↔ (lookup r ≡ true)) where
      after_insert-Settled :
          (t : List R) (out : Inserted R)
          → Keeps others.before_reread
          → AtMostOne t
          → insert new t ≡ out
          → Settled new (after_insert insert others id lookup new out t)
      unfolding after_insert
      after_insert-Settled t (inserted t') kept n e =
          let (there, stay, count, free) = law.added new t t' e in
          let empty : length (filter lookup t) ≡ 0 =
            filter_none t (λ r m. ground (arith, free r m, unique r)) in
          let single : AtMostOne t' = ground (arith, count lookup, empty, named) in
          (id new, true, refl, (new, there, named, refl), single, λ _. there)
      after_insert-Settled t integrity_error kept n e = elim (law.refused new t e) [
        | inl bad ↦ absurd (ground (arith, bad, accepted))
        | inr (r, m, clash) ↦
            let t' = others.before_reread t in
            let holds : Holds (id r) t' = kept.held t (id r) n (r, m, (unique r).0 clash, refl) in
            let single = kept.single t n in
            let out = reread-found t' (id r) single holds in
            (
              id r,
              false,
              ap (λ o. o.0) out,
              subst (Holds (id r)) (sym (ap (λ o. o.1) out)) holds,
              subst AtMostOne (sym (ap (λ o. o.1) out)) single,
              λ c. cc,
            )
      ]
      after_insert-Settled t other_error kept n e =
          absurd (ground (arith, law.failed new t e, accepted))

      -- Whatever the others commit before the insert and before the second read, as long as they
      -- keep the row of the key, a call whose row breaks no other constraint returns; the key then
      -- has exactly one row, the one with the id that is returned.
      pub get_or_insert-Settled :
          (t : List R)
          → Keeps others.before_insert
          → Keeps others.before_reread
          → AtMostOne t
          → Settled new (get_or_insert insert others id lookup new t)
      unfolding get_or_insert insert_new
      get_or_insert-Settled t kept kept' n = elim (scalar_one_or_none-cases {F = F} t n) [
        | inl (found, free) ↦
            let t' = others.before_insert t in
            rw (found, after_lookup, insert_new)
              (after_insert-Settled t' (insert new t') kept' (kept.single t n) refl)
        | inr (s, found, there, hit, only) ↦
            rw (found, after_lookup) (id s, false, refl, (s, there, hit, refl), n, λ c. cc)
      ]
