-- ===== src/Db/Repositories/SystemEvents/Recent.antt =====
-- `list_recent` returns the newest events of a type.
use mathlib.Core.List.{reverse, reverse-cons}
use toss_api.Prelude.{
  ℕ, zero, suc, String, ◌≡◌, refl, ◌≤◌, ◌↔◌, ◌⊎◌, inl, inr, true, Option, List, [], ◌∷◌, ◌++◌, Has,
  filter, filter-Has, take, length, arith,
}
use toss_api.Db.Sql.{Engine, IsPostgres}
use toss_api.Prelude.Sort.{Ascending}
use toss_api.Db.Repositories.SystemEvents.{SystemEventRow, of_type, list_recent}

module _ {R : Type 0} where
  Has-append : (r : R) (xs ys : List R) → Has r (xs ++ ys) ↔ (Has r xs ⊎ Has r ys)
  Has-append r [] ys = (λ h. inr h, λ h. ground (arith, h))
  Has-append r (x ∷ xs) ys =
      let ih = Has-append r xs ys in (λ h. ground (arith, ih, h), λ h. ground (arith, ih, h))

  Has-reverse : (r : R) (xs : List R) → Has r (reverse xs) ↔ Has r xs
  Has-reverse r [] = (λ h. h, λ h. h)
  Has-reverse r (x ∷ xs) =
      let ih = Has-reverse r xs in
      let ends = Has-append r (reverse xs) (x ∷ []) in
      rw (reverse-cons x xs) (λ h. ground (arith, ih, ends, h), λ h. ground (arith, ih, ends, h))

  -- Descending by a column.
  abbrev pub Descending : (R → ℕ) → List R → Type 0
  Descending f [] = Unit
  Descending f (x ∷ xs) = ((y : R) → Has y xs → f y ≤ f x) × Descending f xs

  Descending-append :
      (f : R → ℕ) (xs : List R) (x : R)
      → Descending f xs
      → ((y : R) → Has y xs → f x ≤ f y)
      → Descending f (xs ++ (x ∷ []))
  Descending-append f [] x d low = (λ y m. elim m [ ], tt)
  Descending-append f (z ∷ xs) x d low = (
    λ y m. elim ((Has-append y xs (x ∷ [])).0 m) [
      | inl old ↦ d.0 y old
      | inr last ↦ ground (arith, last, low z (inl refl))
    ],
    Descending-append f xs x d.1 (λ y m. low y (inr m)),
  )

  reverse-Descending : (f : R → ℕ) (xs : List R) → Ascending f xs → Descending f (reverse xs)
  reverse-Descending f [] a = tt
  reverse-Descending f (x ∷ xs) a = rw (reverse-cons x xs) (
      Descending-append f (reverse xs) x (reverse-Descending f xs a.1)
        (λ y m. a.0 y ((Has-reverse y xs).0 m)))

  -- What is cut off stands behind a full list of what is at least as high.
  take-Descending :
      (f : R → ℕ) (n : ℕ) (xs : List R)
      → Descending f xs
      → Descending f (take n xs)
        × (length (take n xs) ≤ n)
        × ((r : R) → Has r (take n xs) → Has r xs)
        × ((r : R)
            → Has r xs
            → Has r (take n xs)
              ⊎ ((length (take n xs) ≡ n) × ((s : R) → Has s (take n xs) → f r ≤ f s)))
  take-Descending f zero xs d =
      (tt, omega arith, λ r m. elim m [ ], λ r m. inr (refl, λ s k. elim k [ ]))
  take-Descending f (suc n) [] d = (tt, omega arith, λ r m. m, λ r m. elim m [ ])
  take-Descending f (suc n) (x ∷ xs) d =
      let (down, short, kept, rest) = take-Descending f n xs d.1 in
      (
        (λ y m. d.0 y (kept y m), down),
        omega arith,
        λ r m. ground (arith, m, kept r),
        λ r m. elim m [
          | inl same ↦ inl (inl same)
          | inr later ↦ elim (rest r later) [
            | inl there ↦ inl (inr there)
            | inr (full, low) ↦ inr (omega arith, λ s k. ground (arith, k, low s, d.0 r later))
          ]
        ],
      )

module _ {K : Type 0} (eng : Engine SystemEventRow K) (pg : IsPostgres eng) where
  abbrev occurred : SystemEventRow → ℕ
  occurred r = r.occurred_at

  -- At most `limit` events are returned, the newest first, all of them in the log and of the type
  -- that was asked for. An event of the type that is left out stands behind `limit` others, none
  -- of which is older.
  pub list_recent-newest :
      (event_type : Option String) (limit : ℕ) (t : List SystemEventRow)
      → let rows = list_recent eng event_type limit t in
        Descending (λ r. r.occurred_at) rows
        × (length rows ≤ limit)
        × ((r : SystemEventRow) → Has r rows → Has r t × (of_type event_type r ≡ true))
        × ((r : SystemEventRow)
            → Has r t
            → of_type event_type r ≡ true
            → Has r rows
              ⊎ ((length rows ≡ limit)
                  × ((s : SystemEventRow) → Has s rows → r.occurred_at ≤ s.occurred_at)))
  unfolding list_recent
  list_recent-newest event_type limit t =
      let kept = filter (of_type event_type) t in
      let (same, ascending) = pg.order_law occurred kept in
      let xs = reverse (eng.order_by occurred kept) in
      let (down, short, sub, rest) =
        take-Descending occurred limit xs
          (reverse-Descending occurred (eng.order_by occurred kept) ascending) in
      (
        down,
        short,
        λ r m.
            (filter-Has (of_type event_type) t r).0
              ((same r).0 ((Has-reverse r (eng.order_by occurred kept)).0 (sub r m))),
        λ r m b. rest r (
            (Has-reverse r (eng.order_by occurred kept)).1
              ((same r).1 ((filter-Has (of_type event_type) t r).1 (m, b)))),
      )
