-- ===== src/Db/Sql/Distinct.antt =====
-- SELECT DISTINCT ON on a plain list: one pass that keeps the first row of each key.
use mathlib.Core.Path.{subst, ap}
use toss_api.Prelude.{
  ℕ, ◌≡◌, refl, ◌≢◌, ◌⊎◌, inl, inr, Bool, true, false, List, [], ◌∷◌, Has, sym, ◌∙◌, Bool-cases,
  arith, if◌then◌else◌,
}
use toss_api.Db.Sql.{Eq, before}

module _ {R K : Type 0} (e : Eq K) where
  -- Adds a row, unless a row of its key stands there that is not after it.
  keep : (R → K) → (R → ℕ) → (R → ℕ) → R → List R → List R
  keep key f g r [] = r ∷ []
  keep key f g r (x ∷ xs) =
      let rest = keep key f g r xs in
      if e.beq (key r) (key x) then (if before f g r x then r else x) ∷ xs else x ∷ rest

  unfoldable pub distinct_rows : (R → K) → (R → Bool) → (R → ℕ) → (R → ℕ) → List R → List R
  unfolding keep
  distinct_rows key p f g [] = []
  distinct_rows key p f g (x ∷ xs) =
      let rest = distinct_rows key p f g xs in if p x then keep key f g x rest else rest

  module _ (key : R → K) where
    -- No two places of the list have one key.
    abbrev Apart : List R → Type 0
    Apart [] = Unit
    Apart (x ∷ xs) = ((s : R) → Has s xs → key s ≢ key x) × Apart xs

    Apart-one : (xs : List R) (r s : R) → Apart xs → Has r xs → Has s xs → key r ≡ key s → r ≡ s
    Apart-one [] r s a hr hs q = elim hr [ ]
    Apart-one (x ∷ xs) r s a (inl er) (inl es) q = er ∙ sym es
    Apart-one (x ∷ xs) r s a (inl er) (inr hs) q = absurd (a.0 s hs (cc))
    Apart-one (x ∷ xs) r s a (inr hr) (inl es) q = absurd (a.0 r hr (cc))
    Apart-one (x ∷ xs) r s a (inr hr) (inr hs) q = Apart-one xs r s a.1 hr hs q

    module _ (f g : R → ℕ) (r : R) where
      keys : (x : R) → (key r ≡ key x) ⊎ (key r ≢ key x)
      keys x = elim (Bool-cases (e.beq (key r) (key x))) [
        | inl b ↦ inl ((e.beq_iff _ _).0 b)
        | inr b ↦ inr (λ q. ground (arith, (e.beq_iff (key r) (key x)).1))
      ]

      -- The three steps of `keep`.
      keep_step :
          (x : R) (xs : List R)
          → ((key r ≡ key x) × (before f g r x ≡ true) × (keep key f g r (x ∷ xs) ≡ r ∷ xs))
            ⊎ ((key r ≡ key x) × (before f g r x ≡ false) × (keep key f g r (x ∷ xs) ≡ x ∷ xs))
            ⊎ ((key r ≢ key x) × (keep key f g r (x ∷ xs) ≡ x ∷ keep key f g r xs))
      unfolding keep
      keep_step x xs = elim (keys x) [
        | inl q ↦ elim (Bool-cases (before f g r x)) [
          | inl w ↦ inl (q, w, rw ((e.beq_iff _ _).1 q, w))
          | inr w ↦ inr (inl (q, w, rw ((e.beq_iff _ _).1 q, w)))
        ]
        | inr n ↦ inr (inr (n, ground (arith, (e.beq_iff (key r) (key x)).0)))
      ]

      -- A row of the result stood there before or is the new one; then it comes before whatever
      -- had its key.
      keep-from :
          (xs : List R) (s : R)
          → Apart xs
          → Has s (keep key f g r xs)
          → Has s xs ⊎ ((s ≡ r) × ((u : R) → Has u xs → key u ≡ key r → before f g r u ≡ true))
      unfolding keep
      keep-from [] s a h = elim h [ inl q ↦ inr (q, λ u m. elim m [ ]) | inr m ↦ elim m [ ] ]
      keep-from (x ∷ xs) s a h = elim (keep_step x xs) [
        | inl (q, w, eq) ↦ elim (subst (Has s) eq h) [
          | inl at ↦ inr (at, λ u m k. rw (Apart-one (x ∷ xs) u x a m (inl refl) (k ∙ q)) w)
          | inr m ↦ inl (inr m)
        ]
        | inr (inl (q, w, eq)) ↦ inl (subst (Has s) eq h)
        | inr (inr (n, eq)) ↦ elim (subst (Has s) eq h) [
          | inl at ↦ inl (inl at)
          | inr m ↦ elim (keep-from xs s a.1 m) [
            | inl m' ↦ inl (inr m')
            | inr (at, better) ↦ inr (
              at,
              λ u mu k. elim mu [
                | inl ux ↦ absurd (n (sym k ∙ ap key ux))
                | inr mu' ↦ better u mu' k
              ],
            )
          ]
        ]
      ]

      -- Every row that stood there, and the new one, has a row of its key in the result.
      keep-key :
          (xs : List R) (s : R)
          → (s ≡ r) ⊎ Has s xs
          → (u : R) × Has u (keep key f g r xs) × (key u ≡ key s)
      unfolding keep
      keep-key [] s h = elim h [ inl q ↦ (r, inl refl, ap key (sym q)) | inr m ↦ elim m [ ] ]
      keep-key (x ∷ xs) s h = elim (keep_step x xs) [
        | inl (q, w, eq) ↦ elim h [
          | inl at ↦ (r, subst (Has r) (sym eq) (inl refl), ap key (sym at))
          | inr (inl at) ↦ (r, subst (Has r) (sym eq) (inl refl), q ∙ ap key (sym at))
          | inr (inr m) ↦ (s, subst (Has s) (sym eq) (inr m), refl)
        ]
        | inr (inl (q, w, eq)) ↦ elim h [
          | inl at ↦ (x, subst (Has x) (sym eq) (inl refl), sym q ∙ ap key (sym at))
          | inr m ↦ (s, subst (Has s) (sym eq) m, refl)
        ]
        | inr (inr (n, eq)) ↦ elim h [
          | inl at ↦
              let (u, m, k) = keep-key xs s (inl at) in (u, subst (Has u) (sym eq) (inr m), k)
          | inr (inl at) ↦ (x, subst (Has x) (sym eq) (inl refl), ap key (sym at))
          | inr (inr m) ↦
              let (u, m', k) = keep-key xs s (inr m) in (u, subst (Has u) (sym eq) (inr m'), k)
        ]
      ]

      -- Whatever has the new row's key in the result does not come after the new row.
      keep-not_before :
          (xs : List R) (s : R)
          → Apart xs
          → Has s (keep key f g r xs)
          → key s ≡ key r
          → before f g r s ≡ false
      unfolding keep
      keep-not_before [] s a h k = elim h [ inl q ↦ ground arith | inr m ↦ elim m [ ] ]
      keep-not_before (x ∷ xs) s a h k = elim (keep_step x xs) [
        | inl (q, w, eq) ↦ elim (subst (Has s) eq h) [
          | inl at ↦ ground arith
          | inr m ↦ absurd (a.0 s m (k ∙ q))
        ]
        | inr (inl (q, w, eq)) ↦
            rw (Apart-one (x ∷ xs) s x a (subst (Has s) eq h) (inl refl) (k ∙ q)) w
        | inr (inr (n, eq)) ↦ elim (subst (Has s) eq h) [
          | inl at ↦ absurd (n (sym k ∙ ap key at))
          | inr m ↦ keep-not_before xs s a.1 m k
        ]
      ]

      keep-Apart : (xs : List R) → Apart xs → Apart (keep key f g r xs)
      unfolding keep
      keep-Apart [] a = (λ s m. elim m [ ], tt)
      keep-Apart (x ∷ xs) a = elim (keep_step x xs) [
        | inl (q, w, eq) ↦ subst Apart (sym eq) (λ s m k. a.0 s m (k ∙ q), a.1)
        | inr (inl (q, w, eq)) ↦ subst Apart (sym eq) a
        | inr (inr (n, eq)) ↦ subst Apart (sym eq) (
          λ s m k. elim (keep-from xs s a.1 m) [
            | inl m' ↦ a.0 s m' k
            | inr (at, _) ↦ n (ap key (sym at) ∙ k)
          ],
          keep-Apart xs a.1,
        )
      ]

    module _ (p : R → Bool) (f g : R → ℕ) where
      abbrev rows : List R → List R
      rows = distinct_rows key p f g

      -- The two steps of the pass.
      distinct_step :
          (x : R) (xs : List R)
          → ((p x ≡ true) × (rows (x ∷ xs) ≡ keep key f g x (rows xs)))
            ⊎ ((p x ≡ false) × (rows (x ∷ xs) ≡ rows xs))
      unfolding distinct_rows
      distinct_step x xs = elim (Bool-cases (p x)) [ inl b ↦ inl (b, rw b) | inr b ↦ inr (b, rw b) ]

      rows-Apart : (t : List R) → Apart (rows t)
      unfolding distinct_rows
      rows-Apart [] = tt
      rows-Apart (x ∷ xs) = elim (distinct_step x xs) [
        | inl (b, eq) ↦ subst Apart (sym eq) (keep-Apart f g x (rows xs) (rows-Apart xs))
        | inr (b, eq) ↦ subst Apart (sym eq) (rows-Apart xs)
      ]

      rows-kept : (t : List R) (r : R) → Has r (rows t) → Has r t × (p r ≡ true)
      unfolding distinct_rows
      rows-kept [] r h = elim h [ ]
      rows-kept (x ∷ xs) r h = elim (distinct_step x xs) [
        | inl (b, eq) ↦ elim (keep-from f g x (rows xs) r (rows-Apart xs) (subst (Has r) eq h)) [
          | inl m ↦ let (m', q) = rows-kept xs r m in (inr m', q)
          | inr (at, _) ↦ (inl at, rw at b)
        ]
        | inr (b, eq) ↦ let (m', q) = rows-kept xs r (subst (Has r) eq h) in (inr m', q)
      ]

      rows-every :
          (t : List R) (s : R) → Has s t → p s ≡ true → (r : R) × Has r (rows t) × (key r ≡ key s)
      unfolding distinct_rows
      rows-every [] s m q = elim m [ ]
      rows-every (x ∷ xs) s m q = elim (distinct_step x xs) [
        | inl (b, eq) ↦ elim m [
          | inl at ↦
              let (u, mu, k) = keep-key f g x (rows xs) s (inl at) in
              (u, subst (Has u) (sym eq) mu, k)
          | inr m' ↦
              let (v, mv, kv) = rows-every xs s m' q in
              let (u, mu, k) = keep-key f g x (rows xs) v (inr mv) in
              (u, subst (Has u) (sym eq) mu, k ∙ kv)
        ]
        | inr (b, eq) ↦ elim m [
          | inl at ↦ absurd (ground arith)
          | inr m' ↦ let (u, mu, k) = rows-every xs s m' q in (u, subst (Has u) (sym eq) mu, k)
        ]
      ]

      rows-first :
          (t : List R) (r s : R)
          → Has r (rows t)
          → Has s t
          → p s ≡ true
          → key s ≡ key r
          → before f g s r ≡ false
      unfolding distinct_rows
      rows-first [] r s h m q k = elim m [ ]
      rows-first (x ∷ xs) r s h m q k = elim (distinct_step x xs) [
        | inl (b, eq) ↦
            let h' = subst (Has r) eq h in
            elim m [
              | inl at ↦
                  rw at (keep-not_before f g x (rows xs) r (rows-Apart xs) h' (sym k ∙ ap key at))
              | inr m' ↦ elim (keep-from f g x (rows xs) r (rows-Apart xs) h') [
                | inl old ↦ rows-first xs r s old m' q k
                | inr (new, better) ↦
                    let (v, mv, kv) = rows-every xs s m' q in
                    let worse = rows-first xs v s mv m' q (sym kv) in
                    let ahead = better v mv (kv ∙ k ∙ ap key new) in ground (arith, worse, ahead)
              ]
            ]
        | inr (b, eq) ↦ elim m [
          | inl at ↦ absurd (ground arith)
          | inr m' ↦ rows-first xs r s (subst (Has r) eq h) m' q k
        ]
      ]

    pub distinct_rows-kept :
        (p : R → Bool) (f g : R → ℕ) (t : List R) (r : R)
        → Has r (distinct_rows key p f g t)
        → Has r t × (p r ≡ true)
    distinct_rows-kept p f g = rows-kept p f g

    pub distinct_rows-first :
        (p : R → Bool) (f g : R → ℕ) (t : List R) (r s : R)
        → Has r (distinct_rows key p f g t)
        → Has s t
        → p s ≡ true
        → key s ≡ key r
        → before f g s r ≡ false
    distinct_rows-first p f g = rows-first p f g

    pub distinct_rows-every :
        (p : R → Bool) (f g : R → ℕ) (t : List R) (s : R)
        → Has s t
        → p s ≡ true
        → (r : R) × Has r (distinct_rows key p f g t) × (key r ≡ key s)
    distinct_rows-every p f g = rows-every p f g

    pub distinct_rows-one :
        (p : R → Bool) (f g : R → ℕ) (t : List R) (r s : R)
        → Has r (distinct_rows key p f g t)
        → Has s (distinct_rows key p f g t)
        → key r ≡ key s
        → r ≡ s
    distinct_rows-one p f g t r s = Apart-one (distinct_rows key p f g t) r s (rows-Apart p f g t)
