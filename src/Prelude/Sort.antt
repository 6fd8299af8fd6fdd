-- ===== src/Prelude/Sort.antt =====
-- Sorting by a number, `sorted(xs, key=f)`: equal values keep their order.
use toss_api.Prelude.{
  ℕ, ◌≤◌, ◌≡◌, refl, ◌↔◌, ◌⊎◌, Bool, List, [], ◌∷◌, Has, leb, length, filter, Bool-cases, arith,
  if◌then◌else◌, inl, inr,
}

-- Ascending by a column; equal values in any order.
abbrev pub Ascending : {R : Type 0} → (R → ℕ) → List R → Type 0
Ascending f [] = Unit
Ascending f (x ∷ xs) = ((y : _) → Has y xs → f x ≤ f y) × Ascending f xs

module _ {R : Type 0} where
  place : (R → ℕ) → R → List R → List R
  place f r [] = r ∷ []
  place f r (x ∷ xs) = let rest = place f r xs in if leb (f r) (f x) then r ∷ x ∷ xs else x ∷ rest

  unfoldable pub sort_by : (R → ℕ) → List R → List R
  unfolding place
  sort_by f [] = []
  sort_by f (x ∷ xs) = place f x (sort_by f xs)

  place-Has : (f : R → ℕ) (a r : R) (xs : List R) → Has r (place f a xs) ↔ ((r ≡ a) ⊎ Has r xs)
  unfolding place
  place-Has f a r [] = (λ h. h, λ h. h)
  place-Has f a r (x ∷ xs) =
      let ih = place-Has f a r xs in (λ h. ground (arith, ih), λ h. ground (arith, ih))

  pub sort_by-Has : (f : R → ℕ) (r : R) (xs : List R) → Has r (sort_by f xs) ↔ Has r xs
  unfolding sort_by
  sort_by-Has f r [] = (λ h. h, λ h. h)
  sort_by-Has f r (x ∷ xs) =
      let placed = place-Has f x r (sort_by f xs) in
      let ih = sort_by-Has f r xs in
      (λ h. ground (arith, placed, ih), λ h. ground (arith, placed, ih))

  place-Ascending : (f : R → ℕ) (a : R) (xs : List R) → Ascending f xs → Ascending f (place f a xs)
  unfolding place
  place-Ascending f a [] h = (λ y m. elim m [ ], tt)
  place-Ascending f a (x ∷ xs) h = elim (Bool-cases (leb (f a) (f x))) [
    | inl b ↦ rw (b, place) (λ y m. ground (arith, h.0 y), h)
    | inr b ↦
        rw (b, place) (λ y m. ground (arith, place-Has f a y xs, h.0 y), place-Ascending f a xs h.1)
  ]

  pub sort_by-Ascending : (f : R → ℕ) (xs : List R) → Ascending f (sort_by f xs)
  unfolding sort_by
  sort_by-Ascending f [] = tt
  sort_by-Ascending f (x ∷ xs) = place-Ascending f x (sort_by f xs) (sort_by-Ascending f xs)

  -- As many of every kind as before.
  place-filter :
      (f : R → ℕ) (p : R → Bool) (a : R) (xs : List R)
      → length (filter p (place f a xs)) ≡ length (filter p (a ∷ xs))
  unfolding place
  place-filter f p a [] = refl
  place-filter f p a (x ∷ xs) = ground (arith, place-filter f p a xs)

  pub sort_by-filter :
      (f : R → ℕ) (p : R → Bool) (xs : List R)
      → length (filter p (sort_by f xs)) ≡ length (filter p xs)
  unfolding sort_by
  sort_by-filter f p [] = refl
  sort_by-filter f p (x ∷ xs) =
      ground (arith, place-filter f p x (sort_by f xs), sort_by-filter f p xs)
