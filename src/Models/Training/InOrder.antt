-- ===== src/Models/Training/InOrder.antt =====
-- Nothing that is trained on is later than what it is validated on.
use mathlib.Core.Path.{subst}
use toss_api.Prelude.{
  sym, ap, ℕ, zero, suc, ◌≤◌, ◌<◌, ◌+◌, ◌≡◌, refl, ◌∙◌, Bool, true, false, ◌&&◌, List, [], ◌∷◌, Has,
  length, filter, take, drop, leb, ltb, arith, inl, inr,
}
use toss_api.Prelude.Int.{ℤ, pos, negsuc}
use toss_api.Prelude.Sort.{Ascending, sort_by, sort_by-Ascending, sort_by-filter}
use toss_api.Exceptions.{plain, value_error}
use toss_api.Action.{ok, err}
use toss_api.Numeric.{Numeric}
use toss_api.Models.Dataset.{DatasetSample}
use toss_api.Models.Training.{
  TrainValidationSplit, clamp_index, split_of, split_index, is_fraction, time_ordered_split,
}

module _ {A : Type 0} where
  filter-true : (xs : List A) → length (filter (λ x. true) xs) ≡ length xs
  filter-true [] = refl
  filter-true (x ∷ xs) = ground (arith, filter-true xs)

  filter-take-drop :
      (p : A → Bool) (i : ℕ) (xs : List A)
      → length (filter p (take i xs)) + length (filter p (drop i xs)) ≡ length (filter p xs)
  filter-take-drop p zero xs = omega arith
  filter-take-drop p (suc i) [] = omega arith
  filter-take-drop p (suc i) (x ∷ xs) = ground (arith, filter-take-drop p i xs)

  length-take : (i : ℕ) (xs : List A) → i ≤ length xs → length (take i xs) ≡ i
  length-take zero xs h = refl
  length-take (suc i) [] h = absurd (omega (arith, h))
  length-take (suc i) (x ∷ xs) h =
      let rest = length-take i xs (omega (arith, h)) in omega (arith, rest)

  drop-first :
      (i : ℕ) (xs : List A) → i < length xs → (x : A) × (rest : List A) × (drop i xs ≡ x ∷ rest)
  drop-first zero [] h = absurd (omega (arith, h))
  drop-first zero (x ∷ xs) h = (x, xs, refl)
  drop-first (suc i) [] h = absurd (omega (arith, h))
  drop-first (suc i) (x ∷ xs) h = drop-first i xs (omega (arith, h))

  take-Has : (i : ℕ) (xs : List A) (a : A) → Has a (take i xs) → Has a xs
  take-Has zero xs a m = elim m [ ]
  take-Has (suc i) [] a m = m
  take-Has (suc i) (x ∷ xs) a m = elim m [ inl q ↦ inl q | inr r ↦ inr (take-Has i xs a r) ]

  drop-Has : (i : ℕ) (xs : List A) (a : A) → Has a (drop i xs) → Has a xs
  drop-Has zero xs a m = m
  drop-Has (suc i) [] a m = m
  drop-Has (suc i) (x ∷ xs) a m = inr (drop-Has i xs a m)

  module _ (f : A → ℕ) where
    take-before-drop :
        (i : ℕ) (xs : List A) (a b : A)
        → Ascending f xs
        → Has a (take i xs)
        → Has b (drop i xs)
        → f a ≤ f b
    take-before-drop zero xs a b h m n = elim m [ ]
    take-before-drop (suc i) [] a b h m n = elim m [ ]
    take-before-drop (suc i) (x ∷ xs) a b h m n = elim m [
      | inl q ↦ let low = h.0 b (drop-Has i xs b n) in ground (arith, low, q)
      | inr r ↦ take-before-drop i xs a b h.1 r n
    ]

    drop-Ascending : (i : ℕ) (xs : List A) → Ascending f xs → Ascending f (drop i xs)
    drop-Ascending zero xs h = h
    drop-Ascending (suc i) [] h = tt
    drop-Ascending (suc i) (x ∷ xs) h = drop-Ascending i xs h.1

    take-Ascending : (i : ℕ) (xs : List A) → Ascending f xs → Ascending f (take i xs)
    take-Ascending zero xs h = tt
    take-Ascending (suc i) [] h = tt
    take-Ascending (suc i) (x ∷ xs) h = (λ y m. h.0 y (take-Has i xs y m), take-Ascending i xs h.1)

clamp_index-bounds : (i : ℤ) (n : ℕ) → 2 ≤ n → (1 ≤ clamp_index i n) × (clamp_index i n < n)
unfolding clamp_index
clamp_index-bounds (pos i) n h = (ground arith, ground arith)
clamp_index-bounds (negsuc i) n h = (ground arith, ground arith)

module _ {F : Type 0} (num : Numeric F) (round : F → ℤ) where
  split_index-bounds :
      (n : ℕ) (fraction : F)
      → 2 ≤ n
      → (1 ≤ split_index num round n fraction) × (split_index num round n fraction < n)
  unfolding split_index
  split_index-bounds n fraction h = clamp_index-bounds _ n h

module _ {D F : Type 0} (num : Numeric F) (round : F → ℤ) where
  -- A split of the samples, each in one part, of which the first is no later than the second.
  pub record IsSplit (samples : List (DatasetSample D F)) (fraction : F)
      (split : TrainValidationSplit D F) : Type 0 where
    pub parts :
        (p : DatasetSample D F → Bool)
        → length (filter p split.train_samples) + length (filter p split.validation_samples)
          ≡ length (filter p samples)
    pub train_size : length split.train_samples ≡ split_index num round (length samples) fraction
    pub train_some : 1 ≤ length split.train_samples
    pub validation_some : 1 ≤ length split.validation_samples
    pub train_sorted : Ascending (λ s. s.as_of) split.train_samples
    pub validation_sorted : Ascending (λ s. s.as_of) split.validation_samples
    pub train_until :
        (s : DatasetSample D F) → Has s split.train_samples → s.as_of ≤ split.split_as_of
    pub validation_from :
        (s : DatasetSample D F) → Has s split.validation_samples → split.split_as_of ≤ s.as_of

  abbrev time : DatasetSample D F → ℕ
  time s = s.as_of

  sort_by-length :
      (samples : List (DatasetSample D F)) → length (sort_by time samples) ≡ length samples
  sort_by-length samples =
      let all = sort_by-filter time (λ s. true) samples in
      omega (arith, all, filter-true (sort_by time samples), filter-true samples)

  split_of-IsSplit :
      {E : Type 0} (samples ordered : List (DatasetSample D F)) (fraction : F) (i : ℕ)
      → 1 ≤ i
      → i < length ordered
      → Ascending time ordered
      → ((p : DatasetSample D F → Bool) → length (filter p ordered) ≡ length (filter p samples))
      → i ≡ split_index num round (length samples) fraction
      → (split : TrainValidationSplit D F) × (split_of {E = E} (take i ordered) (drop i ordered)
          ≡ ok split)
        × IsSplit samples fraction split
  unfolding split_of
  split_of-IsSplit samples ordered fraction i low high sorted counts size =
      let (first, rest, there) = drop-first i ordered high in
      let kept =
        λ (s : DatasetSample D F) (m : Has s (first ∷ rest)). subst (Has s) (sym there) m in
      let taken = length-take i ordered (omega (arith, high)) in
      let from = subst (Ascending time) there (drop-Ascending time i ordered sorted) in
      (
        record {
          train_samples = take i ordered;
          validation_samples = first ∷ rest;
          split_as_of = first.as_of;
        },
        rw there refl,
        record {
          parts = λ p. ground (arith, filter-take-drop p i ordered, counts p, there);
          train_size = taken ∙ size;
          train_some = omega (arith, taken, low);
          validation_some = omega arith;
          train_sorted = take-Ascending time i ordered sorted;
          validation_sorted = from;
          train_until =
              λ s m. take-before-drop time i ordered s first sorted m (kept first (inl refl));
          validation_from = λ s m. elim m [ inl q ↦ ground (arith, q) | inr r ↦ from.0 s r ];
        },
      )

  -- A fraction that is not between 0 and 1, or fewer than two samples, raise ValueError. Else there
  -- is a split: each sample is in one of its parts, of which neither is empty, in order of time;
  -- the first has the rounded number, brought into range; and none of it is later than
  -- split_as_of, and none of the second earlier.
  pub time_ordered_split-IsSplit :
      {E : Type 0} (samples : List (DatasetSample D F)) (fraction : F)
      → ((is_fraction num fraction && leb 2 (length samples)) ≡ false
          → time_ordered_split {E = E} num round samples fraction ≡ err (plain value_error))
        × ((is_fraction num fraction && leb 2 (length samples)) ≡ true
            → (split : TrainValidationSplit D F) × (time_ordered_split {E = E} num round samples
                  fraction
                ≡ ok split)
              × IsSplit samples fraction split)
  unfolding time_ordered_split
  time_ordered_split-IsSplit {E} samples fraction = (
    λ h. ground (arith, h),
    λ h.
        let enough : 2 ≤ length samples = ground (arith, h) in
        let size = sort_by-length samples in
        let ordered = sort_by time samples in
        let i = split_index num round (length ordered) fraction in
        let bounds =
          split_index-bounds num round (length ordered) fraction (omega (arith, size, enough)) in
        let same = ap (λ n. split_index num round n fraction) size in
        let (split, gives, is) =
          split_of-IsSplit {E = E} samples ordered fraction i bounds.0 bounds.1
            (sort_by-Ascending time samples) (λ p. sort_by-filter time p samples) same in
        let between : is_fraction num fraction ≡ true = ground (arith, h) in
        let not_few : ltb (length samples) 2 ≡ false = ground (arith, enough) in
        (split, rw (between, not_few) gives, is),
  )
