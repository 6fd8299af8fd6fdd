-- ===== src/Db/Inserts/Lists.antt =====
-- An INSERT on plain lists: the assumptions on it can be met, and the tests run.
use toss_api.Prelude.{
  ◌≡◌, refl, inl, inr, Bool, true, false, List, [], ◌∷◌, Has, any, arith, Bool-cases, if◌then◌else◌,
}
use toss_api.Db.Inserts.{Insert, inserted, integrity_error, other_error, IsInsert}

module _ {R : Type 0} (conflicts : R → R → Bool) (accepts : R → Bool) where
  unfoldable pub unique_insert : Insert R
  unique_insert new t =
      if accepts new
      then (if any (conflicts new) t then integrity_error else inserted (new ∷ t))
      else other_error

  any-Has : (c : R → Bool) (t : List R) → any c t ≡ true → (r : R) × Has r t × (c r ≡ true)
  any-Has c [] h = ground (arith, h)
  any-Has c (x ∷ t) h = elim (Bool-cases (c x)) [
    | inl b ↦ (x, inl refl, b)
    | inr b ↦ let (r, m, hit) = any-Has c t (ground (arith, h, b)) in (r, inr m, hit)
  ]

  any-free : (c : R → Bool) (t : List R) (r : R) → any c t ≡ false → Has r t → c r ≡ false
  any-free c [] r h m = elim m [ ]
  any-free c (x ∷ t) r h m = ground (arith, h, m, any-free c t r)

  pub unique_insert-IsInsert : IsInsert unique_insert conflicts accepts
  unfolding unique_insert
  unique_insert-IsInsert = record {
    added = λ new t t' h. elim (Bool-cases (any (conflicts new) t)) [
      | inl b ↦ absurd (ground (arith, h, b))
      | inr b ↦
          let e : t' ≡ new ∷ t = ground (arith, h, b) in
          rw e (inl refl, λ r m. inr m, λ p. refl, λ r m. any-free (conflicts new) t r b m)
    ];
    refused = λ new t h. elim (Bool-cases (any (conflicts new) t)) [
      | inl b ↦ inr (any-Has (conflicts new) t b)
      | inr b ↦ absurd (ground (arith, h, b))
    ];
    failed = λ new t h. ground (arith, h);
  }
