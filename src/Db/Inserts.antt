-- ===== src/Db/Inserts.antt =====
-- app/db/repositories/_idempotent_insert.py: the row of a key, or a new one, while other sessions
-- commit. What they commit between two statements is a parameter.
pub mod Race
pub mod Lists
use toss_api.Prelude.{
  ℕ, ◌≤◌, ◌≡◌, ◌⊎◌, Bool, true, false, Option, none, some, List, [], ◌∷◌, Has, filter, length,
}
use toss_api.Exceptions.{plain, python_exception}
use toss_api.Action.{Result, ok, err, Action, bind}

-- What `INSERT … RETURNING` comes to: the rows after it, `IntegrityError`, or another error.
pub data Inserted (R : Type 0) : Type 0 where
  inserted : List R → Inserted R
  integrity_error other_error : Inserted R

-- INSERT into a table with unique constraints.
abbrev pub Insert : Type 0 → Type 0
Insert R = R → List R → Inserted R

-- What PostgreSQL documents: a row goes in exactly once, unless a unique constraint says that it
-- conflicts with one that is there; a row that meets the other constraints is refused only then.
pub record IsInsert {R : Type 0} (insert : Insert R) (conflicts : R → R → Bool) (accepts : R → Bool)
    : Type 0 where
  pub added :
      (new : R) (t t' : List R)
      → insert new t ≡ inserted t'
      → Has new t'
        × ((r : R) → Has r t → Has r t')
        × ((p : R → Bool) → length (filter p t') ≡ length (filter p (new ∷ t)))
        × ((r : R) → Has r t → conflicts new r ≡ false)
  pub refused :
      (new : R) (t : List R)
      → insert new t ≡ integrity_error
      → (accepts new ≡ false) ⊎ ((r : R) × Has r t × (conflicts new r ≡ true))
  pub failed : (new : R) (t : List R) → insert new t ≡ other_error → accepts new ≡ false

-- What other sessions commit before the INSERT and before the second SELECT.
pub record Others (R : Type 0) : Type 0 where
  pub before_insert : List R → List R
  pub before_reread : List R → List R

module _ {F R : Type 0} where
  unfoldable pub one_or_none : List R → Result F (Option R)
  one_or_none [] = ok none
  one_or_none (r ∷ []) = ok (some r)
  one_or_none (r ∷ s ∷ rows) = err (plain python_exception)

  -- session.execute(select(…).where(*conditions)).scalar_one_or_none()
  unfoldable pub scalar_one_or_none : (R → Bool) → List R → Result F (Option R)
  unfolding one_or_none
  scalar_one_or_none conditions t = one_or_none (filter conditions t)

  module _ (insert : Insert R) (others : Others R) (id : R → ℕ) (lookup : R → Bool) where
    -- The second SELECT; where it finds nothing, the `IntegrityError` is raised again.
    reread_row : Option R → Result F (ℕ × Bool)
    reread_row none = err (plain python_exception)
    reread_row (some r) = ok (id r, false)

    unfoldable pub after_integrity_error : Action F (List R) (ℕ × Bool)
    unfolding scalar_one_or_none reread_row
    after_integrity_error t = (bind (scalar_one_or_none lookup t) reread_row, t)

    unfoldable pub after_insert : R → Inserted R → Action F (List R) (ℕ × Bool)
    unfolding after_integrity_error
    after_insert new (inserted t') t = (ok (id new, true), t')
    after_insert new integrity_error t = after_integrity_error (others.before_reread t)
    after_insert new other_error t = (err (plain python_exception), t)

    unfoldable pub insert_new : R → Action F (List R) (ℕ × Bool)
    unfolding after_insert
    insert_new new t = let t' = others.before_insert t in after_insert new (insert new t') t'

    unfoldable pub after_lookup : R → Result F (Option R) → Action F (List R) (ℕ × Bool)
    unfolding insert_new
    after_lookup new (ok (some r)) t = (ok (id r, false), t)
    after_lookup new (ok none) t = insert_new new t
    after_lookup new (err e) t = (err e, t)

    -- `new` is the row of `values` with the `id` that the sequence gives next.
    unfoldable pub get_or_insert : R → Action F (List R) (ℕ × Bool)
    unfolding after_lookup
    get_or_insert new t = after_lookup new (scalar_one_or_none lookup t) t
