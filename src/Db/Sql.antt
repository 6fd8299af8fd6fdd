-- ===== src/Db/Sql.antt =====
-- What the repositories ask of PostgreSQL, as operations on the rows of one table, and what its
-- documentation says of them. The order of the rows in a list means nothing unless `order_by` made
-- it; a row that ties with another in an ORDER BY may come first or second.
pub mod Distinct
pub mod Lists
use toss_api.Prelude.{
  ℕ, ◌≤◌, ◌<◌, ◌≡◌, ◌↔◌, ◌⊎◌, Bool, true, false, ◌&&◌, ◌||◌, Option, none, some, List, [], ◌∷◌, Has,
  ltb, ◌==◌,
}
use toss_api.Prelude.Int.{ℤ}
use toss_api.Prelude.Sort.{Ascending}

-- Equality of the columns that make a key.
pub record Eq (K : Type 0) : Type 0 where
  pub beq : K → K → Bool
  pub beq_iff : (a b : K) → (beq a b ≡ true) ↔ (a ≡ b)

-- The statements, over rows `R` and keys `K`.
pub record Engine (R K : Type 0) : Type 0 where
  -- INSERT … ON CONFLICT … DO UPDATE SET …: which rows conflict with the new one, and what becomes
  -- of such a row
  pub insert_on_conflict : (R → R → Bool) → (R → R → R) → R → List R → List R
  -- what the driver reports as `rowcount` of that statement
  pub rowcount : R → List R → ℤ
  -- SELECT MAX(column) WHERE …
  pub select_max : (R → Bool) → (R → ℕ) → List R → Option ℕ
  -- SELECT DISTINCT ON (key) … WHERE … ORDER BY key, first DESC, second DESC
  pub distinct_on : (R → K) → (R → Bool) → (R → ℕ) → (R → ℕ) → List R → List R
  -- SELECT … ORDER BY column
  pub order_by : (R → ℕ) → List R → List R

-- `a` stands before `b` in ORDER BY first DESC, second DESC.
abbrev pub before : {R : Type 0} → (R → ℕ) → (R → ℕ) → R → R → Bool
before first second a b =
    ltb (first b) (first a) || (first a == first b && ltb (second b) (second a))

module _ {R K : Type 0} (eng : Engine R K) where
  -- The rows after the statement: without a conflict the new row is added; with one, the rows in
  -- conflict are changed and the new row is not added.
  abbrev pub InsertLaw : Type 0
  InsertLaw =
      (c : R → R → Bool) (u : R → R → R) (new : R) (t : List R) (r : R)
      → Has r (eng.insert_on_conflict c u new t) ↔ (
          ((old : R) × Has old t × (c new old ≡ true) × (r ≡ u old new))
          ⊎ (Has r t × (c new r ≡ false))
          ⊎ (((old : R) → Has old t → c new old ≡ false) × (r ≡ new)))

  abbrev pub MaxLaw : Type 0
  MaxLaw =
      (p : R → Bool) (f : R → ℕ) (t : List R)
      → ((eng.select_max p f t ≡ none) × ((r : R) → Has r t → p r ≡ false))
        ⊎ ((m : ℕ) × (eng.select_max p f t ≡ some m)
            × ((r : R) → Has r t → p r ≡ true → f r ≤ m)
            × ((r : R) × Has r t × (p r ≡ true) × (f r ≡ m)))

  -- Only the first row of each set of rows with an equal key is kept.
  pub record DistinctLaw (key : R → K) : Type 0 where
    pub kept :
        (p : R → Bool) (f g : R → ℕ) (t : List R) (r : R)
        → Has r (eng.distinct_on key p f g t)
        → Has r t × (p r ≡ true)
    pub first :
        (p : R → Bool) (f g : R → ℕ) (t : List R) (r s : R)
        → Has r (eng.distinct_on key p f g t)
        → Has s t
        → p s ≡ true
        → key s ≡ key r
        → before f g s r ≡ false
    pub every_key :
        (p : R → Bool) (f g : R → ℕ) (t : List R) (s : R)
        → Has s t
        → p s ≡ true
        → (r : R) × Has r (eng.distinct_on key p f g t) × (key r ≡ key s)
    pub one_per_key :
        (p : R → Bool) (f g : R → ℕ) (t : List R) (r s : R)
        → Has r (eng.distinct_on key p f g t)
        → Has s (eng.distinct_on key p f g t)
        → key r ≡ key s
        → r ≡ s

  abbrev pub OrderLaw : Type 0
  OrderLaw =
      (f : R → ℕ) (t : List R)
      → ((r : R) → Has r (eng.order_by f t) ↔ Has r t) × Ascending f (eng.order_by f t)

  -- All that is assumed of the database.
  pub record IsPostgres : Type 0 where
    pub insert_law : InsertLaw
    pub max_law : MaxLaw
    pub distinct_law : (key : R → K) → DistinctLaw key
    pub order_law : OrderLaw
