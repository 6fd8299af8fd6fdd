-- ===== src/Db/Sql/Lists.antt =====
-- A database on plain lists: the assumptions on PostgreSQL can be met, and the tests run.
use toss_api.Prelude.{
  ℕ, ◌≤◌, ◌≡◌, refl, ◌↔◌, ◌⊎◌, inl, inr, Bool, true, false, Option, none, some, List, [], ◌∷◌, Has,
  ltb, any, Bool-cases, arith, if◌then◌else◌,
}
use toss_api.Prelude.Int.{pos}
use toss_api.Prelude.Sort.{sort_by, sort_by-Has, sort_by-Ascending}
use toss_api.Db.Sql.{Eq, Engine, IsPostgres}
use toss_api.Db.Sql.Distinct.{
  distinct_rows, distinct_rows-kept, distinct_rows-first, distinct_rows-every, distinct_rows-one,
}

module _ {R K : Type 0} (e : Eq K) where
  update_all : (R → Bool) → (R → R) → List R → List R
  update_all c u [] = []
  update_all c u (x ∷ xs) = (if c x then u x else x) ∷ update_all c u xs

  insert_rows : (R → R → Bool) → (R → R → R) → R → List R → List R
  unfolding update_all
  insert_rows c u new t = if any (c new) t then update_all (c new) (λ old. u old new) t else new ∷ t

  max_rows : (R → Bool) → (R → ℕ) → List R → Option ℕ
  max_rows p f [] = none
  max_rows p f (x ∷ xs) =
      let rest = max_rows p f xs in
      if p x
      then elim rest [ none ↦ some (f x) | some m ↦ some (if ltb m (f x) then f x else m) ]
      else rest

  unfoldable pub lists : Engine R K
  unfolding insert_rows max_rows distinct_rows sort_by
  lists = record {
    insert_on_conflict = insert_rows;
    rowcount = λ r t. pos 1;
    select_max = max_rows;
    distinct_on = distinct_rows e;
    order_by = sort_by;
  }

  max_rows_law :
      (p : R → Bool) (f : R → ℕ) (t : List R)
      → ((max_rows p f t ≡ none) × ((r : R) → Has r t → p r ≡ false))
        ⊎ ((m : ℕ) × (max_rows p f t ≡ some m)
            × ((r : R) → Has r t → p r ≡ true → f r ≤ m)
            × ((r : R) × Has r t × (p r ≡ true) × (f r ≡ m)))
  unfolding max_rows
  max_rows_law p f [] = inl (refl, λ r h. elim h [ ])
  max_rows_law p f (x ∷ xs) = elim (max_rows_law p f xs) [
    | inl (e, no_row) ↦ elim (Bool-cases (p x)) [
      | inl b ↦ inr (f x, ground arith, λ r h q. ground (arith, no_row r), (x, inl refl, b, refl))
      | inr b ↦ inl (ground arith, λ r h. ground (arith, no_row r))
    ]
    | inr (m, e, bound, (s, has, q, at)) ↦ elim (Bool-cases (p x)) [
      | inl b ↦ elim (Bool-cases (ltb m (f x))) [
        | inl more ↦
            inr (f x, ground arith, λ r h q'. ground (arith, bound r), (x, inl refl, b, refl))
        | inr less ↦ inr (m, ground arith, λ r h q'. ground (arith, bound r), (s, inr has, q, at))
      ]
      | inr b ↦ inr (m, ground arith, λ r h q'. ground (arith, bound r), (s, inr has, q, at))
    ]
  ]

  any-Has :
      (c : R → Bool) (t : List R)
      → ((any c t ≡ true) × ((old : R) × Has old t × (c old ≡ true)))
        ⊎ ((any c t ≡ false) × ((old : R) → Has old t → c old ≡ false))
  any-Has c [] = inr (refl, λ old h. elim h [ ])
  any-Has c (x ∷ xs) = elim (Bool-cases (c x)) [
    | inl b ↦ inl (ground arith, (x, inl refl, b))
    | inr b ↦ elim (any-Has c xs) [
      | inl (e, (old, has, hit)) ↦ inl (ground arith, (old, inr has, hit))
      | inr (e, miss) ↦ inr (ground arith, λ old h. ground (arith, miss old))
    ]
  ]

  update_all-Has :
      (c : R → Bool) (u : R → R) (r : R) (t : List R)
      → Has r (update_all c u t)
        ↔ (((old : R) × Has old t × (c old ≡ true) × (r ≡ u old)) ⊎ (Has r t × (c r ≡ false)))
  unfolding update_all
  update_all-Has c u r [] =
      (λ h. elim h [ ], λ h. elim h [ inl (old, m, _, _) ↦ m | inr (m, _) ↦ m ])
  update_all-Has c u r (x ∷ xs) =
      let ih = update_all-Has c u r xs in
      (
        λ h. elim h [
          | inl at ↦ elim (Bool-cases (c x)) [
            | inl b ↦ inl (x, inl refl, b, ground arith)
            | inr b ↦ inr (inl (ground arith), ground arith)
          ]
          | inr further ↦ elim (ih.0 further) [
            | inl (old, m, b, q) ↦ inl (old, inr m, b, q)
            | inr (m, b) ↦ inr (inr m, b)
          ]
        ],
        λ h. elim h [
          | inl (old, m, b, q) ↦ elim m [
            | inl at ↦ inl (ground arith)
            | inr further ↦ inr (ih.1 (inl (old, further, b, q)))
          ]
          | inr (m, b) ↦ elim m [
            | inl at ↦ inl (ground arith)
            | inr further ↦ inr (ih.1 (inr (further, b)))
          ]
        ],
      )

  insert_rows_law :
      (c : R → R → Bool) (u : R → R → R) (new : R) (t : List R) (r : R)
      → Has r (insert_rows c u new t) ↔ (
          ((old : R) × Has old t × (c new old ≡ true) × (r ≡ u old new))
          ⊎ (Has r t × (c new r ≡ false))
          ⊎ (((old : R) → Has old t → c new old ≡ false) × (r ≡ new)))
  unfolding insert_rows
  insert_rows_law c u new t r = elim (any-Has (c new) t) [
    | inl (e', (old, m, hit)) ↦
        let changed = update_all-Has (c new) (λ o. u o new) r t in
        rw e' (
          λ h. elim (changed.0 h) [ inl at ↦ inl at | inr kept ↦ inr (inl kept) ],
          λ h. elim h [
            | inl at ↦ changed.1 (inl at)
            | inr (inl kept) ↦ changed.1 (inr kept)
            | inr (inr (none_hit, q)) ↦ absurd (ground (arith, none_hit old))
          ],
        )
    | inr (e', miss) ↦ rw e' (
      λ h. elim h [
        | inl at ↦ inr (inr (miss, at))
        | inr further ↦ inr (inl (further, miss r further))
      ],
      λ h. elim h [
        | inl (old, m, b, q) ↦ absurd (ground (arith, miss old))
        | inr (inl (m, b)) ↦ inr m
        | inr (inr (none_hit, q)) ↦ inl q
      ],
    )
  ]

  pub lists-IsPostgres : IsPostgres lists
  unfolding lists
  lists-IsPostgres = record {
    insert_law = insert_rows_law;
    max_law = max_rows_law;
    distinct_law = λ key. record {
      kept = distinct_rows-kept e key;
      first = distinct_rows-first e key;
      every_key = distinct_rows-every e key;
      one_per_key = distinct_rows-one e key;
    };
    order_law = λ f t. (λ r. sort_by-Has f r t, sort_by-Ascending f t);
  }
