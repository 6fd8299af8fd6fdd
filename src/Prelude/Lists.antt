-- ===== src/Prelude/Lists.antt =====
-- Lists measured by native numbers, with the Boolean quantifiers of Python's `all` and `any`.
use Prim.Native.Nat.{ℕ, zero, suc, ◌+◌}
use mathlib.Core.Path.{◌≡◌, refl, ap}
use mathlib.Core.Logic.{◌⊎◌, ◌↔◌, inl, inr}
use mathlib.Core.Bool.{Bool, true, false, ◌&&◌, ◌||◌}
use mathlib.Core.List.{List, [], ◌∷◌, ◌++◌, map}
use mathlib.Core.Option.{Option, none, some}
use native.Mathlib.Omega.{arith}
use toss_api.Prelude.Tests.{if◌then◌else◌, Bool-cases}

-- Membership with its place kept.
abbrev pub Has : {A : Type 0} → A → List A → Type 0
Has a [] = ⊥
Has a (x ∷ xs) = (a ≡ x) ⊎ Has a xs

abbrev pub All : {A : Type 0} → (A → Type 0) → List A → Type 0
All P [] = Unit
All P (x ∷ xs) = P x × All P xs

-- One relation between the elements at each place, of lists of one length.
abbrev pub Pairs : {A B : Type 0} → (A → B → Type 0) → List A → List B → Type 0
Pairs R [] [] = Unit
Pairs R [] (_ ∷ _) = ⊥
Pairs R (_ ∷ _) [] = ⊥
Pairs R (x ∷ xs) (y ∷ ys) = R x y × Pairs R xs ys

pub map-Pairs :
    {A B : Type 0} (R : A → B → Type 0) (f : A → B) (xs : List A)
    → ((x : A) → R x (f x))
    → Pairs R xs (map f xs)
map-Pairs R f [] h = tt
map-Pairs R f (x ∷ xs) h = (h x, map-Pairs R f xs h)

pub Pairs-compose :
    {A B C : Type 0} (R : A → B → Type 0) (S : B → C → Type 0) (T : A → C → Type 0) (xs : List A)
    (ys : List B) (zs : List C)
    → ((x : A) (y : B) (z : C) → R x y → S y z → T x z)
    → Pairs R xs ys
    → Pairs S ys zs
    → Pairs T xs zs
Pairs-compose R S T [] [] [] h p q = tt
Pairs-compose R S T [] [] (z ∷ zs) h p q = q
Pairs-compose R S T [] (y ∷ ys) zs h p q = elim p [ ]
Pairs-compose R S T (x ∷ xs) [] zs h p q = elim p [ ]
Pairs-compose R S T (x ∷ xs) (y ∷ ys) [] h p q = q
Pairs-compose R S T (x ∷ xs) (y ∷ ys) (z ∷ zs) h p q =
    (h x y z p.0 q.0, Pairs-compose R S T xs ys zs h p.1 q.1)

module _ {ℓ} {A : Type ℓ} where
  abbrev pub length : List A → ℕ
  length [] = 0
  length (x ∷ xs) = suc (length xs)

  -- Python's `all(p(x) for x in xs)`
  abbrev pub all : (A → Bool) → List A → Bool
  all p [] = true
  all p (x ∷ xs) = p x && all p xs

  -- Python's `any(p(x) for x in xs)`
  abbrev pub any : (A → Bool) → List A → Bool
  any p [] = false
  any p (x ∷ xs) = p x || any p xs

  -- Python's `[x for x in xs if p(x)]`
  abbrev pub filter : (A → Bool) → List A → List A
  filter p [] = []
  filter p (x ∷ xs) = let rest = filter p xs in if p x then x ∷ rest else rest

  -- `xs[-1]`, `none` where Python raises.
  abbrev pub last? : List A → Option A
  last? [] = none
  last? (x ∷ []) = some x
  last? (x ∷ y ∷ xs) = last? (y ∷ xs)

  abbrev pub get_elem? : List A → ℕ → Option A
  get_elem? [] i = none
  get_elem? (x ∷ xs) zero = some x
  get_elem? (x ∷ xs) (suc i) = get_elem? xs i

  abbrev pub drop : ℕ → List A → List A
  drop zero xs = xs
  drop (suc n) [] = []
  drop (suc n) (x ∷ xs) = drop n xs

  abbrev pub take : ℕ → List A → List A
  take zero xs = []
  take (suc n) [] = []
  take (suc n) (x ∷ xs) = x ∷ take n xs

  pub length-append : (xs ys : List A) → length (xs ++ ys) ≡ length xs + length ys
  length-append [] ys = omega arith
  length-append (x ∷ xs) ys = omega (arith, length-append xs ys)

module _ {ℓ κ} {A : Type ℓ} {B : Type κ} where
  pub length-map : (f : A → B) (xs : List A) → length (map f xs) ≡ length xs
  length-map f [] = refl
  length-map f (x ∷ xs) = ap suc (length-map f xs)

-- Some element passes the test, or none does.
pub Has-search :
    {A : Type 0} (c : A → Bool) (t : List A)
    → ((a : A) × Has a t × (c a ≡ true)) ⊎ ((a : A) → Has a t → c a ≡ false)
Has-search c [] = inr (λ a h. elim h [ ])
Has-search c (x ∷ xs) = elim (Bool-cases (c x)) [
  | inl b ↦ inl (x, inl refl, b)
  | inr b ↦ elim (Has-search c xs) [
    | inl (a, h, hit) ↦ inl (a, inr h, hit)
    | inr miss ↦ inr (λ a h. ground (arith, miss a))
  ]
]

pub filter-Has :
    {A : Type 0} (p : A → Bool) (xs : List A) (a : A)
    → Has a (filter p xs) ↔ (Has a xs × (p a ≡ true))
filter-Has p [] a = (λ h. elim h [ ], λ h. elim h.0 [ ])
filter-Has p (x ∷ xs) a =
    let ih = filter-Has p xs a in (λ h. ground (arith, ih, h), λ h. ground (arith, ih, h.0, h.1))

pub map-Has : {A B : Type 0} (f : A → B) (xs : List A) (x : A) → Has x xs → Has (f x) (map f xs)
map-Has f [] x m = elim m [ ]
map-Has f (y ∷ xs) x m = elim m [
  | inl same ↦ inl (rw same refl)
  | inr later ↦ inr (map-Has f xs x later)
]

pub Has-map :
    {A B : Type 0} (f : A → B) (xs : List A) (y : B)
    → Has y (map f xs)
    → (x : A) × Has x xs × (y ≡ f x)
Has-map f [] y m = elim m [ ]
Has-map f (x ∷ xs) y m = elim m [
  | inl same ↦ (x, inl refl, same)
  | inr later ↦ let (z, there, e) = Has-map f xs y later in (z, inr there, e)
]
