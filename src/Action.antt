-- ===== src/Action.antt =====
-- A call that changes a state and may raise: what was changed before a raise stays changed.
use mathlib.Core.Path.{subst}
use toss_api.Prelude.{◌≡◌, refl, sym, ap, List, [], ◌∷◌, map, ◌⊎◌, Has, Pairs, inl, inr, arith}
use toss_api.Exceptions.{Raised}

pub data Result (F A : Type 0) : Type 0 where
  ok : A → Result F A
  err : Raised F → Result F A

abbrev pub Action : Type 0 → Type 0 → Type 0 → Type 0
Action F S A = S → Result F A × S

module _ {F S A : Type 0} where
  abbrev pub pure : A → Action F S A
  pure a s = (ok a, s)

  abbrev pub raise : Raised F → Action F S A
  raise e s = (err e, s)

  abbrev pub gets : (S → A) → Action F S A
  gets f s = (ok (f s), s)

  abbrev pub from_result : Result F A → Action F S A
  from_result r s = (r, s)

abbrev pub modify : {F S : Type 0} → (S → S) → Action F S (Unit {0})
modify f s = (ok tt, f s)

module _ {F S A B : Type 0} where
  infixl 5 ◌>>=◌ ◌>>◌
  abbrev pub ◌>>=◌ : Action F S A → (A → Action F S B) → Action F S B
  ◌>>=◌ m f s = let (r, s') = m s in elim r [ ok a ↦ f a s' | err e ↦ (err e, s') ]

  abbrev pub ◌>>◌ : Action F S A → Action F S B → Action F S B
  m >> n = m >>= λ _. n

  bind_result :
      (P : Result F B × S → Type 0) (r : Result F A) (s : S) (f : A → Action F S B)
      → ((a : A) → r ≡ ok a → P (f a s))
      → ((e : Raised F) → r ≡ err e → P (err e, s))
      → P (elim r [ ok a ↦ f a s | err e ↦ (err e, s) ])
  bind_result P (ok a) s f returned raised = returned a refl
  bind_result P (err e) s f returned raised = raised e refl

  -- To prove something of a bind: of what follows a return, and of a raise.
  pub >>=_rule :
      (P : Result F B × S → Type 0) (m : Action F S A) (f : A → Action F S B) (s : S)
      → ((a : A) → (m s).0 ≡ ok a → P (f a (m s).1))
      → ((e : Raised F) → (m s).0 ≡ err e → P (err e, (m s).1))
      → P ((m >>= f) s)
  >>=_rule P m f s returned raised = bind_result P (m s).0 (m s).1 f returned raised

  -- What follows a call that returned.
  pub >>=-ok :
      (m : Action F S A) (f : A → Action F S B) (s : S) (a : A) (s' : S)
      → m s ≡ (ok a, s')
      → (m >>= f) s ≡ f a s'
  >>=-ok m f s a s' e =
      rw (ap (λ (o : Result F A × S). o.0) e, ◌>>=◌) (ap (λ (o : Result F A × S). f a o.1) e)

  -- Nothing follows a call that raised.
  pub >>=-err :
      (m : Action F S A) (f : A → Action F S B) (s : S) (e : Raised F) (s' : S)
      → m s ≡ (err e, s')
      → (m >>= f) s ≡ (err e, s')
  >>=-err m f s e s' h =
      rw (ap (λ (o : Result F A × S). o.0) h, ◌>>=◌) (ap (λ (o : Result F A × S). (err e, o.1)) h)

  -- Both parts of a bind that returned have returned.
  pub >>=-returned :
      (m : Action F S A) (f : A → Action F S B) (s : S) (b : B)
      → ((m >>= f) s).0 ≡ ok b
      → (a : A) × ((m s).0 ≡ ok a) × ((f a (m s).1).0 ≡ ok b)
  >>=-returned m f s b =
      >>=_rule (λ out. out.0 ≡ ok b → (a : A) × ((m s).0 ≡ ok a) × ((f a (m s).1).0 ≡ ok b)) m f s
        (λ a e h. (a, e, h)) (λ e raised h. absurd (ground (arith, h)))

-- A pure chain that may raise.
abbrev pub bind : {F A B : Type 0} → Result F A → (A → Result F B) → Result F B
bind (ok a) f = f a
bind (err e) f = err e

-- Two continuations that agree everywhere.
pub bind_ext :
    {F A B : Type 0} (r : Result F A) (f g : A → Result F B)
    → ((a : A) → f a ≡ g a)
    → bind r f ≡ bind r g
bind_ext (ok a) f g h = h a
bind_ext (err e) f g h = refl

-- What is known of a chain that returned.
pub bind-ok :
    {F A B : Type 0} (r : Result F A) (f : A → Result F B) (b : B)
    → bind r f ≡ ok b
    → (a : A) × (r ≡ ok a) × (f a ≡ ok b)
bind-ok (ok a) f b h = (a, refl, h)
bind-ok (err e) f b h = ground arith

module _ {F A B : Type 0} where
  -- A list comprehension whose element may raise: the first raise ends it.
  unfoldable pub traverse : (A → Result F B) → List A → Result F (List B)
  traverse f [] = ok []
  traverse f (x ∷ xs) = let rest = traverse f xs in bind (f x) λ y. bind rest λ ys. ok (y ∷ ys)

  -- Each element of a comprehension that returned is what one of the list's gave.
  pub traverse-Has :
      (f : A → Result F B) (xs : List A) (ys : List B)
      → traverse f xs ≡ ok ys
      → (y : B) → Has y ys
      → (x : A) × Has x xs × (f x ≡ ok y)
  unfolding traverse
  traverse-Has f [] ys h y m = ground (arith, m)
  traverse-Has f (x ∷ xs) ys h y m =
      let (y', one, more) = bind-ok (f x) _ ys h in
      let (ys', rest, whole) = bind-ok (traverse f xs) _ ys more in
      let members : (y ≡ y') ⊎ Has y ys' = ground (arith, m) in
      elim members [
        | inl same ↦ (x, inl refl, ground (arith, one, same))
        | inr later ↦
            let (x', there, gives) = traverse-Has f xs ys' rest y later in (x', inr there, gives)
      ]

  -- Place by place, in the order of the list.
  pub traverse-Pairs :
      (R : A → B → Type 0) (f : A → Result F B) (xs : List A) (ys : List B)
      → ((x : A) (y : B) → f x ≡ ok y → R x y)
      → traverse f xs ≡ ok ys
      → Pairs R xs ys
  unfolding traverse
  traverse-Pairs R f [] ys keeps h =
      let end : [] ≡ ys = ground (arith, h) in subst (Pairs R []) end tt
  traverse-Pairs R f (x ∷ xs) ys keeps h =
      let (y, one, more) = bind-ok (f x) _ ys h in
      let (ys', rest, whole) = bind-ok (traverse f xs) _ ys more in
      let end : y ∷ ys' ≡ ys = ground (arith, whole) in
      subst (Pairs R (x ∷ xs)) end (keeps x y one, traverse-Pairs R f xs ys' keeps rest)

  -- A comprehension each of whose elements is given returns.
  pub traverse-total :
      (f : A → Result F B) (xs : List A)
      → ((x : A) → Has x xs → (y : B) × (f x ≡ ok y))
      → (ys : List B) × (traverse f xs ≡ ok ys)
  unfolding traverse
  traverse-total f [] h = ([], refl)
  traverse-total f (x ∷ xs) h =
      let (y, one) = h x (inl refl) in
      let (ys, rest) = traverse-total f xs (λ z m. h z (inr m)) in (y ∷ ys, rw (one, rest) refl)

  -- … each of the list's elements has given one of them …
  pub traverse-all :
      (f : A → Result F B) (xs : List A) (ys : List B)
      → traverse f xs ≡ ok ys
      → (x : A) → Has x xs
      → (y : B) × Has y ys × (f x ≡ ok y)
  unfolding traverse
  traverse-all f [] ys h x m = elim m [ ]
  traverse-all f (z ∷ xs) ys h x m =
      let (y', one, more) = bind-ok (f z) _ ys h in
      let (ys', rest, whole) = bind-ok (traverse f xs) _ ys more in
      let whole' : ys ≡ y' ∷ ys' = ground (arith, whole) in
      elim m [
        | inl same ↦ (y', subst (Has y') (sym whole') (inl refl), rw same one)
        | inr later ↦
            let (y, there, gives) = traverse-all f xs ys' rest x later in
            (y, subst (Has y) (sym whole') (inr there), gives)
      ]

  -- … and they come to the same in any measure that the elements keep.
  pub traverse-map :
      {C : Type 0} (f : A → Result F B) (g : A → C) (h : B → C)
      → ((a : A) (b : B) → f a ≡ ok b → h b ≡ g a)
      → (xs : List A) (ys : List B) → traverse f xs ≡ ok ys
      → map h ys ≡ map g xs
  unfolding traverse
  traverse-map f g h keeps [] ys e = ground arith
  traverse-map f g h keeps (x ∷ xs) ys e =
      let (y', one, more) = bind-ok (f x) _ ys e in
      let (ys', rest, whole) = bind-ok (traverse f xs) _ ys more in
      ground (arith, keeps x y' one, traverse-map f g h keeps xs ys' rest)
