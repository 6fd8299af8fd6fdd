-- ===== src/Growth.antt =====
-- What an action adds to the history: events of one kind, and nothing is taken away.
use mathlib.Core.Path.{subst}
use toss_api.Prelude.{◌≡◌, sym, Bool, true, false, ◌∷◌, if◌then◌else◌}
use toss_api.Exceptions.{Raised}
use toss_api.Action.{Result, Action, pure, raise, gets, modify, from_result, ◌>>=◌, >>=_rule}
use toss_api.Runtime.{Event, History}
use toss_api.World.{World, on_history}

-- `h'` is `h` with events of the kind `P` on top.
pub data Grows {F : Type 0} (P : Event F → Type 0) (h : History F) : History F → Type 0 where
  same : Grows P h h
  more : {e : Event F} {h' : History F} → P e → Grows P h h' → Grows P h (e ∷ h')

pub Grows-trans :
    {F : Type 0} {P : Event F → Type 0} {h h' : History F} {h'' : History F}
    → Grows P h h'
    → Grows P h' h''
    → Grows P h h''
Grows-trans g same = g
Grows-trans g (more p k) = more p (Grows-trans g k)

-- Whatever the result, the action adds events of the kind `P` to the history in its state.
pub record Adds {F S A : Type 0} (hist : S → History F) (P : Event F → Type 0) (m : Action F S A)
    : Type 0 where
  pub at : (s : S) → Grows P (hist s) (hist (m s).1)

module _ {F S A : Type 0} {hist : S → History F} {P : Event F → Type 0} where
  pub Adds-pure : (a : A) → Adds hist P (pure {F = F} {S = S} a)
  Adds-pure a = record { at = λ s. same }

  pub Adds-raise : (e : Raised F) → Adds hist P (raise {F = F} {S = S} {A = A} e)
  Adds-raise e = record { at = λ s. same }

  pub Adds-from_result : (r : Result F A) → Adds hist P (from_result {F = F} {S = S} r)
  Adds-from_result r = record { at = λ s. same }

  pub Adds-gets : (f : S → A) → Adds hist P (gets {F = F} {S = S} f)
  Adds-gets f = record { at = λ s. same }

  pub Adds-if :
      (b : Bool) (m n : Action F S A)
      → Adds hist P m
      → Adds hist P n
      → Adds hist P (if b then m else n)
  Adds-if true m n am an = am
  Adds-if false m n am an = an

module _ {F S A B : Type 0} {hist : S → History F} {P : Event F → Type 0} where
  pub Adds-bind :
      (m : Action F S A) (f : A → Action F S B)
      → Adds hist P m
      → ((a : A) → Adds hist P (f a))
      → Adds hist P (m >>= f)
  Adds-bind m f am af = record {
    at = λ s.
        >>=_rule (λ r. Grows P (hist s) (hist r.1)) m f s
          (λ a _. Grows-trans (am.at s) ((af a).at (m s).1)) (λ e _. am.at s);
  }

-- An action on the history alone.
abbrev pub itself : {F : Type 0} → History F → History F
itself h = h

abbrev pub AddsAlone : {F A : Type 0} → (Event F → Type 0) → Action F (History F) A → Type 0
AddsAlone P m = Adds itself P m

abbrev pub AddsInWorld : {F A : Type 0} → (Event F → Type 0) → Action F (World F) A → Type 0
AddsInWorld P m = Adds World.history P m

pub Adds-on_history :
    {F A : Type 0} {P : Event F → Type 0} (m : Action F (History F) A)
    → AddsAlone P m
    → AddsInWorld P (on_history m)
Adds-on_history m am = record { at = λ w. am.at w.history }

-- A change of the objects alone.
pub Adds-modify :
    {F : Type 0} {P : Event F → Type 0} (f : World F → World F)
    → ((w : World F) → (f w).history ≡ w.history)
    → AddsInWorld P (modify f)
Adds-modify {P = P} f e = record { at = λ w. subst (Grows P w.history) (sym (e w)) same }
