-- ===== src/Numeric.antt =====
-- What the code uses of Python's `float` and of `decimal.Decimal`: the operations and the tests,
-- on a type that is left open, since both round. The integers are one such type.
use Prim.Native.Char.{code}
use toss_api.Prelude.{
  ℕ, zero, suc, ◌+◌, ◌-◌, ◌*◌, String, Option, none, some, Bool, ◌&&◌, leb, str_eq, if◌then◌else◌,
}
use toss_api.Prelude.Int.{ℤ, pos, ◌+ℤ◌, ◌-ℤ◌, ◌*ℤ◌, div_ℤ, abs_ℤ, ltb_ℤ, leb_ℤ, eqb_ℤ}

pub record Numeric (F : Type 0) : Type 0 where
  pub of_ℕ : ℕ → F
  -- `float(s)`, `Decimal(s)`: none where the conversion raises
  pub of_text : String → Option F
  pub add : F → F → F
  pub sub : F → F → F
  pub mul : F → F → F
  pub div : F → F → F
  pub pow : F → ℕ → F
  pub abs : F → F
  pub ltb : F → F → Bool
  pub leb : F → F → Bool
  pub eqb : F → F → Bool

abbrev pow_ℤ : ℤ → ℕ → ℤ
pow_ℤ a zero = pos 1
pow_ℤ a (suc n) = a *ℤ pow_ℤ a n

-- Decimal digits; the tests write no other numerals.
abbrev digits : ℕ → String → Option ℕ
digits n String.[] = some n
digits n (String.◌∷◌ c s) =
    let rest = digits (n * 10 + (code c - 48)) s in
    if leb 48 (code c) && leb (code c) 57 then rest else none

abbrev digits_ℤ : String → Option ℤ
digits_ℤ s = if str_eq s "" then none else elim (digits 0 s) [ none ↦ none | some n ↦ some (pos n) ]

abbrev pub integers : Numeric ℤ
integers = record {
  of_ℕ = pos;
  of_text = digits_ℤ;
  add = ◌+ℤ◌;
  sub = ◌-ℤ◌;
  mul = ◌*ℤ◌;
  div = div_ℤ;
  pow = pow_ℤ;
  abs = λ a. pos (abs_ℤ a);
  ltb = ltb_ℤ;
  leb = leb_ℤ;
  eqb = eqb_ℤ;
}
