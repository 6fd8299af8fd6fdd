-- ===== src/Exceptions/Hierarchy.antt =====
-- What the class statements of app/core/exceptions.py give: which `except` clause catches what.
use mathlib.Core.Logic.{if_pos, if_neg, inl, inr}
use mathlib.Core.Path.{subst}
use toss_api.Prelude.{
  ℕ, zero, suc, Option-cases, ◌≡◌, ◌<◌, ◌≤◌, refl, ◌↔◌, true, false, arith, some,
}
use toss_api.Exceptions.{
  ExceptionClass, python_exception, value_error, app_error, external_api_error, order_error,
  base_class, catches, walk, ExceptionClass-discrete, IsSubclass, itself, by_base,
}

-- An `except ExternalAPIError` never catches an `OrderError` or one of its subclasses.
pub order_errors_never_external :
    (c : ExceptionClass) → catches order_error c ≡ true → catches external_api_error c ≡ false
unfolding catches base_class ExceptionClass-discrete
order_errors_never_external ExceptionClass.app_error h = refl
order_errors_never_external _ h = ground arith

walk-sound : (fuel : ℕ) (c d : ExceptionClass) → walk fuel c d ≡ true → IsSubclass c d
unfolding walk
walk-sound zero c d h = cc
walk-sound (suc fuel) c d h = elim (ExceptionClass-discrete c d) [
  | yes e ↦ subst (IsSubclass c) e itself
  | no n ↦ elim (Option-cases (base_class c)) [
    | inl root ↦ absurd (ground arith)
    | inr (b, e) ↦ by_base e (walk-sound fuel b d (ground arith))
  ]
]

-- The number of classes from one up to the root.
height : ExceptionClass → ℕ
height python_exception = 1
height value_error = 2
height ExceptionClass.runtime_error = 2
height ExceptionClass.assertion_error = 2
height ExceptionClass.lookup_error = 2
height ExceptionClass.index_error = 3
height ExceptionClass.validation_error = 3
height ExceptionClass.overflow_error = 3
height ExceptionClass.decimal_error = 3
height ExceptionClass.arithmetic_error = 2
height ExceptionClass.type_error = 2
height app_error = 2
height ExceptionClass.config_error = 3
height external_api_error = 3
height ExceptionClass.data_validation_error = 3
height order_error = 3
height ExceptionClass.backtest_error = 3
height ExceptionClass.research_error = 3
height ExceptionClass.toss_authentication_error = 5
height ExceptionClass.toss_ip_restricted_error = 5
height ExceptionClass.toss_rate_limit_error = 5
height ExceptionClass.toss_server_error = 5
height _ = 4

height-base : (c b : ExceptionClass) → base_class c ≡ some b → height b < height c
unfolding height base_class
height-base ExceptionClass.app_error b h = ground arith
height-base _ b h = ground arith

height_pos : (c : ExceptionClass) → 0 < height c
unfolding height
height_pos ExceptionClass.app_error = omega arith
height_pos _ = omega arith

height_bounds : (c : ExceptionClass) → height c ≤ 5
unfolding height
height_bounds ExceptionClass.app_error = omega arith
height_bounds _ = omega arith

walk_complete :
    (fuel : ℕ) {c d : ExceptionClass} → height c ≤ fuel → IsSubclass c d → walk fuel c d ≡ true
unfolding walk
walk_complete zero {c} le sub = absurd (omega (arith, height_pos c))
walk_complete (suc fuel) {c} le itself = rw (if_pos _ refl) refl
walk_complete (suc fuel) {c} {d} le (by_base {b = b} e sub) = elim (ExceptionClass-discrete c d) [
  | yes same ↦ rw (if_pos _ same) refl
  | no other ↦
      rw (if_neg _ other) (rw e (walk_complete fuel (omega (arith, height-base c b e)) sub))
]

-- `issubclass` is decided exactly: an `except d` clause catches `c` just where `c` is a subclass
-- of `d`, and five steps along the bases are enough for every class.
pub catches-iff-IsSubclass : (c d : ExceptionClass) → (catches d c ≡ true) ↔ IsSubclass c d
unfolding catches
catches-iff-IsSubclass c d = (walk-sound 5 c d, walk_complete 5 (height_bounds c))

pub catches_self : (c : ExceptionClass) → catches c c ≡ true
catches_self c = (catches-iff-IsSubclass c c).1 itself

pub catches_base : (c d : ExceptionClass) → base_class c ≡ some d → catches d c ≡ true
catches_base c d e = (catches-iff-IsSubclass c d).1 (by_base e itself)

-- `except AppError` lets Python's own `ValueError` through.
pub value_error-uncaught : catches app_error value_error ≡ false
unfolding catches base_class ExceptionClass-discrete
value_error-uncaught = refl
