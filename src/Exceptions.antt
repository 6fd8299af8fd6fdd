-- ===== src/Exceptions.antt =====
-- app/core/exceptions.py: the classes with the base that each declares, the walk that `except`
-- makes along the bases, and the values that the modelled code raises. Messages are left out.
pub mod Hierarchy
use mathlib.Core.Logic.{ite}
use toss_api.Prelude.{ℕ, zero, suc, String, ◌≡◌, Bool, true, false, Option, none, some}

-- The classes of the module, and those of Python and of pydantic that the code raises or lets out.
pub data ExceptionClass : Type 0 where
  python_exception value_error arithmetic_error overflow_error : ExceptionClass
  decimal_error type_error runtime_error assertion_error : ExceptionClass
  lookup_error index_error validation_error : ExceptionClass
  app_error config_error : ExceptionClass
  external_api_error external_api_timeout_error : ExceptionClass
  external_api_retry_exhausted_error external_api_auth_error : ExceptionClass
  data_validation_error : ExceptionClass
  order_error risk_violation_error broker_error backtest_error : ExceptionClass
  research_error strategy_version_exists_error strategy_not_found_error : ExceptionClass
  toss_api_error toss_authentication_error toss_ip_restricted_error : ExceptionClass
  toss_rate_limit_error toss_server_error : ExceptionClass

-- The base in each class statement; `decimal.InvalidOperation` is an `ArithmeticError`, pydantic's `ValidationError` is a `ValueError`.
unfoldable pub base_class : ExceptionClass → Option ExceptionClass
base_class python_exception = none
base_class value_error = some python_exception
base_class arithmetic_error = some python_exception
base_class overflow_error = some arithmetic_error
base_class decimal_error = some arithmetic_error
base_class type_error = some python_exception
base_class runtime_error = some python_exception
base_class assertion_error = some python_exception
base_class lookup_error = some python_exception
base_class index_error = some lookup_error
base_class validation_error = some value_error
base_class app_error = some python_exception
base_class config_error = some app_error
base_class external_api_error = some app_error
base_class external_api_timeout_error = some external_api_error
base_class external_api_retry_exhausted_error = some external_api_error
base_class external_api_auth_error = some external_api_error
base_class data_validation_error = some app_error
base_class order_error = some app_error
base_class risk_violation_error = some order_error
base_class broker_error = some order_error
base_class backtest_error = some app_error
base_class research_error = some app_error
base_class strategy_version_exists_error = some research_error
base_class strategy_not_found_error = some research_error
base_class toss_api_error = some external_api_error
base_class toss_authentication_error = some toss_api_error
base_class toss_ip_restricted_error = some toss_api_error
base_class toss_rate_limit_error = some toss_api_error
base_class toss_server_error = some toss_api_error

-- `issubclass(c, d)`, by the bases that can be read off the class statements.
pub data IsSubclass : ExceptionClass → ExceptionClass → Type 0 where
  itself : {c : ExceptionClass} → IsSubclass c c
  by_base : {c b d : ExceptionClass} → base_class c ≡ some b → IsSubclass b d → IsSubclass c d

ExceptionClass-discrete : Discrete ExceptionClass
ExceptionClass-discrete = hlevel

-- The walk of an `except` clause along the bases, one base for each unit of fuel.
walk : ℕ → ExceptionClass → ExceptionClass → Bool
walk zero c d = false
walk (suc fuel) c d =
    let up : Bool = elim (base_class c) [ none ↦ false | some b ↦ walk fuel b d ] in
    ite (ExceptionClass-discrete c d) true up

-- Five steps reach the root from every class.
unfoldable pub catches : ExceptionClass → ExceptionClass → Bool
unfolding walk ExceptionClass-discrete
catches d c = walk 5 c d

-- What a raise carries: `TossApiError` and `TossRateLimitError` keep these attributes.
pub record Raised (F : Type 0) : Type 0 where
  pub cls : ExceptionClass
  pub status_code : Option ℕ
  pub error_code : Option String
  pub retry_after : Option F

-- An exception without attributes.
abbrev pub plain : {F : Type 0} → ExceptionClass → Raised F
plain c = record { cls = c; status_code = none; error_code = none; retry_after = none }
