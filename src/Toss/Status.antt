-- ===== src/Toss/Status.antt =====
-- app/toss/error_mapping.py: what a response with an error status raises.
pub mod Mapping
use toss_api.Prelude.{
  ℕ, ◌+◌, ◌≤◌, ◌<◌, ◌≡◌, ◌↔◌, ◌⊎◌, String, Bool, true, false, ◌&&◌, Option, none, some, List, [],
  ◌∷◌, arith, leb, ltb, ◌==◌, str_eq, if◌then◌else◌,
}
use toss_api.Exceptions.{
  Raised, ExceptionClass, toss_api_error, toss_authentication_error, toss_ip_restricted_error,
  toss_rate_limit_error, toss_server_error, catches,
}
use toss_api.Action.{Result, ok, err}
use toss_api.Numeric.{Numeric}
use toss_api.Runtime.{
  Json, JsonFields, Response, null, boolean, number, string, array, object, end, field,
}

abbrev pub retryable_status_codes : List ℕ
retryable_status_codes = 429 ∷ 500 ∷ 502 ∷ 503 ∷ 504 ∷ []

-- `body.get(key)`; the keys of a decoded object differ.
unfoldable pub get_field : String → JsonFields → Option Json
get_field key end = none
get_field key (field k v rest) = if str_eq k key then some v else get_field key rest

-- `isinstance(value, str)`, with the string
unfoldable pub as_string : Option Json → Option String
as_string (some (string s)) = some s
as_string _ = none

-- The part below `error = body.get("error")`.
unfoldable pub code_of_error : Option Json → Option String
unfolding as_string get_field
code_of_error (some (object fs)) = as_string (get_field "code" fs)
code_of_error error = as_string error

unfoldable pub code_of_body : Json → Option String
unfolding as_string get_field code_of_error
code_of_body (object fs) = elim (as_string (get_field "code" fs)) [
  | some code ↦ some code
  | none ↦ code_of_error (get_field "error" fs)
]
code_of_body _ = none

unfoldable pub extract_error_code : Response → Option String
unfolding code_of_body
extract_error_code response = elim response.json [ none ↦ none | some body ↦ code_of_body body ]

-- `TossApiError(…, status_code=…, error_code=…)`, with the `retry_after` of a rate limit.
abbrev pub toss_error : {F : Type 0} → ExceptionClass → ℕ → Option String → Option F → Raised F
toss_error c status code wait = record {
  cls = c;
  status_code = some status;
  error_code = code;
  retry_after = wait;
}

module _ {F : Type 0} (num : Numeric F) where
  unfoldable pub extract_retry_after_seconds : Response → Option F
  extract_retry_after_seconds response = elim response.retry_after [
    | none ↦ none
    | some value ↦ num.of_text value
  ]

  -- The exception of each status that is no success, most specific first.
  unfoldable pub error_for : Response → Raised F
  unfolding extract_error_code extract_retry_after_seconds
  error_for response =
      let status = response.status_code in
      let code = extract_error_code response in
      if status == 401
      then toss_error toss_authentication_error status code none
      else if status == 403
      then toss_error toss_ip_restricted_error status code none
      else if status == 429
      then toss_error toss_rate_limit_error status code (extract_retry_after_seconds response)
      else if leb 500 status && ltb status 600
      then toss_error toss_server_error status code none
      else toss_error toss_api_error status code none

  unfoldable pub raise_for_status : Response → Result F (Unit {0})
  unfolding error_for
  raise_for_status response =
      if leb 200 response.status_code && ltb response.status_code 300
      then ok tt
      else err (error_for response)
