-- ===== src/Http.antt =====
-- app/adapters/http_client.py: `RetryPolicy` and the retry loop of `BaseApiClient.request`.
-- The address that a path is joined to is the same at every call and is left out; so is the
-- timeout, which is handed to `httpx`.
pub mod Retry
pub mod Recovery
pub mod Footprint
use toss_api.Prelude.{ℕ, zero, suc, Bool, true, false, List, [], ◌∷◌, ◌||◌, ◌==◌, if◌then◌else◌}
use toss_api.Exceptions.{
  Raised, plain, ExceptionClass, python_exception, value_error, assertion_error, external_api_error,
  external_api_timeout_error, external_api_retry_exhausted_error,
}
use toss_api.Action.{Result, Action, ok, err, pure, raise, ◌>>=◌, ◌>>◌}
use toss_api.Numeric.{Numeric}
use toss_api.Runtime.{
  Request, Response, Outcome, answered, timed_out, network_error, other_error, History, Environment,
  sent, slept,
}

-- `max_retries` is not negative. (A negative one makes `range` empty, so that nothing is sent and the
-- `AssertionError` after the loop is raised.)
pub record RetryPolicy (F : Type 0) : Type 0 where
  pub max_retries : ℕ
  pub backoff_base_seconds : F
  pub backoff_multiplier : F
  pub retry_status_codes : List ℕ

abbrev pub contains : ℕ → List ℕ → Bool
contains n [] = false
contains n (m ∷ ms) = n == m || contains n ms

abbrev pub default_retry_status_codes : List ℕ
default_retry_status_codes = 408 ∷ 429 ∷ 500 ∷ 502 ∷ 503 ∷ 504 ∷ []

-- 0.5 seconds is one half of one.
unfoldable pub default_retry_policy : {F : Type 0} → Numeric F → RetryPolicy F
default_retry_policy num = record {
  max_retries = 3;
  backoff_base_seconds = num.div (num.of_ℕ 1) (num.of_ℕ 2);
  backoff_multiplier = num.of_ℕ 2;
  retry_status_codes = default_retry_status_codes;
}

unfoldable pub no_retry_policy : {F : Type 0} → Numeric F → RetryPolicy F
unfolding default_retry_policy
no_retry_policy num = record (default_retry_policy num) { max_retries = 0 }

module _ {F : Type 0} (num : Numeric F) (env : Environment F) where
  -- One call of `httpx.Client.request`.
  unfoldable pub send : Request → Action F (History F) Outcome
  send r h = (ok (env.respond h r), sent r ∷ h)

  -- `time.sleep`, which refuses a negative delay.
  unfoldable pub sleep : F → Action F (History F) (Unit {0})
  sleep d =
      if num.ltb d (num.of_ℕ 0) then raise (plain value_error) else (λ h. (ok tt, slept d ∷ h))

  -- The body of the loop once the call has come back; `again` is the sleep and the next round.
  unfoldable pub after_attempt :
      RetryPolicy F → Bool → Action F (History F) Response → Outcome → Action F (History F) Response
  after_attempt p is_last_attempt again timed_out =
      if is_last_attempt then raise (plain external_api_timeout_error) else again
  after_attempt p is_last_attempt again network_error =
      if is_last_attempt then raise (plain external_api_error) else again
  after_attempt p is_last_attempt again other_error = raise (plain python_exception)
  after_attempt p is_last_attempt again (answered response) =
      if contains response.status_code p.retry_status_codes
      then if is_last_attempt then raise (plain external_api_retry_exhausted_error) else again
      else pure response

  -- `for attempt in range(max_retries + 1)`, with the rounds left; after the last round stands
  -- `raise AssertionError("unreachable")`.
  unfoldable pub attempts : RetryPolicy F → Request → ℕ → ℕ → Action F (History F) Response
  unfolding send sleep after_attempt
  attempts p r zero attempt = raise (plain assertion_error)
  attempts p r (suc left) attempt =
      let pause = sleep (num.mul p.backoff_base_seconds (num.pow p.backoff_multiplier attempt)) in
      let next = attempts p r left (suc attempt) in
      send r >>= after_attempt p (attempt == p.max_retries) (pause >> next)

  unfoldable pub request : RetryPolicy F → Request → Action F (History F) Response
  unfolding attempts
  request p r = attempts p r (suc p.max_retries) 0
