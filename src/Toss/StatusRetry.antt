-- ===== src/Toss/StatusRetry.antt =====
-- app/toss/_retry.py: retries on a status, above the retries of `BaseApiClient` on a timeout.
pub mod Bounds
pub mod Footprint
use toss_api.Prelude.{ℕ, zero, suc, Bool, Option, none, some, [], not, ◌||◌, ◌==◌, if◌then◌else◌}
use toss_api.Exceptions.{plain, python_exception}
use toss_api.Action.{Action, pure, raise, ◌>>=◌, ◌>>◌}
use toss_api.Numeric.{Numeric}
use toss_api.Runtime.{Request, Response, History, Environment}
use toss_api.Http.{RetryPolicy, contains, sleep, request}
use toss_api.Toss.Status.{retryable_status_codes, extract_retry_after_seconds}

module _ {F : Type 0} (num : Numeric F) (env : Environment F) where
  -- The delay that `Retry-After` gives to a 429, or the backoff.
  unfoldable pub retry_delay : RetryPolicy F → Response → ℕ → F
  retry_delay p response attempt =
      let backoff = num.mul p.backoff_base_seconds (num.pow p.backoff_multiplier attempt) in
      if response.status_code == 429
      then elim (extract_retry_after_seconds num response) [ none ↦ backoff | some d ↦ d ]
      else backoff

  -- The loop's body once a response is there; `next` is the next round, given that response.
  unfoldable pub after_response :
      RetryPolicy F
      → ℕ
      → (Response → Action F (History F) Response)
      → Response
      → Action F (History F) Response
  unfolding retry_delay sleep
  after_response p attempt next response =
      if not (contains response.status_code retryable_status_codes) || attempt == p.max_retries
      then pure response
      else (sleep num env (retry_delay p response attempt) >> next response)

  -- `for attempt in range(max_retries + 1)`, with the rounds left and the last response; `base` is
  -- the policy of the client below. Without a round the name `response` is unbound.
  unfoldable pub status_rounds :
      RetryPolicy F
      → RetryPolicy F
      → Request
      → ℕ
      → ℕ
      → Option Response
      → Action F (History F) Response
  unfolding after_response
  status_rounds base p r zero attempt none = raise (plain python_exception)
  status_rounds base p r zero attempt (some response) = pure response
  status_rounds base p r (suc left) attempt last =
      let next = λ (x : Response). status_rounds base p r left (suc attempt) (some x) in
      request num env base r >>= after_response p attempt next

  unfoldable pub send_with_status_retry :
      RetryPolicy F → RetryPolicy F → Request → Action F (History F) Response
  unfolding status_rounds
  send_with_status_retry base p r = status_rounds base p r (suc p.max_retries) 0 none
