-- ===== src/Toss/StatusRetry/Footprint.antt =====
-- What `send_with_status_retry` adds to the history: its own request and sleeps.
use toss_api.Prelude.{ℕ, zero, suc, Option, none, some, ◌==◌, not, ◌||◌}
use toss_api.Action.{pure}
use toss_api.Numeric.{Numeric}
use toss_api.Runtime.{Request, Response, Event, slept, Environment}
use toss_api.Growth.{AddsAlone, Adds-raise, Adds-pure, Adds-bind, Adds-if}
use toss_api.Http.{RetryPolicy, contains, request, sleep}
use toss_api.Http.Footprint.{Covers, request-Adds, Adds-sleep}
use toss_api.Toss.Status.{retryable_status_codes}
use toss_api.Toss.StatusRetry.{retry_delay, after_response, status_rounds, send_with_status_retry}

module _ {F : Type 0} (num : Numeric F) (env : Environment F) {P : Event F → Type 0} where
  -- The two retry loops.
  status_rounds-Adds :
      (r : Request) (base p : RetryPolicy F) (left attempt : ℕ) (last : Option Response)
      → Covers P r
      → AddsAlone P (status_rounds num env base p r left attempt last)
  unfolding status_rounds after_response
  status_rounds-Adds r base p zero attempt none c = Adds-raise _
  status_rounds-Adds r base p zero attempt (some x) c = Adds-pure _
  status_rounds-Adds r base p (suc left) attempt last c =
      Adds-bind (request num env base r) _ (request-Adds num env r base c) λ x.
        Adds-if (not (contains x.status_code retryable_status_codes) || attempt == p.max_retries)
          (pure x) _ (Adds-pure x)
          (Adds-bind (sleep num env (retry_delay num env p x attempt)) _
            (Adds-sleep num env _ (c.waiting (slept (retry_delay num env p x attempt)) tt))
            (λ _. status_rounds-Adds r base p left (suc attempt) (some x) c))

  pub send_with_status_retry-Adds :
      (r : Request) (base p : RetryPolicy F)
      → Covers P r
      → AddsAlone P (send_with_status_retry num env base p r)
  unfolding send_with_status_retry
  send_with_status_retry-Adds r base p c = status_rounds-Adds r base p (suc p.max_retries) 0 none c
