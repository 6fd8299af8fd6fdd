-- ===== src/Toss/StatusRetry/Bounds.antt =====
-- The two retry loops together: how many requests one logical call can come to.
use toss_api.Prelude.{ℕ, zero, suc, ◌+◌, ◌*◌, ◌≤◌, ◌≡◌, Option, none, some, ◌∷◌, arith}
use toss_api.Action.{>>=_rule, Result}
use toss_api.Numeric.{Numeric}
use toss_api.Runtime.{Request, Response, History, Environment, slept}
use toss_api.Http.{RetryPolicy, request}
use toss_api.Http.Retry.{requests_sent, request-Spends}
use toss_api.Toss.StatusRetry.{retry_delay, after_response, status_rounds, send_with_status_retry}

module _ {F : Type 0} (num : Numeric F) (env : Environment F) (base p : RetryPolicy F)
    (r : Request) where
  -- What the rounds came to: no final answer is left to the name `response` after the loop.
  pub record Bounded (left : ℕ) (h : History F) (res : Result F Response × History F) : Type 0 where
    pub at_least : requests_sent h + 1 ≤ requests_sent res.1
    pub at_most : requests_sent res.1 ≤ requests_sent h + left * suc base.max_retries

  status_rounds-Bounded :
      (left attempt : ℕ) (last : Option Response) (h : History F)
      → attempt + left ≡ p.max_retries
      → Bounded (suc left) h (status_rounds num env base p r (suc left) attempt last h)
  unfolding status_rounds
  status_rounds-Bounded zero attempt last h e =
      let spent = request-Spends num env base r h in
      >>=_rule (Bounded 1 h) (request num env base r)
        (after_response num env p attempt
          (λ x. status_rounds num env base p r zero (suc attempt) (some x)))
        h (λ x _. ground arith) (λ x _. ground arith)
  status_rounds-Bounded (suc left) attempt last h e =
      let spent = request-Spends num env base r h in
      let h' = (request num env base r h).1 in
      >>=_rule (Bounded (suc (suc left)) h) (request num env base r)
        (after_response num env p attempt
          (λ x. status_rounds num env base p r (suc left) (suc attempt) (some x)))
        h
        (λ x _. ground (
          arith,
          status_rounds-Bounded left (suc attempt) (some x)
              (slept (retry_delay num env p x attempt) ∷ h'),
        ))
        (λ x _. ground arith)

  -- One logical call sends at least one request and at most
  -- (max_retries + 1) * (base.max_retries + 1): a status retry repeats the timeout retries below.
  pub send_with_status_retry-Bounded :
      (h : History F) → Bounded (suc p.max_retries) h (send_with_status_retry num env base p r h)
  unfolding send_with_status_retry
  send_with_status_retry-Bounded h = status_rounds-Bounded p.max_retries 0 none h (omega arith)
