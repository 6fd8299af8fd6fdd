-- ===== src/Http/Recovery.antt =====
-- The retry loop of `BaseApiClient.request` against an independent account of its rounds: when it
-- recovers from transient failures, and with what.
use toss_api.Prelude.{ℕ, zero, suc, ◌+◌, ◌≤◌, ◌≡◌, Bool, true, false, ◌∷◌, arith}
use toss_api.Action.{ok}
use toss_api.Numeric.{Numeric}
use toss_api.Runtime.{
  Request, Response, Outcome, answered, timed_out, network_error, other_error, History, Environment,
  sent, slept,
}
use toss_api.Http.{RetryPolicy, contains, attempts, request}

-- What the loop retries: a timeout, a network error, a response with a retried status.
unfoldable pub is_transient : {F : Type 0} → RetryPolicy F → Outcome → Bool
is_transient p timed_out = true
is_transient p network_error = true
is_transient p other_error = false
is_transient p (answered x) = contains x.status_code p.retry_status_codes

module _ {F : Type 0} (num : Numeric F) (p : RetryPolicy F) (r : Request) where
  -- The delay before the round `attempt + 1`: base * multiplier ** attempt.
  unfoldable pub delay : ℕ → F
  delay attempt = num.mul p.backoff_base_seconds (num.pow p.backoff_multiplier attempt)

  -- The history once the rounds `attempt, attempt + 1, …` have failed `k` times.
  unfoldable pub failed_rounds : ℕ → ℕ → History F → History F
  failed_rounds zero attempt h = h
  failed_rounds (suc k) attempt h =
      failed_rounds k (suc attempt) (slept (delay attempt) ∷ sent r ∷ h)

module _ {F : Type 0} (num : Numeric F) (env : Environment F) (p : RetryPolicy F)
    (r : Request) where
  -- `k` rounds from `attempt` on fail transiently, and no delay between them is negative.
  abbrev pub FailFor : ℕ → ℕ → History F → Type 0
  FailFor zero attempt h = Unit
  FailFor (suc k) attempt h =
      (is_transient p (env.respond h r) ≡ true)
      × (num.ltb (delay num p r attempt) (num.of_ℕ 0) ≡ false)
      × FailFor k (suc attempt) (slept (delay num p r attempt) ∷ sent r ∷ h)

  attempts_recover :
      (k left attempt : ℕ) (h : History F) (x : Response)
      → attempt + left ≡ p.max_retries
      → k ≤ left
      → FailFor k attempt h
      → env.respond (failed_rounds num p r k attempt h) r ≡ answered x
      → contains x.status_code p.retry_status_codes ≡ false
      → attempts num env p r (suc left) attempt h
        ≡ (ok x, sent r ∷ failed_rounds num p r k attempt h)
  unfolding attempts failed_rounds is_transient delay
  attempts_recover zero left attempt h x e le f a good = ground arith
  attempts_recover (suc k) zero attempt h x e le f a good = absurd (omega arith)
  attempts_recover (suc k) (suc left) attempt h x e le f a good =
      ground (
        arith,
        attempts_recover k left (suc attempt) (slept (delay num p r attempt) ∷ sent r ∷ h) x,
      )

  -- After `k ≤ max_retries` transient failures a good response is returned, whatever the failures
  -- were; the history then holds the `k` failed rounds, each with its own backoff delay, and the
  -- last request.
  pub request_recovers :
      (k : ℕ) (h : History F) (x : Response)
      → k ≤ p.max_retries
      → FailFor k 0 h
      → env.respond (failed_rounds num p r k 0 h) r ≡ answered x
      → contains x.status_code p.retry_status_codes ≡ false
      → request num env p r h ≡ (ok x, sent r ∷ failed_rounds num p r k 0 h)
  unfolding request
  request_recovers k h x le f a good =
      attempts_recover k p.max_retries 0 h x (omega arith) le f a good
