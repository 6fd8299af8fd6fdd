-- ===== src/Http/Retry.antt =====
-- The retry loop of `BaseApiClient.request`: how often it sends, what it returns and raises.
use toss_api.Prelude.{
  ℕ, zero, suc, ◌+◌, ◌≤◌, ◌<◌, ◌≡◌, ◌⊎◌, inl, inr, true, false, [], ◌∷◌, arith, Bool-cases,
}
use toss_api.Exceptions.{
  ExceptionClass, python_exception, value_error, external_api_error, external_api_timeout_error,
  external_api_retry_exhausted_error,
}
use toss_api.Action.{Result, ok, err}
use toss_api.Numeric.{Numeric}
use toss_api.Runtime.{
  Request, Response, Outcome, answered, timed_out, network_error, other_error, History, Environment,
  sent, slept,
}
use toss_api.Http.{RetryPolicy, contains, no_retry_policy, attempts, request}
use toss_api.Http.Recovery.{is_transient, delay, failed_rounds, FailFor}

module _ {F : Type 0} where
  -- How many requests a history holds, and how many sleeps.
  abbrev pub requests_sent : History F → ℕ
  requests_sent [] = 0
  requests_sent (sent r ∷ h) = suc (requests_sent h)
  requests_sent (e ∷ h) = requests_sent h

  abbrev pub sleeps : History F → ℕ
  sleeps [] = 0
  sleeps (slept d ∷ h) = suc (sleeps h)
  sleeps (e ∷ h) = sleeps h

  -- What a call of the loop with `left` rounds has done to the history.
  pub record Spends (left : ℕ) (h h' : History F) : Type 0 where
    pub at_least : requests_sent h + 1 ≤ requests_sent h'
    pub at_most : requests_sent h' ≤ requests_sent h + left
    pub pauses : sleeps h' + requests_sent h + 1 ≤ sleeps h + requests_sent h'

-- How a round without another one after it ends, given the number of those before it. A transient
-- failure is raised under its class in the last round; before it only a negative delay, which
-- `time.sleep` refuses, ends the loop.
module _ {F : Type 0} (num : Numeric F) (p : RetryPolicy F) (r : Request) (k : ℕ) where
  abbrev pub GivesUp : ExceptionClass → ExceptionClass → Type 0
  GivesUp own c =
      ((k ≡ p.max_retries) × (c ≡ own))
      ⊎ ((k < p.max_retries) × (num.ltb (delay num p r k) (num.of_ℕ 0) ≡ true) × (c ≡ value_error))

  abbrev pub Ending : Outcome → Result F Response → Type 0
  Ending (answered x) (ok y) = (y ≡ x) × (contains x.status_code p.retry_status_codes ≡ false)
  Ending o (ok y) = ⊥
  Ending timed_out (err e) = GivesUp external_api_timeout_error e.cls
  Ending network_error (err e) = GivesUp external_api_error e.cls
  Ending other_error (err e) = e.cls ≡ python_exception
  Ending (answered x) (err e) =
      (contains x.status_code p.retry_status_codes ≡ true)
      × GivesUp external_api_retry_exhausted_error e.cls

module _ {F : Type 0} (num : Numeric F) (env : Environment F) (p : RetryPolicy F)
    (r : Request) where
  abbrev pause : ℕ → F
  pause attempt = num.mul p.backoff_base_seconds (num.pow p.backoff_multiplier attempt)

  attempts-Spends :
      (left attempt : ℕ) (h : History F)
      → attempt + left ≡ p.max_retries
      → Spends (suc left) h (attempts num env p r (suc left) attempt h).1
  unfolding attempts
  attempts-Spends zero attempt h e = ground arith
  attempts-Spends (suc left) attempt h e =
      ground (arith, attempts-Spends left (suc attempt) (slept (pause attempt) ∷ sent r ∷ h))

  -- A call sends at least one request and at most one more than `max_retries`, and sleeps fewer times
  -- than it sends.
  pub request-Spends : (h : History F) → Spends (suc p.max_retries) h (request num env p r h).1
  unfolding request
  request-Spends h = attempts-Spends p.max_retries 0 h (omega arith)

  -- The rounds from `attempt` on, `left` at most, that fail and are waited after, then the last one.
  abbrev pub Ends : ℕ → ℕ → History F → Result F Response × History F → Type 0
  Ends left attempt h out =
      (k : ℕ) × (k ≤ left)
      × FailFor num env p r k attempt h
      × (out.1 ≡ sent r ∷ failed_rounds num p r k attempt h)
      × Ending num p r (attempt + k) (env.respond (failed_rounds num p r k attempt h) r) out.0

  attempts-Ends :
      (left attempt : ℕ) (h : History F)
      → attempt + left ≡ p.max_retries
      → Ends left attempt h (attempts num env p r (suc left) attempt h)
  unfolding attempts failed_rounds is_transient delay
  attempts-Ends zero attempt h e = (0, omega arith, tt, ground arith, ground arith)
  attempts-Ends (suc left) attempt h e =
      let o = env.respond h r in
      elim (Bool-cases (is_transient p o)) [
        | inr final ↦ (0, omega arith, tt, ground (arith, final), ground (arith, final))
        | inl again ↦ elim (Bool-cases (num.ltb (delay num p r attempt) (num.of_ℕ 0))) [
          | inl refused ↦
              (0, omega arith, tt, ground (arith, again, refused), ground (arith, again, refused))
          | inr waits ↦
              let (k, le, fail, end, how) =
                attempts-Ends left (suc attempt) (slept (delay num p r attempt) ∷ sent r ∷ h)
                  (omega (arith, e)) in
              (
                suc k,
                omega (arith, le),
                (again, waits, fail),
                ground (arith, again, waits, end),
                ground (arith, again, waits, how),
              )
        ]
      ]

  -- Under a max_retries that is not negative a call makes k failed rounds, k at most max_retries,
  -- each of them a request that fails transiently and a sleep of its own backoff delay, and then
  -- one last request; nothing else is sent or slept. A response that is returned is the answer to
  -- the last request and its status is not retried. A transient failure is raised under its class,
  -- a timeout, a network error or a retried status, exactly if it is the last of max_retries + 1
  -- requests; before that the call ends only in ValueError, where the next delay is negative. Any
  -- other exception of the connection goes through.
  pub request-Ends : (h : History F) → Ends p.max_retries 0 h (request num env p r h)
  unfolding request
  request-Ends h = attempts-Ends p.max_retries 0 h (omega arith)

-- Under `NO_RETRY_POLICY` a call sends exactly one request and does not sleep, however it ends.
pub no_retry_sends_once :
    {F : Type 0} (num : Numeric F) (env : Environment F) (r : Request) (h : History F)
    → (request num env (no_retry_policy num) r h).1 ≡ sent r ∷ h
unfolding request no_retry_policy
no_retry_sends_once num env r h = ground arith
