-- ===== src/Http/Footprint.antt =====
-- What the retry loops of one request add to the history: that request, sleeps, and nothing else.
use toss_api.Prelude.{ℕ, zero, suc, Bool, ◌∷◌, ◌==◌}
use toss_api.Exceptions.{plain, value_error}
use toss_api.Action.{Action, ok, raise}
use toss_api.Numeric.{Numeric}
use toss_api.Runtime.{
  Request, Response, Outcome, answered, timed_out, network_error, other_error, Event, sent, slept,
  read_clock, History, Environment,
}
use toss_api.Growth.{same, more, AddsAlone, Adds-raise, Adds-pure, Adds-bind, Adds-if}
use toss_api.Http.{RetryPolicy, contains, send, sleep, after_attempt, attempts, request}

-- Waiting, and reading the clock.
abbrev pub Waits : {F : Type 0} → Event F → Type 0
Waits (sent r) = ⊥
Waits (slept d) = Unit
Waits read_clock = Unit

-- A kind of events that holds this request and all waiting.
pub record Covers {F : Type 0} (P : Event F → Type 0) (r : Request) : Type 0 where
  pub the_request : P (sent r)
  pub waiting : (e : Event F) → Waits e → P e

module _ {F : Type 0} (num : Numeric F) (env : Environment F) {P : Event F → Type 0} where
  pub Adds-sleep : (d : F) → P (slept d) → AddsAlone P (sleep num env d)
  unfolding sleep
  Adds-sleep d p =
      Adds-if (num.ltb d (num.of_ℕ 0)) (raise (plain value_error)) (λ h. (ok tt, slept d ∷ h))
        (Adds-raise _) (record { at = λ h. more p same })

module _ {F : Type 0} (num : Numeric F) (env : Environment F) {P : Event F → Type 0}
    (r : Request) where
  after_attempt-Adds :
      (p : RetryPolicy F) (last : Bool) (again : Action F (History F) Response) (o : Outcome)
      → AddsAlone P again
      → AddsAlone P (after_attempt num env p last again o)
  unfolding after_attempt
  after_attempt-Adds p last again timed_out a = Adds-if last _ _ (Adds-raise _) a
  after_attempt-Adds p last again network_error a = Adds-if last _ _ (Adds-raise _) a
  after_attempt-Adds p last again other_error a = Adds-raise _
  after_attempt-Adds p last again (answered x) a =
      Adds-if (contains x.status_code p.retry_status_codes) _ _ (Adds-if last _ _ (Adds-raise _) a)
        (Adds-pure _)

  attempts-Adds :
      (p : RetryPolicy F) (left attempt : ℕ)
      → Covers P r
      → AddsAlone P (attempts num env p r left attempt)
  unfolding attempts send
  attempts-Adds p zero attempt c = Adds-raise _
  attempts-Adds p (suc left) attempt c =
      let d = num.mul p.backoff_base_seconds (num.pow p.backoff_multiplier attempt) in
      Adds-bind (send num env r) _ (record { at = λ h. more c.the_request same })
        (λ o. after_attempt-Adds p (attempt == p.max_retries) _ o (
          Adds-bind (sleep num env d) _ (Adds-sleep num env d (c.waiting (slept d) tt))
            (λ _. attempts-Adds p left (suc attempt) c)))

  pub request-Adds : (p : RetryPolicy F) → Covers P r → AddsAlone P (request num env p r)
  unfolding request
  request-Adds p c = attempts-Adds p (suc p.max_retries) 0 c
