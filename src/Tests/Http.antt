-- ===== src/Tests/Http.antt =====
-- app/adapters/http_client.py and app/core/exceptions.py, run on integers: a server that fails twice
-- and then answers.
use toss_api.Prelude.{ℕ, ◌≡◌, refl, none, [], ◌∷◌, arith, ltb, if◌then◌else◌}
use toss_api.Prelude.Int.{ℤ, pos, ◌*ℤ◌}
use toss_api.Action.{ok}
use toss_api.Numeric.{integers}
use toss_api.Runtime.{Request, get, Response, answered, timed_out, Environment, sent}
use toss_api.Http.{RetryPolicy, request}
use toss_api.Http.Retry.{Ends, requests_sent, request-Ends}
use toss_api.Http.Recovery.{failed_rounds, delay, is_transient, request_recovers}

abbrev pub ping : Request
ping = record { method = get; path = "/ping"; headers = []; params = []; form = [] }

abbrev pub answer : ℕ → Response
answer status = record { status_code = status; retry_after = none; content = ""; json = none }

-- A timeout, then 503, then 200.
abbrev recovering : Environment ℤ
recovering = record {
  respond = λ h r.
      if ltb (requests_sent h) 1
      then timed_out
      else if ltb (requests_sent h) 2
      then answered (answer 503)
      else answered (answer 200);
  monotonic = λ h. pos 0;
  now = λ h. 0;
}

abbrev policy : RetryPolicy ℤ
policy = record {
  max_retries = 3;
  backoff_base_seconds = pos 1;
  backoff_multiplier = pos 2;
  retry_status_codes = 503 ∷ [];
}

request-Ends_example :
    Ends integers recovering policy ping 3 0 [] (request integers recovering policy ping [])
request-Ends_example = request-Ends integers recovering policy ping []

request_recovers_example :
    request integers recovering policy ping []
    ≡ (ok (answer 200), sent ping ∷ failed_rounds integers policy ping 2 0 [])
unfolding failed_rounds delay is_transient ◌*ℤ◌
request_recovers_example =
    request_recovers integers recovering policy ping 2 [] (answer 200) (omega arith)
      ((refl, refl, (refl, refl, tt))) refl refl
