-- ===== src/Toss/Client/ReadOnly.antt =====
-- The client cannot write: all that a call of `TossRestClient.get` ever sends is a GET to its own
-- path or the token request.
use toss_api.Prelude.{
  String, ◌≡◌, ◌⊎◌, inl, inr, refl, Bool, Option, none, some, List, [], ◌==◌, ◌&&◌, not, is_some,
}
use toss_api.Action.{pure, gets, from_result}
use toss_api.Numeric.{Numeric}
use toss_api.Runtime.{Response, get, post, Event, sent, slept, read_clock, Environment}
use toss_api.World.{RateLimitGroup, on_history}
use toss_api.Growth.{
  AddsInWorld, Adds-raise, Adds-pure, Adds-bind, Adds-if, Adds-from_result, Adds-gets, Adds-modify,
  Adds-on_history,
}
use toss_api.Http.Footprint.{Covers, Waits}
use toss_api.Toss.Status.{raise_for_status}
use toss_api.Toss.StatusRetry.Footprint.{send_with_status_retry-Adds}
use toss_api.Toss.Throttle.Footprint.{wait-Adds}
use toss_api.Toss.Auth.Footprint.{now-Adds, get_valid_token-Adds}
use toss_api.Toss.Throttle.{wait}
use toss_api.Toss.Auth.{token_path, token_request, now, get_valid_token, invalidate}
use toss_api.Toss.Client.{
  ClientConfig, wait_group, headers_for, get_request, send, json_of, retry_unauthorized,
  envelope_of, get_envelope, default_group_for,
}

module _ {F : Type 0} (num : Numeric F) (env : Environment F) {P : Event F → Type 0} where
  module _ (c : ClientConfig F) (g : RateLimitGroup) (waits : (e : Event F) → Waits e → P e) where
    wait_group-Adds : AddsInWorld P (wait_group num env c g)
    unfolding wait_group
    wait_group-Adds = Adds-bind (gets (λ w. w.throttle)) _ (Adds-gets _) λ t.
        Adds-bind (on_history (wait num env g t)) _
          (Adds-on_history _ (wait-Adds num env waits g t))
          (λ t'. Adds-modify (λ w. record w { throttle = t' }) (λ w. refl))

  send-Adds :
      (c : ClientConfig F) (path : String) (params : List (String × String)) (account : Bool)
      (g : RateLimitGroup)
      → ((e : Event F) → Waits e → P e)
      → P (sent (token_request num env c.oauth))
      → ((headers : List (String × String)) → P (sent (get_request num env c path params headers)))
      → AddsInWorld P (send num env c path params account g)
  unfolding send
  send-Adds c path params account g waits token own =
      Adds-bind (wait_group num env c g) _ (wait_group-Adds c g waits) λ _.
        Adds-bind (get_valid_token num env c.oauth) _
          (get_valid_token-Adds num env waits c.oauth token)
          λ t.
            Adds-bind (from_result (headers_for num env c t account c.account_seq)) _
              (Adds-from_result _)
              λ headers.
                let covers : Covers P (get_request num env c path params headers) = record {
                  the_request = own headers;
                  waiting = waits;
                } in
                Adds-on_history _ (
                  send_with_status_retry-Adds num env (get_request num env c path params headers)
                    c.http c.retries covers)

-- The token request, and a GET to one path without a form.
abbrev pub IsAllowed : {F : Type 0} → ClientConfig F → String → Event F → Type 0
IsAllowed c path (sent r) =
    ((r.method ≡ get) × (r.path ≡ path) × (r.form ≡ []))
    ⊎ ((r.method ≡ post) × (r.path ≡ token_path))
IsAllowed c path (slept d) = Unit
IsAllowed c path read_clock = Unit

Waits-IsAllowed :
    {F : Type 0} (c : ClientConfig F) (path : String) (e : Event F) → Waits e → IsAllowed c path e
Waits-IsAllowed c path (sent r) w = elim w [ ]
Waits-IsAllowed c path (slept d) w = tt
Waits-IsAllowed c path read_clock w = tt

module _ {F : Type 0} (num : Numeric F) (env : Environment F) (c : ClientConfig F) where
  envelope_of-Adds :
      {P : Event F → Type 0} (x : Response)
      → ((e : Event F) → Waits e → P e)
      → AddsInWorld P (envelope_of num env c x)
  unfolding envelope_of
  envelope_of-Adds x waits =
      Adds-bind (from_result (raise_for_status num x)) _ (Adds-from_result _) λ _.
        Adds-bind (from_result (json_of num env c x)) _ (Adds-from_result _) λ body.
          Adds-bind (now num env) _ (now-Adds num env waits)
            (λ t. Adds-pure (record { payload = body; received_at = t }))

  -- Whatever the server answers and however the call ends, a `get` of a path sends nothing but GETs
  -- to that path and POSTs to the token endpoint, and takes nothing from the history.
  pub get_envelope-IsAllowed :
      (path : String) (params : List (String × String)) (account : Bool)
      (group : Option RateLimitGroup)
      → AddsInWorld (IsAllowed c path) (get_envelope num env c path params account group)
  unfolding get_envelope retry_unauthorized invalidate
  get_envelope-IsAllowed path params account group =
      let g : RateLimitGroup = elim group [ none ↦ default_group_for path | some g' ↦ g' ] in
      let waits = Waits-IsAllowed c path in
      let sends : AddsInWorld (IsAllowed c path) (send num env c path params account g) =
        send-Adds num env c path params account g waits (inr (refl, refl))
          (λ headers. inl (refl, refl, refl)) in
      Adds-if (account && not (is_some c.account_seq)) _ _ (Adds-raise _) (
        Adds-bind (send num env c path params account g) _ sends λ first.
          Adds-bind (retry_unauthorized num env c path params account g first) _
            (Adds-if (first.status_code == 401) _ (pure first)
              (Adds-bind (invalidate num env) _
                (Adds-modify (λ w. record w { cached_token = none }) (λ w. refl)) (λ _. sends))
              (Adds-pure first))
            (λ x. envelope_of-Adds x waits))
