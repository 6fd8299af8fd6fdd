-- ===== src/Toss/Auth/Footprint.antt =====
-- What the token cache adds to the history: its own request and waiting.
use toss_api.Prelude.{refl, true, Option, none, some, leb}
use toss_api.Time.{earlier, after_seconds}
use toss_api.Action.{gets, modify, from_result}
use toss_api.Numeric.{Numeric}
use toss_api.Runtime.{Event, sent, read_clock, Environment}
use toss_api.World.{AccessToken, auth, on_history}
use toss_api.Growth.{
  same, more, AddsInWorld, Adds-pure, Adds-bind, Adds-if, Adds-from_result, Adds-gets, Adds-modify,
  Adds-on_history,
}
use toss_api.Http.Footprint.{Covers, Waits}
use toss_api.Toss.Status.{raise_for_status}
use toss_api.Toss.StatusRetry.{send_with_status_retry}
use toss_api.Toss.StatusRetry.Footprint.{send_with_status_retry-Adds}
use toss_api.Toss.Throttle.Footprint.{wait-Adds}
use toss_api.Toss.Throttle.{wait}
use toss_api.Toss.Auth.{
  OAuthConfig, token_request, now, wait_auth, fetch_token, needs_fetch, refresh, reuse,
  get_valid_token,
}

module _ {F : Type 0} (num : Numeric F) (env : Environment F) {P : Event F → Type 0}
    (waits : (e : Event F) → Waits e → P e) where
  pub now-Adds : AddsInWorld P (now num env)
  unfolding now
  now-Adds = record { at = λ w. more (waits read_clock tt) same }

  wait_auth-Adds : AddsInWorld P (wait_auth num env)
  unfolding wait_auth
  wait_auth-Adds = Adds-bind (gets (λ w. w.auth_throttle)) _ (Adds-gets _) λ t.
      Adds-bind (on_history (wait num env auth t)) _
        (Adds-on_history _ (wait-Adds num env waits auth t))
        (λ t'. Adds-modify (λ w. record w { auth_throttle = t' }) (λ w. refl))

  module _ (c : OAuthConfig F) (covers : P (sent (token_request num env c))) where
    fetch_token-Adds : AddsInWorld P (fetch_token num env c)
    unfolding fetch_token
    fetch_token-Adds =
        let own : Covers P (token_request num env c) = record {
          the_request = covers;
          waiting = waits;
        } in
        let r = token_request num env c in
        Adds-bind (wait_auth num env) _ wait_auth-Adds λ _.
          Adds-bind (on_history (send_with_status_retry num env c.http c.retries r)) _
            (Adds-on_history _ (send_with_status_retry-Adds num env r c.http c.retries own))
            λ x. Adds-bind (from_result (raise_for_status num x)) _ (Adds-from_result _) λ _.
              Adds-bind (from_result (c.token_parser x.content)) _ (Adds-from_result _) λ parsed.
                Adds-bind (now num env) _ now-Adds λ t.
                  Adds-bind (from_result (after_seconds t parsed.expires_in)) _ (Adds-from_result _)
                    (λ e. Adds-pure (record { value = parsed.access_token; expires_at = e }))

    refresh-Adds : AddsInWorld P (refresh num env c)
    unfolding refresh
    refresh-Adds = Adds-bind (fetch_token num env c) _ fetch_token-Adds λ t.
        Adds-bind (modify (λ w. record w { cached_token = some t })) _
          (Adds-modify (λ w. record w { cached_token = some t }) (λ w. refl))
          (λ _. Adds-pure t.value)

    needs_fetch-Adds : (cached : Option AccessToken) → AddsInWorld P (needs_fetch num env c cached)
    unfolding needs_fetch
    needs_fetch-Adds none = Adds-pure true
    needs_fetch-Adds (some t) = Adds-bind (now num env) _ now-Adds λ u.
        Adds-bind (from_result (earlier t.expires_at c.expiry_leeway)) _ (Adds-from_result _)
          (λ limit. Adds-pure (leb limit u))

    reuse-Adds : (cached : Option AccessToken) → AddsInWorld P (reuse num env c cached)
    unfolding reuse
    reuse-Adds none = refresh-Adds
    reuse-Adds (some t) = Adds-pure t.value

    -- The token: at most its own request.
    pub get_valid_token-Adds : AddsInWorld P (get_valid_token num env c)
    unfolding get_valid_token
    get_valid_token-Adds = Adds-bind (gets (λ w. w.cached_token)) _ (Adds-gets _) λ cached.
        Adds-bind (needs_fetch num env c cached) _ (needs_fetch-Adds cached)
          λ stale. Adds-if stale _ _ refresh-Adds (reuse-Adds cached)
