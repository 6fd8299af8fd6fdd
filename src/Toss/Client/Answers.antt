-- ===== src/Toss/Client/Answers.antt =====
-- What `TossRestClient.get` gives back: when it asks at all, when it asks twice, and what it makes
-- of the last answer.
use toss_api.Prelude.{
  ◌≤◌, ◌<◌, ◌≡◌, ◌≢◌, String, Bool, true, false, Option, none, some, List, arith, ◌&&◌, not,
  is_some,
}
use toss_api.Exceptions.{
  plain, config_error, value_error, app_error, toss_authentication_error, catches,
}
use toss_api.Exceptions.Hierarchy.{value_error-uncaught}
use toss_api.Action.{ok, err}
use toss_api.Numeric.{Numeric}
use toss_api.Runtime.{Response, Environment}
use toss_api.World.{World, RateLimitGroup}
use toss_api.Toss.Status.{raise_for_status, toss_error, extract_error_code}
use toss_api.Toss.Auth.{invalidate}
use toss_api.Toss.Client.{
  ClientConfig, TossResponseEnvelope, envelope_of, send, retry_unauthorized, get_envelope,
}

module _ {F : Type 0} (num : Numeric F) (env : Environment F) (c : ClientConfig F) where
  -- An envelope is made only of a response whose status is 200 to 299 and whose body is JSON; it
  -- holds that body and the time at which it was read.
  pub envelope_of-ok :
      (x : Response) (w : World F) (e : TossResponseEnvelope)
      → (envelope_of num env c x w).0 ≡ ok e
      → (200 ≤ x.status_code)
        × (x.status_code < 300)
        × (x.json ≡ some e.payload)
        × (e.received_at ≡ env.now w.history)
  unfolding envelope_of raise_for_status
  envelope_of-ok x w e h = ground arith

  envelope_of-unauthorized :
      (x : Response) (w : World F)
      → x.status_code ≡ 401
      → envelope_of num env c x w
        ≡ (err (toss_error toss_authentication_error 401 (extract_error_code x) none), w)
  unfolding envelope_of raise_for_status
  envelope_of-unauthorized x w h = ground arith

  -- A success without a JSON body raises Python's `ValueError`, which `except AppError` lets through.
  pub envelope_of-not_json :
      (x : Response) (w : World F)
      → 200 ≤ x.status_code
      → x.status_code < 300
      → x.json ≡ none
      → (envelope_of num env c x w ≡ (err (plain value_error), w))
        × (catches app_error value_error ≡ false)
  unfolding envelope_of raise_for_status
  envelope_of-not_json x w lo hi h = (ground arith, value_error-uncaught)

  module _ (path : String) (params : List (String × String)) (group : Option RateLimitGroup) where
    -- Without an account number a call that requires one raises `ConfigError`; nothing is sent,
    -- waited for or changed.
    pub get_envelope-no_account :
        (w : World F)
        → c.account_seq ≡ none
        → get_envelope num env c path params true group w ≡ (err (plain config_error), w)
    unfolding get_envelope
    get_envelope-no_account w h = ground arith

  module _ (path : String) (params : List (String × String)) (account : Bool)
      (g : RateLimitGroup) where
    -- A call that is sent: with an account number, or where none is required.
    abbrev MayAsk : Type 0
    MayAsk = (account && not (is_some c.account_seq)) ≡ false

    -- A first answer other than 401 decides the call: there is no second request.
    pub get_envelope-once :
        (w w' : World F) (x : Response)
        → MayAsk
        → send num env c path params account g w ≡ (ok x, w')
        → x.status_code ≢ 401
        → get_envelope num env c path params account (some g) w ≡ envelope_of num env c x w'
    unfolding get_envelope retry_unauthorized
    get_envelope-once w w' x may asked other = ground arith

    -- A first answer of 401 drops the cached token and the call is made once more; the second
    -- answer decides, a second 401 by `TossAuthenticationError`.
    pub get_envelope-twice :
        (w w' w'' : World F) (x y : Response)
        → MayAsk
        → send num env c path params account g w ≡ (ok x, w')
        → x.status_code ≡ 401
        → send num env c path params account g (record w' { cached_token = none }) ≡ (ok y, w'')
        → (get_envelope num env c path params account (some g) w ≡ envelope_of num env c y w'')
          × (y.status_code ≡ 401
              → (get_envelope num env c path params account (some g) w).0
                ≡ err (toss_error toss_authentication_error 401 (extract_error_code y) none))
    unfolding get_envelope retry_unauthorized invalidate
    get_envelope-twice w w' w'' x y may first unauthorized second =
        (ground arith, λ still. ground (arith, envelope_of-unauthorized y w'' still))
