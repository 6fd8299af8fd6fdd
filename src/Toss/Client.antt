-- ===== src/Toss/Client.antt =====
-- app/toss/client.py: `TossRestClient`, whose one verb is `get`, and app/toss/health.py.
pub mod ReadOnly
pub mod Answers
use Prim.Native.String.{◌++◌}
use text.Mathlib.Text.{starts_with}
use toss_api.Prelude.{
  ℕ, String, Bool, true, false, ◌&&◌, ◌||◌, Option, none, some, List, [], ◌∷◌, ◌==◌, str_eq, not,
  is_some, if◌then◌else◌,
}
use toss_api.Exceptions.{plain, config_error, value_error, assertion_error}
use toss_api.Action.{Result, Action, ok, err, pure, raise, gets, modify, from_result, ◌>>=◌, ◌>>◌}
use toss_api.Numeric.{Numeric}
use toss_api.Runtime.{Request, Response, Json, get, History, Environment}
use toss_api.World.{
  RateLimitGroup, auth, account, asset, stock, AccessToken, GroupThrottle, World, on_history,
}
use toss_api.Http.{RetryPolicy}
use toss_api.Toss.Status.{raise_for_status}
use toss_api.Toss.StatusRetry.{send_with_status_retry}
use toss_api.Toss.Throttle.{wait}
use toss_api.Toss.Auth.{OAuthConfig, get_valid_token, invalidate, now}

-- `DEFAULT_ENDPOINT_GROUPS`, in the order of the dictionary
abbrev pub default_endpoint_groups : List (String × RateLimitGroup)
default_endpoint_groups =
    ("/api/v1/orderbook", stock)
    ∷ ("/api/v1/prices", stock)
    ∷ ("/api/v1/trades", stock)
    ∷ ("/api/v1/price-limits", stock)
    ∷ ("/api/v1/candles", stock)
    ∷ ("/api/v1/stocks", stock)
    ∷ ("/api/v1/accounts", account)
    ∷ ("/api/v1/holdings", asset)
    ∷ ("/api/v1/orders", account)
    ∷ ("/api/v1/buying-power", account)
    ∷ ("/api/v1/sellable-quantity", account)
    ∷ ("/api/v1/commissions", account)
    ∷ []

pub first_group : List (String × RateLimitGroup) → String → RateLimitGroup
first_group [] path = account
first_group ((known_path, group) ∷ rest) path =
    if str_eq path known_path || starts_with path (known_path ++ "/")
    then group
    else first_group rest path

-- `_default_group_for`
pub default_group_for : String → RateLimitGroup
unfolding first_group
default_group_for = first_group default_endpoint_groups

pub record TossResponseEnvelope : Type 0 where
  pub payload : Json
  pub received_at : ℕ

-- The constructor's arguments, the read-only flag apart.
pub record ClientConfig (F : Type 0) : Type 0 where
  pub oauth : OAuthConfig F
  pub account_seq : Option String
  pub retries : RetryPolicy F
  pub http : RetryPolicy F

-- `TossRestClient.__init__`: it refuses to start unless the read-only flag is set.
pub new_client : {F : Type 0} → ClientConfig F → Bool → Result F (ClientConfig F)
new_client c read_only_mode = if not read_only_mode then err (plain config_error) else ok c

module _ {F : Type 0} (num : Numeric F) (env : Environment F) (c : ClientConfig F) where
  -- `self._throttle.wait(group)`
  unfoldable pub wait_group : RateLimitGroup → Action F (World F) (Unit {0})
  wait_group group = do
    throttle ← gets (λ w. w.throttle)
    throttle' ← on_history (wait num env group throttle)
    modify (λ w. record w { throttle = throttle' })

  -- `headers`: the token, and the account where it is required.
  unfoldable pub headers_for : String → Bool → Option String → Result F (List (String × String))
  headers_for token false seq = ok (("Authorization", "Bearer " ++ token) ∷ [])
  headers_for token true none = err (plain assertion_error)
  headers_for token true (some seq) =
      ok (("Authorization", "Bearer " ++ token) ∷ ("X-Tossinvest-Account", seq) ∷ [])

  abbrev pub get_request : String → List (String × String) → List (String × String) → Request
  get_request path params headers = record {
    method = get;
    path = path;
    headers = headers;
    params = params;
    form = [];
  }

  -- `_send`
  unfoldable pub send :
      String → List (String × String) → Bool → RateLimitGroup → Action F (World F) Response
  unfolding wait_group headers_for
  send path params requires_account group = do
    wait_group group
    token ← get_valid_token num env c.oauth
    headers ← from_result (headers_for token requires_account c.account_seq)
    on_history (send_with_status_retry num env c.http c.retries (get_request path params headers))

  -- `response.json()`
  unfoldable pub json_of : Response → Result F Json
  json_of response = elim response.json [ none ↦ err (plain value_error) | some body ↦ ok body ]

  -- After the first answer: a 401 drops the token and asks once more.
  unfoldable pub retry_unauthorized :
      String
      → List (String × String)
      → Bool
      → RateLimitGroup
      → Response
      → Action F (World F) Response
  retry_unauthorized path params requires_account group response =
      if response.status_code == 401
      then (invalidate num env >> send path params requires_account group)
      else pure response

  -- The end of `get`: an error status raises, any other gives the envelope.
  unfoldable pub envelope_of : Response → Action F (World F) TossResponseEnvelope
  unfolding json_of now
  envelope_of response = do
    from_result (raise_for_status num response)
    payload ← from_result (json_of response)
    received_at ← now num env
    pure (record { payload = payload; received_at = received_at })

  -- `get`, with the group that the caller names or the default one of the path
  unfoldable pub get_envelope :
      String
      → List (String × String)
      → Bool
      → Option RateLimitGroup
      → Action F (World F) TossResponseEnvelope
  get_envelope path params requires_account group =
      let resolved_group : RateLimitGroup = elim group [
        | none ↦ default_group_for path
        | some g ↦ g
      ] in
      if requires_account && not (is_some c.account_seq)
      then raise (plain config_error)
      else (send path params requires_account resolved_group >>= λ first.
          (retry_unauthorized path params requires_account resolved_group first >>= envelope_of))

-- app/toss/health.py
pub record AuthHealthCheckResult : Type 0 where
  pub ok_ : Bool
  pub checked_at : ℕ
  pub token_expires_at : Option ℕ

module _ {F : Type 0} (num : Numeric F) (env : Environment F) where
  -- `cached_token_expires_at`
  abbrev pub expiry : Option AccessToken → Option ℕ
  expiry none = none
  expiry (some t) = some t.expires_at

  unfoldable pub check_auth_health : OAuthConfig F → Action F (World F) AuthHealthCheckResult
  unfolding now
  check_auth_health c = do
    invalidate num env
    token ← get_valid_token num env c
    checked_at ← now num env
    expires_at ← gets (λ w. expiry w.cached_token)
    pure (record {
      ok_ = not (str_eq token "");
      checked_at = checked_at;
      token_expires_at = expires_at;
    })
