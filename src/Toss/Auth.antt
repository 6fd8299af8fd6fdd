-- ===== src/Toss/Auth.antt =====
-- app/toss/auth.py: `TossOAuthClient`, with its token cache.
pub mod Cache
pub mod Footprint
use toss_api.Prelude.{ℕ, String, Bool, true, false, Option, none, some, [], ◌∷◌, leb, if◌then◌else◌}
use toss_api.Action.{Result, Action, ok, err, pure, gets, modify, from_result, ◌>>=◌, ◌>>◌}
use toss_api.Numeric.{Numeric}
use toss_api.Runtime.{Request, Response, post, History, Environment, read_clock}
use toss_api.Time.{earlier, after_seconds}
use toss_api.World.{RateLimitGroup, auth, AccessToken, GroupThrottle, World, on_history}
use toss_api.Http.{RetryPolicy}
use toss_api.Toss.Status.{raise_for_status}
use toss_api.Toss.StatusRetry.{send_with_status_retry}
use toss_api.Toss.Throttle.{wait}
use toss_api.Toss.Token.{ParsedToken}

abbrev pub token_path : String
token_path = "/oauth2/token"

-- The constructor's arguments. `http` is the policy of the client below, which retries no status;
-- `expiry_leeway` is in microseconds.
pub record OAuthConfig (F : Type 0) : Type 0 where
  pub client_id : String
  pub client_secret : String
  pub retries : RetryPolicy F
  pub http : RetryPolicy F
  pub expiry_leeway : ℕ
  pub token_parser : String → Result F ParsedToken

module _ {F : Type 0} (num : Numeric F) (env : Environment F) where
  -- The wall clock, `datetime.now(UTC)`.
  unfoldable pub now : Action F (World F) ℕ
  now w = (ok (env.now w.history), record w { history = read_clock ∷ w.history })

  -- `self._throttle.wait(RateLimitGroup.AUTH)`
  unfoldable pub wait_auth : Action F (World F) (Unit {0})
  wait_auth = do
    throttle ← gets (λ w. w.auth_throttle)
    throttle' ← on_history (wait num env auth throttle)
    modify (λ w. record w { auth_throttle = throttle' })

  abbrev pub token_request : OAuthConfig F → Request
  token_request c = record {
    method = post;
    path = token_path;
    headers = [];
    params = [];
    form =
        ("grant_type", "client_credentials")
        ∷ ("client_id", c.client_id)
        ∷ ("client_secret", c.client_secret)
        ∷ [];
  }

  unfoldable pub fetch_token : OAuthConfig F → Action F (World F) AccessToken
  unfolding now wait_auth
  fetch_token c = do
    wait_auth
    response ← on_history (send_with_status_retry num env c.http c.retries (token_request c))
    from_result (raise_for_status num response)
    parsed ← from_result (c.token_parser response.content)
    t ← now
    expires_at ← from_result (after_seconds t parsed.expires_in)
    pure (record { value = parsed.access_token; expires_at = expires_at })

  -- `_is_expiring`: the clock is read before the sum is made.
  unfoldable pub is_expiring : OAuthConfig F → AccessToken → Action F (World F) Bool
  unfolding now
  is_expiring c token = do
    t ← now
    limit ← from_result (earlier token.expires_at c.expiry_leeway)
    pure (leb limit t)

  -- `self._cached_token is None or self._is_expiring(self._cached_token)`
  unfoldable pub needs_fetch : OAuthConfig F → Option AccessToken → Action F (World F) Bool
  unfolding is_expiring
  needs_fetch c none = pure true
  needs_fetch c (some token) = is_expiring c token

  -- `self._cached_token = self._fetch_token()`
  unfoldable pub refresh : OAuthConfig F → Action F (World F) String
  refresh c = do
    token ← fetch_token c
    modify (λ w. record w { cached_token = some token })
    pure token.value

  -- `return self._cached_token.value`; without a token the test above has fetched one.
  unfoldable pub reuse : OAuthConfig F → Option AccessToken → Action F (World F) String
  reuse c none = refresh c
  reuse c (some token) = pure token.value

  unfoldable pub get_valid_token : OAuthConfig F → Action F (World F) String
  unfolding needs_fetch reuse
  get_valid_token c = do
    cached ← gets (λ w. w.cached_token)
    stale ← needs_fetch c cached
    if stale then refresh c else reuse c cached

  unfoldable pub invalidate : Action F (World F) (Unit {0})
  invalidate = modify (λ w. record w { cached_token = none })
