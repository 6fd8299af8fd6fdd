-- ===== src/World.antt =====
-- The state behind the gateways: the history, and what the objects of one factory call keep, which
-- are the two throttles and the cached token.
use toss_api.Prelude.{ℕ, String, Option}
use toss_api.Action.{Action}
use toss_api.Runtime.{History}

-- app/toss/rate_limit.py, `RateLimitGroup`
pub data RateLimitGroup : Type 0 where
  auth account asset stock : RateLimitGroup

-- The fields of a `GroupThrottle`; each group has a rate, since `_tps` begins as the defaults.
pub record GroupThrottle (F : Type 0) : Type 0 where
  pub tps : RateLimitGroup → F
  pub last_call_at : RateLimitGroup → Option F

-- app/toss/auth.py, `AccessToken`
pub record AccessToken : Type 0 where
  pub value : String
  pub expires_at : ℕ

pub record World (F : Type 0) : Type 0 where
  pub history : History F
  -- of the `TossOAuthClient`
  pub cached_token : Option AccessToken
  pub auth_throttle : GroupThrottle F
  -- of the `TossRestClient`
  pub throttle : GroupThrottle F

-- An action on the history, as one on the whole state.
abbrev pub on_history : {F A : Type 0} → Action F (History F) A → Action F (World F) A
on_history m w = let (r, h) = m w.history in (r, record w { history = h })
