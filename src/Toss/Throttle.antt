-- ===== src/Toss/Throttle.antt =====
-- app/toss/rate_limit.py: `GroupThrottle.wait`, on the throttle and the history.
pub mod Spacing
pub mod Footprint
use toss_api.Prelude.{ℕ, Bool, true, false, Option, none, some, ◌∷◌, ◌||◌, if◌then◌else◌}
use toss_api.Exceptions.{plain}
use toss_api.Action.{Result, Action, ok, err, pure, gets, modify, ◌>>=◌, ◌>>◌}
use toss_api.Numeric.{Numeric}
use toss_api.Runtime.{History, Environment, read_clock}
use toss_api.World.{RateLimitGroup, auth, account, asset, stock, GroupThrottle}
use toss_api.Http.{sleep}

pub group_eq : RateLimitGroup → RateLimitGroup → Bool
group_eq auth auth = true
group_eq account account = true
group_eq asset asset = true
group_eq stock stock = true
group_eq _ _ = false

-- The caps that the documentation of the API confirms.
pub default_group_tps : {F : Type 0} → Numeric F → RateLimitGroup → F
default_group_tps num auth = num.of_ℕ 5
default_group_tps num account = num.of_ℕ 1
default_group_tps num asset = num.of_ℕ 5
default_group_tps num stock = num.of_ℕ 5

-- `self._last_call_at[group] = …`
abbrev pub put : {A : Type 0} → (RateLimitGroup → A) → RateLimitGroup → A → RateLimitGroup → A
put f g a g' = if group_eq g g' then a else f g'

module _ {F : Type 0} (num : Numeric F) (env : Environment F) where
  -- `self._clock()`, the monotonic clock
  unfoldable pub clock : Action F (History F) F
  clock h = (ok (env.monotonic h), read_clock ∷ h)

  -- What is left of the interval since the last call, if that is more than nothing.
  unfoldable pub sleep_remaining : F → Option F → Action F (History F) (Unit {0})
  unfolding clock sleep
  sleep_remaining min_interval none = pure tt
  sleep_remaining min_interval (some last) = do
    t ← clock
    let remaining = num.sub min_interval (num.sub t last)
    if num.ltb (num.of_ℕ 0) remaining then sleep num env remaining else pure tt

  -- `if not tps or tps <= 0: return`
  abbrev pub unlimited : F → Bool
  unlimited tps = num.eqb tps (num.of_ℕ 0) || num.leb tps (num.of_ℕ 0)

  -- The throttle is changed only once the clock has been read again.
  unfoldable pub wait :
      RateLimitGroup → GroupThrottle F → History F → Result F (GroupThrottle F) × History F
  unfolding sleep_remaining
  wait group throttle =
      let min_interval = num.div (num.of_ℕ 1) (throttle.tps group) in
      if unlimited (throttle.tps group)
      then pure throttle
      else (sleep_remaining min_interval (throttle.last_call_at group)
          >> (clock >>= λ t.
              pure (record throttle { last_call_at = put throttle.last_call_at group (some t) })))
