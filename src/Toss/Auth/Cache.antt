-- ===== src/Toss/Auth/Cache.antt =====
-- When the token cache of `TossOAuthClient` is used, and what a fetch leaves in it.
use toss_api.Prelude.{
  ◌≤◌, ◌<◌, ◌+◌, ◌≡◌, refl, String, Bool, true, false, Option, none, some, ◌∷◌, arith, ◌∙◌,
  if◌then◌else◌,
}
use toss_api.Action.{Result, ok, err, ◌>>◌, modify, pure, >>=_rule}
use toss_api.Numeric.{Numeric}
use toss_api.Runtime.{Environment, read_clock}
use toss_api.Time.{earlier}
use toss_api.World.{AccessToken, World}
use toss_api.Toss.Auth.{OAuthConfig, fetch_token, needs_fetch, refresh, reuse, get_valid_token}

-- What a call that began at `w` has left in the cache.
abbrev pub Caches : {F : Type 0} → World F → Result F String × World F → Type 0
Caches w (ok v, w') = (t : AccessToken) × (w'.cached_token ≡ some t) × (t.value ≡ v)
Caches w (err e, w') = w'.cached_token ≡ w.cached_token

Caches-from :
    {F : Type 0} (w w' : World F) (r : Result F String × World F)
    → w'.cached_token ≡ w.cached_token
    → Caches w' r
    → Caches w r
Caches-from w w' (ok v, u) e h = h
Caches-from w w' (err x, u) e h = h ∙ e

module _ {F : Type 0} (num : Numeric F) (env : Environment F) (c : OAuthConfig F) where
  -- A cached token is returned as it is, with no request and no sleep, while the clock stands
  -- before its expiry less the leeway.
  pub get_valid_token-cached :
      (w : World F) (t : AccessToken)
      → w.cached_token ≡ some t
      → c.expiry_leeway ≤ t.expires_at
      → env.now w.history + c.expiry_leeway < t.expires_at
      → get_valid_token num env c w ≡ (ok t.value, record w { history = read_clock ∷ w.history })
  unfolding get_valid_token earlier
  get_valid_token-cached w t e le fresh = ground arith

  -- From its expiry less the leeway on, a cached token is not returned: the call is a refresh.
  pub get_valid_token-expired :
      (w : World F) (t : AccessToken)
      → w.cached_token ≡ some t
      → c.expiry_leeway ≤ t.expires_at
      → t.expires_at ≤ env.now w.history + c.expiry_leeway
      → get_valid_token num env c w
        ≡ refresh num env c (record w { history = read_clock ∷ w.history })
  unfolding get_valid_token earlier
  get_valid_token-expired w t e le stale = ground arith

  fetch_token-cached_token :
      (w : World F)
      → ((fetch_token num env c w).1.cached_token ≡ w.cached_token)
        × ((fetch_token num env c w).1.throttle ≡ w.throttle)
  unfolding fetch_token
  fetch_token-cached_token w = ground arith

  refresh-Caches : (w : World F) → Caches w (refresh num env c w)
  unfolding refresh
  refresh-Caches w =
      let kept = fetch_token-cached_token w in
      >>=_rule (Caches w) (fetch_token num env c)
        (λ token. modify (λ s. record s { cached_token = some token }) >> pure token.value) w
        (λ t _. (t, refl, refl)) (λ e _. kept.0)

  needs_fetch-cached_token :
      (cached : Option AccessToken) (w : World F)
      → (needs_fetch num env c cached w).1.cached_token ≡ w.cached_token
  unfolding needs_fetch
  needs_fetch-cached_token none w = refl
  needs_fetch-cached_token (some t) w = ground arith

  use_or_refresh-Caches :
      (cached : Option AccessToken) (w w' : World F) (stale : Bool)
      → w.cached_token ≡ cached
      → w'.cached_token ≡ w.cached_token
      → (needs_fetch num env c cached w).0 ≡ ok stale
      → Caches w ((if stale then refresh num env c else reuse num env c cached) w')
  unfolding reuse
  use_or_refresh-Caches cached w w' true e kept test = Caches-from w w' _ kept (refresh-Caches w')
  use_or_refresh-Caches none w w' false e kept test = Caches-from w w' _ kept (refresh-Caches w')
  use_or_refresh-Caches (some t) w w' false e kept test = (t, kept ∙ e, refl)

  -- A token that is returned is the one in the cache from then on. A failed call leaves the cache
  -- as it was, also when the token in it has expired.
  pub get_valid_token-Caches : (w : World F) → Caches w (get_valid_token num env c w)
  unfolding get_valid_token
  get_valid_token-Caches w =
      let cached = w.cached_token in
      >>=_rule (Caches w) (needs_fetch num env c cached)
        (λ stale. if stale then refresh num env c else reuse num env c cached) w
        (λ stale test.
          use_or_refresh-Caches cached w (needs_fetch num env c cached w).1 stale refl
            (needs_fetch-cached_token cached w) test)
        (λ e _. needs_fetch-cached_token cached w)
