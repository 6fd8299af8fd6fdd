-- ===== src/Toss/Status/Mapping.antt =====
-- `raise_for_status` and `extract_error_code`: when they raise, what, and what the raise carries.
use toss_api.Prelude.{◌≤◌, ◌<◌, ◌≡◌, ◌≢◌, ◌↔◌, ◌⊎◌, true, none, some, arith}
use toss_api.Exceptions.{
  Raised, toss_api_error, toss_authentication_error, toss_ip_restricted_error,
  toss_rate_limit_error, toss_server_error, catches, base_class,
}
use toss_api.Exceptions.Hierarchy.{catches_self, catches_base}
use toss_api.Action.{ok, err}
use toss_api.Numeric.{Numeric}
use toss_api.Runtime.{Response}
use toss_api.Toss.Status.{
  error_for, extract_error_code, extract_retry_after_seconds, raise_for_status,
}

module _ {F : Type 0} (num : Numeric F) (x : Response) where
  -- Nothing is raised exactly for a status from 200 to 299.
  pub raise_for_status-iff_success :
      (raise_for_status num x ≡ ok tt) ↔ ((200 ≤ x.status_code) × (x.status_code < 300))
  unfolding raise_for_status
  raise_for_status-iff_success = (λ h. ground arith, λ h. ground arith)

  -- A raise carries the status of the response and the code of its body.
  abbrev pub Carries : Raised F → Type 0
  Carries e = (e.status_code ≡ some x.status_code) × (e.error_code ≡ extract_error_code x)

  -- Whatever is raised is caught as a `TossApiError`.
  pub raise_for_status-catches :
      (e : Raised F) → raise_for_status num x ≡ err e → catches toss_api_error e.cls ≡ true
  unfolding raise_for_status base_class
  raise_for_status-catches e h =
      ground (arith, catches_self toss_api_error, catches_base e.cls toss_api_error)

  -- The statuses that have a class of their own.
  abbrev pub HasOwnClass : Type 0
  HasOwnClass =
      (x.status_code ≡ 401)
      ⊎ (x.status_code ≡ 403)
      ⊎ (x.status_code ≡ 429)
      ⊎ ((500 ≤ x.status_code) × (x.status_code < 600))

  -- The class, the delay and the rest of what is raised.
  pub record IsMapped (e : Raised F) : Type 0 where
    pub carries : Carries e
    pub caught : catches toss_api_error e.cls ≡ true
    pub authentication : (e.cls ≡ toss_authentication_error) ↔ (x.status_code ≡ 401)
    pub ip_restricted : (e.cls ≡ toss_ip_restricted_error) ↔ (x.status_code ≡ 403)
    pub rate_limit : (e.cls ≡ toss_rate_limit_error) ↔ (x.status_code ≡ 429)
    pub server : (e.cls ≡ toss_server_error) ↔ ((500 ≤ x.status_code) × (x.status_code < 600))
    pub other : (e.cls ≡ toss_api_error) ↔ (¬ HasOwnClass)
    pub no_delay : x.status_code ≢ 429 → e.retry_after ≡ none
    pub delay : x.status_code ≡ 429 → e.retry_after ≡ extract_retry_after_seconds num x

  -- A response with a status from 200 to 299 raises nothing. For every other one there is an exception
  -- that carries the status and the code of the body, and that `except TossApiError` catches. It is a
  -- TossAuthenticationError exactly for 401, a TossIpRestrictedError exactly for 403, a
  -- TossRateLimitError exactly for 429, a TossServerError exactly from 500 to 599, and for all others
  -- a TossApiError itself; and it has a delay only for 429, the one that `Retry-After` gives.
  pub raise_for_status-err :
      ((200 ≤ x.status_code) × (x.status_code < 300) → raise_for_status num x ≡ ok tt)
      × (¬ ((200 ≤ x.status_code) × (x.status_code < 300))
          → (e : Raised F) × (raise_for_status num x ≡ err e) × IsMapped e)
  unfolding raise_for_status error_for
  raise_for_status-err = (
    λ h. raise_for_status-iff_success.1 h,
    λ h.
        let e = error_for num x in
        let raised : raise_for_status num x ≡ err e = ground (arith, h) in
        (
          e,
          raised,
          record {
            carries = ground arith;
            caught = raise_for_status-catches e raised;
            authentication = ground arith;
            ip_restricted = ground arith;
            rate_limit = ground arith;
            server = ground arith;
            other = ground arith;
            no_delay = ground arith;
            delay = ground arith;
          },
        ),
  )
