-- ===== src/Toss/Throttle/Spacing.antt =====
-- What `GroupThrottle.wait` promises: calls of one group stand at least the interval apart.
use toss_api.Prelude.{◌≡◌, ◌≢◌, refl, true, false, some, ◌∷◌, arith, Bool-cases, inl, inr}
use toss_api.Action.{ok}
use toss_api.Numeric.{Numeric}
use toss_api.Runtime.{History, Environment, slept, read_clock}
use toss_api.World.{RateLimitGroup, GroupThrottle}
use toss_api.Toss.Throttle.{wait, unlimited, group_eq}

-- Exact arithmetic, as far as the throttle needs it.
pub record IsExact {F : Type 0} (num : Numeric F) : Type 0 where
  pub reached : (i e : F) → num.ltb (num.of_ℕ 0) (num.sub i e) ≡ false → num.leb i e ≡ true
  pub sub_mono :
      (i x y z : F)
      → num.leb i (num.sub y x) ≡ true
      → num.leb y z ≡ true
      → num.leb i (num.sub z x) ≡ true
  pub fill :
      (i x y z : F)
      → num.leb (num.add y (num.sub i (num.sub y x))) z ≡ true
      → num.leb i (num.sub z x) ≡ true

-- `time.monotonic` never goes back, and has gone on by the delay after a sleep.
pub record IsMonotonic {F : Type 0} (num : Numeric F) (env : Environment F) : Type 0 where
  pub ticks : (h : History F) → num.leb (env.monotonic h) (env.monotonic (read_clock ∷ h)) ≡ true
  pub sleeps :
      (h : History F) (d : F)
      → num.leb (num.add (env.monotonic h) d) (env.monotonic (slept d ∷ read_clock ∷ h)) ≡ true

group_eq_self : (g : RateLimitGroup) → group_eq g g ≡ true
unfolding group_eq
group_eq_self RateLimitGroup.auth = refl
group_eq_self _ = refl

group_eq_ne : (g g' : RateLimitGroup) → g ≢ g' → group_eq g g' ≡ false
unfolding group_eq
group_eq_ne RateLimitGroup.auth g' h = ground arith
group_eq_ne _ g' h = ground arith

module _ {F : Type 0} (num : Numeric F) (env : Environment F) where
  -- Between two recorded calls of a group there is at least 1 / tps, whatever ran in between, and
  -- no other group's record changes. Stated for exact arithmetic and a clock that does not go back.
  pub wait-spaced :
      (g : RateLimitGroup) (t t' : GroupThrottle F) (h : History F) (last : F)
      → IsExact num
      → IsMonotonic num env
      → unlimited num env (t.tps g) ≡ false
      → t.last_call_at g ≡ some last
      → (wait num env g t h).0 ≡ ok t'
      → (now : F) × (t'.last_call_at g ≡ some now)
        × (num.leb (num.div (num.of_ℕ 1) (t.tps g)) (num.sub now last) ≡ true)
        × ((g' : RateLimitGroup) → g ≢ g' → t'.last_call_at g' ≡ t.last_call_at g')
  unfolding wait
  wait-spaced g t t' h last exact mono limited e done =
      let interval = num.div (num.of_ℕ 1) (t.tps g) in
      let before = env.monotonic h in
      let remaining = num.sub interval (num.sub before last) in
      elim (Bool-cases (num.ltb (num.of_ℕ 0) remaining)) [
        | inl early ↦
            let after = env.monotonic (slept remaining ∷ read_clock ∷ h) in
            (
              after,
              ground (arith, group_eq_self g),
              ground (arith, mono.sleeps h remaining, exact.fill interval last before after),
              λ g' ne. ground (arith, group_eq_ne g g' ne),
            )
        | inr late ↦
            let after = env.monotonic (read_clock ∷ h) in
            (
              after,
              ground (arith, group_eq_self g),
              ground (
                arith,
                mono.ticks h,
                exact.reached interval (num.sub before last),
                exact.sub_mono interval last before after,
              ),
              λ g' ne. ground (arith, group_eq_ne g g' ne),
            )
      ]
