-- ===== src/Toss/Throttle/Footprint.antt =====
-- What `GroupThrottle.wait` adds to the history: readings of the clock and at most a sleep.
use toss_api.Prelude.{Option, none, some}
use toss_api.Action.{pure}
use toss_api.Numeric.{Numeric}
use toss_api.Runtime.{Event, slept, read_clock, Environment}
use toss_api.World.{RateLimitGroup, GroupThrottle}
use toss_api.Growth.{same, more, AddsAlone, Adds-pure, Adds-bind, Adds-if}
use toss_api.Http.Footprint.{Waits, Adds-sleep}
use toss_api.Toss.Throttle.{clock, sleep_remaining, unlimited, put, wait}

module _ {F : Type 0} (num : Numeric F) (env : Environment F) {P : Event F → Type 0}
    (waits : (e : Event F) → Waits e → P e) where
  clock-Adds : AddsAlone P (clock num env)
  unfolding clock
  clock-Adds = record { at = λ h. more (waits read_clock tt) same }

  sleep_remaining-Adds : (i : F) (last : Option F) → AddsAlone P (sleep_remaining num env i last)
  unfolding sleep_remaining
  sleep_remaining-Adds i none = Adds-pure tt
  sleep_remaining-Adds i (some last) = Adds-bind (clock num env) _ clock-Adds λ t.
      Adds-if (num.ltb (num.of_ℕ 0) (num.sub i (num.sub t last))) _ (pure tt)
        (Adds-sleep num env _ (waits (slept (num.sub i (num.sub t last))) tt)) (Adds-pure tt)

  pub wait-Adds : (g : RateLimitGroup) (t : GroupThrottle F) → AddsAlone P (wait num env g t)
  unfolding wait
  wait-Adds g t =
      let i = num.div (num.of_ℕ 1) (t.tps g) in
      Adds-if (unlimited num env (t.tps g)) (pure t) _ (Adds-pure t) (
        Adds-bind (sleep_remaining num env i (t.last_call_at g)) _
          (sleep_remaining-Adds i (t.last_call_at g))
          (λ _.
            Adds-bind (clock num env) _ clock-Adds
              (λ u. Adds-pure (record t { last_call_at = put t.last_call_at g (some u) }))))
