-- ===== src/Time.antt =====
-- Python's `datetime` and `timedelta`, as the code uses them: a point in time is the number of
-- microseconds since 0001-01-01T00:00Z, and a sum or a difference out of range raises
-- `OverflowError`. Time zones are left out: aware datetimes are compared by the instant.
use toss_api.Prelude.{ℕ, suc, ◌+◌, ◌-◌, ◌*◌, ltb, if◌then◌else◌}
use toss_api.Prelude.Int.{ℤ, pos, negsuc}
use toss_api.Exceptions.{plain, overflow_error}
use toss_api.Action.{Result, ok, err}

-- 9999-12-31T23:59:59.999999
abbrev pub max_time : ℕ
max_time = 315537897599999999

abbrev pub second : ℕ
second = 1000000

abbrev pub day : ℕ
day = 86400 * second

unfoldable pub later : {F : Type 0} → ℕ → ℕ → Result F ℕ
later t d = if ltb max_time (t + d) then err (plain overflow_error) else ok (t + d)

unfoldable pub earlier : {F : Type 0} → ℕ → ℕ → Result F ℕ
earlier t d = if ltb t d then err (plain overflow_error) else ok (t - d)

-- t + timedelta(seconds=n)
unfoldable pub after_seconds : {F : Type 0} → ℕ → ℤ → Result F ℕ
unfolding later earlier
after_seconds t (pos n) = later t (n * second)
after_seconds t (negsuc n) = earlier t (suc n * second)
