-- ===== src/Base/Time.antt =====
-- Package time: a `Duration` is an `int64` of nanoseconds, and a `Time` is its distance from the epoch
-- in nanoseconds. The clock is an argument of the code that reads it.
use Prim.Native.Nat.{◌*◌, ◌^◌, ◌-◌}
use kedastral.Base.Tests.{if◌then◌else◌}
use kedastral.Base.Int.{ℤ, pos, negsuc, ltb_ℤ, ◌-ℤ◌}

abbrev pub second : ℤ
second = pos (10 ^ 9)

abbrev pub minute : ℤ
minute = pos (60 * 10 ^ 9)

abbrev pub max_duration : ℤ
max_duration = pos (2 ^ 63 - 1)

abbrev pub min_duration : ℤ
min_duration = negsuc (2 ^ 63 - 1)

-- `t.Sub(u)`, which stops at the ends of a `Duration`. `time.Since(u)` is it at the current time.
unfoldable pub time_sub : ℤ → ℤ → ℤ
time_sub t u =
    let d = t -ℤ u in
    if ltb_ℤ max_duration d then max_duration else if ltb_ℤ d min_duration then min_duration else d
