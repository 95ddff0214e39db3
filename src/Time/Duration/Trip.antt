-- ===== src/Time/Duration/Trip.antt =====
-- tendermint/src/types/time/duration.rs: a duration and its number of nanoseconds.
use gears.Base.{◌≡◌, arith}
use gears.Base.Int.{◌+ℤ◌, times, quotient, remainder, fits}
use gears.Base.Results.{ok}
use gears.Time.Duration.{Duration, check, try_new, try_new_from_nanos, duration_nanoseconds}

-- A duration that passes the check of its fields is read back from its nanoseconds.
pub try_new_from_nanos-duration_nanoseconds :
    (d : Duration) → check d ≡ ok tt → try_new_from_nanos (duration_nanoseconds d) ≡ ok d
unfolding check try_new_from_nanos try_new fits quotient remainder duration_nanoseconds times ◌+ℤ◌
try_new_from_nanos-duration_nanoseconds d h = ground arith
