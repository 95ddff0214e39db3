-- ===== src/Time/Duration.antt =====
-- tendermint/src/types/time/duration.rs: a span of time in seconds and nanoseconds of one sign.
pub mod Trip
use gears.Base.{ℕ, ◌*◌, ◌+◌, ◌-◌, ◌||◌, ◌&&◌, ltb, leb, if◌then◌else◌}
use gears.Base.Int.{
  ℤ, pos, negsuc, ◌+ℤ◌, pos_part, neg_part, ltb_ℤ, times, quotient, remainder, fits, i64_max,
}
use gears.Base.Results.{Result, ok, err, ◌>>=◌, ◌>>◌}

abbrev pub nanos_per_second : ℕ
nanos_per_second = 1000000000

abbrev pub abs_duration_seconds : ℕ
abs_duration_seconds = 315576000000

pub record Duration : Type 0 where
  pub seconds : ℤ
  pub nanos : ℤ

pub data DurationError : Type 0 where
  underflow overflow nanoseconds sign : DurationError

unfoldable pub check : Duration → Result DurationError (Unit {0})
check d =
    if ltb abs_duration_seconds (neg_part d.seconds)
    then err underflow
    else if ltb abs_duration_seconds (pos_part d.seconds)
    then err overflow
    else if leb nanos_per_second (neg_part d.nanos) || leb nanos_per_second (pos_part d.nanos)
    then err nanoseconds
    else if (ltb 0 (pos_part d.seconds) && ltb 0 (neg_part d.nanos))
        || (ltb 0 (neg_part d.seconds) && ltb 0 (pos_part d.nanos))
    then err sign
    else ok tt

unfoldable pub try_new : ℤ → ℤ → Result DurationError Duration
unfolding check
try_new seconds nanos =
    let duration : Duration = record { seconds = seconds; nanos = nanos } in
    check duration >> ok duration

unfoldable pub try_new_from_nanos : ℤ → Result DurationError Duration
unfolding quotient remainder fits try_new
try_new_from_nanos nanos =
    let seconds = quotient nanos nanos_per_second in
    if fits i64_max seconds
    then try_new seconds (remainder nanos nanos_per_second)
    else (if ltb 0 (pos_part nanos) then err overflow else err underflow)

unfoldable pub duration_nanoseconds : Duration → ℤ
unfolding times ◌+ℤ◌
duration_nanoseconds d = times d.seconds nanos_per_second +ℤ d.nanos
