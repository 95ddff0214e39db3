-- ===== src/Time/Timestamp.antt =====
-- tendermint/src/types/time/timestamp.rs: a point in time in seconds since 1970 and nanoseconds that
-- count forward.
pub mod Sums
pub mod Differences
use gears.Base.{
  ℕ, ◌+◌, ◌-◌, ◌*◌, Bool, not, ◌&&◌, ◌||◌, Option, none, some, ltb, leb, if◌then◌else◌,
}
use gears.Base.Int.{
  ℤ, pos, negsuc, pos_part, neg_part, ltb_ℤ, ◌+ℤ◌, ◌-ℤ◌, times, add_within, sub_within, i32_max,
  i64_max, i128_max,
}
use gears.Base.Results.{Result, ok, err, ◌>>=◌}
use gears.Time.Duration.{Duration, nanos_per_second, try_new_from_nanos}

abbrev pub before_1970 : ℕ
before_1970 = 62135596800

abbrev pub last_second : ℕ
last_second = 253402300799

pub record Timestamp : Type 0 where
  pub seconds : ℤ
  pub nanos : ℤ

pub data NewTimestampError : Type 0 where
  underflow overflow nanoseconds : NewTimestampError

-- `TimestampSeconds::try_from`
unfoldable pub try_from_seconds : ℤ → Result NewTimestampError ℤ
try_from_seconds seconds =
    if ltb before_1970 (neg_part seconds)
    then err underflow
    else (if ltb last_second (pos_part seconds) then err overflow else ok seconds)

-- `Nanoseconds::try_from`
unfoldable pub try_from_nanos : ℤ → Result NewTimestampError ℤ
try_from_nanos nanos =
    if ltb 0 (neg_part nanos)
    then err nanoseconds
    else (if ltb (nanos_per_second - 1) (pos_part nanos) then err nanoseconds else ok nanos)

unfoldable pub try_new : ℤ → ℤ → Result NewTimestampError Timestamp
unfolding try_from_seconds try_from_nanos
try_new seconds nanos = try_from_seconds seconds >>= λ s.
    try_from_nanos nanos >>= λ n. ok (record { seconds = s; nanos = n })

unfoldable pub timestamp_nanoseconds : Timestamp → ℤ
unfolding times ◌+ℤ◌
timestamp_nanoseconds t = t.nanos +ℤ times t.seconds nanos_per_second

-- The fraction carried into the seconds.
unfoldable pub carry : ℤ → ℤ → Option (ℤ × ℤ)
unfolding add_within sub_within ◌-ℤ◌ ◌+ℤ◌
carry seconds nanos =
    if leb nanos_per_second (pos_part nanos)
    then (elim (add_within i64_max seconds (pos 1)) [
      | none ↦ none
      | some s ↦ some (s, nanos -ℤ pos nanos_per_second)
    ])
    else if ltb 0 (neg_part nanos)
    then (elim (sub_within i64_max seconds (pos 1)) [
      | none ↦ none
      | some s ↦ some (s, nanos +ℤ pos nanos_per_second)
    ])
    else some (seconds, nanos)

-- `Result::ok`
abbrev pub to_option {ℓ} : {E A : Type ℓ} → Result E A → Option A
to_option (ok a) = some a
to_option (err e) = none

unfoldable pub checked_add : Timestamp → Duration → Option Timestamp
unfolding carry add_within try_new
checked_add t rhs = elim (add_within i64_max t.seconds rhs.seconds) [
  | none ↦ none
  | some s ↦ elim (add_within i32_max t.nanos rhs.nanos) [
    | none ↦ none
    | some n ↦ elim (carry s n) [ none ↦ none | some (s', n') ↦ to_option (try_new s' n') ]
  ]
]

unfoldable pub checked_sub : Timestamp → Timestamp → Option Duration
unfolding timestamp_nanoseconds sub_within try_new_from_nanos
checked_sub t rhs =
    elim (sub_within i128_max (timestamp_nanoseconds t) (timestamp_nanoseconds rhs)) [
      | none ↦ none
      | some difference ↦ to_option (try_new_from_nanos difference)
    ]

-- `<`
unfoldable pub before : Timestamp → Timestamp → Bool
before t u = ltb_ℤ t.seconds u.seconds || (not (ltb_ℤ u.seconds t.seconds) && ltb_ℤ t.nanos u.nanos)
