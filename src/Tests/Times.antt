-- ===== src/Tests/Times.antt =====
-- The theorems of Time, at the edges of their ranges.
use gears.Base.{◌≡◌, refl, some, arith}
use gears.Base.Int.{pos, negsuc, ◌+ℤ◌}
use gears.Base.Results.{ok}
use gears.Time.Duration.{Duration, check, try_new_from_nanos, duration_nanoseconds}
use gears.Time.Duration.Trip.{try_new_from_nanos-duration_nanoseconds}
use gears.Time.Timestamp.{Timestamp, checked_add, checked_sub, timestamp_nanoseconds}
use gears.Time.Timestamp.Sums.{Sum, checked_add-Sum}
use gears.Time.Timestamp.Differences.{LeadsTo, checked_add-checked_sub}

-- A second and a nanosecond back.
abbrev back : Duration
back = record { seconds = negsuc 0; nanos = negsuc 0 }

abbrev epoch : Timestamp
epoch = record { seconds = pos 0; nanos = pos 0 }

abbrev last : Timestamp
last = record { seconds = pos 253402300799; nanos = pos 999999999 }

abbrev first : Timestamp
first = record { seconds = negsuc 62135596799; nanos = pos 0 }

stepped_back : checked_add epoch back ≡ some (record { seconds = negsuc 1; nanos = pos 999999999 })
unfolding checked_add
stepped_back = refl

checked_add-Sum_example :
    Sum (timestamp_nanoseconds epoch +ℤ duration_nanoseconds back) (checked_add epoch back)
checked_add-Sum_example = checked_add-Sum epoch back (omega arith) (omega arith)

checked_add-checked_sub_example : LeadsTo first last (checked_sub first last)
checked_add-checked_sub_example = checked_add-checked_sub first last (omega arith) (omega arith)

back_checked : check back ≡ ok tt
unfolding check
back_checked = refl

try_new_from_nanos-duration_nanoseconds_example :
    try_new_from_nanos (duration_nanoseconds back) ≡ ok back
try_new_from_nanos-duration_nanoseconds_example =
    try_new_from_nanos-duration_nanoseconds back back_checked
