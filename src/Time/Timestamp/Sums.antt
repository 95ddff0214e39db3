-- ===== src/Time/Timestamp/Sums.antt =====
-- tendermint/src/types/time/timestamp.rs: sums and differences, in nanoseconds.
use gears.Base.{ℕ, ◌+◌, ◌*◌, ◌≤◌, ◌<◌, ◌≡◌, refl, sym, subst, ◌⊎◌, Option, none, some, arith}
use gears.Base.Int.{
  ℤ, pos_part, neg_part, ◌+ℤ◌, ◌-ℤ◌, times, add_within, sub_within, fits, i32_max, i64_max,
  int_laws, int_bounds,
}
use gears.Time.Duration.{Duration, nanos_per_second, abs_duration_seconds, duration_nanoseconds}
use gears.Time.Timestamp.{
  Timestamp, before_1970, last_second, try_from_seconds, try_from_nanos, try_new,
  timestamp_nanoseconds, carry, to_option, checked_add,
}

abbrev pub InYears : ℤ → Type 0
InYears s = (neg_part s ≤ before_1970) × (pos_part s ≤ last_second)

abbrev pub IsFraction : ℤ → Type 0
IsFraction n = (neg_part n ≡ 0) × (pos_part n < nanos_per_second)

-- A timestamp from the year 1 to the year 9999.
abbrev pub IsValid : Timestamp → Type 0
IsValid t = InYears t.seconds × IsFraction t.nanos

-- A duration of less than 10000 years and a second.
abbrev pub IsSpan : Duration → Type 0
IsSpan d =
    (neg_part d.seconds ≤ abs_duration_seconds)
    × (pos_part d.seconds ≤ abs_duration_seconds)
    × (neg_part d.nanos < nanos_per_second)
    × (pos_part d.nanos < nanos_per_second)

-- Before the first nanosecond of the year 1, or after the last of the year 9999.
abbrev pub OutOfYears : ℤ → Type 0
OutOfYears z =
    (before_1970 * nanos_per_second < neg_part z)
    ⊎ (last_second * nanos_per_second + nanos_per_second ≤ pos_part z)

pub add_within_lem :
    (max : ℕ) (a b : ℤ)
    → pos_part a + pos_part b ≤ max
    → neg_part a + neg_part b ≤ max
    → add_within max a b ≡ some (a +ℤ b)
unfolding add_within fits ◌+ℤ◌
add_within_lem max a b p q = ground arith

abbrev Carried : ℤ → ℤ → Option (ℤ × ℤ) → Type 0
Carried s n none = ⊥
Carried s n (some (s', n')) =
    IsFraction n' × (n' +ℤ times s' nanos_per_second ≡ n +ℤ times s nanos_per_second)

carry-Carried :
    (s n : ℤ)
    → pos_part s < 1000000000000
    → neg_part s < 1000000000000
    → pos_part n < 2 * nanos_per_second
    → neg_part n < nanos_per_second
    → Carried s n (carry s n)
unfolding carry add_within sub_within fits ◌+ℤ◌ ◌-ℤ◌ times
carry-Carried s n a b c d = ground arith

-- A sum of a timestamp and a duration that fits is a timestamp.
abbrev pub Sum : ℤ → Option Timestamp → Type 0
Sum z none = OutOfYears z
Sum z (some u) = IsValid u × (timestamp_nanoseconds u ≡ z)

try_new-Sum :
    (s n : ℤ) → IsFraction n → Sum (n +ℤ times s nanos_per_second) (to_option (try_new s n))
unfolding try_new try_from_seconds try_from_nanos ◌+ℤ◌ times timestamp_nanoseconds
try_new-Sum s n f = ground arith

Carried-Sum :
    (s n : ℤ) (r : Option (ℤ × ℤ))
    → Carried s n r
    → Sum
        (n +ℤ times s nanos_per_second)
        (elim r [ none ↦ none | some (s', n') ↦ to_option (try_new s' n') ])
Carried-Sum s n none c = absurd c
Carried-Sum s n (some (s', n')) (f, e) = rw (← e) (try_new-Sum s' n' f)

add_nanoseconds :
    (s a n b : ℤ)
    → (n +ℤ b) +ℤ times (s +ℤ a) nanos_per_second
      ≡ (n +ℤ times s nanos_per_second) +ℤ (times a nanos_per_second +ℤ b)
add_nanoseconds s a n b = omega int_laws

abbrev added : Option ℤ → Option ℤ → Option Timestamp
added none _ = none
added (some s) none = none
added (some s) (some n) = elim (carry s n) [
  | none ↦ none
  | some (s', n') ↦ to_option (try_new s' n')
]

checked_add-added :
    (t : Timestamp) (d : Duration)
    → checked_add t d
      ≡ added (add_within i64_max t.seconds d.seconds) (add_within i32_max t.nanos d.nanos)
unfolding checked_add
checked_add-added t d =
    go (add_within i64_max t.seconds d.seconds) (add_within i32_max t.nanos d.nanos)
  where
    go :
        (a b : Option ℤ)
        → ◌≡◌ {A = Option Timestamp}
            (elim a [
              | none ↦ none
              | some s ↦ elim b [
                | none ↦ none
                | some n ↦ elim (carry s n) [
                  | none ↦ none
                  | some (s', n') ↦ to_option (try_new s' n')
                ]
              ]
            ])
            (added a b)
    go none b = refl
    go (some s) none = refl
    go (some s) (some n) = refl

-- `checked_add` of a timestamp and a duration within their ranges is the timestamp whose
-- nanoseconds are their sum, and fails only where that lies before the year 1 or after 9999.
pub checked_add-Sum :
    (t : Timestamp) (d : Duration)
    → IsValid t
    → IsSpan d
    → Sum (timestamp_nanoseconds t +ℤ duration_nanoseconds d) (checked_add t d)
unfolding timestamp_nanoseconds duration_nanoseconds
checked_add-Sum t d v w =
    let s : add_within i64_max t.seconds d.seconds ≡ some (t.seconds +ℤ d.seconds) =
      add_within_lem i64_max t.seconds d.seconds (omega arith) (omega arith) in
    let n : add_within i32_max t.nanos d.nanos ≡ some (t.nanos +ℤ d.nanos) =
      add_within_lem i32_max t.nanos d.nanos (omega arith) (omega arith) in
    let c = Carried-Sum _ _ (carry (t.seconds +ℤ d.seconds) (t.nanos +ℤ d.nanos)) (
      carry-Carried (t.seconds +ℤ d.seconds) (t.nanos +ℤ d.nanos) (omega int_bounds)
        (omega int_bounds) (omega int_bounds) (omega int_bounds)) in
    let z =
      subst (λ z. Sum z (added (some (t.seconds +ℤ d.seconds)) (some (t.nanos +ℤ d.nanos))))
        (add_nanoseconds t.seconds d.seconds t.nanos d.nanos) c in
    subst (Sum _) (sym (checked_add-added t d)) (
      subst
        (λ r.
          Sum (timestamp_nanoseconds t +ℤ duration_nanoseconds d)
            (added r (add_within i32_max t.nanos d.nanos)))
        (sym s)
        (subst
          (λ r.
            Sum (timestamp_nanoseconds t +ℤ duration_nanoseconds d)
              (added (some (t.seconds +ℤ d.seconds)) r))
          (sym n) z))
