-- ===== src/Time/Timestamp/Differences.antt =====
-- tendermint/src/types/time/timestamp.rs: the difference of two points in time.
use gears.Base.{
  ℕ, ◌+◌, ◌*◌, ◌≤◌, ◌<◌, ◌≡◌, sym, subst, ◌∙◌, ap, inl, inr, Option, none, some, arith,
}
use gears.Base.Int.{
  ℤ, pos_part, neg_part, ◌+ℤ◌, ◌-ℤ◌, times, quotient, remainder, sub_within, fits, i128_max,
  int_laws, int_bounds, eq_of_parts,
}
use gears.Time.Duration.{
  Duration, check, try_new, try_new_from_nanos, nanos_per_second, abs_duration_seconds,
  duration_nanoseconds,
}
use gears.Time.Timestamp.{
  Timestamp, before_1970, last_second, timestamp_nanoseconds, to_option, checked_add, checked_sub,
}
use gears.Time.Timestamp.Sums.{IsValid, IsSpan, Sum, checked_add-Sum}

abbrev Spans : ℤ → Option Duration → Type 0
Spans z none = ⊥
Spans z (some d) = IsSpan d × (duration_nanoseconds d ≡ z)

InSpan : ℤ → Type 0
InSpan z =
    (neg_part z < (abs_duration_seconds + 1) * nanos_per_second)
    × (pos_part z < (abs_duration_seconds + 1) * nanos_per_second)

try_new_from_nanos-Spans : (z : ℤ) → InSpan z → Spans z (to_option (try_new_from_nanos z))
unfolding InSpan try_new_from_nanos try_new check fits quotient remainder duration_nanoseconds times
    ◌+ℤ◌
try_new_from_nanos-Spans z h = ground arith

sub_within_lem :
    (max : ℕ) (a b : ℤ)
    → pos_part a + neg_part b ≤ max
    → neg_part a + pos_part b ≤ max
    → sub_within max a b ≡ some (a -ℤ b)
unfolding sub_within fits ◌-ℤ◌
sub_within_lem max a b p q = ground arith

timestamp_bounds :
    (t : Timestamp)
    → IsValid t
    → (neg_part (timestamp_nanoseconds t) ≤ before_1970 * nanos_per_second)
      × (pos_part (timestamp_nanoseconds t) < (last_second + 1) * nanos_per_second)
unfolding timestamp_nanoseconds
timestamp_bounds t v = (omega int_bounds, omega int_bounds)

timestamp_nanoseconds-injective :
    (t u : Timestamp)
    → IsValid t
    → IsValid u
    → timestamp_nanoseconds t ≡ timestamp_nanoseconds u
    → t ≡ u
unfolding timestamp_nanoseconds
timestamp_nanoseconds-injective t u v w e =
    let s : t.seconds ≡ u.seconds =
      eq_of_parts t.seconds u.seconds (omega (int_laws, ap pos_part e, ap neg_part e)) in
    let n : t.nanos ≡ u.nanos =
      eq_of_parts t.nanos u.nanos (omega (int_laws, ap pos_part e, ap neg_part e)) in
    cc

timestamp_difference :
    (t u : Timestamp)
    → IsValid t
    → IsValid u
    → InSpan (timestamp_nanoseconds t -ℤ timestamp_nanoseconds u)
unfolding InSpan
timestamp_difference t u v w = (
  omega (int_bounds, timestamp_bounds t v, timestamp_bounds u w),
  omega (int_bounds, timestamp_bounds t v, timestamp_bounds u w),
)

checked_sub-Spans :
    (t u : Timestamp)
    → IsValid t
    → IsValid u
    → Spans (timestamp_nanoseconds t -ℤ timestamp_nanoseconds u) (checked_sub t u)
unfolding checked_sub
checked_sub-Spans t u v w =
    let z = timestamp_nanoseconds t -ℤ timestamp_nanoseconds u in
    let e =
      sub_within_lem i128_max (timestamp_nanoseconds t) (timestamp_nanoseconds u)
        (omega (arith, timestamp_bounds t v, timestamp_bounds u w))
        (omega (arith, timestamp_bounds t v, timestamp_bounds u w)) in
    subst
      (λ (r : Option ℤ).
        Spans z
          (elim r [ none ↦ none | some difference ↦ to_option (try_new_from_nanos difference) ]))
      (sym e) (try_new_from_nanos-Spans z (timestamp_difference t u v w))

-- What a difference has to be: added to the second timestamp it gives the first.
abbrev pub LeadsTo : Timestamp → Timestamp → Option Duration → Type 0
LeadsTo t u none = ⊥
LeadsTo t u (some d) = IsSpan d × (checked_add u d ≡ some t)

same-Sum :
    (t : Timestamp)
    → IsValid t
    → (z : ℤ) → z ≡ timestamp_nanoseconds t
    → (r : Option Timestamp) → Sum z r
    → r ≡ some t
same-Sum t v z e none (inl h) = absurd (omega (arith, timestamp_bounds t v, ap neg_part e))
same-Sum t v z e none (inr h) = absurd (omega (arith, timestamp_bounds t v, ap pos_part e))
same-Sum t v z e (some u) (w, f) = ap some (timestamp_nanoseconds-injective u t w v (f ∙ e))

leads_to :
    (t u : Timestamp)
    → IsValid t
    → IsValid u
    → (r : Option Duration) → Spans (timestamp_nanoseconds t -ℤ timestamp_nanoseconds u) r
    → LeadsTo t u r
leads_to t u v w none s = s
leads_to t u v w (some d) (s, e) = (
  s,
  same-Sum t v (timestamp_nanoseconds u +ℤ duration_nanoseconds d)
      (eq_of_parts (timestamp_nanoseconds u +ℤ duration_nanoseconds d) (timestamp_nanoseconds t)
        (omega (int_laws, ap pos_part e, ap neg_part e)))
      (checked_add u d) (checked_add-Sum u d w s),
)

-- The difference of two timestamps between the years 1 and 9999 is always a duration, and
-- `checked_add` of it to the second one returns the first.
pub checked_add-checked_sub :
    (t u : Timestamp) → IsValid t → IsValid u → LeadsTo t u (checked_sub t u)
checked_add-checked_sub t u v w = leads_to t u v w (checked_sub t u) (checked_sub-Spans t u v w)
