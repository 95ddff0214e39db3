-- ===== src/Gas/Meter/Charges.antt =====
-- What a charge does to a meter, and what a meter that has accepted charges guarantees.
use Prim.Native.String.{String}
use gears.Base.{
  ℕ, ◌+◌, ◌-◌, ◌≤◌, ◌<◌, ◌≡◌, refl, true, List, [], ◌∷◌, ◌++◌, ◌∙◌, ◌↔◌, ◌==◌, arith, ltb,
  if◌then◌else◌,
}
use gears.Base.Results.{ok, err}
use native.Mathlib.Nat.{add_assoc, zero-add}
use gears.Base.Exec.{Exec, pure, ◌>>=◌}
use gears.Gas.Amount.{max}
use gears.Gas.Meter.{
  Gas, infinite, finite, GasMeter, basic_meter, GasMeteringErrors, out_of_gas, gas_overflow,
  gas_consumed, consume_gas, is_past_limit, is_out_of_gas, new_basic, gas_consumed_or_limit,
  gas_remaining, from_i64, to_i64,
}

abbrev pub total : List ℕ → ℕ
total [] = 0
total (n ∷ ns) = n + total ns

-- Charges made one after another, up to the first failure.
unfoldable pub charges : List ℕ → String → Exec GasMeter GasMeteringErrors (Unit {0})
charges [] descriptor = pure tt
charges (n ∷ ns) descriptor = consume_gas n descriptor >>= λ _. charges ns descriptor

-- One charge, on every branch: an overflow of 63 bits sets the consumption to the largest amount;
-- a meter already past its limit refuses; any other charge is added, past the limit or not.
consume_gas_branches :
    (l consumed n : ℕ) (descriptor : String)
    → consumed ≤ max
    → consume_gas n descriptor (basic_meter l consumed) ≡ (
        if ltb max (consumed + n)
        then (err (gas_overflow descriptor), basic_meter l max)
        else if ltb l consumed
        then (err (out_of_gas descriptor), basic_meter l consumed)
        else (ok tt, basic_meter l (consumed + n)))
unfolding consume_gas
consume_gas_branches l consumed n descriptor h = ground arith

abbrev Accepted : List ℕ → ℕ → ℕ → String → Type 0
Accepted ns l consumed descriptor =
    charges ns descriptor (basic_meter l consumed) ≡ (ok tt, basic_meter l (consumed + total ns))
    × (consumed + total ns ≤ max)

-- Charges that are accepted add up, within 63 bits.
charges-Accepted :
    (ns : List ℕ) (l consumed : ℕ) (descriptor : String)
    → consumed ≤ max
    → (charges ns descriptor (basic_meter l consumed)).0 ≡ ok tt
    → Accepted ns l consumed descriptor
unfolding charges
charges-Accepted [] l consumed descriptor h e = ground arith
charges-Accepted (n ∷ ns) l consumed descriptor h e = ground (
  arith,
  consume_gas_branches l consumed n descriptor h,
  charges-Accepted ns l (consumed + n) descriptor,
  add_assoc consumed n (total ns),
)

charges_within :
    (ns : List ℕ) (l consumed : ℕ) (descriptor : String)
    → l ≤ max
    → consumed + total ns ≤ l
    → (charges ns descriptor (basic_meter l consumed)).0 ≡ ok tt
unfolding charges
charges_within [] l consumed descriptor h e = refl
charges_within (n ∷ ns) l consumed descriptor h e = ground (
  arith,
  consume_gas_branches l consumed n descriptor,
  charges_within ns l (consumed + n) descriptor h,
)

before_limit :
    (before after : List ℕ) (n l consumed : ℕ) (descriptor : String)
    → consumed ≤ max
    → (charges (before ++ n ∷ after) descriptor (basic_meter l consumed)).0 ≡ ok tt
    → consumed + total before ≤ l
unfolding charges
before_limit [] after n l consumed descriptor h e =
    ground (arith, consume_gas_branches l consumed n descriptor h)
before_limit (k ∷ before) after n l consumed descriptor h e = ground (
  arith,
  consume_gas_branches l consumed k descriptor h,
  before_limit before after n l (consumed + k) descriptor,
  add_assoc consumed k (total before),
)

-- A new basic meter whose limit is an amount of gas accepts every sequence of charges that adds up
-- to no more than the limit, and its consumption is then their sum.
pub charges-within_limit :
    (ns : List ℕ) (l : ℕ) (descriptor : String)
    → l ≤ max
    → total ns ≤ l
    → charges ns descriptor (new_basic l) ≡ (ok tt, basic_meter l (total ns))
unfolding new_basic
charges-within_limit ns l descriptor h e =
    let accepted = charges_within ns l 0 descriptor h (omega arith) in
    (charges-Accepted ns l 0 descriptor (omega arith) accepted).0 ∙ rw zero-add

-- Where a new basic meter has accepted charges, its consumption is their sum, and what was
-- consumed before any one of them is within the limit: only the last can pass it.
pub charges-bounded :
    (before after : List ℕ) (n l : ℕ) (descriptor : String)
    → (charges (before ++ n ∷ after) descriptor (new_basic l)).0 ≡ ok tt
    → (gas_consumed (charges (before ++ n ∷ after) descriptor (new_basic l)).1
        ≡ total (before ++ n ∷ after))
      × (total before ≤ l)
unfolding new_basic gas_consumed
charges-bounded before after n l descriptor e =
    let all = before ++ n ∷ after in
    (
      rw ((charges-Accepted all l 0 descriptor (omega arith) e).0, zero-add) refl,
      omega (arith, before_limit before after n l 0 descriptor (omega arith) e),
    )

-- A charge that takes a meter from within its limit to past it is accepted, where the sum fits in
-- 63 bits; the next charge is refused.
pub consume_gas-passes_limit :
    (l consumed n k : ℕ) (descriptor : String)
    → consumed ≤ l
    → l < consumed + n
    → consumed + n + k ≤ max
    → (consume_gas n descriptor (basic_meter l consumed) ≡ (ok tt, basic_meter l (consumed + n)))
      × (is_past_limit (basic_meter l (consumed + n)) ≡ true)
      × (consume_gas k descriptor (basic_meter l (consumed + n))
          ≡ (err (out_of_gas descriptor), basic_meter l (consumed + n)))
unfolding is_past_limit
consume_gas-passes_limit l consumed n k descriptor h over small = (
  consume_gas_branches l consumed n descriptor (omega arith) ∙ ground arith,
  ground arith,
  consume_gas_branches l (consumed + n) k descriptor (omega arith) ∙ ground arith,
)

-- A gas amount survives the trip through an `i64`, except the finite amount 0, which comes back
-- as infinite gas.
pub from_i64-to_i64 :
    (g : Gas)
    → from_i64 (to_i64 g)
      ≡ elim g [ infinite ↦ infinite | finite n ↦ if n == 0 then infinite else finite n ]
unfolding from_i64 to_i64
from_i64-to_i64 infinite = refl
from_i64-to_i64 (finite n) = ground arith

-- Whatever the meter, what is consumed and what remains make up the limit while the meter is not
-- past it; past it nothing remains and the limit is reported as consumed.
pub gas_remaining-adds_up :
    (l consumed : ℕ)
    → let m = basic_meter l consumed in
      (gas_remaining m ≡ finite (l - consumed))
      × (gas_consumed_or_limit m + (l - consumed) ≡ l)
      × ((is_out_of_gas m ≡ true) ↔ (gas_remaining m ≡ finite 0))
unfolding gas_remaining gas_consumed_or_limit is_out_of_gas
gas_remaining-adds_up l consumed =
    (ground arith, ground arith, (λ h. ground arith, λ h. ground arith))
