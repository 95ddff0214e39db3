-- ===== src/Gas/Amount.antt =====
-- gears/src/types/auth/gas.rs: an amount of gas is a `u63`, here a number up to `max`.
pub mod Exact
use Prim.Native.String.{String}
use gears.Base.{
  ℕ, ◌+◌, ◌-◌, ◌*◌, ◌/◌, Bool, not, ◌&&◌, Option, none, some, leb, ltb, ◌==◌, if◌then◌else◌,
}
use gears.Base.Results.{Result, ok, err}

-- `Gas::MAX`, 2^63 - 1
abbrev pub max : ℕ
max = 9223372036854775807

unfoldable pub checked_add : ℕ → ℕ → Option ℕ
checked_add a b = if leb b (max - a) then some (a + b) else none

-- `u64::checked_sub`
unfoldable pub checked_sub : ℕ → ℕ → Option ℕ
checked_sub a b = if leb b a then some (a - b) else none

unfoldable pub checked_mul : ℕ → ℕ → Option ℕ
checked_mul a b = if not (a == 0) && ltb (max / a) b then none else some (a * b)

-- A failure to parse is kept as its text, and a negative amount as its size.
pub data GasError : Type 0 where
  limit : ℕ → GasError
  parse : String → GasError
  negative : ℕ → GasError

-- `TryFrom<u64>`
unfoldable pub try_from : ℕ → Result GasError ℕ
try_from value = if ltb max value then err (limit value) else ok value
