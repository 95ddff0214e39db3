-- ===== src/Gas/Meter.antt =====
-- gears/src/types/gas: the basic and the infinite meter behind one trait, and the configuration.
pub mod Charges
use Prim.Native.String.{String}
use gears.Base.{ℕ, ◌-◌, Bool, true, false, Option, none, some, leb, ltb, if◌then◌else◌}
use gears.Base.Results.{Result, ok, err}
use gears.Base.Exec.{Exec}
use gears.Gas.Amount.{max, checked_add, checked_sub}

-- `Gas`, with `FiniteGas` a number
pub data Gas : Type 0 where
  infinite : Gas
  finite : ℕ → Gas

-- `From<i64>`, of an amount and of minus (n + 1)
pub data I64 : Type 0 where
  pos negsuc : ℕ → I64

unfoldable pub from_i64 : I64 → Gas
from_i64 (negsuc n) = infinite
from_i64 (pos n) = if ltb 0 n then finite n else infinite

-- `From<Gas> for i64`
unfoldable pub to_i64 : Gas → I64
to_i64 infinite = negsuc 0
to_i64 (finite n) = pos n

pub data GasMeteringErrors : Type 0 where
  out_of_gas gas_overflow : String → GasMeteringErrors

-- `Box<dyn PlainGasMeter>`: `BasicGasMeter` with its limit and consumption, `InfiniteGasMeter`
pub data GasMeter : Type 0 where
  basic_meter : ℕ → ℕ → GasMeter
  infinite_meter : ℕ → GasMeter

-- `BasicGasMeter::new`, `InfiniteGasMeter::new`
unfoldable pub new_basic : ℕ → GasMeter
new_basic limit = basic_meter limit 0

unfoldable pub new_infinite : GasMeter
new_infinite = infinite_meter 0

unfoldable pub is_past_limit : GasMeter → Bool
is_past_limit (basic_meter limit consumed) = ltb limit consumed
is_past_limit (infinite_meter consumed) = false

unfoldable pub is_out_of_gas : GasMeter → Bool
is_out_of_gas (basic_meter limit consumed) = leb limit consumed
is_out_of_gas (infinite_meter consumed) = false

unfoldable pub gas_consumed : GasMeter → ℕ
gas_consumed (basic_meter limit consumed) = consumed
gas_consumed (infinite_meter consumed) = consumed

unfoldable pub gas_consumed_or_limit : GasMeter → ℕ
unfolding is_past_limit
gas_consumed_or_limit (basic_meter limit consumed) =
    if is_past_limit (basic_meter limit consumed) then limit else consumed
gas_consumed_or_limit (infinite_meter consumed) = consumed

abbrev or_zero : Option ℕ → ℕ
or_zero none = 0
or_zero (some n) = n

unfoldable pub gas_remaining : GasMeter → Gas
unfolding is_past_limit checked_sub
gas_remaining (basic_meter limit consumed) =
    if is_past_limit (basic_meter limit consumed)
    then finite 0
    else finite (or_zero (checked_sub limit consumed))
gas_remaining (infinite_meter consumed) = infinite

unfoldable pub limit : GasMeter → Gas
limit (basic_meter l consumed) = finite l
limit (infinite_meter consumed) = infinite

-- The consumption compared with the limit is the one before the charge.
consume_basic : ℕ → ℕ → String → Option ℕ → Result GasMeteringErrors (Unit {0}) × GasMeter
consume_basic l consumed descriptor (some sum) =
    if ltb l consumed
    then (err (out_of_gas descriptor), basic_meter l consumed)
    else (ok tt, basic_meter l sum)
consume_basic l consumed descriptor none = (err (gas_overflow descriptor), basic_meter l max)

consume_infinite : ℕ → String → Option ℕ → Result GasMeteringErrors (Unit {0}) × GasMeter
consume_infinite consumed descriptor (some sum) = (ok tt, infinite_meter sum)
consume_infinite consumed descriptor none = (err (gas_overflow descriptor), infinite_meter consumed)

unfoldable pub consume_gas : ℕ → String → Exec GasMeter GasMeteringErrors (Unit {0})
unfolding consume_basic consume_infinite checked_add
consume_gas amount descriptor (basic_meter l consumed) =
    consume_basic l consumed descriptor (checked_add consumed amount)
consume_gas amount descriptor (infinite_meter consumed) =
    consume_infinite consumed descriptor (checked_add consumed amount)

-- baseapp/mode/mod.rs and check.rs, deliver.rs: the meter of a transaction and of a block.
unfoldable pub build_tx_gas_meter : ℕ → Option ℕ → GasMeter
unfolding new_basic new_infinite
build_tx_gas_meter block_height gas_limit =
    if leb block_height 0 then new_infinite else new_basic (or_zero gas_limit)

unfoldable pub block_meter : Gas → GasMeter
unfolding new_basic new_infinite
block_meter infinite = new_infinite
block_meter (finite max_gas) = new_basic max_gas

-- gears/src/types/gas/config.rs
pub record GasConfig : Type 0 where
  pub has_cost : ℕ
  pub delete_cost : ℕ
  pub read_cost_flat : ℕ
  pub read_cost_per_byte : ℕ
  pub write_cost_flat : ℕ
  pub write_cost_per_byte : ℕ
  pub iter_next_cost_flat : ℕ

abbrev pub kv : GasConfig
kv = record {
  has_cost = 1000;
  delete_cost = 1000;
  read_cost_flat = 1000;
  read_cost_per_byte = 3;
  write_cost_flat = 2000;
  write_cost_per_byte = 30;
  iter_next_cost_flat = 30;
}
