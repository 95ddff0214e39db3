-- ===== src/Gas/Guard.antt =====
-- gears/src/types/store/gas/guard.rs: what a store access costs.
pub mod Costs
use Prim.Native.String.{String}
use gears.Base.{ℕ, Option, none, some}
use gears.Base.Order.{Bytes}
use gears.Base.Results.{Result, ok, err, map_err, ok_or}
use gears.Base.Results
use gears.Base.Exec.{Exec, pure, lift, ◌>>=◌, ◌>>◌}
use gears.Gas.Amount.{GasError, checked_mul, try_from}
use gears.Gas.Meter.{GasMeter, GasMeteringErrors, gas_overflow, consume_gas, kv}

pub data GasStoreErrorKinds : Type 0 where
  metering : GasMeteringErrors → GasStoreErrorKinds
  gas : GasError → GasStoreErrorKinds

-- gears/src/types/store/gas/errors.rs
pub record GasStoreErrors : Type 0 where
  pub key : Bytes
  pub kind : GasStoreErrorKinds

abbrev pub Guarded : Type 0 → Type 0
Guarded A = Exec GasMeter GasStoreErrors A

abbrev from_metering : Bytes → GasMeteringErrors → GasStoreErrors
from_metering k e = record { key = k; kind = metering e }

abbrev from_gas : Bytes → GasError → GasStoreErrors
from_gas k e = record { key = k; kind = gas e }

-- `consume_gas(amount, desc).map_err(|e| GasStoreErrors::new(key, e))`
unfoldable pub charge : Bytes → ℕ → String → Guarded (Unit {0})
charge k amount descriptor m =
    let (r, m') = consume_gas amount descriptor m in (map_err (from_metering k) r, m')

-- The cost of some bytes; it fails where the count or the product does not fit in 63 bits.
unfoldable pub cost_of : Bytes → ℕ → ℕ → Result GasStoreErrors ℕ
cost_of k per_byte bytes =
    Results.◌>>=◌ (map_err (from_gas k) (try_from bytes))
      λ n. map_err (from_metering k) (ok_or (gas_overflow "GasGuard") (checked_mul per_byte n))

unfoldable pub charge_bytes : Bytes → ℕ → ℕ → String → Guarded (Unit {0})
unfolding charge cost_of
charge_bytes k per_byte bytes descriptor = do
  cost ← lift (cost_of k per_byte bytes)
  charge k cost descriptor

abbrev charge_value : Bytes → Option ℕ → Guarded (Unit {0})
charge_value k none = pure tt
charge_value k (some value) = charge_bytes k kv.read_cost_per_byte value "ReadPerByte"

unfoldable pub get : ℕ → Option ℕ → Bytes → Guarded (Unit {0})
get key value get_key = do
  charge get_key kv.read_cost_flat "ReadFlat"
  charge_bytes get_key kv.read_cost_per_byte key "ReadPerByte"
  charge_value get_key value

-- The flat cost is the one of a read.
unfoldable pub set : ℕ → ℕ → Bytes → Guarded (Unit {0})
set key value set_key = do
  charge set_key kv.read_cost_flat "WriteFlat"
  charge_bytes set_key kv.write_cost_per_byte key "WritePerByte"
  charge_bytes set_key kv.write_cost_per_byte value "WritePerByte"

unfoldable pub delete : Bytes → Guarded (Unit {0})
delete delete_key = charge delete_key kv.delete_cost "Delete"

unfoldable pub range : Option (ℕ × ℕ × Bytes) → Guarded (Unit {0})
range none = pure tt
range (some (key, value, get_key)) = do
  charge_bytes get_key kv.read_cost_per_byte key "ValuePerByte"
  charge_bytes get_key kv.read_cost_per_byte value "ValuePerByte"
  charge get_key kv.iter_next_cost_flat "IterNextFlat"
