-- ===== src/Gas/Guard/Costs.antt =====
-- What each access costs where the meter accepts it.
use Prim.Native.String.{String}
use gears.Base.{ℕ, ◌+◌, ◌*◌, ◌≡◌, ◌∙◌, refl, Option, none, some, arith}
use gears.Base.Order.{Bytes}
use gears.Base.Results.{Result, ok, err, Answers, answers}
use gears.Base.Exec.{continue, ◌>>◌}
use gears.Gas.Amount.{checked_mul, try_from}
use gears.Gas.Meter.{GasMeter, basic_meter, infinite_meter, gas_consumed, consume_gas}
use gears.Gas.Guard.{
  GasStoreErrors, Guarded, charge, charge_bytes, cost_of, get, set, delete, range,
}

-- A guarded access that succeeds adds its cost to the meter.
abbrev pub Costs : Guarded (Unit {0}) → ℕ → Type 0
Costs act n = (m : GasMeter) → (act m).0 ≡ ok tt → gas_consumed (act m).1 ≡ gas_consumed m + n

charge-Costs : (k : Bytes) (n : ℕ) (descriptor : String) → Costs (charge k n descriptor) n
unfolding charge consume_gas gas_consumed
charge-Costs k n descriptor (basic_meter l c) h = ground arith
charge-Costs k n descriptor (infinite_meter c) h = ground arith

continue-Costs :
    (next : Guarded (Unit {0})) (n o c : ℕ) (r : Result GasStoreErrors (Unit {0})) (m : GasMeter)
    → (r ≡ ok tt → gas_consumed m ≡ c + n)
    → Costs next o
    → (continue r (λ _. next) m).0 ≡ ok tt
    → gas_consumed (continue r (λ _. next) m).1 ≡ c + (n + o)
continue-Costs next n o c (ok u) m f g h = omega (arith, f refl, g m h)
continue-Costs next n o c (err e) m f g h = cc

bind-Costs :
    (act next : Guarded (Unit {0})) (n o : ℕ)
    → Costs act n
    → Costs next o
    → Costs (act >> next) (n + o)
bind-Costs act next n o f g m h =
    continue-Costs next n o (gas_consumed m) (act m).0 (act m).1 (f m) g h

cost_of-eq :
    (k : Bytes) (per_byte bytes : ℕ) {n : ℕ}
    → cost_of k per_byte bytes ≡ ok n
    → n ≡ per_byte * bytes
unfolding cost_of checked_mul try_from
cost_of-eq k per_byte bytes h = ground arith

lift-Costs :
    (k : Bytes) (per_byte bytes : ℕ) (descriptor : String) (r : Result GasStoreErrors ℕ)
    (m : GasMeter)
    → ((n : ℕ) → r ≡ ok n → n ≡ per_byte * bytes)
    → (continue r (λ n. charge k n descriptor) m).0 ≡ ok tt
    → gas_consumed (continue r (λ n. charge k n descriptor) m).1 ≡ gas_consumed m + per_byte * bytes
lift-Costs k per_byte bytes descriptor (ok n) m f h =
    charge-Costs k n descriptor m h ∙ rw (f n refl)
lift-Costs k per_byte bytes descriptor (err e) m f h = cc

charge_bytes-Costs :
    (k : Bytes) (per_byte bytes : ℕ) (descriptor : String)
    → Costs (charge_bytes k per_byte bytes descriptor) (per_byte * bytes)
unfolding charge_bytes
charge_bytes-Costs k per_byte bytes descriptor m h =
    lift-Costs k per_byte bytes descriptor (cost_of k per_byte bytes) m
      (λ n. cost_of-eq k per_byte bytes {n = n}) h

pub set-Costs :
    (key value : ℕ) (k : Bytes) → Costs (set key value k) (1000 + (30 * key + 30 * value))
unfolding set
set-Costs key value k =
    bind-Costs _ _ 1000 (30 * key + 30 * value) (charge-Costs k 1000 "WriteFlat") (
      bind-Costs _ _ (30 * key) (30 * value) (charge_bytes-Costs k 30 key "WritePerByte")
        (charge_bytes-Costs k 30 value "WritePerByte"))

abbrev pub size_of : Option ℕ → ℕ
size_of none = 0
size_of (some n) = n

pure-Costs : Costs (λ m. (ok tt, m)) 0
pure-Costs m h = omega arith

pub get-Costs :
    (key : ℕ) (value : Option ℕ) (k : Bytes)
    → Costs (get key value k) (1000 + (3 * key + 3 * size_of value))
unfolding get
get-Costs key none k =
    bind-Costs _ _ 1000 (3 * key + 0) (charge-Costs k 1000 "ReadFlat")
      (bind-Costs _ _ (3 * key) 0 (charge_bytes-Costs k 3 key "ReadPerByte") pure-Costs)
get-Costs key (some value) k =
    bind-Costs _ _ 1000 (3 * key + 3 * value) (charge-Costs k 1000 "ReadFlat") (
      bind-Costs _ _ (3 * key) (3 * value) (charge_bytes-Costs k 3 key "ReadPerByte")
        (charge_bytes-Costs k 3 value "ReadPerByte"))

range-Costs :
    (key value : ℕ) (k : Bytes) → Costs (range (some (key, value, k))) (3 * key + (3 * value + 30))
unfolding range
range-Costs key value k =
    bind-Costs _ _ (3 * key) (3 * value + 30) (charge_bytes-Costs k 3 key "ValuePerByte") (
      bind-Costs _ _ (3 * value) 30 (charge_bytes-Costs k 3 value "ValuePerByte")
        (charge-Costs k 30 "IterNextFlat"))

pub delete-Costs : (k : Bytes) → Costs (delete k) 1000
unfolding delete
delete-Costs k = charge-Costs k 1000 "Delete"

-- What an access leaves a meter with where it is accepted; nothing is said of a refused one.
abbrev pub Charges : Guarded (Unit {0}) → GasMeter → ℕ → Type 0
Charges act m n = Answers (act m).0 (λ _. gas_consumed (act m).1 ≡ gas_consumed m + n) (λ _. Unit)

charges_lem : (act : Guarded (Unit {0})) (n : ℕ) (m : GasMeter) → Costs act n → Charges act m n
charges_lem act n m h = answers (act m).0 (λ _ e. h m e) (λ _ e. tt)

-- What each access adds to a meter that accepts it, with 3 for each byte read and 30 for each byte
-- written: a read 1000 and its bytes; a write 1000, the flat cost of a read, and its bytes; a
-- deletion 1000; a step of an iterator 30 and its bytes.
pub access-costs :
    (key value : ℕ) (found : Option ℕ) (k : Bytes) (m : GasMeter)
    → Charges (get key found k) m (1000 + (3 * key + 3 * size_of found))
      × Charges (set key value k) m (1000 + (30 * key + 30 * value))
      × Charges (delete k) m 1000
      × Charges (range (some (key, value, k))) m (3 * key + (3 * value + 30))
access-costs key value found k m = (
  charges_lem (get key found k) _ m (get-Costs key found k),
  charges_lem (set key value k) _ m (set-Costs key value k),
  charges_lem (delete k) _ m (delete-Costs k),
  charges_lem (range (some (key, value, k))) _ m (range-Costs key value k),
)
