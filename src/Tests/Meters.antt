-- ===== src/Tests/Meters.antt =====
-- The theorems on gas, on small meters.
use gears.Base.{◌≡◌, refl, ◌++◌, List, [], ◌∷◌, ◌≤◌}
use gears.Base.Order.{Bytes, bytes_ord}
use gears.Base.Results.{ok}
use gears.Gas.Amount.{checked_add}
use gears.Gas.Meter.{basic_meter, new_basic, consume_gas, gas_consumed}
use gears.Gas.Meter.Charges.{charges, total, charges-bounded}
use gears.Gas.Store.{GasStore}
use gears.KvStore.Cache.{empty}

accepted : (charges ((3 ∷ []) ++ 9 ∷ []) "read" (new_basic 10)).0 ≡ ok tt
unfolding charges new_basic consume_gas checked_add
accepted = refl

charges-bounded_example :
    (gas_consumed (charges ((3 ∷ []) ++ 9 ∷ []) "read" (new_basic 10)).1
      ≡ total ((3 ∷ []) ++ 9 ∷ []))
    × (total (3 ∷ []) ≤ 10)
charges-bounded_example = charges-bounded (3 ∷ []) [] 9 10 "read" accepted

abbrev store : GasStore
store = record { meter = basic_meter 1500 0; bank = record { tx = empty; block = empty } }

abbrev stored : List (Bytes × Bytes)
stored = (1 ∷ [], 10 ∷ []) ∷ []
