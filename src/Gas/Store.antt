-- ===== src/Gas/Store.antt =====
-- gears/src/types/store/gas/kv and /prefix: a store of the transaction bank that charges the
-- transaction's meter for each access.
pub mod Atomic
pub mod Prefix
use gears.Base.{ℕ, Option, none, some, length}
use gears.Base.Order.{Bytes}
use gears.Base.Results.{Result, ok, err}
use gears.Base.Exec.{Exec, pure, lift, ◌>>=◌, ◌>>◌}
use gears.Gas.Meter.{GasMeter}
use gears.Gas.Guard.{Guarded, GasStoreErrors}
use gears.Gas.Guard
use gears.KvStore.Tree.{PersistentTree}
use gears.KvStore.Transaction.{TransactionKvBank}
use gears.KvStore.Transaction

-- The meter is behind a shared pointer, and the bank behind a mutable reference.
pub record GasStore : Type 0 where
  pub meter : GasMeter
  pub bank : TransactionKvBank

-- A charge on the shared meter.
unfoldable pub guarded : Guarded (Unit {0}) → Exec GasStore GasStoreErrors (Unit {0})
guarded act s = let (r, m) = act s.meter in (r, record s { meter = m })

abbrev pub size : Option Bytes → Option ℕ
size none = none
size (some v) = some (length v)

module _ (p : PersistentTree) where
  open p use {Tree}

  unfoldable pub get : Tree → Bytes → Exec GasStore GasStoreErrors (Option Bytes)
  unfolding guarded
  get t k s =
      let value = Transaction.get p t s.bank k in
      (do guarded (Guard.get (length k) (size value) k); pure value) s

  unfoldable pub delete : Tree → Bytes → Exec GasStore GasStoreErrors (Option Bytes)
  unfolding guarded
  delete t k = do
    guarded (Guard.delete k)
    λ s. let (old, bank) = Transaction.delete p t s.bank k in (ok old, record s { bank = bank })

unfoldable pub set : Bytes → Bytes → Exec GasStore GasStoreErrors (Unit {0})
unfolding guarded
set k v = do
  guarded (Guard.set (length k) (length v) k)
  λ s. (ok tt, record s { bank = Transaction.set s.bank k v })
