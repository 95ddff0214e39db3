-- ===== src/Gas/Store/Prefix.antt =====
-- gears/src/types/store/gas/prefix: a metered prefix store charges for the key without its prefix.
use gears.Base.{◌≡◌, Option, ◌++◌, arith, length}
use gears.Base.Order.{Bytes}
use gears.Base.Results.{ok}
use gears.Base.Exec.{Exec, pure, ◌>>◌}
use gears.Gas.Guard.{GasStoreErrors}
use gears.Gas.Guard
use gears.Gas.Store.{GasStore, guarded, size}
use gears.KvStore.Tree.{PersistentTree}
use gears.KvStore.Transaction

unfoldable pub set : Bytes → Bytes → Bytes → Exec GasStore GasStoreErrors (Unit {0})
unfolding guarded
set prefix k v = guarded (Guard.set (length k) (length v) k) >> λ s.
    (ok tt, record s { bank = Transaction.set s.bank (prefix ++ k) v })

pub set-bank :
    (prefix k v : Bytes) (s : GasStore)
    → (set prefix k v s).0 ≡ ok tt
    → (set prefix k v s).1.bank ≡ Transaction.set s.bank (prefix ++ k) v
unfolding set
set-bank prefix k v s h = ground arith

module _ (p : PersistentTree) where
  open p use {Tree}

  unfoldable pub get : Bytes → Tree → Bytes → Exec GasStore GasStoreErrors (Option Bytes)
  unfolding guarded
  get prefix t k s =
      let value = Transaction.get p t s.bank (prefix ++ k) in
      (guarded (Guard.get (length k) (size value) k) >> pure value) s

  unfoldable pub delete : Bytes → Tree → Bytes → Exec GasStore GasStoreErrors (Option Bytes)
  unfolding guarded
  delete prefix t k = guarded (Guard.delete k) >> λ s.
      let (old, bank) = Transaction.delete p t s.bank (prefix ++ k) in
      (ok old, record s { bank = bank })

  pub get-found :
      (prefix : Bytes) (t : Tree) (k : Bytes) (s : GasStore)
      → ((get prefix t k s).1.bank ≡ s.bank)
        × ((found : Option Bytes)
            → (get prefix t k s).0 ≡ ok found
            → found ≡ Transaction.get p t s.bank (prefix ++ k))
  unfolding get
  get-found prefix t k s = (ground arith, λ found h. ground arith)

  pub delete-bank :
      (prefix : Bytes) (t : Tree) (k : Bytes) (s : GasStore) (old : Option Bytes)
      → (delete prefix t k s).0 ≡ ok old
      → (delete prefix t k s).1.bank ≡ (Transaction.delete p t s.bank (prefix ++ k)).1
  unfolding delete
  delete-bank prefix t k s old h = ground arith
