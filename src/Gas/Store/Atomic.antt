-- ===== src/Gas/Store/Atomic.antt =====
-- An access whose charge is refused leaves the bank as it was.
use gears.Base.{◌≡◌, ◌∙◌, sym, Option, none, some, arith, length, ◌+◌, ◌*◌, if◌then◌else◌}
use gears.Base.Order.{Bytes, bytes_ord, ◌≟◌}
use gears.Base.Results.{ok, err, Answers, answers}
use gears.Gas.Meter.{gas_consumed}
use gears.Gas.Guard.{GasStoreErrors}
use gears.Gas.Guard
use gears.Gas.Guard.Costs.{get-Costs, set-Costs, delete-Costs, size_of}
use gears.KvStore.Tree.{PersistentTree}
use gears.KvStore.Transaction.{TransactionKvBank}
use gears.KvStore.Transaction
use gears.KvStore.Transaction.Views
use gears.Gas.Store.{GasStore, size, get, set, delete}

pub set-cases :
    (k v : Bytes) (s : GasStore)
    → ((set k v s).0 ≡ ok tt → (set k v s).1.bank ≡ Transaction.set s.bank k v)
      × ((e : GasStoreErrors) → (set k v s).0 ≡ err e → (set k v s).1.bank ≡ s.bank)
      × ((set k v s).1.meter ≡ (Guard.set (length k) (length v) k s.meter).1)
      × ((set k v s).0 ≡ (Guard.set (length k) (length v) k s.meter).0)
unfolding set
set-cases k v s = (λ h. ground arith, λ e h. ground arith, ground arith, ground arith)

module _ (p : PersistentTree) where
  open p use {Tree}

  pub get-cases :
      (t : Tree) (k : Bytes) (s : GasStore)
      → ((get p t k s).1.bank ≡ s.bank)
        × ((found : Option Bytes)
            → (get p t k s).0 ≡ ok found
            → found ≡ Transaction.get p t s.bank k)
        × ((found : Option Bytes)
            → (get p t k s).0 ≡ ok found
            → (Guard.get (length k) (size (Transaction.get p t s.bank k)) k s.meter).0 ≡ ok tt)
        × ((get p t k s).1.meter
            ≡ (Guard.get (length k) (size (Transaction.get p t s.bank k)) k s.meter).1)
  unfolding get
  get-cases t k s = (ground arith, λ found h. ground arith, λ found h. ground arith, ground arith)

  pub delete-cases :
      (t : Tree) (k : Bytes) (s : GasStore)
      → ((old : Option Bytes)
          → (delete p t k s).0 ≡ ok old
          → ((delete p t k s).1.bank ≡ (Transaction.delete p t s.bank k).1)
            × ((Guard.delete k s.meter).0 ≡ ok tt))
        × ((e : GasStoreErrors) → (delete p t k s).0 ≡ err e → (delete p t k s).1.bank ≡ s.bank)
        × ((delete p t k s).1.meter ≡ (Guard.delete k s.meter).1)
  unfolding delete
  delete-cases t k s = (λ old h. (ground arith, ground arith), λ e h. ground arith, ground arith)

  -- A metered read never changes the bank. Where it is accepted it returns what the bank reads, and
  -- has cost 1000 and 3 for each byte of the key and of the value found.
  pub get-metered :
      (t : Tree) (k : Bytes) (s : GasStore)
      → ((get p t k s).1.bank ≡ s.bank)
        × Answers
            (get p t k s).0
            (λ found.
              (found ≡ Transaction.get p t s.bank k)
              × (gas_consumed (get p t k s).1.meter
                  ≡ gas_consumed s.meter + (1000 + (3 * length k + 3 * size_of (size found)))))
            (λ _. Unit)
  get-metered t k s =
      let (same, found_eq, passed, meter) = get-cases t k s in
      let now = Transaction.get p t s.bank k in
      (
        same,
        answers (get p t k s).0
            (λ found h. (
              found_eq found h,
              rw (meter, found_eq found h)
                  (get-Costs (length k) (size now) k s.meter (passed found h)),
            ))
            (λ _ h. tt),
      )

  -- A metered write that is accepted writes its key and no other, and has cost 1000 and 30 for
  -- each byte; one that is refused leaves the bank as it was.
  pub set-metered :
      (t : Tree) (k v : Bytes) (s : GasStore)
      → Answers
          (set k v s).0
          (λ _.
            ((j : Bytes)
              → Transaction.get p t (set k v s).1.bank j
                ≡ (if k ≟ j then some v else Transaction.get p t s.bank j))
            × (gas_consumed (set k v s).1.meter
                ≡ gas_consumed s.meter + (1000 + (30 * length k + 30 * length v))))
          (λ _. (set k v s).1.bank ≡ s.bank)
  set-metered t k v s =
      let (done, failed, meter, result) = set-cases k v s in
      answers (set k v s).0
        (λ _ h. (
          λ j. rw (done h) (Views.get-set p t s.bank k v j),
          rw meter (set-Costs (length k) (length v) k s.meter (sym result ∙ h)),
        ))
        failed

  -- A metered deletion that is accepted removes its key and no other, and has cost 1000; one that
  -- is refused leaves the bank as it was.
  pub delete-metered :
      (t : Tree) (k : Bytes) (s : GasStore)
      → Answers
          (delete p t k s).0
          (λ _.
            ((j : Bytes)
              → Transaction.get p t (delete p t k s).1.bank j
                ≡ (if k ≟ j then none else Transaction.get p t s.bank j))
            × (gas_consumed (delete p t k s).1.meter ≡ gas_consumed s.meter + 1000))
          (λ _. (delete p t k s).1.bank ≡ s.bank)
  delete-metered t k s =
      let (done, failed, meter) = delete-cases t k s in
      answers (delete p t k s).0
        (λ old h. (
          λ j. rw ((done old h).0) (Views.get-delete p t s.bank k j),
          rw meter (delete-Costs k s.meter (done old h).1),
        ))
        failed
