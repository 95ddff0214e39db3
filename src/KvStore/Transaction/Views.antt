-- ===== src/KvStore/Transaction/Views.antt =====
-- What a key reads as after each operation of a transaction bank.
use gears.Base.{◌≡◌, ◌∙◌, sym, Option, none, some, arith, if◌then◌else◌}
use gears.Base.Order.{Bytes, bytes_ord, ◌≟◌}
use gears.KvStore.Cache.{KvCache, IsValid, over, over-set, over-delete, over-empty}
use gears.KvStore.Cache
use gears.KvStore.Tree.{PersistentTree}
use gears.KvStore.Application.{ApplicationKvBank, merge}
use gears.KvStore.Application
use gears.KvStore.Application.Views.{over-merge}
use gears.KvStore.Application.Commit.{get-eq-over}
use gears.KvStore.Transaction.{
  TransactionKvBank, to_tx_kind, tx_cache_clear, upgrade_cache, set, get, delete,
}

module _ (p : PersistentTree) where
  open p use {Tree}

  -- The block's view: what a key reads as once the transaction's writes are dropped.
  abbrev pub block_view : Tree → TransactionKvBank → Bytes → Option Bytes
  block_view t b k = over b.block k (p.get t k)

  pub get-eq-over-over :
      (t : Tree) (b : TransactionKvBank) (k : Bytes) → get p t b k ≡ over b.tx k (block_view t b k)
  unfolding get over
  get-eq-over-over t b k = ground arith

  -- A key reads the value last set, and every other key as before.
  pub get-set :
      (t : Tree) (b : TransactionKvBank) (k v j : Bytes)
      → get p t (set b k v) j ≡ (if k ≟ j then some v else get p t b j)
  unfolding set
  get-set t b k v j =
      rw (get-eq-over-over t (record b { tx = Cache.set b.tx k v }) j, get-eq-over-over t b j)
        (over-set b.tx k v j (block_view t b j))

  -- A deleted key reads as absent, and every other key as before.
  pub get-delete :
      (t : Tree) (b : TransactionKvBank) (k j : Bytes)
      → get p t (delete p t b k).1 j ≡ (if k ≟ j then none else get p t b j)
  unfolding delete
  get-delete t b k j =
      rw (get-eq-over-over t (record b { tx = (Cache.delete b.tx k).1 }) j, get-eq-over-over t b j)
        (over-delete b.tx k j (block_view t b j))

  -- Moving the transaction's writes to the block changes no reading, and leaves nothing that
  -- clearing the transaction could undo. The transaction's cache is valid.
  pub get-upgrade_cache :
      (t : Tree) (b : TransactionKvBank) (j : Bytes)
      → IsValid b.tx
      → (get p t (upgrade_cache b) j ≡ get p t b j)
        × (get p t (tx_cache_clear (upgrade_cache b)) j ≡ get p t b j)
  unfolding upgrade_cache tx_cache_clear Cache.take
  get-upgrade_cache t b j h =
      let reads =
        get-eq-over-over t (record { tx = Cache.empty; block = merge b.tx b.block }) j
        ∙ over-empty j (over (merge b.tx b.block) j (p.get t j))
        ∙ over-merge b.tx b.block j (p.get t j) h
        ∙ sym (get-eq-over-over t b j) in
      (reads, reads)

  -- Clearing a transaction takes its readings back to the block's.
  pub get-tx_cache_clear :
      (t : Tree) (b : TransactionKvBank) (j : Bytes)
      → get p t (tx_cache_clear b) j ≡ block_view t b j
  unfolding tx_cache_clear
  get-tx_cache_clear t b j =
      get-eq-over-over t (record b { tx = Cache.empty }) j ∙ over-empty j (block_view t b j)

  -- A new transaction bank reads as the application bank it comes from.
  pub get-to_tx_kind :
      (t : Tree) (a : ApplicationKvBank) (j : Bytes)
      → get p t (to_tx_kind a) j ≡ Application.get p t a j
  unfolding to_tx_kind
  get-to_tx_kind t a j =
      get-eq-over-over t (record { tx = Cache.empty; block = a.cache }) j
      ∙ over-empty j (over a.cache j (p.get t j))
      ∙ sym (get-eq-over p t a j)
