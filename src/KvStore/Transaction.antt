-- ===== src/KvStore/Transaction.antt =====
-- kv_store/src/bank/kv/transaction.rs: the writes of one transaction over those of the block, over
-- the shared tree.
pub mod Views
pub mod Ops
use gears.Base.{Option, none, some, or_option}
use gears.Base.Order.{Bytes, bytes_ord}
use gears.Base.Maps.{BtreeMap, HashSet}
use gears.Base.Maps
use gears.Base.Results.{ok, err}
use gears.KvStore.Cache.{KvCache, empty}
use gears.KvStore.Cache
use gears.KvStore.Tree.{PersistentTree}
use gears.KvStore.Application.{ApplicationKvBank, merge}

-- `TransactionKVBank`
pub record TransactionKvBank : Type 0 where
  pub tx : KvCache
  pub block : KvCache

-- application.rs: a transaction bank over the same tree, its block cache a copy of the cache.
unfoldable pub to_tx_kind : ApplicationKvBank → TransactionKvBank
to_tx_kind a = record { tx = empty; block = a.cache }

unfoldable pub tx_cache_clear : TransactionKvBank → TransactionKvBank
tx_cache_clear b = record b { tx = empty }

unfoldable pub block_cache_clear : TransactionKvBank → TransactionKvBank
block_cache_clear b = record b { block = empty }

unfoldable pub upgrade_cache : TransactionKvBank → TransactionKvBank
upgrade_cache b =
    let ((written, deleted), tx) = Cache.take b.tx in
    record { tx = tx; block = merge (record { storage = written; delete = deleted }) b.block }

unfoldable pub take_block_cache :
    TransactionKvBank → (BtreeMap Bytes Bytes × HashSet Bytes) × TransactionKvBank
take_block_cache b = let (taken, block) = Cache.take b.block in (taken, record b { block = block })

unfoldable pub set : TransactionKvBank → Bytes → Bytes → TransactionKvBank
set b k v = record b { tx = Cache.set b.tx k v }

-- The application bank's writes are copied, not taken.
unfoldable pub append_block_cache : TransactionKvBank → ApplicationKvBank → TransactionKvBank
append_block_cache b other = record b { block = merge other.cache b.block }

-- application.rs: the application bank and the transaction bank that are left.
unfoldable pub consume_block_cache :
    ApplicationKvBank → TransactionKvBank → ApplicationKvBank × TransactionKvBank
consume_block_cache a other =
    let ((written, deleted), block) = Cache.take other.block in
    (
      record { cache = merge (record { storage = written; delete = deleted }) a.cache },
      record other { block = block },
    )

module _ (p : PersistentTree) where
  open p use {Tree}

  unfoldable pub get : Tree → TransactionKvBank → Bytes → Option Bytes
  get t b k = elim (Cache.get b.tx k) [
    | err _ ↦ none
    | ok (some v) ↦ some v
    | ok none ↦ elim (Cache.get b.block k) [ err _ ↦ none | ok found ↦ or_option found (p.get t k) ]
  ]

  -- The value returned is looked for in the block's writes and in the tree whatever is deleted.
  unfoldable pub delete : Tree → TransactionKvBank → Bytes → Option Bytes × TransactionKvBank
  delete t b k =
      let (old, tx) = Cache.delete b.tx k in
      (or_option old (or_option (Maps.get k b.block.storage) (p.get t k)), record b { tx = tx })
