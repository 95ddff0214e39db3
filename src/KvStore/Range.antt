-- ===== src/KvStore/Range.antt =====
-- The `range` methods of the two banks (bank/kv/application.rs and bank/kv/transaction.rs).
pub mod Reads
use gears.Base.{Bool, true, false, not, ◌&&◌, ◌||◌, List, [], ◌∷◌, ◌++◌, if◌then◌else◌}
use gears.Base.Order.{Bytes, bytes_ord}
use gears.Base.Maps.{BtreeMap, contains}
use gears.Base.Maps
use gears.KvStore.Bounds.{Bounds, select, map_range, range_panics}
use gears.KvStore.Tree.{PersistentTree}
use gears.KvStore.Merge.{MergedRange}
use gears.KvStore.Application.{ApplicationKvBank}
use gears.KvStore.Transaction.{TransactionKvBank}
use gears.Base.{Option, none, some}

-- `contains_key`
abbrev has_key : Bytes → BtreeMap Bytes Bytes → Bool
has_key k m = elim (Maps.get k m) [ none ↦ false | some _ ↦ true ]

-- `collect::<HashMap<_, _>>()`: a later entry replaces an earlier one.
unfoldable pub collect_hash : BtreeMap Bytes Bytes → BtreeMap Bytes Bytes → BtreeMap Bytes Bytes
collect_hash [] m = m
collect_hash ((k, v) ∷ l) m = collect_hash l (Maps.insert k v m)

-- The cached entries of a transaction bank, as the hash map that holds them.
unfoldable pub cached_values : TransactionKvBank → Bounds → BtreeMap Bytes Bytes
unfolding map_range collect_hash
cached_values b r = collect_hash (map_range b.block.storage r ++ map_range b.tx.storage r) []

-- A stored key that the transaction or the block hides.
unfoldable pub is_hidden : TransactionKvBank → Bytes → Bool
is_hidden b k =
    contains k b.tx.delete || (contains k b.block.delete && not (has_key k b.tx.storage))

module _ (p : PersistentTree) where
  open p use {Tree}

  -- `ApplicationKVBank::range`. `none` is a panic, here and below.
  unfoldable pub application_range : Tree → ApplicationKvBank → Bounds → Option MergedRange
  unfolding range_panics
  application_range t b r =
      if range_panics b.cache.storage r
      then none
      else some (record {
        a = map_range b.cache.storage r;
        b = select (λ k. not (contains k b.cache.delete)) (p.range t r);
      })

  -- `TransactionKVBank::range`, where `order` is the order in which the hash map iterates.
  unfoldable pub transaction_range :
      (BtreeMap Bytes Bytes → List (Bytes × Bytes))
      → Tree
      → TransactionKvBank
      → Bounds
      → Option MergedRange
  unfolding cached_values range_panics
  transaction_range order t b r =
      if range_panics b.block.storage r || range_panics b.tx.storage r
      then none
      else some (record {
        a = order (cached_values b r);
        b = select (λ k. not (is_hidden b k)) (p.range t r);
      })
