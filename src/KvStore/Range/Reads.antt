-- ===== src/KvStore/Range/Reads.antt =====
-- What the ranges hold, against what `get` reads.
use gears.Base.{
  ◌≡◌, refl, ◌∙◌, true, none, some, [], ◌∷◌, ◌++◌, ℕ, ◌+◌, ◌<◌, arith, length, or_option,
  if◌then◌else◌,
}
use gears.Base.Order.{Bytes, bytes_ord, cmp_bytes_refl, cmp_bytes-eq}
use gears.Base.Maps.{BtreeMap, IsAscending, get-insert, get-remove, get-above}
use gears.Base.Maps
use gears.KvStore.Cache.{IsValid}
use gears.KvStore.Cache
use gears.KvStore.Bounds.{Bounds, contains_key, select, map_range, select-IsAscending, get-select}
use gears.KvStore.Tree.{PersistentTree}
use gears.KvStore.Merge.{MergedRange, drain}
use gears.KvStore.Application.{ApplicationKvBank}
use gears.KvStore.Application
use gears.KvStore.Transaction.{TransactionKvBank}
use gears.KvStore.Transaction
use gears.KvStore.Range.{cached_values, collect_hash}

module _ (p : PersistentTree) where
  open p use {Tree}

  -- What a range holds, taken with fuel for its items: it ascends, and of each key in the bounds
  -- it has what `get` reads, and nothing of the others.
  abbrev pub IsReading : Tree → ApplicationKvBank → Bounds → MergedRange → Type 0
  IsReading t b r m =
      (fuel : ℕ)
      → length m.a + length m.b < fuel
      → IsAscending (drain fuel m)
        × ((q : Bytes)
            → Maps.get q (drain fuel m)
              ≡ (if contains_key r q then Application.get p t b q else none))

get-collect_hash :
    (l m : BtreeMap Bytes Bytes) (j : Bytes)
    → IsAscending l
    → Maps.get j (collect_hash l m) ≡ or_option (Maps.get j l) (Maps.get j m)
unfolding collect_hash Maps.get
get-collect_hash [] m j s = refl
get-collect_hash ((k, v) ∷ l) m j s =
    get-collect_hash l (Maps.insert k v m) j s.1
    ∙ ground (arith, get-insert k j v m, get-above k l s.0, cmp_bytes-eq k j)

collect_hash-append :
    (a b m : BtreeMap Bytes Bytes) → collect_hash (a ++ b) m ≡ collect_hash b (collect_hash a m)
unfolding collect_hash
collect_hash-append [] b m = refl
collect_hash-append ((k, v) ∷ a) b m = collect_hash-append a b (Maps.insert k v m)

-- The cached entries of a range are the transaction's writes over the block's, whatever the
-- transaction has deleted.
get-cached_values :
    (b : TransactionKvBank) (r : Bounds) (q : Bytes)
    → IsValid b.tx
    → IsValid b.block
    → Maps.get q (cached_values b r) ≡ (
        if contains_key r q
        then or_option (Maps.get q b.tx.storage) (Maps.get q b.block.storage)
        else none)
unfolding cached_values map_range Maps.get
get-cached_values b r q tx block =
    let test = contains_key r in
    let below = select test b.block.storage in
    rw (collect_hash-append below (select test b.tx.storage) []) (
      get-collect_hash (select test b.tx.storage) (collect_hash below []) q
        (select-IsAscending test b.tx.storage tx.ascending)
      ∙ ground (
        arith,
        get-collect_hash below [] q (select-IsAscending test b.block.storage block.ascending),
        get-select test b.tx.storage q,
        get-select test b.block.storage q,
      ))

module _ (p : PersistentTree) where
  open p use {Tree}

  -- A key that the block has written and the transaction deletes reads as absent, and is still
  -- among the cached entries of every range that holds it. The caches are valid.
  pub transaction_range-keeps_deleted :
      (t : Tree) (b : TransactionKvBank) (r : Bounds) (k v : Bytes)
      → IsValid b.tx
      → IsValid b.block
      → Maps.get k b.block.storage ≡ some v
      → contains_key r k ≡ true
      → (Transaction.get p t (Transaction.delete p t b k).1 k ≡ none)
        × (Maps.get k (cached_values (Transaction.delete p t b k).1 r) ≡ some v)
  transaction_range-keeps_deleted t b r k v tx block written inside = (
    Transaction.Views.get-delete p t b k k ∙ ground (arith, cmp_bytes_refl k),
    unfold Transaction.delete in
        get-cached_values (record b { tx = (Cache.delete b.tx k).1 }) r k
          (Cache.delete-IsValid b.tx k tx) block
        ∙ unfold Cache.delete in ground (arith, get-remove k k b.tx.storage, cmp_bytes_refl k),
  )
