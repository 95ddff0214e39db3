-- ===== src/KvStore/Application.antt =====
-- kv_store/src/bank/kv/application.rs. The tree is shared by the banks, so each operation takes its
-- current state; a bank itself holds the cache.

pub mod Views
pub mod Commit
use gears.Base.{Option, none, some, List, [], ◌∷◌, ◌++◌, map, or_option}
use gears.Base.Order.{Bytes, bytes_ord}
use gears.Base.Maps.{BtreeMap, HashSet}
use gears.Base.Maps
use gears.Base.Results.{ok, err}
use gears.KvStore.Cache.{KvCache, empty}
use gears.KvStore.Cache
use gears.KvStore.Tree.{PersistentTree}

-- `ApplicationKVBank`
pub record ApplicationKvBank : Type 0 where
  pub cache : KvCache

unfoldable pub cache_clear : ApplicationKvBank → ApplicationKvBank
cache_clear b = record { cache = empty }

unfoldable pub set : ApplicationKvBank → Bytes → Bytes → ApplicationKvBank
set b k v = record { cache = Cache.set b.cache k v }

-- for (key, value) in set_values { cache.set(key, value) }
unfoldable pub set_all : BtreeMap Bytes Bytes → KvCache → KvCache
set_all [] c = c
set_all ((k, v) ∷ m) c = set_all m (Cache.set c k v)

-- for del in delete { cache.delete(&del); }
unfoldable pub delete_all : HashSet Bytes → KvCache → KvCache
delete_all [] c = c
delete_all (k ∷ s) c = delete_all s (Cache.delete c k).1

-- The cache under the pending writes and deletions of another.
unfoldable pub merge : KvCache → KvCache → KvCache
merge from into = delete_all from.delete (set_all from.storage into)

-- The entries of the map that `commit` collects, in the order of the chain.
unfoldable pub pending_writes : BtreeMap Bytes Bytes → List (Bytes × Option Bytes)
pending_writes [] = []
pending_writes ((k, v) ∷ m) = (k, some v) ∷ pending_writes m

unfoldable pub pending_deletes : HashSet Bytes → List (Bytes × Option Bytes)
pending_deletes [] = []
pending_deletes (k ∷ s) = (k, none) ∷ pending_deletes s

-- `collect::<BTreeMap<_, _>>()`
unfoldable pub collect :
    List (Bytes × Option Bytes) → BtreeMap Bytes (Option Bytes) → BtreeMap Bytes (Option Bytes)
collect [] m = m
collect ((k, v) ∷ l) m = collect l (Maps.insert k v m)

module _ (p : PersistentTree) where
  open p use {Tree, Hash}

  unfoldable pub get : Tree → ApplicationKvBank → Bytes → Option Bytes
  get t b k = elim (Cache.get b.cache k) [ err _ ↦ none | ok found ↦ or_option found (p.get t k) ]

  -- The value returned and the bank that is left.
  unfoldable pub delete : Tree → ApplicationKvBank → Bytes → Option Bytes × ApplicationKvBank
  delete t b k =
      let (old, cache) = Cache.delete b.cache k in
      (or_option old (p.get t k), record { cache = cache })

  -- for (key, value) in cache { ... }
  unfoldable pub apply : BtreeMap Bytes (Option Bytes) → Tree → Tree
  apply [] t = t
  apply ((k, some v) ∷ m) t = apply m (p.set t k v)
  apply ((k, none) ∷ m) t = apply m (p.remove t k)

  -- The hash, the tree and the bank that are left; `none` where `unwrap_or_corrupt` aborts.
  unfoldable pub commit : Tree → ApplicationKvBank → Option (Hash × Tree × ApplicationKvBank)
  commit t b =
      let ((written, deleted), cache) = Cache.take b.cache in
      let changes = collect (pending_writes written ++ pending_deletes deleted) [] in
      elim (p.save_version (apply changes t)) [
        | none ↦ none
        | some (h, t') ↦ some (h, t', record { cache = cache })
      ]
