-- ===== src/KvStore/Cache.antt =====
-- kv_store/src/cache.rs: the pending writes of a store.
use gears.Base.{◌≡◌, true, Option, none, some, [], refl, arith, if◌then◌else◌}
use gears.Base.Order.{Bytes, bytes_ord, ◌≟◌}
use gears.Base.Maps.{
  BtreeMap, HashSet, IsAscending, contains, add, discard, contains-add, contains-discard,
  get-insert, get-remove, insert-IsAscending, remove-IsAscending,
}
use gears.Base.Maps
use gears.Base.Results.{Result, ok, err}

-- `KVCache`
pub record KvCache : Type 0 where
  pub storage : BtreeMap Bytes Bytes
  pub delete : HashSet Bytes

pub data DeletedError : Type 0 where
  deleted : DeletedError

abbrev pub empty : KvCache
empty = record { storage = []; delete = [] }

-- The two collections, and the cache that is left.
unfoldable pub take : KvCache → (BtreeMap Bytes Bytes × HashSet Bytes) × KvCache
take c = ((c.storage, c.delete), empty)

unfoldable pub get : KvCache → Bytes → Result DeletedError (Option Bytes)
get c k = if contains k c.delete then err deleted else ok (Maps.get k c.storage)

unfoldable pub delete : KvCache → Bytes → Option Bytes × KvCache
delete c k =
    (Maps.get k c.storage, record { storage = Maps.remove k c.storage; delete = add k c.delete })

unfoldable pub set : KvCache → Bytes → Bytes → KvCache
set c k v = record { storage = Maps.insert k v c.storage; delete = discard k c.delete }

-- A key is written or deleted, never both, and the written keys are in order.
pub record IsValid (c : KvCache) : Type 0 where
  pub ascending : IsAscending c.storage
  pub disjoint : (k : Bytes) → contains k c.delete ≡ true → Maps.get k c.storage ≡ none

pub empty-IsValid : IsValid empty
unfolding contains
empty-IsValid = record { ascending = tt; disjoint = λ k h. cc }

-- Both writes keep the cache valid.
pub set-IsValid : (c : KvCache) (k v : Bytes) → IsValid c → IsValid (set c k v)
unfolding set
set-IsValid c k v h = record {
  ascending = insert-IsAscending k v c.storage h.ascending;
  disjoint = λ j p.
      ground (arith, contains-discard k j c.delete, get-insert k j v c.storage, h.disjoint j);
}

pub delete-IsValid : (c : KvCache) (k : Bytes) → IsValid c → IsValid (delete c k).1
unfolding delete
delete-IsValid c k h = record {
  ascending = remove-IsAscending k c.storage h.ascending;
  disjoint =
      λ j p. ground (arith, contains-add k j c.delete, get-remove k j c.storage, h.disjoint j);
}

-- What a key reads as, through the cache, over what lies below.
unfoldable pub over : KvCache → Bytes → Option Bytes → Option Bytes
over c k below = elim (get c k) [ ok (some v) ↦ some v | ok none ↦ below | err _ ↦ none ]

pub over-set :
    (c : KvCache) (k v j : Bytes) (below : Option Bytes)
    → over (set c k v) j below ≡ (if k ≟ j then some v else over c j below)
unfolding over get set
over-set c k v j below = ground (arith, contains-discard k j c.delete, get-insert k j v c.storage)

pub over-delete :
    (c : KvCache) (k j : Bytes) (below : Option Bytes)
    → over (delete c k).1 j below ≡ (if k ≟ j then none else over c j below)
unfolding over get delete
over-delete c k j below = ground (arith, contains-add k j c.delete, get-remove k j c.storage)

pub over-empty : (k : Bytes) (below : Option Bytes) → over empty k below ≡ below
unfolding over get contains Maps.get
over-empty k below = refl
