-- ===== src/Tests/Stores.antt =====
-- The theorems on the key-value stores, on a tree with two keys.
use gears.Base.{◌≡◌, refl, true, false, none, some, List, [], ◌∷◌, arith}
use gears.Base.Order.{Bytes, bytes_ord}
use gears.Base.Maps.{BtreeMap, IsAscending, add, discard, contains}
use gears.Base.Maps
use gears.KvStore.Bounds.{Bounds, unbounded, excluded, contains_key}
use gears.KvStore.Cache.{KvCache, empty-IsValid}
use gears.KvStore.Cache
use gears.KvStore.Application.{ApplicationKvBank, commit}
use gears.KvStore.Application
use gears.KvStore.Application.Commit.{get-commit}
use gears.KvStore.Transaction.{TransactionKvBank, upgrade_cache, tx_cache_clear}
use gears.KvStore.Transaction
use gears.KvStore.Transaction.Views.{block_view}
use gears.KvStore.Transaction.Ops.{
  Op, set_key, delete_key, upgrade, clear, Maps, Represents, run, run_maps, run_refines,
}
use gears.KvStore.Range.{application_range}
use gears.KvStore.Prefix.{full_bounds}
use gears.KvStore.Prefix.Exact.{begins_with, full_bounds-exact}
use gears.Tests.Trees.{map_tree}

abbrev stored : BtreeMap Bytes Bytes
stored = (1 ∷ [], 10 ∷ []) ∷ (2 ∷ [], 20 ∷ []) ∷ []

stored-IsAscending : IsAscending stored
stored-IsAscending = ((refl, tt), (tt, tt))

-- Key 1 is rewritten, and key 3 deleted.
abbrev cache : KvCache
cache = record { storage = (1 ∷ [], 11 ∷ []) ∷ []; delete = (3 ∷ []) ∷ [] }

cache-IsValid : Cache.IsValid cache
unfolding contains Maps.get
cache-IsValid = record { ascending = (tt, tt); disjoint = λ k h. ground arith }

abbrev bank : TransactionKvBank
bank = record { tx = Cache.empty; block = cache }

abbrev writing : TransactionKvBank
writing = record { tx = cache; block = Cache.empty }

abbrev reads : Maps
reads = record {
  tx = Transaction.get map_tree stored bank;
  block = block_view map_tree stored bank;
}

bank-Represents : Represents map_tree stored bank reads
bank-Represents = record { valid = empty-IsValid; tx = λ k. refl; block = λ k. refl }

abbrev ops : List Op
ops = set_key (4 ∷ []) [] ∷ upgrade ∷ delete_key (1 ∷ []) ∷ clear ∷ []

run_refines_example : Represents map_tree stored (run map_tree stored ops bank) (run_maps ops reads)
run_refines_example = run_refines map_tree stored ops bank reads bank-Represents

abbrev before : ApplicationKvBank
before = record { cache = cache }

abbrev after : ApplicationKvBank
after = record { cache = Cache.empty }

abbrev saved : BtreeMap Bytes Bytes
saved = (1 ∷ [], 11 ∷ []) ∷ (2 ∷ [], 20 ∷ []) ∷ []

before_commits : commit map_tree stored before ≡ some (0, saved, after)
unfolding commit Cache.take Application.pending_writes Application.pending_deletes
    Application.collect Application.apply Maps.insert Maps.remove
before_commits = refl

two_stored : Maps.get (2 ∷ []) stored ≡ some (20 ∷ [])
unfolding Maps.get
two_stored = refl

two_kept : contains (2 ∷ []) cache.delete ≡ false
unfolding contains
two_kept = refl

get-commit_example :
    (after.cache ≡ Cache.empty)
    × ((j : Bytes) → Maps.get j saved ≡ Application.get map_tree stored before j)
    × ((j : Bytes)
        → Application.get map_tree saved after j ≡ Application.get map_tree stored before j)
get-commit_example =
    get-commit map_tree stored saved before after 0 (2 ∷ []) (20 ∷ []) stored-IsAscending
      cache-IsValid two_stored two_kept before_commits

abbrev one : BtreeMap Bytes Bytes
one = (1 ∷ [], 11 ∷ []) ∷ []

one-IsAscending : IsAscending one
one-IsAscending = (tt, tt)

abbrev from_one : Bounds
from_one = record { start = excluded (1 ∷ []); end = unbounded }

abbrev backwards : Bounds
backwards = record { start = excluded (1 ∷ []); end = excluded (1 ∷ []) }

panicked : application_range map_tree stored before backwards ≡ none
unfolding application_range
panicked = refl

abbrev all : Bounds
all = record { start = unbounded; end = unbounded }

one_written : Maps.get (1 ∷ []) bank.block.storage ≡ some (11 ∷ [])
unfolding Maps.get
one_written = refl

one_inside : contains_key all (1 ∷ []) ≡ true
unfolding contains_key
one_inside = refl

full_bounds-exact_example :
    contains_key (full_bounds (7 ∷ 255 ∷ []) all) (7 ∷ 255 ∷ 3 ∷ [])
    ≡ begins_with (7 ∷ 255 ∷ []) (7 ∷ 255 ∷ 3 ∷ [])
full_bounds-exact_example =
    full_bounds-exact (7 ∷ 255 ∷ []) (7 ∷ 255 ∷ 3 ∷ []) (omega arith, (omega arith, tt))
      (omega arith, (omega arith, (omega arith, tt)))

abbrev five : Bytes
five = 5 ∷ []
