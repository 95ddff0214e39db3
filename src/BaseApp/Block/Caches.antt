-- ===== src/BaseApp/Block/Caches.antt =====
-- How the caches of a block lie over one another as its calls move them.
use gears.Base.{◌≡◌, ◌∙◌, sym, ap, Option, none, some, List, [], ◌∷◌, arith, if◌then◌else◌}
use gears.Base.Order.{Bytes, bytes_ord, ◌≟◌}
use gears.KvStore.Cache.{
  KvCache, IsValid, over, over-set, over-delete, over-empty, set-IsValid, delete-IsValid,
  empty-IsValid,
}
use gears.KvStore.Cache
use gears.KvStore.Tree.{PersistentTree}
use gears.KvStore.Application.{ApplicationKvBank, merge, set_all, delete_all}
use gears.KvStore.Application
use gears.KvStore.Application.Views.{over-merge, over-over_self, over-set_all, over-delete_all}
use gears.BaseApp.Block.{Write, write, write_all}

abbrev pub Contents : Type 0
Contents = Bytes → Option Bytes

-- The writes of a handler on a plain map.
abbrev pub written : List Write → Contents → Contents
written [] m = m
written ((k, v) ∷ ws) m = written ws (λ j. if k ≟ j then v else m j)

-- The cache `c` has a say on every key that the cache `d` has a say on.
abbrev pub Covers : KvCache → KvCache → Type 0
Covers c d = (k : Bytes) (below : Option Bytes) → over c k (over d k below) ≡ over c k below

-- The cache has a say on no key.
abbrev pub IsIdle : KvCache → Type 0
IsIdle c = (k : Bytes) (below : Option Bytes) → over c k below ≡ below

pub merge-Covers : (a c d : KvCache) → IsValid a → Covers c d → Covers (merge a c) d
merge-Covers a c d h covers k below =
    over-merge a c k (over d k below) h
    ∙ ap (over a k) (covers k below)
    ∙ sym (over-merge a c k below h)

pub over-merge_idle :
    (a c : KvCache) (k : Bytes) (below : Option Bytes)
    → IsValid a
    → IsIdle c
    → over (merge a c) k below ≡ over a k below
over-merge_idle a c k below h idle = over-merge a c k below h ∙ ap (over a k) (idle k below)

pub merge_idle-Covers : (a c : KvCache) → IsValid a → IsIdle c → Covers (merge a c) a
merge_idle-Covers a c h idle k below =
    over-merge_idle a c k (over a k below) h idle
    ∙ over-over_self a k below
    ∙ sym (over-merge_idle a c k below h idle)

-- A block's cache taken into the application's.
abbrev pub taken : KvCache → KvCache → KvCache
taken block c = set_all block.storage (delete_all block.delete c)

pub over-taken :
    (block c : KvCache) (k : Bytes) (below : Option Bytes)
    → IsValid block
    → over (taken block c) k below ≡ over block k (over c k below)
unfolding over Cache.get
over-taken block c k below h =
    over-set_all block.storage (delete_all block.delete c) k below h.ascending
    ∙ ground (arith, over-delete_all block.delete c k below, h.disjoint k)

module _ (p : PersistentTree) where
  open p use {Tree, Hash}

  pub over-write_all :
      (t : Tree) (ws : List Write) (b : ApplicationKvBank) (below m : Contents)
      → ((j : Bytes) → over b.cache j (below j) ≡ m j)
      → (j : Bytes) → over (write_all p t ws b).cache j (below j) ≡ written ws m j
  unfolding write_all
  over-write_all t [] b below m h = h
  over-write_all t ((k, some v) ∷ ws) b below m h =
      over-write_all t ws (write p t (k, some v) b) below (λ j. if k ≟ j then some v else m j)
        (λ j. unfold write Application.set in over-set b.cache k v j (below j) ∙ rw (h j))
  over-write_all t ((k, none) ∷ ws) b below m h =
      over-write_all t ws (write p t (k, none) b) below (λ j. if k ≟ j then none else m j)
        (λ j. unfold write Application.delete in over-delete b.cache k j (below j) ∙ rw (h j))

  pub write_all-IsValid :
      (t : Tree) (ws : List Write) (b : ApplicationKvBank)
      → IsValid b.cache
      → IsValid (write_all p t ws b).cache
  unfolding write_all
  write_all-IsValid t [] b h = h
  write_all-IsValid t ((k, some v) ∷ ws) b h =
      write_all-IsValid t ws (write p t (k, some v) b)
        (unfold write Application.set in set-IsValid b.cache k v h)
  write_all-IsValid t ((k, none) ∷ ws) b h =
      write_all-IsValid t ws (write p t (k, none) b)
        (unfold write Application.delete in delete-IsValid b.cache k h)
