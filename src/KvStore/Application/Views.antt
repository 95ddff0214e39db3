-- ===== src/KvStore/Application/Views.antt =====
-- What a key reads as after each operation of an application bank, and the merging of caches.
use gears.Base.{◌≡◌, refl, ◌∙◌, Option, none, some, [], ◌∷◌, arith, if◌then◌else◌}
use gears.Base.Order.{Bytes, bytes_ord, cmp_bytes-eq}
use gears.Base.Maps.{BtreeMap, HashSet, IsAscending, contains, get-above}
use gears.Base.Maps
use gears.KvStore.Cache.{KvCache, IsValid, over, over-set, over-delete, set-IsValid, delete-IsValid}
use gears.KvStore.Cache
use gears.KvStore.Application.{set_all, delete_all, merge}

-- Later writes of an ascending map do not meet earlier ones.
pub over-set_all :
    (m : BtreeMap Bytes Bytes) (c : KvCache) (j : Bytes) (below : Option Bytes)
    → IsAscending m
    → over (set_all m c) j below ≡ elim (Maps.get j m) [ some v ↦ some v | none ↦ over c j below ]
unfolding set_all Maps.get
over-set_all [] c j below s = refl
over-set_all ((k, v) ∷ m) c j below s =
    over-set_all m (Cache.set c k v) j below s.1
    ∙ ground (arith, over-set c k v j below, get-above k m s.0, cmp_bytes-eq k j)

pub over-delete_all :
    (s : HashSet Bytes) (c : KvCache) (j : Bytes) (below : Option Bytes)
    → over (delete_all s c) j below ≡ (if contains j s then none else over c j below)
unfolding delete_all contains
over-delete_all [] c j below = refl
over-delete_all (k ∷ s) c j below =
    over-delete_all s (Cache.delete c k).1 j below ∙ ground (arith, over-delete c k j below)

-- Merging lays the one cache over the other.
pub over-merge :
    (a b : KvCache) (j : Bytes) (below : Option Bytes)
    → IsValid a
    → over (merge a b) j below ≡ over a j (over b j below)
unfolding merge over Cache.get
over-merge a b j below h =
    over-delete_all a.delete (set_all a.storage b) j below
    ∙ ground (arith, over-set_all a.storage b j below h.ascending)

pub set_all-IsValid : (m : BtreeMap Bytes Bytes) (c : KvCache) → IsValid c → IsValid (set_all m c)
unfolding set_all
set_all-IsValid [] c h = h
set_all-IsValid ((k, v) ∷ m) c h = set_all-IsValid m (Cache.set c k v) (set-IsValid c k v h)

pub delete_all-IsValid : (s : HashSet Bytes) (c : KvCache) → IsValid c → IsValid (delete_all s c)
unfolding delete_all
delete_all-IsValid [] c h = h
delete_all-IsValid (k ∷ s) c h = delete_all-IsValid s (Cache.delete c k).1 (delete-IsValid c k h)

-- Merging keeps a cache valid.
pub merge-IsValid : (a b : KvCache) → IsValid b → IsValid (merge a b)
unfolding merge
merge-IsValid a b h =
    delete_all-IsValid a.delete (set_all a.storage b) (set_all-IsValid a.storage b h)

-- Laying a cache over itself changes nothing.
pub over-over_self :
    (c : KvCache) (k : Bytes) (below : Option Bytes) → over c k (over c k below) ≡ over c k below
unfolding over
over-over_self c k below = ground arith
