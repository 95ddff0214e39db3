-- ===== src/Tests/Trees.antt =====
-- A tree for the tests: an ordered map that is saved in place.
use gears.Base.{◌≡◌, Option, none, some, ℕ, arith, if◌then◌else◌}
use gears.Base.Order.{Bytes, bytes_ord}
use gears.Base.Maps.{
  BtreeMap, IsAscending, get-insert, get-remove, insert-IsAscending, remove-IsAscending,
}
use gears.Base.Maps
use gears.KvStore.Bounds.{Bounds, map_range, contains_key, get-select, select-IsAscending}
use gears.KvStore.Tree.{PersistentTree}

abbrev saved : BtreeMap Bytes Bytes → Option (ℕ × BtreeMap Bytes Bytes)
saved t = some (0, t)

pub get-saved :
    (t t' : BtreeMap Bytes Bytes) (h : ℕ) (j : Bytes)
    → saved t ≡ some (h, t')
    → Maps.get j t' ≡ Maps.get j t
get-saved t t' h j e = ground arith

pub ranged-IsAscending :
    (t : BtreeMap Bytes Bytes) (r : Bounds) → IsAscending t → IsAscending (map_range t r)
unfolding map_range
ranged-IsAscending t r h = select-IsAscending (contains_key r) t h

pub get-ranged :
    (t : BtreeMap Bytes Bytes) (r : Bounds) (j : Bytes)
    → IsAscending t
    → Maps.get j (map_range t r) ≡ (if contains_key r j then Maps.get j t else none)
unfolding map_range
get-ranged t r j h = get-select (contains_key r) t j

abbrev pub map_tree : PersistentTree
map_tree = record {
  Tree = BtreeMap Bytes Bytes;
  Hash = ℕ;
  get = λ t k. Maps.get k t;
  set = λ t k v. Maps.insert k v t;
  remove = λ t k. Maps.remove k t;
  range = map_range;
  save_version = λ t. some (0, t);
  IsValid = IsAscending;
  set-IsValid = λ t k v h. insert-IsAscending k v t h;
  remove-IsValid = λ t k h. remove-IsAscending k t h;
  get-set = λ t k v j h. get-insert k j v t;
  get-remove = λ t k j other w h n e. get-remove k j t;
  get-save_version = λ t t' h j e. get-saved t t' h j e;
  range-IsAscending = ranged-IsAscending;
  get-range = get-ranged;
}
