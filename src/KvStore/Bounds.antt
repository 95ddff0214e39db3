-- ===== src/KvStore/Bounds.antt =====
-- `std::ops::Bound` and `RangeBounds::contains` over byte keys, and a range of an ordered map.
use gears.Base.{
  ◌≡◌, Bool, true, false, not, ◌&&◌, ◌||◌, none, [], ◌∷◌, arith, Ordering, All, if◌then◌else◌,
}
use gears.Base.Order.{Bytes, bytes_ord, cmp_bytes, cmp_bytes-eq, cmp_bytes-reverse, ◌≺◌, ◌≟◌}
use gears.Base.Maps.{BtreeMap, IsAscending}
use gears.Base.Maps

pub data Bound : Type 0 where
  included excluded : Bytes → Bound
  unbounded : Bound

pub record Bounds : Type 0 where
  pub start : Bound
  pub end : Bound

abbrev pub lt_bytes : Bytes → Bytes → Bool
lt_bytes a b = elim (cmp_bytes a b) [ Ordering.lt ↦ true | _ ↦ false ]

pub lt_bytes_asym : (a b : Bytes) → lt_bytes a b ≡ true → lt_bytes b a ≡ false
lt_bytes_asym a b h = ground (arith, cmp_bytes-reverse a b)

pub lt_bytes→≺ : (a b : Bytes) → lt_bytes a b ≡ true → a ≺ b
lt_bytes→≺ a b h = ground arith

pub lt_bytes→not_≺ : (a b : Bytes) → lt_bytes a b ≡ false → a ≺ b → ⊥
lt_bytes→not_≺ a b h = ground arith

pub lt_bytes_of_ne : (a b : Bytes) → lt_bytes a b ≡ false → (a ≟ b) ≡ false → lt_bytes b a ≡ true
lt_bytes_of_ne a b h n = ground (arith, cmp_bytes-reverse a b)

pub not_eq_of_≺ : (a b : Bytes) → a ≺ b → (b ≟ a) ≡ false
not_eq_of_≺ a b h = ground (arith, cmp_bytes-reverse a b)

abbrev pub after_start : Bound → Bytes → Bool
after_start (included b) k = not (lt_bytes k b)
after_start (excluded b) k = lt_bytes b k
after_start unbounded k = true

abbrev pub before_end : Bound → Bytes → Bool
before_end (included b) k = not (lt_bytes b k)
before_end (excluded b) k = lt_bytes k b
before_end unbounded k = true

unfoldable pub contains_key : Bounds → Bytes → Bool
contains_key r k = after_start r.start k && before_end r.end k

-- The entries of a map that a test on keys passes, in order.
unfoldable pub select : (Bytes → Bool) → BtreeMap Bytes Bytes → BtreeMap Bytes Bytes
select test [] = []
select test ((k, v) ∷ m) = let rest = select test m in if test k then (k, v) ∷ rest else rest

-- Bounds on which `BTreeMap::range` panics: the start above the end, or equal and both excluded.
abbrev pub inverted : Bound → Bound → Bool
inverted (included a) (included b) = lt_bytes b a
inverted (included a) (excluded b) = lt_bytes b a
inverted (excluded a) (included b) = lt_bytes b a
inverted (excluded a) (excluded b) = lt_bytes b a || (a ≟ b)
inverted (included a) unbounded = false
inverted (excluded a) unbounded = false
inverted unbounded e = false

-- A map without an entry is not searched, and does not panic.
unfoldable pub range_panics : BtreeMap Bytes Bytes → Bounds → Bool
range_panics [] r = false
range_panics (e ∷ m) r = inverted r.start r.end

-- `BTreeMap::range`, where it does not panic
unfoldable pub map_range : BtreeMap Bytes Bytes → Bounds → BtreeMap Bytes Bytes
map_range m r = select (contains_key r) m

select-All :
    (P : Bytes × Bytes → Type 0) (test : Bytes → Bool) (m : BtreeMap Bytes Bytes)
    → All P m
    → All P (select test m)
unfolding select
select-All P test [] a = tt
select-All P test ((k, v) ∷ m) a = ground (arith, select-All P test m a.1)

pub select-IsAscending :
    (test : Bytes → Bool) (m : BtreeMap Bytes Bytes) → IsAscending m → IsAscending (select test m)
unfolding select
select-IsAscending test [] s = tt
select-IsAscending test ((k, v) ∷ m) s = ground (
  arith,
  select-IsAscending test m s.1,
  select-All (λ (e : Bytes × Bytes). cmp_bytes k e.0 ≡ Ordering.lt) test m s.0,
)

test_of_eq : (test : Bytes → Bool) (k j : Bytes) → (k ≟ j) ≡ true → test k ≡ test j
test_of_eq test k j h = ground (arith, cmp_bytes-eq k j)

pub get-select :
    (test : Bytes → Bool) (m : BtreeMap Bytes Bytes) (j : Bytes)
    → Maps.get j (select test m) ≡ (if test j then Maps.get j m else none)
unfolding select Maps.get
get-select test [] j = ground arith
get-select test ((k, v) ∷ m) j = ground (arith, get-select test m j, test_of_eq test k j)
