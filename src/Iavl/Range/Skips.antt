-- ===== src/Iavl/Range/Skips.antt =====
-- trees/src/iavl/range: the children that a range leaves out.
use gears.Base.{◌≡◌, refl, Bool, false, ◌++◌, [], ◌∷◌, All, arith}
use gears.Base.Order.{Bytes, bytes_ord, cmp_bytes-eq, cmp_bytes-reverse, cmp_bytes_trans, ◌≺◌}
use gears.Base.Maps.{BtreeMap, IsAscending}
use gears.KvStore.Bounds.{
  Bounds, Bound, included, excluded, unbounded, after_start, before_end, contains_key, select,
}
use gears.Iavl.Node.{Node, inner, InnerNode}
use gears.Iavl.Keys.{to_list, IsKeyed}
use gears.Iavl.Keys.Sides.{left_below, right_from}

before_start_trans :
    (b : Bound) (k j : Bytes) → k ≺ j → after_start b j ≡ false → after_start b k ≡ false
before_start_trans (included b) k j l h = ground (arith, cmp_bytes_trans k j b)
before_start_trans (excluded b) k j l h = ground (arith, cmp_bytes_trans b k j)
before_start_trans unbounded k j l h = cc

after_end_trans :
    (b : Bound) (j k : Bytes) → (k ≺ j → ⊥) → before_end b j ≡ false → before_end b k ≡ false
after_end_trans (included b) j k l h =
    ground (arith, cmp_bytes_trans b j k, cmp_bytes-eq k j, cmp_bytes-reverse k j)
after_end_trans (excluded b) j k l h =
    ground (arith, cmp_bytes_trans j k b, cmp_bytes-eq j b, cmp_bytes-eq k j, cmp_bytes-reverse k j)
after_end_trans unbounded j k l h = cc

pub select-append :
    (test : Bytes → Bool) (xs ys : BtreeMap Bytes Bytes)
    → select test (xs ++ ys) ≡ select test xs ++ select test ys
unfolding select
select-append test [] ys = refl
select-append test ((k, v) ∷ xs) ys = ground (arith, select-append test xs ys)

select-none :
    (P : Bytes → Type 0) (test : Bytes → Bool)
    → ((k : Bytes) → P k → test k ≡ false)
    → (m : BtreeMap Bytes Bytes) → All (λ (e : Bytes × Bytes). P e.0) m
    → select test m ≡ []
unfolding select
select-none P test f [] a = refl
select-none P test f ((k, v) ∷ m) a = rw (f k a.0) (select-none P test f m a.1)

contains_key-before :
    (b : Bounds) (k : Bytes) → after_start b.start k ≡ false → contains_key b k ≡ false
unfolding contains_key
contains_key-before b k e = rw e refl

contains_key-after :
    (b : Bounds) (k : Bytes) → before_end b.end k ≡ false → contains_key b k ≡ false
unfolding contains_key
contains_key-after b k e = ground arith

self_not_less : (k : Bytes) → k ≺ k → ⊥
self_not_less k h = ground (arith, cmp_bytes-reverse k k)

module _ (b : Bounds) (m : InnerNode) (l r : Node) (keyed : IsKeyed (inner m l r))
    (s : IsAscending (to_list (inner m l r))) where
  -- Where the node's key is not after the start, no entry of the left child is in the range.
  pub select-left : after_start b.start m.key ≡ false → select (contains_key b) (to_list l) ≡ []
  select-left e =
      select-none (λ k. k ≺ m.key) (contains_key b)
        (λ k x. contains_key-before b k (before_start_trans b.start k m.key x e)) (to_list l)
        (left_below m l r keyed s m.key (self_not_less m.key))

  -- Where the node's key is not before the end, no entry of the right child is in the range.
  pub select-right : before_end b.end m.key ≡ false → select (contains_key b) (to_list r) ≡ []
  select-right e =
      select-none (λ k. k ≺ m.key → ⊥) (contains_key b)
        (λ k x. contains_key-after b k (after_end_trans b.end m.key k x e)) (to_list r)
        (right_from m l r keyed s)
