-- ===== src/KvStore/Merge.antt =====
-- kv_store/src/utils.rs: the iterator that merges the cached entries `a` over the stored ones `b`.
pub mod Sound
use gears.Base.{Option, none, some, List, [], ◌∷◌, ◌++◌, ℕ, zero, suc, Ordering}
use gears.Base.Order.{Bytes, cmp_bytes}

pub record MergedRange : Type 0 where
  pub a : List (Bytes × Bytes)
  pub b : List (Bytes × Bytes)

-- The item and the iterator that is left; a front of a deque is the head of its list.
unfoldable pub next_of :
    List (Bytes × Bytes) → List (Bytes × Bytes) → Option (Bytes × Bytes) × MergedRange
next_of [] [] = (none, record { a = []; b = [] })
next_of [] (y ∷ b) = (some y, record { a = []; b = b })
next_of (x ∷ a) [] = (some x, record { a = a; b = [] })
next_of ((k, v) ∷ a) ((j, w) ∷ b) = elim (cmp_bytes k j) [
  | Ordering.lt ↦ (some (k, v), record { a = a; b = (j, w) ∷ b })
  | Ordering.eq ↦ (some (k, v), record { a = a; b = b })
  | Ordering.gt ↦ (some (j, w), record { a = (k, v) ∷ a; b = b })
]

-- `Iterator::next`
unfoldable pub next : MergedRange → Option (Bytes × Bytes) × MergedRange
unfolding next_of
next r = next_of r.a r.b

-- `collect`, on fuel: the items of the iterator, until it ends.
unfoldable pub drain : ℕ → MergedRange → List (Bytes × Bytes)
drain zero r = []
drain (suc fuel) r =
    let (item, rest) = next r in elim item [ none ↦ [] | some e ↦ e ∷ drain fuel rest ]
