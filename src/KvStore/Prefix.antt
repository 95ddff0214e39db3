-- ===== src/KvStore/Prefix.antt =====
-- kv_store/src/store/prefix: a store seen through a prefix of its keys.
pub mod Exact
use gears.Base.{
  Bool, true, false, Option, none, some, List, [], ◌∷◌, ◌++◌, ℕ, zero, suc, ◌+◌, ◌==◌, length,
  if◌then◌else◌,
}
use gears.Base.Order.{Bytes}
use mathlib.Core.List.{reverse}
use gears.KvStore.Bounds.{Bound, included, excluded, unbounded, Bounds}
use gears.KvStore.Tree.{PersistentTree}
use gears.KvStore.Merge.{MergedRange, next}
use gears.KvStore.Transaction.{TransactionKvBank}
use gears.KvStore.Transaction

-- The loop of `prefix_end_bound`, on the bytes from the last one back.
unfoldable pub end_loop : List ℕ → Bound
end_loop [] = unbounded
end_loop (last ∷ rest) = elim (last == 255) [
  | false ↦ excluded (reverse ((last + 1) ∷ rest))
  | true ↦ end_loop rest
]

unfoldable pub prefix_end_bound : Bytes → Bound
unfolding end_loop
prefix_end_bound prefix = end_loop (reverse prefix)

abbrev start_of : Bytes → Bound → Bound
start_of prefix (included b) = included (prefix ++ b)
start_of prefix (excluded b) = excluded (prefix ++ b)
start_of prefix unbounded = included prefix

abbrev end_of : Bytes → Bound → Bound
end_of prefix (included b) = included (prefix ++ b)
end_of prefix (excluded b) = excluded (prefix ++ b)
end_of prefix unbounded = prefix_end_bound prefix

-- The bounds on whole keys that `into_range` asks of the store below.
unfoldable pub full_bounds : Bytes → Bounds → Bounds
unfolding prefix_end_bound
full_bounds prefix r = record { start = start_of prefix r.start; end = end_of prefix r.end }

-- `&first[n..]`
abbrev pub drop : ℕ → Bytes → Bytes
drop zero k = k
drop (suc n) [] = []
drop (suc n) (x ∷ k) = drop n k

-- `PrefixRange::next`
unfoldable pub next_entry : ℕ → MergedRange → Option (Bytes × Bytes) × MergedRange
next_entry prefix_length r =
    let (item, rest) = next r in
    (elim item [ none ↦ none | some (k, v) ↦ some (drop prefix_length k, v) ], rest)

module _ (p : PersistentTree) where
  open p use {Tree}

  -- `MutablePrefixStore`, over a transaction bank.
  unfoldable pub get : Bytes → Tree → TransactionKvBank → Bytes → Option Bytes
  get prefix t b k = Transaction.get p t b (prefix ++ k)

  unfoldable pub delete :
      Bytes → Tree → TransactionKvBank → Bytes → Option Bytes × TransactionKvBank
  delete prefix t b k = Transaction.delete p t b (prefix ++ k)

unfoldable pub set : Bytes → TransactionKvBank → Bytes → Bytes → TransactionKvBank
set prefix b k v = Transaction.set b (prefix ++ k) v
