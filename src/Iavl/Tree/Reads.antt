-- ===== src/Iavl/Tree/Reads.antt =====
-- trees/src/iavl/tree.rs: `get` and `range`.
use gears.Base.{
  ap, ℕ, ◌+◌, ◌≡◌, refl, sym, ◌∙◌, inl, inr, Option, none, some, [], ◌∷◌, Bool-cases, arith,
}
use mathlib.Core.List.{append-nil, reverse}
use gears.Base.Order.{Bytes, bytes_ord}
use gears.Base.Maps.{IsAscending}
use gears.Base.Maps
use gears.KvStore.Bounds.{Bounds, contains_key, select, lt_bytes, lt_bytes→≺, lt_bytes→not_≺}
use gears.Iavl.Node.{Node, leaf, inner, Hasher}
use gears.Iavl.Keys.{to_list, IsKeyed}
use gears.Iavl.Keys.Sides.{sides-IsAscending, get-left, get-right}
use gears.Iavl.Range.{new_range, next, next_back, collect, total_weight}
use gears.Iavl.Range.Stacks.{AllSearch}
use gears.Iavl.Range.Forward.{collect-next}
use gears.Iavl.Range.Backward.{collect-next_back}
use gears.Iavl.NodeDb.{shallow_clone}
use gears.Iavl.Tree.{Tree, get, get_, map_root}
use gears.Iavl.Tree.Valid.{IsValid, entries}

get_-to_list :
    (key : Bytes) (n : Node)
    → IsKeyed n
    → IsAscending (to_list n)
    → get_ key n ≡ Maps.get key (to_list n)
unfolding get_ IsKeyed to_list Maps.get
get_-to_list key (leaf k v w) a s = refl
get_-to_list key (inner m l r) (a, b, c) s =
    let (sl, sr) = sides-IsAscending m l r (a, b, c) s in
    elim (Bool-cases (lt_bytes key m.key)) [
      | inl less ↦
          rw (less, get_)
            (get_-to_list key l b sl
              ∙ sym (get-left m l r (a, b, c) s key (lt_bytes→≺ key m.key less)))
      | inr more ↦
          rw (more, get_)
            (get_-to_list key r c sr
              ∙ sym (get-right m l r (a, b, c) s key (lt_bytes→not_≺ key m.key more)))
    ]

get_-shallow_clone : (j : Bytes) (n : Node) → get_ j (shallow_clone n) ≡ get_ j n
unfolding get_ shallow_clone
get_-shallow_clone j (leaf k v w) = refl
get_-shallow_clone j (inner m l r) = rw (get_-shallow_clone j l) (rw (get_-shallow_clone j r) refl)

-- A root without its loaded children reads as before.
pub get-roots :
    (j : Bytes) (root other : Option Node) (t u : Tree)
    → other ≡ map_root shallow_clone root
    → get j (record u { root = other }) ≡ get j (record t { root = root })
unfolding get
get-roots j none none t u e = refl
get-roots j none (some m) t u e = absurd cc
get-roots j (some n) none t u e = absurd cc
get-roots j (some n) (some m) t u e =
    let f : m ≡ shallow_clone n = cc in ap (get_ j) f ∙ get_-shallow_clone j n

module _ (h : Hasher) where
  get-root :
      (key : Bytes) (root : Option Node) (t : Tree)
      → IsValid h (record t { root = root })
      → get key (record t { root = root }) ≡ Maps.get key (entries (record t { root = root }))
  unfolding get IsValid entries Maps.get
  get-root key none t v = refl
  get-root key (some n) t v = get_-to_list key n v.1 v.2

  -- On a valid tree, `get` finds what the entries hold under the key.
  pub get-entries : (key : Bytes) (t : Tree) → IsValid h t → get key t ≡ Maps.get key (entries t)
  get-entries key t v = get-root key t.root t v

  root-Search :
      (root : Option Node) (t : Tree) (b : Bounds)
      → IsValid h (record t { root = root })
      → AllSearch (new_range b root).delayed_nodes
  unfolding new_range IsValid
  root-Search none t b v = tt
  root-Search (some n) t b v = ((v.1, v.2), tt)

  -- The number of steps that are enough for every item of a range.
  abbrev pub steps : Tree → ℕ
  steps t = elim t.root [ none ↦ 1 | some n ↦ total_weight (n ∷ []) + 1 ]

  range-root :
      (root : Option Node) (t : Tree) (b : Bounds)
      → IsValid h (record t { root = root })
      → (collect next (steps (record t { root = root })) (new_range b root)
          ≡ select (contains_key b) (entries (record t { root = root })))
        × (collect next_back (steps (record t { root = root })) (new_range b root)
            ≡ reverse (select (contains_key b) (entries (record t { root = root }))))
  unfolding new_range entries select IsValid
  range-root none t b v = (
    collect-next 1 (new_range b none) tt (omega arith),
    collect-next_back 1 (new_range b none) tt (omega arith),
  )
  range-root (some n) t b v = (
    collect-next _ (new_range b (some n)) ((v.1, v.2), tt) (omega arith)
        ∙ append-nil (select (contains_key b) (to_list n)),
    collect-next_back _ (new_range b (some n)) ((v.1, v.2), tt) (omega arith)
        ∙ append-nil (reverse (select (contains_key b) (to_list n))),
  )

  -- On a valid tree, the iterator of a range ends, and its items are the entries in the range, in
  -- order from the front and in reverse order from the back.
  pub collect-range :
      (t : Tree) (b : Bounds)
      → IsValid h t
      → (collect next (steps t) (new_range b t.root) ≡ select (contains_key b) (entries t))
        × (collect next_back (steps t) (new_range b t.root)
            ≡ reverse (select (contains_key b) (entries t)))
  collect-range t b v = range-root t.root t b v
