-- ===== src/Iavl/Range/Backward.antt =====
-- trees/src/iavl/range/rev.rs: the entries that `traverse_rev` returns.
use gears.Base.{
  ℕ, ◌≤◌, ◌<◌, ◌≡◌, refl, sym, ◌∙◌, ap, inl, inr, zero, suc, ◌&&◌, ◌++◌, List, [], ◌∷◌, Option,
  none, some, Bool-cases, arith,
}
use mathlib.Core.List.{append_assoc, reverse, reverse-append}
use gears.Base.Order.{Bytes, bytes_ord}
use gears.Base.Maps.{BtreeMap, IsAscending}
use gears.KvStore.Bounds.{Bounds, after_start, before_end, contains_key, select}
use gears.Iavl.Node.{Node, leaf, inner, InnerNode}
use gears.Iavl.Keys.{to_list, IsKeyed}
use gears.Iavl.Keys.Sides.{sides-IsAscending}
use gears.Iavl.Range.{Range, push_if, traverse_rev, total_weight, next_back, collect}
use gears.Iavl.Range.Stacks.{AllSearch, weight_positive, push_if-AllSearch, push_if-weight}
use gears.Iavl.Range.Skips.{select-append, select-left, select-right}

-- What is in the range of the nodes of a stack, from right to left.
abbrev pub remaining_rev : Bounds → List Node → BtreeMap Bytes Bytes
remaining_rev b [] = []
remaining_rev b (n ∷ s) = reverse (select (contains_key b) (to_list n)) ++ remaining_rev b s

-- It returns the first of the remaining entries, and leaves the others.
abbrev pub YieldsBack : Bounds → List Node → Option (Bytes × Bytes) × List Node → Type 0
YieldsBack b s (none, t) = remaining_rev b s ≡ []
YieldsBack b s (some e, t) =
    (remaining_rev b s ≡ e ∷ remaining_rev b t) × AllSearch t × (total_weight t < total_weight s)

YieldsBack-of :
    (b : Bounds) (s u : List Node)
    → remaining_rev b s ≡ remaining_rev b u
    → total_weight u ≤ total_weight s
    → (x : Option (Bytes × Bytes) × List Node) → YieldsBack b u x
    → YieldsBack b s x
YieldsBack-of b s u e w (none, t) y = e ∙ y
YieldsBack-of b s u e w (some i, t) (f, a, g) = (e ∙ f, a, omega arith)

module _ (b : Bounds) (m : InnerNode) (l r : Node) (s : List Node) (keyed : IsKeyed (inner m l r))
    (asc : IsAscending (to_list (inner m l r))) where
  pushed_left :
      remaining_rev b (push_if (after_start b.start m.key) l s)
      ≡ reverse (select (contains_key b) (to_list l)) ++ remaining_rev b s
  pushed_left = elim (Bool-cases (after_start b.start m.key)) [
    | inl e ↦ rw e refl
    | inr e ↦ rw (e, select-left b m l r keyed asc e) refl
  ]

  reversed :
      reverse (select (contains_key b) (to_list (inner m l r)))
      ≡ reverse (select (contains_key b) (to_list r))
        ++ reverse (select (contains_key b) (to_list l))
  unfolding to_list
  reversed =
      ap reverse (select-append (contains_key b) (to_list l) (to_list r))
      ∙ reverse-append (select (contains_key b) (to_list l)) (select (contains_key b) (to_list r))

  pushed :
      remaining_rev b (push_if (before_end b.end m.key) r (push_if (after_start b.start m.key) l s))
      ≡ remaining_rev b (inner m l r ∷ s)
  pushed = elim (Bool-cases (before_end b.end m.key)) [
    | inl e ↦
        rw
          (
            e,
            reversed,
            append_assoc (reverse (select (contains_key b) (to_list r)))
                (reverse (select (contains_key b) (to_list l))) (remaining_rev b s),
          )
          (ap (λ z. reverse (select (contains_key b) (to_list r)) ++ z) pushed_left)
    | inr e ↦ rw (e, reversed, select-right b m l r keyed asc e) pushed_left
  ]

pub traverse_rev-YieldsBack :
    (fuel : ℕ) (b : Bounds) (s : List Node)
    → total_weight s ≤ fuel
    → AllSearch s
    → YieldsBack b s (traverse_rev fuel b s)
unfolding traverse_rev IsKeyed to_list select contains_key
traverse_rev-YieldsBack fuel b [] f a = refl
traverse_rev-YieldsBack zero b (n ∷ s) f a = let p = weight_positive n in absurd (omega arith)
traverse_rev-YieldsBack (suc fuel) b (leaf k v w ∷ s) f (a, c) =
    elim (Bool-cases (after_start b.start k && before_end b.end k)) [
      | inl e ↦ rw (e, traverse_rev) (rw e refl, c, omega arith)
      | inr e ↦
          rw (e, traverse_rev)
            (YieldsBack-of b (leaf k v w ∷ s) s (rw e refl) (omega arith) _
              (traverse_rev-YieldsBack fuel b s (omega arith) c))
    ]
traverse_rev-YieldsBack (suc fuel) b (inner m l r ∷ s) f ((keyed, asc), c) =
    let left = push_if (after_start b.start m.key) l s in
    let t = push_if (before_end b.end m.key) r left in
    let p = push_if-weight (after_start b.start m.key) l s in
    let q = push_if-weight (before_end b.end m.key) r left in
    let (sl, sr) = sides-IsAscending m l r keyed asc in
    YieldsBack-of b (inner m l r ∷ s) t (sym (pushed b m l r s keyed asc)) (omega arith)
      (traverse_rev fuel b t)
      (traverse_rev-YieldsBack fuel b t (omega arith) (
        push_if-AllSearch (before_end b.end m.key) r left (keyed.2, sr)
          (push_if-AllSearch (after_start b.start m.key) l s (keyed.1, sl) c)))

-- The item that comes first, and the iterator after it.
next_back_item :
    (fuel : ℕ) (r : Range) (x : Option (Bytes × Bytes) × List Node)
    → total_weight r.delayed_nodes_rev < suc fuel
    → YieldsBack r.range r.delayed_nodes_rev x
    → ((t : List Node)
        → AllSearch t
        → total_weight t < fuel
        → collect next_back fuel (record r { delayed_nodes_rev = t }) ≡ remaining_rev r.range t)
    → (elim x.0 [
      | none ↦ []
      | some e ↦ e ∷ collect next_back fuel (record r { delayed_nodes_rev = x.1 })
    ])
      ≡ remaining_rev r.range r.delayed_nodes_rev
next_back_item fuel r (none, t) w y step = sym y
next_back_item fuel r (some e, t) w (y, a, v) step =
    ap (λ z. e ∷ z) (step t a (omega arith)) ∙ sym y

-- The items are the entries that remain, in order.
pub collect-next_back :
    (fuel : ℕ) (r : Range)
    → AllSearch r.delayed_nodes_rev
    → total_weight r.delayed_nodes_rev < fuel
    → collect next_back fuel r ≡ remaining_rev r.range r.delayed_nodes_rev
unfolding collect next_back
collect-next_back zero r a w = absurd (omega arith)
collect-next_back (suc fuel) r a w =
    next_back_item fuel r
      (traverse_rev (total_weight r.delayed_nodes_rev) r.range r.delayed_nodes_rev) w
      (traverse_rev-YieldsBack (total_weight r.delayed_nodes_rev) r.range r.delayed_nodes_rev
        (omega arith) a)
      (λ t b v. collect-next_back fuel (record r { delayed_nodes_rev = t }) b v)
