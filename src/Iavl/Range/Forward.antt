-- ===== src/Iavl/Range/Forward.antt =====
-- trees/src/iavl/range/mod.rs: the entries that `traverse` returns.
use gears.Base.{
  ℕ, ◌≤◌, ◌<◌, ◌≡◌, refl, sym, ◌∙◌, ap, inl, inr, zero, suc, ◌&&◌, ◌++◌, List, [], ◌∷◌, Option,
  none, some, Bool-cases, arith,
}
use mathlib.Core.List.{append_assoc}
use gears.Base.Order.{Bytes, bytes_ord}
use gears.Base.Maps.{BtreeMap, IsAscending}
use gears.KvStore.Bounds.{Bounds, after_start, before_end, contains_key, select}
use gears.Iavl.Node.{Node, leaf, inner, InnerNode}
use gears.Iavl.Keys.{to_list, IsKeyed}
use gears.Iavl.Keys.Sides.{sides-IsAscending}
use gears.Iavl.Range.{Range, push_if, traverse, total_weight, next, collect}
use gears.Iavl.Range.Stacks.{AllSearch, weight_positive, push_if-AllSearch, push_if-weight}
use gears.Iavl.Range.Skips.{select-append, select-left, select-right}

-- What is in the range of the nodes of a stack, from left to right.
abbrev pub remaining : Bounds → List Node → BtreeMap Bytes Bytes
remaining b [] = []
remaining b (n ∷ s) = select (contains_key b) (to_list n) ++ remaining b s

-- It returns the first of the remaining entries, and leaves the others.
abbrev pub Yields : Bounds → List Node → Option (Bytes × Bytes) × List Node → Type 0
Yields b s (none, t) = remaining b s ≡ []
Yields b s (some e, t) =
    (remaining b s ≡ e ∷ remaining b t) × AllSearch t × (total_weight t < total_weight s)

Yields-of :
    (b : Bounds) (s u : List Node)
    → remaining b s ≡ remaining b u
    → total_weight u ≤ total_weight s
    → (x : Option (Bytes × Bytes) × List Node) → Yields b u x
    → Yields b s x
Yields-of b s u e w (none, t) y = e ∙ y
Yields-of b s u e w (some i, t) (f, a, g) = (e ∙ f, a, omega arith)

module _ (b : Bounds) (m : InnerNode) (l r : Node) (s : List Node) (keyed : IsKeyed (inner m l r))
    (asc : IsAscending (to_list (inner m l r))) where
  pushed_right :
      remaining b (push_if (before_end b.end m.key) r s)
      ≡ select (contains_key b) (to_list r) ++ remaining b s
  pushed_right = elim (Bool-cases (before_end b.end m.key)) [
    | inl e ↦ rw e refl
    | inr e ↦ rw (e, select-right b m l r keyed asc e) refl
  ]

  pushed :
      remaining b (push_if (after_start b.start m.key) l (push_if (before_end b.end m.key) r s))
      ≡ remaining b (inner m l r ∷ s)
  unfolding to_list
  pushed = elim (Bool-cases (after_start b.start m.key)) [
    | inl e ↦
        rw
          (
            e,
            select-append (contains_key b) (to_list l) (to_list r),
            append_assoc (select (contains_key b) (to_list l)) (select (contains_key b) (to_list r))
                (remaining b s),
          )
          (ap (λ z. select (contains_key b) (to_list l) ++ z) pushed_right)
    | inr e ↦
        rw
          (
            e,
            select-append (contains_key b) (to_list l) (to_list r),
            select-left b m l r keyed asc e,
          )
          pushed_right
  ]

pub traverse-Yields :
    (fuel : ℕ) (b : Bounds) (s : List Node)
    → total_weight s ≤ fuel
    → AllSearch s
    → Yields b s (traverse fuel b s)
unfolding traverse IsKeyed to_list select contains_key
traverse-Yields fuel b [] f a = refl
traverse-Yields zero b (n ∷ s) f a = let p = weight_positive n in absurd (omega arith)
traverse-Yields (suc fuel) b (leaf k v w ∷ s) f (a, c) =
    elim (Bool-cases (after_start b.start k && before_end b.end k)) [
      | inl e ↦ rw (e, traverse) (rw e refl, c, omega arith)
      | inr e ↦
          rw (e, traverse)
            (Yields-of b (leaf k v w ∷ s) s (rw e refl) (omega arith) _
              (traverse-Yields fuel b s (omega arith) c))
    ]
traverse-Yields (suc fuel) b (inner m l r ∷ s) f ((keyed, asc), c) =
    let right = push_if (before_end b.end m.key) r s in
    let t = push_if (after_start b.start m.key) l right in
    let p = push_if-weight (before_end b.end m.key) r s in
    let q = push_if-weight (after_start b.start m.key) l right in
    let (sl, sr) = sides-IsAscending m l r keyed asc in
    Yields-of b (inner m l r ∷ s) t (sym (pushed b m l r s keyed asc)) (omega arith)
      (traverse fuel b t)
      (traverse-Yields fuel b t (omega arith) (
        push_if-AllSearch (after_start b.start m.key) l right (keyed.1, sl)
          (push_if-AllSearch (before_end b.end m.key) r s (keyed.2, sr) c)))

-- The item that comes first, and the iterator after it.
next_item :
    (fuel : ℕ) (r : Range) (x : Option (Bytes × Bytes) × List Node)
    → total_weight r.delayed_nodes < suc fuel
    → Yields r.range r.delayed_nodes x
    → ((t : List Node)
        → AllSearch t
        → total_weight t < fuel
        → collect next fuel (record r { delayed_nodes = t }) ≡ remaining r.range t)
    → (elim x.0 [ none ↦ [] | some e ↦ e ∷ collect next fuel (record r { delayed_nodes = x.1 }) ])
      ≡ remaining r.range r.delayed_nodes
next_item fuel r (none, t) w y step = sym y
next_item fuel r (some e, t) w (y, a, v) step = ap (λ z. e ∷ z) (step t a (omega arith)) ∙ sym y

-- The items are the entries that remain, in order.
pub collect-next :
    (fuel : ℕ) (r : Range)
    → AllSearch r.delayed_nodes
    → total_weight r.delayed_nodes < fuel
    → collect next fuel r ≡ remaining r.range r.delayed_nodes
unfolding collect next
collect-next zero r a w = absurd (omega arith)
collect-next (suc fuel) r a w =
    next_item fuel r (traverse (total_weight r.delayed_nodes) r.range r.delayed_nodes) w
      (traverse-Yields (total_weight r.delayed_nodes) r.range r.delayed_nodes (omega arith) a)
      (λ t b v. collect-next fuel (record r { delayed_nodes = t }) b v)
