-- ===== src/Iavl/Remove/Contents.antt =====
-- trees/src/iavl/tree.rs: the entries after a removal.
use gears.Base.{ℕ, ◌≡◌, refl, sym, ◌∙◌, ap, ◌++◌, ◌∷◌, [], inl, inr, Option, none, some, Bool-cases}
use mathlib.Core.List.{append-nil}
use gears.Base.Order.{Bytes, bytes_ord, ◌≟◌, ◌≺◌, eq_of_≟}
use gears.Base.Results.{ok, Answers, bind-Answers}
use gears.Base.Maps.{IsAscending, first_key}
use gears.Base.Maps
use gears.KvStore.Bounds.{lt_bytes, lt_bytes→≺, lt_bytes→not_≺}
use gears.Iavl.Node.{Node, leaf, inner, InnerNode, Hasher, hash, leftmost_leaf_key}
use gears.Iavl.Keys.{to_list, IsKeyed, leftmost_leaf_key-Same}
use gears.Iavl.Keys.Sides.{sides-IsAscending, get-left, get-right, remove-left, remove-right}
use gears.Iavl.Rotate.{update_height_and_size_and_balance}
use gears.Iavl.Rotate.Entries.{update_height_and_size_and_balance-Keeps}
use gears.Iavl.Remove.{
  Removed, changed, rekeyed, left_hash_set, right_hash_set, after_left, after_right,
  recursive_remove,
}
use gears.Iavl.Remove.Outcomes.{Outcome, missing, cut, done}

-- The key that is returned is the leftmost one, if that has changed.
abbrev pub Rekeys : Bytes → Option Bytes → Node → Type 0
Rekeys old none u = leftmost_leaf_key u ≡ old
Rekeys old (some k) u = leftmost_leaf_key u ≡ k

Rekeys-Same :
    (old : Bytes) (k : Option Bytes) (t u : Node)
    → leftmost_leaf_key u ≡ leftmost_leaf_key t
    → Rekeys old k t
    → Rekeys old k u
Rekeys-Same old none t u e r = e ∙ r
Rekeys-Same old (some k) t u e r = e ∙ r

module _ (h : Hasher) (version : ℕ) (key : Bytes) where
  -- The entry is removed, and its value returned.
  abbrev pub Removes : Node → Removed → Type 0
  Removes t =
      Outcome h (λ u. (to_list u ≡ to_list t) × (Maps.get key (to_list t) ≡ none) × IsKeyed u)
        (λ v u. (to_list t ≡ (key, v) ∷ []) × (to_list u ≡ to_list t) × IsKeyed u)
        (λ v k u.
          (to_list u ≡ Maps.remove key (to_list t))
          × (Maps.get key (to_list t) ≡ some v)
          × IsKeyed u
          × Rekeys (leftmost_leaf_key t) k u)

  read_leaf : (t : Node) (v : Bytes) → to_list t ≡ (key, v) ∷ [] → Maps.get key (to_list t) ≡ some v
  read_leaf t v e = ap (Maps.get key) e ∙ Maps.get_single key v

  removed_leaf :
      (t : Node) (v : Bytes) → to_list t ≡ (key, v) ∷ [] → Maps.remove key (to_list t) ≡ []
  removed_leaf t v e = ap (Maps.remove key) e ∙ Maps.remove_single key v

  after_left-Removes :
      (m : InnerNode) (l r : Node)
      → IsKeyed (inner m l r)
      → IsAscending (to_list (inner m l r))
      → key ≺ m.key
      → (x : Removed) → Removes l x
      → Answers (after_left h version m r x) (Removes (inner m l r)) (λ _. Unit)
  unfolding after_left IsKeyed to_list leftmost_leaf_key Maps.get Maps.remove
  after_left-Removes m l r (a, b, c) s less x (missing u (e, g, k)) =
      missing _ (ap (λ z. z ++ to_list r) e, get-left m l r (a, b, c) s key less ∙ g, (a, k, c))
  after_left-Removes m l r (a, b, c) s less x (cut v u (e, _, _)) = done v _ r (
    sym (remove-left m l r (a, b, c) s key less ∙ ap (λ z. z ++ to_list r) (removed_leaf l v e)),
    get-left m l r (a, b, c) s key less ∙ read_leaf l v e,
    c,
    refl,
  )
  after_left-Removes m l r (a, b, c) s less x (done v k u (e, g, d, f)) =
      let t = inner (left_hash_set version (hash h u) m) u r in
      bind-Answers (Removes (inner m l r)) (λ _. Unit)
        (update_height_and_size_and_balance h version t) (λ n. ok (changed h (some v) k n))
        (update_height_and_size_and_balance-Keeps h version t)
        λ n (same, keyed). done v k n (
          same ∙ ap (λ z. z ++ to_list r) e ∙ sym (remove-left m l r (a, b, c) s key less),
          get-left m l r (a, b, c) s key less ∙ g,
          keyed (a, d, c),
          Rekeys-Same (leftmost_leaf_key l) k u n (leftmost_leaf_key-Same n t same) f,
        )

  rekeyed-IsKeyed :
      (k : Option Bytes) (m : InnerNode) (l r u : Node)
      → m.key ≡ leftmost_leaf_key r
      → IsKeyed l
      → IsKeyed u
      → Rekeys (leftmost_leaf_key r) k u
      → IsKeyed (inner (rekeyed k m) l u)
  unfolding IsKeyed
  rekeyed-IsKeyed none m l r u a b d f = (a ∙ sym f, b, d)
  rekeyed-IsKeyed (some k) m l r u a b d f = (sym f, b, d)

  after_right-Removes :
      (m : InnerNode) (l r : Node)
      → IsKeyed (inner m l r)
      → IsAscending (to_list (inner m l r))
      → (key ≺ m.key → ⊥)
      → (x : Removed) → Removes r x
      → Answers (after_right h version m l x) (Removes (inner m l r)) (λ _. Unit)
  unfolding after_right IsKeyed to_list leftmost_leaf_key
  after_right-Removes m l r (a, b, c) s more x (missing u (e, g, k)) = missing _ (
    ap (λ z. to_list l ++ z) e,
    get-right m l r (a, b, c) s key more ∙ g,
    (a ∙ leftmost_leaf_key-Same r u (sym e), b, k),
  )
  after_right-Removes m l r (a, b, c) s more x (cut v u (e, _, _)) = done v _ l (
    sym (
        remove-right m l r (a, b, c) s key more
        ∙ ap (λ z. to_list l ++ z) (removed_leaf r v e)
        ∙ append-nil (to_list l)),
    get-right m l r (a, b, c) s key more ∙ read_leaf r v e,
    b,
    refl,
  )
  after_right-Removes m l r (a, b, c) s more x (done v k u (e, g, d, f)) =
      let n = right_hash_set version (hash h u) m in
      let t = inner (rekeyed k n) l u in
      bind-Answers (Removes (inner m l r)) (λ _. Unit)
        (update_height_and_size_and_balance h version t) (λ n. ok (changed h (some v) none n))
        (update_height_and_size_and_balance-Keeps h version t)
        λ y (same, keyed). done v none y (
          same ∙ ap (λ z. to_list l ++ z) e ∙ sym (remove-right m l r (a, b, c) s key more),
          get-right m l r (a, b, c) s key more ∙ g,
          keyed (rekeyed-IsKeyed k n l r u a b d f),
          leftmost_leaf_key-Same y t same,
        )

  pub recursive_remove-Removes :
      (t : Node)
      → IsKeyed t
      → IsAscending (to_list t)
      → Answers (recursive_remove h version key t) (Removes t) (λ _. Unit)
  unfolding recursive_remove to_list IsKeyed Maps.get
  recursive_remove-Removes (leaf k v w) a s = elim (Bool-cases (k ≟ key)) [
    | inl same ↦
        rw (same, recursive_remove)
          (cut v (leaf k v w) (ap (λ z. (z, v) ∷ []) (eq_of_≟ k key same), refl, tt))
    | inr other ↦ rw (other, recursive_remove) (missing (leaf k v w) (refl, refl, tt))
  ]
  recursive_remove-Removes (inner m l r) (a, b, c) s =
      let (sl, sr) = sides-IsAscending m l r (a, b, c) s in
      elim (Bool-cases (lt_bytes key m.key)) [
        | inl less ↦
            rw (less, recursive_remove)
              (bind-Answers _ _ (recursive_remove h version key l) _
                (recursive_remove-Removes l b sl)
                (after_left-Removes m l r (a, b, c) s (lt_bytes→≺ key m.key less)))
        | inr more ↦
            rw (more, recursive_remove)
              (bind-Answers _ _ (recursive_remove h version key r) _
                (recursive_remove-Removes r c sr)
                (after_right-Removes m l r (a, b, c) s (lt_bytes→not_≺ key m.key more)))
      ]
