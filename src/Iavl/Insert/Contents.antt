-- ===== src/Iavl/Insert/Contents.antt =====
-- trees/src/iavl/tree.rs: the entries after an insertion.
use gears.Base.{
  ℕ, ◌+◌, ◌≡◌, refl, sym, ◌∙◌, ◌++◌, [], ◌∷◌, ap, true, false, inl, inr, Bool-cases, ltb,
}
use gears.Base.Order.{Bytes, bytes_ord, cmp_bytes, cmp_bytes-eq, Ordering-cases}
use gears.Base.Results.{Result, ok, err, Answers, bind-Answers}
use gears.KvStore.Bounds.{lt_bytes, lt_bytes→≺, lt_bytes→not_≺}
use gears.Base.Maps
use gears.Base.Maps.{IsAscending, first_key}
use gears.Iavl.Node.{
  leftmost_leaf_key, Node, leaf, inner, InnerNode, InternalError, Hasher, get_height, get_key,
  update_height_and_size,
}
use gears.Iavl.Keys.{to_list, IsKeyed, leftmost_leaf_key_of}
use gears.Iavl.Keys.Sides.{sides-IsAscending, first_key-right, insert-left, insert-right}
use gears.Iavl.Insert.{rebalance, set_left, set_right, joined, recursive_set}
use gears.Iavl.Rotate.Keys.{
  Keeps, if-Keeps, right_rotate-Keeps, left_rotate-Keeps, left_right_rotate-Keeps,
  right_left_rotate-Keeps,
}

module _ (h : Hasher) (version : ℕ) where
  pub rebalance-Keeps :
      (key : Bytes) (m : InnerNode) (l r : Node)
      → Keeps (inner m l r) (rebalance h version key m l r)
  unfolding rebalance update_height_and_size to_list IsKeyed
  rebalance-Keeps key m l r =
      let t = inner m l r in
      let updated = record (update_height_and_size m l r) { version = version } in
      let loaded_left = record updated { left_loaded = true } in
      let loaded_right = record updated { right_loaded = true } in
      if-Keeps t (ltb (get_height r + 1) (get_height l)) _ _
        (if-Keeps t (lt_bytes key (get_key l)) _ _
          (right_rotate-Keeps h version (inner loaded_left l r))
          (left_right_rotate-Keeps h version loaded_left l r))
        (if-Keeps t (ltb (get_height l + 1) (get_height r)) _ _
          (if-Keeps t (lt_bytes (get_key r) key) _ _
            (left_rotate-Keeps h version (inner loaded_right l r))
            (right_left_rotate-Keeps h version loaded_right l r))
          (refl, λ k. k))

  abbrev Inserts : Bytes → Bytes → Node → Result InternalError Node → Type 0
  Inserts key value t r =
      Answers r (λ u. (to_list u ≡ Maps.insert key value (to_list t)) × IsKeyed u) (λ _. Unit)

  inserted :
      (key value : Bytes) (t u : Node) (r : Result InternalError Node)
      → to_list u ≡ Maps.insert key value (to_list t)
      → IsKeyed u
      → Keeps u r
      → Inserts key value t r
  inserted key value t u (ok n) e k (f, g) = (f ∙ e, g k)
  inserted key value t u (err x) e k f = tt

  left-Inserts :
      (key value : Bytes) (m : InnerNode) (l l' r : Node)
      → IsKeyed (inner m l r)
      → IsAscending (to_list (inner m l r))
      → lt_bytes key m.key ≡ true
      → (to_list l' ≡ Maps.insert key value (to_list l))
      → IsKeyed l'
      → Inserts key value (inner m l r) (rebalance h version key (set_left h m l') l' r)
  unfolding to_list IsKeyed
  left-Inserts key value m l l' r (a, b, c) s less e k =
      inserted key value (inner m l r) (inner (set_left h m l') l' r) _
        (ap (λ x. x ++ to_list r) e
          ∙ sym (insert-left m l r (a, b, c) s key value (lt_bytes→≺ key m.key less)))
        (a, k, c) (rebalance-Keeps key (set_left h m l') l' r)

  right-Inserts :
      (key value : Bytes) (m : InnerNode) (l r r' : Node)
      → IsKeyed (inner m l r)
      → IsAscending (to_list (inner m l r))
      → lt_bytes key m.key ≡ false
      → (to_list r' ≡ Maps.insert key value (to_list r))
      → IsKeyed r'
      → Inserts key value (inner m l r) (rebalance h version key (set_right h m r') l r')
  unfolding to_list IsKeyed
  right-Inserts key value m l r r' (a, b, c) s less e k =
      let more = lt_bytes→not_≺ key m.key less in
      let start =
        Maps.first_key-insert key value m.key (to_list r) (first_key-right m l r (a, b, c) s)
          more in
      inserted key value (inner m l r) (inner (set_right h m r') l r') _
        (ap (λ x. to_list l ++ x) e ∙ sym (insert-right m l r (a, b, c) s key value more))
        (sym (leftmost_leaf_key_of r' m.key (ap first_key e ∙ start)), b, k)
        (rebalance-Keeps key (set_right h m r') l r')

  pub recursive_set-Inserts :
      (key value : Bytes) (t : Node)
      → IsKeyed t
      → IsAscending (to_list t)
      → Inserts key value t (recursive_set h version key value t)
  unfolding recursive_set joined to_list IsKeyed leftmost_leaf_key Maps.insert
  recursive_set-Inserts key value (leaf k v w) a s = elim (Ordering-cases (cmp_bytes key k)) [
    | inl e ↦ rw (e, recursive_set, Maps.insert) (refl, (refl, tt, tt))
    | inr (inl e) ↦
        rw (e, recursive_set, Maps.insert)
          (ap (λ x. (x, value) ∷ []) (sym (cmp_bytes-eq key k e)), tt)
    | inr (inr e) ↦ rw (e, recursive_set, Maps.insert) (refl, (refl, tt, tt))
  ]
  recursive_set-Inserts key value (inner m l r) (a, b, c) s =
      let (sl, sr) = sides-IsAscending m l r (a, b, c) s in
      elim (Bool-cases (lt_bytes key m.key)) [
        | inl less ↦
            rw (less, recursive_set)
              (bind-Answers _ _ (recursive_set h version key value l) _
                (recursive_set-Inserts key value l b sl)
                λ l' (e, k). left-Inserts key value m l l' r (a, b, c) s less e k)
        | inr more ↦
            rw (more, recursive_set)
              (bind-Answers _ _ (recursive_set h version key value r) _
                (recursive_set-Inserts key value r c sr)
                λ r' (e, k). right-Inserts key value m l r r' (a, b, c) s more e k)
      ]
