-- ===== src/Iavl/Tree/Removes.antt =====
-- trees/src/iavl/tree.rs: `remove`.
use gears.Base.{ℕ, ◌+◌, ◌≡◌, refl, sym, ◌∙◌, ap, Option, none, some, [], ◌∷◌, subst, arith}
use gears.Base.Order.{Bytes, bytes_ord}
use gears.Base.Results.{ok, Answers, bind-Answers, both-Answers, weaken-Answers}
use gears.Base.Maps.{BtreeMap, IsAscending, remove-IsAscending, first_key}
use gears.Base.Maps
use gears.Iavl.Node.{Node, Hasher, leftmost_leaf_key}
use gears.Iavl.Shape.{IsBalanced}
use gears.Iavl.Keys.{to_list, IsKeyed, first_key-to_list}
use gears.Iavl.Merkle.{IsHashed}
use gears.Iavl.Remove.{Removed, recursive_remove}
use gears.Iavl.Remove.Outcomes.{missing, cut, done}
use gears.Iavl.Remove.Shrinks.{Shrinks, recursive_remove-Shrinks}
use gears.Iavl.Remove.Contents.{Removes, recursive_remove-Removes}
use gears.Iavl.Remove.Hashes.{Rehashes, recursive_remove-Rehashes}
use gears.Iavl.Tree.{Tree, remove}
use gears.Iavl.Tree.Valid.{IsSound, IsValid, entries}

-- A tree with a single entry keeps it.
abbrev pub remove_but_last : Bytes → BtreeMap Bytes Bytes → BtreeMap Bytes Bytes
remove_but_last key [] = []
remove_but_last key (e ∷ []) = e ∷ []
remove_but_last key (e ∷ f ∷ m) = Maps.remove key (e ∷ f ∷ m)

remove_but_last_absent :
    (key : Bytes) (m : BtreeMap Bytes Bytes) → Maps.get key m ≡ none → remove_but_last key m ≡ m
remove_but_last_absent key [] h = refl
remove_but_last_absent key (e ∷ []) h = refl
remove_but_last_absent key (e ∷ f ∷ m) h = Maps.remove_absent key (e ∷ f ∷ m) h

-- Where something is left, it is what `remove` leaves.
remove_but_last_of_left :
    (key k v : Bytes) (m : BtreeMap Bytes Bytes)
    → first_key (Maps.remove key m) ≡ some k
    → Maps.get key m ≡ some v
    → remove_but_last key m ≡ Maps.remove key m
unfolding Maps.get Maps.remove
remove_but_last_of_left key k v [] h g = refl
remove_but_last_of_left key k v ((j, w) ∷ []) h g = ground arith
remove_but_last_of_left key k v (e ∷ f ∷ m) h g = refl

module _ (h : Hasher) (version : ℕ) (key : Bytes) where
  Shrinks-IsBalanced : (n : Node) (x : Removed) → Shrinks h version n x → IsBalanced x.node
  Shrinks-IsBalanced n x (missing u (b, _, _)) = b
  Shrinks-IsBalanced n x (cut v u (_, b)) = b
  Shrinks-IsBalanced n x (done v k u (b, _, _)) = b

  Rehashes-IsHashed : (n : Node) (x : Removed) → Rehashes h version n x → IsHashed h x.node
  Rehashes-IsHashed n x (missing u (b, _)) = b
  Rehashes-IsHashed n x (cut v u b) = b
  Rehashes-IsHashed n x (done v k u b) = b

  -- The value that was there, and the entries that are left.
  abbrev Leaves : Node → Removed → Type 0
  Leaves n x =
      (x.value ≡ Maps.get key (to_list n))
      × (to_list x.node ≡ remove_but_last key (to_list n))
      × IsKeyed x.node
      × IsAscending (to_list x.node)

  Removes-Leaves :
      (n : Node) → IsAscending (to_list n) → (x : Removed) → Removes h version key n x → Leaves n x
  Removes-Leaves n s x (missing u (e, g, k)) =
      (sym g, e ∙ sym (remove_but_last_absent key (to_list n) g), k, subst IsAscending (sym e) s)
  Removes-Leaves n s x (cut v u (e, f, k)) = (
    sym (ap (Maps.get key) e ∙ Maps.get_single key v),
    f ∙ e ∙ sym (ap (remove_but_last key) e),
    k,
    subst IsAscending (sym f) s,
  )
  Removes-Leaves n s x (done v nk u (e, g, k, _)) = (
    sym g,
    e
        ∙ sym (
            remove_but_last_of_left key (leftmost_leaf_key u) v (to_list n)
              (ap first_key (sym e) ∙ first_key-to_list u) g),
    k,
    subst IsAscending (sym e) (remove-IsAscending key (to_list n) s),
  )

  recursive_remove-IsSound :
      (n : Node)
      → IsSound h n
      → Answers
          (recursive_remove h version key n)
          (λ x.
            IsSound h x.node
            × (x.value ≡ Maps.get key (to_list n))
            × (to_list x.node ≡ remove_but_last key (to_list n)))
          (λ _. ⊥)
  recursive_remove-IsSound n (b, k, s, hs) =
      let r = recursive_remove h version key n in
      weaken-Answers _ _ (λ _. ⊥) r
        (both-Answers _ _ (λ _. ⊥) r
          (both-Answers _ _ (λ _. ⊥) r (recursive_remove-Shrinks h version key n b)
            (recursive_remove-Removes h version key n k s))
          (recursive_remove-Rehashes h version key n hs))
        λ x ((p, q), t).
          let (g, e, k', s') = Removes-Leaves n s x q in
          ((Shrinks-IsBalanced n x p, k', s', Rehashes-IsHashed n x t), g, e)

module _ (h : Hasher) (key : Bytes) where
  remove-root :
      (root : Option Node) (t : Tree)
      → IsValid h (record t { root = root })
      → Answers
          (remove h key (record t { root = root }))
          (λ (v, u).
            IsValid h u
            × (v ≡ Maps.get key (entries (record t { root = root })))
            × (entries u ≡ remove_but_last key (entries (record t { root = root }))))
          (λ _. ⊥)
  unfolding remove IsValid entries Maps.get
  remove-root none t v = (tt, refl, refl)
  remove-root (some n) t v =
      bind-Answers _ (λ _. ⊥) (recursive_remove h (t.loaded_version + 1) key n)
        (λ x. ok (x.value, record t { root = some x.node }))
        (recursive_remove-IsSound h (t.loaded_version + 1) key n v) λ u p. p

  -- On a valid tree, `remove` returns, and leaves a valid tree.
  pub remove-IsValid :
      (t : Tree) → IsValid h t → Answers (remove h key t) (λ (v, u). IsValid h u) (λ _. ⊥)
  remove-IsValid t v =
      weaken-Answers _ (λ (v, u). IsValid h u) (λ _. ⊥) (remove h key t) (remove-root t.root t v)
        λ x p. p.0

  -- On a valid tree, `remove` returns the value under the key, if there is one, and takes the entry
  -- away, unless it is the last one, which stays.
  pub entries-remove :
      (t : Tree)
      → IsValid h t
      → Answers
          (remove h key t)
          (λ (v, u). (v ≡ Maps.get key (entries t)) × (entries u ≡ remove_but_last key (entries t)))
          (λ _. ⊥)
  entries-remove t v =
      weaken-Answers _
        (λ (v, u). (v ≡ Maps.get key (entries t)) × (entries u ≡ remove_but_last key (entries t)))
        (λ _. ⊥) (remove h key t) (remove-root t.root t v) λ x p. (p.1, p.2)
