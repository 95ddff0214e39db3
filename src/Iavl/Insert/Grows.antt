-- ===== src/Iavl/Insert/Grows.antt =====
-- trees/src/iavl/tree.rs: the heights after an insertion.
use gears.Base.{ℕ, ◌≡◌, refl, sym, ◌∙◌, ◌⊎◌, inl, inr, true, false, Bool-cases, subst, arith}
use gears.Base.Order.{Bytes}
use gears.Base.Results.{Result, ok, err, Answers}
use gears.KvStore.Bounds.{lt_bytes}
use gears.Iavl.Node.{Node, leaf, inner, InnerNode, InternalError, Hasher, get_height, get_size, max}
use gears.Iavl.Shape.{IsBalanced, Leans, Grown}
use gears.Iavl.Insert.{rebalance}
use gears.Iavl.Insert.{recursive_set, set_left, set_right, joined}
use gears.Iavl.Insert.Cases.{Fits, kept}
use gears.Iavl.Insert.Climbs.{rebalance-left, rebalance-right}
use gears.Base.Maps
use gears.Base.Maps.{IsAscending}
use gears.Iavl.Keys.{to_list, IsKeyed, leftmost_below}
use gears.Iavl.Node.{leftmost_leaf_key}
use gears.Base.Order.{bytes_ord, ◌≟◌, ◌≺◌, cmp_bytes, Ordering-cases, cmp_bytes_trans}
use gears.KvStore.Bounds.{lt_bytes→≺, not_eq_of_≺, lt_bytes_of_ne}
use gears.Base.Results.{bind-Answers}
use gears.Iavl.Rotate.Balance.{Balances}

module _ (h : Hasher) (version : ℕ) (key : Bytes) where
  -- A height that grows is that of a tree without the key.
  abbrev pub Grows : ℕ → Bytes → Node → Type 0
  Grows height least u =
      IsBalanced u × Grown key height u × ((get_height u ≡ height) ⊎ ((key ≟ least) ≡ false))

  same-Grows :
      (a height : ℕ)
      → a ≡ height
      → (least : Bytes) (r : Result InternalError Node) → Answers r (Balances a) (λ _. ⊥)
      → Answers r (Grows height least) (λ _. ⊥)
  unfolding Grown
  same-Grows a height h least (ok u) (b, e) = (b, inl (e ∙ h), inl (e ∙ h))
  same-Grows a height h least (err x) b = b

  fresh-Grows :
      (a height : ℕ)
      → a ≡ height
      → (least : Bytes) (m : InnerNode) (r : Result InternalError Node) → (key ≟ least) ≡ false
      → Fits h version key m a r
      → Answers r (Grows height least) (λ _. ⊥)
  fresh-Grows a height e least m (ok u) f (b, g) = (b, subst (λ n. Grown key n u) e g, inr f)
  fresh-Grows a height e least m (err x) f b = b

  left-Grows :
      (m : InnerNode) (l l' r : Node)
      → IsBalanced (inner m l r)
      → lt_bytes key m.key ≡ true
      → Grows (get_height l) (leftmost_leaf_key l) l'
      → Answers
          (rebalance h version key (set_left h m l') l' r)
          (Grows m.height (leftmost_leaf_key l))
          (λ _. ⊥)
  unfolding IsBalanced
  left-Grows m l l' r (eh, es, a, b, bl, br) less (bl', g, inl e) =
      same-Grows _ m.height (rw e (sym eh)) _ _
        (kept h version key (set_left h m l') l' r bl' br (omega arith) (omega arith))
  left-Grows m l l' r (eh, es, a, b, bl, br) less (bl', g, inr f) =
      fresh-Grows _ m.height (sym eh) _ (set_left h m l') _ f
        (rebalance-left h version key (set_left h m l') (get_height l) l' r bl' br g a b less)

  right-Grows :
      (m : InnerNode) (l r r' : Node)
      → IsBalanced (inner m l r)
      → m.key ≡ leftmost_leaf_key r
      → leftmost_leaf_key l ≺ m.key
      → lt_bytes key m.key ≡ false
      → Grows (get_height r) (leftmost_leaf_key r) r'
      → Answers
          (rebalance h version key (set_right h m r') l r')
          (Grows m.height (leftmost_leaf_key l))
          (λ _. ⊥)
  unfolding IsBalanced
  right-Grows m l r r' (eh, es, a, b, bl, br) k low more (br', g, inl e) =
      same-Grows _ m.height (rw e (sym eh)) _ _
        (kept h version key (set_right h m r') l r' bl br' (omega arith) (omega arith))
  right-Grows m l r r' (eh, es, a, b, bl, br) k low more (br', g, inr f) =
      let above = lt_bytes_of_ne key m.key more (rw k f) in
      fresh-Grows _ m.height (sym eh) _ (set_right h m r') _
        (not_eq_of_≺ (leftmost_leaf_key l) key
          (cmp_bytes_trans _ m.key key low (lt_bytes→≺ m.key key above)))
        (rebalance-right h version key (set_right h m r') (get_height r) l r' bl br' g above a b)

  pub recursive_set-Grows :
      (value : Bytes) (t : Node)
      → IsBalanced t
      → IsKeyed t
      → IsAscending (to_list t)
      → Answers
          (recursive_set h version key value t)
          (Grows (get_height t) (leftmost_leaf_key t))
          (λ _. ⊥)
  unfolding recursive_set joined IsBalanced Grown Leans IsKeyed leftmost_leaf_key get_height
      get_size max to_list
  recursive_set-Grows value (leaf k v w) b a s = elim (Ordering-cases (cmp_bytes key k)) [
    | inl e ↦
        rw (e, recursive_set)
          ((refl, refl, omega arith, omega arith, tt, tt), inr (refl, inl refl), inr (ground arith))
    | inr (inl e) ↦ rw (e, recursive_set) (tt, inl refl, inl refl)
    | inr (inr e) ↦
        rw (e, recursive_set)
          ((refl, refl, omega arith, omega arith, tt, tt), inr (refl, inl refl), inr (ground arith))
  ]
  recursive_set-Grows value (inner m l r) (eh, es, e, f, bl, br) (a, b, c) s =
      let (sl, sr) = Maps.IsAscending-append (to_list l) (to_list r) s in
      elim (Bool-cases (lt_bytes key m.key)) [
        | inl less ↦
            rw (less, recursive_set)
              (bind-Answers _ _ (recursive_set h version key value l) _
                (recursive_set-Grows value l bl b sl)
                λ l' g. left-Grows m l l' r (eh, es, e, f, bl, br) less g)
        | inr more ↦
            rw (more, recursive_set)
              (bind-Answers _ _ (recursive_set h version key value r) _
                (recursive_set-Grows value r br c sr)
                λ r' g.
                  right-Grows m l r r' (eh, es, e, f, bl, br) a (leftmost_below m l r (a, b, c) s)
                    more g)
      ]
