-- ===== src/KvStore/Prefix/Exact.antt =====
-- The range of a whole prefix store holds the keys with the prefix, and no others.
use gears.Base.{
  ◌≡◌, ◌≢◌, refl, ◌∙◌, ap, Bool, true, false, ◌&&◌, some, List, [], ◌∷◌, ◌++◌, ℕ, ◌+◌, ◌<◌, ◌==◌,
  arith, All, if◌then◌else◌, Ordering,
}
use gears.Base.Order.{Bytes, bytes_ord, ◌≟◌, cmp_bytes, cmp_bytes-eq}
use mathlib.Core.List.{reverse, reverse-append}
use gears.KvStore.Bounds.{
  Bound, included, excluded, unbounded, contains_key, before_end, after_start,
}
use gears.KvStore.Tree.{PersistentTree}
use gears.KvStore.Transaction.{TransactionKvBank}
use gears.KvStore.Transaction
use gears.KvStore.Transaction.Views
use gears.KvStore.Prefix.{end_loop, prefix_end_bound, full_bounds, get, set}

-- The key begins with the prefix.
abbrev pub begins_with : Bytes → Bytes → Bool
begins_with [] k = true
begins_with (x ∷ prefix) [] = false
begins_with (x ∷ prefix) (y ∷ k) = (y == x) && begins_with prefix k

abbrev IsByte : ℕ → Type 0
IsByte x = x < 256

-- One byte more, at the front.
abbrev end_after : ℕ → Bound → Bound
end_after x (excluded e) = excluded (x ∷ e)
end_after x (included e) = included (x ∷ e)
end_after x unbounded = if x == 255 then unbounded else excluded ((x + 1) ∷ [])

end_loop-append : (ys : List ℕ) (x : ℕ) → end_loop (ys ++ x ∷ []) ≡ end_after x (end_loop ys)
unfolding end_loop
end_loop-append [] x = ground arith
end_loop-append (y ∷ ys) x =
    ground (arith, end_loop-append ys x, reverse-append ((y + 1) ∷ ys) (x ∷ []))

prefix_end_bound-cons :
    (x : ℕ) (xs : Bytes) → prefix_end_bound (x ∷ xs) ≡ end_after x (prefix_end_bound xs)
unfolding prefix_end_bound
prefix_end_bound-cons x xs =
    ap end_loop (reverse-append (x ∷ []) xs) ∙ end_loop-append (reverse xs) x

abbrev whole : Bytes → Bytes → Bool
whole prefix k = after_start (included prefix) k && before_end (prefix_end_bound prefix) k

end_loop-nil : prefix_end_bound [] ≡ unbounded
unfolding prefix_end_bound
end_loop-nil = refl

not_below_nil : (k : Bytes) → cmp_bytes k [] ≢ Ordering.lt
not_below_nil [] h = cc
not_below_nil (x ∷ k) h = cc

whole-eq-begins_with :
    (prefix k : Bytes) → All IsByte prefix → All IsByte k → whole prefix k ≡ begins_with prefix k
whole-eq-begins_with [] k p q = rw end_loop-nil (ground (arith, not_below_nil k))
whole-eq-begins_with (x ∷ prefix) [] p q = refl
whole-eq-begins_with (x ∷ prefix) (y ∷ k) p q =
    ground (
      arith,
      prefix_end_bound-cons x prefix,
      whole-eq-begins_with prefix k p.1 q.1,
      not_below_nil k,
    )

-- Over a whole prefix store, the bounds asked of the store below hold exactly the keys that begin
-- with the prefix, where the prefix and the key are bytes.
pub full_bounds-exact :
    (prefix k : Bytes)
    → All IsByte prefix
    → All IsByte k
    → contains_key (full_bounds prefix (record { start = unbounded; end = unbounded })) k
      ≡ begins_with prefix k
unfolding contains_key full_bounds
full_bounds-exact prefix k p q = whole-eq-begins_with prefix k p q

begins_with-append : (prefix k : Bytes) → begins_with prefix (prefix ++ k) ≡ true
begins_with-append [] k = refl
begins_with-append (x ∷ prefix) k = ground (arith, begins_with-append prefix k)

≟-append : (prefix k j : Bytes) → ((prefix ++ k) ≟ (prefix ++ j)) ≡ (k ≟ j)
≟-append [] k j = refl
≟-append (x ∷ prefix) k j = ground (arith, ≟-append prefix k j)

module _ (p : PersistentTree) where
  open p use {Tree}

  outside :
      (prefix k whole_key : Bytes)
      → begins_with prefix whole_key ≡ false
      → ((prefix ++ k) ≟ whole_key) ≡ false
  outside prefix k whole_key h =
      ground (arith, begins_with-append prefix k, cmp_bytes-eq (prefix ++ k) whole_key)

  -- A write through a prefix is read back through it and leaves its other keys as they were; and a
  -- key of the store below that lacks the prefix reads as before.
  pub prefix_get-set :
      (prefix : Bytes) (t : Tree) (b : TransactionKvBank) (k v j whole_key : Bytes)
      → begins_with prefix whole_key ≡ false
      → (get p prefix t (set prefix b k v) j ≡ (if k ≟ j then some v else get p prefix t b j))
        × (Transaction.get p t (set prefix b k v) whole_key ≡ Transaction.get p t b whole_key)
  unfolding get set
  prefix_get-set prefix t b k v j whole_key h = (
    Views.get-set p t b (prefix ++ k) v (prefix ++ j) ∙ rw (≟-append prefix k j),
    Views.get-set p t b (prefix ++ k) v whole_key ∙ rw (outside prefix k whole_key h),
  )
