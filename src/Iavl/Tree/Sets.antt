-- ===== src/Iavl/Tree/Sets.antt =====
-- trees/src/iavl/tree.rs: `set`.
use gears.Base.{ℕ, ◌+◌, ◌≡◌, refl, sym, Option, none, some, subst}
use gears.Base.Order.{Bytes, bytes_ord}
use gears.Base.Results.{ok, Answers, bind-Answers, both-Answers, weaken-Answers}
use gears.Base.Maps.{IsAscending, insert-IsAscending}
use gears.Base.Maps
use gears.Iavl.Node.{Node, Hasher}
use gears.Iavl.Shape.{IsBalanced}
use gears.Iavl.Keys.{to_list, IsKeyed}
use gears.Iavl.Merkle.{IsHashed}
use gears.Iavl.Insert.{recursive_set}
use gears.Iavl.Insert.Grows.{recursive_set-Grows}
use gears.Iavl.Insert.Contents.{recursive_set-Inserts}
use gears.Iavl.Insert.Hashes.{recursive_set-Hashes}
use gears.Iavl.Tree.{Tree, set}
use gears.Iavl.Tree.Valid.{IsSound, IsValid, entries}

module _ (h : Hasher) (key value : Bytes) where
  recursive_set-IsSound :
      (version : ℕ) (n : Node)
      → IsSound h n
      → Answers
          (recursive_set h version key value n)
          (λ u. IsSound h u × (to_list u ≡ Maps.insert key value (to_list n)))
          (λ _. ⊥)
  recursive_set-IsSound version n (b, k, s, hs) =
      let r = recursive_set h version key value n in
      weaken-Answers _ _ (λ _. ⊥) r
        (both-Answers _ _ (λ _. ⊥) r
          (both-Answers _ _ (λ _. ⊥) r (recursive_set-Grows h version key value n b k s)
            (recursive_set-Inserts h version key value n k s))
          (recursive_set-Hashes h version key value n hs))
        λ u ((g, (e, k')), hs'). (
          (g.0, k', subst IsAscending (sym e) (insert-IsAscending key value (to_list n) s), hs'),
          e,
        )

  -- With a root given apart.
  set-root :
      (root : Option Node) (t : Tree)
      → IsValid h (record t { root = root })
      → Answers
          (set h key value (record t { root = root }))
          (λ u.
            IsValid h u × (entries u ≡ Maps.insert key value (entries (record t { root = root }))))
          (λ _. ⊥)
  unfolding set IsValid entries Maps.insert to_list IsBalanced IsKeyed IsHashed
  set-root none t v = ((tt, tt, (tt, tt), tt), refl)
  set-root (some n) t v =
      bind-Answers _ (λ _. ⊥) (recursive_set h (t.loaded_version + 1) key value n)
        (λ n'. ok (record t { root = some n' })) (recursive_set-IsSound (t.loaded_version + 1) n v)
        λ u p. p

  -- On a valid tree, `set` returns, and the tree that it leaves is valid: balanced, in order, with
  -- the right keys and hashes in the inner nodes.
  pub set-IsValid : (t : Tree) → IsValid h t → Answers (set h key value t) (IsValid h) (λ _. ⊥)
  set-IsValid t v =
      weaken-Answers _ (IsValid h) (λ _. ⊥) (set h key value t) (set-root t.root t v) λ u p. p.0

  -- On a valid tree, `set` returns a tree whose entries are those of before with the new one
  -- inserted.
  pub entries-set :
      (t : Tree)
      → IsValid h t
      → Answers (set h key value t) (λ u. entries u ≡ Maps.insert key value (entries t)) (λ _. ⊥)
  entries-set t v =
      weaken-Answers _ (λ u. entries u ≡ Maps.insert key value (entries t)) (λ _. ⊥)
        (set h key value t) (set-root t.root t v) λ u p. p.1
