-- ===== src/Iavl/Tree/Saves.antt =====
-- trees/src/iavl/tree.rs: `save_version`, and the load of a saved version.
use gears.Base.{
  ℕ, ◌+◌, ◌≡◌, ◌≢◌, refl, sym, subst, ◌∙◌, true, inl, inr, List, Option, none, some, if◌then◌else◌,
  Bool-cases,
}
use gears.Base.Order.{Bytes, bytes_ord, nat_ord, ◌≟◌, ≟_refl, eq_of_≟, ne_of_≟}
use gears.Base.Results.{Result, ok, err, map_err, ◌>>=◌, Answers, if-Answers}
use gears.Base.Maps.{contains, add, contains-add, get-insert, IsAscending}
use gears.Iavl.Node.{Node, leaf, inner, Hasher, hash, get_height, get_size, leftmost_leaf_key}
use gears.Iavl.NodeDb.{
  NodeDb, Error, overwrite, corrupt, get_root_hash, save_tree, save_root, shallow_clone,
}
use gears.Iavl.Keys.{to_list, IsKeyed}
use gears.Iavl.Merkle.{IsHashed}
use gears.Iavl.Shape.{IsBalanced}
use gears.Iavl.Tree.{Tree, root_hash, save_new, save_version, map_root}
use gears.Iavl.Tree.Valid.{IsSound, IsValid, entries}

module _ (h : Hasher) where
  to_list-shallow_clone : (n : Node) → to_list (shallow_clone n) ≡ to_list n
  unfolding shallow_clone to_list
  to_list-shallow_clone (leaf k v w) = refl
  to_list-shallow_clone (inner m l r) =
      rw (to_list-shallow_clone l) (rw (to_list-shallow_clone r) refl)

  hash-shallow_clone : (n : Node) → hash h (shallow_clone n) ≡ hash h n
  unfolding shallow_clone hash
  hash-shallow_clone (leaf k v w) = refl
  hash-shallow_clone (inner m l r) = refl

  height-shallow_clone : (n : Node) → get_height (shallow_clone n) ≡ get_height n
  unfolding shallow_clone get_height
  height-shallow_clone (leaf k v w) = refl
  height-shallow_clone (inner m l r) = refl

  size-shallow_clone : (n : Node) → get_size (shallow_clone n) ≡ get_size n
  unfolding shallow_clone get_size
  size-shallow_clone (leaf k v w) = refl
  size-shallow_clone (inner m l r) = refl

  leftmost-shallow_clone : (n : Node) → leftmost_leaf_key (shallow_clone n) ≡ leftmost_leaf_key n
  unfolding shallow_clone leftmost_leaf_key
  leftmost-shallow_clone (leaf k v w) = refl
  leftmost-shallow_clone (inner m l r) = leftmost-shallow_clone l

  shallow_clone-IsBalanced : (n : Node) → IsBalanced n → IsBalanced (shallow_clone n)
  unfolding shallow_clone IsBalanced
  shallow_clone-IsBalanced (leaf k v w) s = s
  shallow_clone-IsBalanced (inner m l r) (a, b, c, d, x, y) = rw (height-shallow_clone l) (
      rw (height-shallow_clone r) (
        rw (size-shallow_clone l) (
          rw (size-shallow_clone r)
            (a, b, c, d, shallow_clone-IsBalanced l x, shallow_clone-IsBalanced r y))))

  shallow_clone-IsKeyed : (n : Node) → IsKeyed n → IsKeyed (shallow_clone n)
  unfolding shallow_clone IsKeyed
  shallow_clone-IsKeyed (leaf k v w) s = s
  shallow_clone-IsKeyed (inner m l r) (a, x, y) =
      rw (leftmost-shallow_clone r) (a, shallow_clone-IsKeyed l x, shallow_clone-IsKeyed r y)

  shallow_clone-IsHashed : (n : Node) → IsHashed h n → IsHashed h (shallow_clone n)
  unfolding shallow_clone IsHashed
  shallow_clone-IsHashed (leaf k v w) s = s
  shallow_clone-IsHashed (inner m l r) (a, b, x, y) =
      rw (hash-shallow_clone l)
        (rw (hash-shallow_clone r) (a, b, shallow_clone-IsHashed l x, shallow_clone-IsHashed r y))

  shallow_clone-IsSound : (n : Node) → IsSound h n → IsSound h (shallow_clone n)
  shallow_clone-IsSound n (a, b, c, d) = (
    shallow_clone-IsBalanced n a,
    shallow_clone-IsKeyed n b,
    subst IsAscending (sym (to_list-shallow_clone n)) c,
    shallow_clone-IsHashed n d,
  )

module _ (h : Hasher) (empty_hash : Bytes) where
  -- The saved tree holds what the tree holds, as the next version, under its hash.
  abbrev pub IsSaved : Tree → Bytes × ℕ × Tree → Type 0
  IsSaved t (saved_hash, version, u) =
      (saved_hash ≡ root_hash h empty_hash t)
      × (version ≡ t.loaded_version + 1)
      × (u.loaded_version ≡ version)
      × (entries u ≡ entries t)
      × IsValid h u
      × (get_root_hash u.node_db version ≡ ok saved_hash)
      × (contains version u.versions ≡ true)

  -- The next version is there, and not with the hash of this tree.
  abbrev pub IsTaken : Tree → Type 0
  IsTaken t =
      (contains (t.loaded_version + 1) t.versions ≡ true)
      × (get_root_hash t.node_db (t.loaded_version + 1) ≢ ok (root_hash h empty_hash t))

  pub get_root_hash-save :
      (version : ℕ) (k : Bytes) (db : NodeDb)
      → get_root_hash (save_root version k db) version ≡ ok k
  unfolding get_root_hash save_root
  get_root_hash-save version k db =
      rw (get-insert version version k db.roots, ≟_refl version, get_root_hash) refl

  pub contains_self : (version : ℕ) (s : List ℕ) → contains version (add version s) ≡ true
  contains_self version s = contains-add version version s ∙ rw (≟_refl version) refl

  save_new-root :
      (root : Option Node) (t : Tree)
      → IsValid h (record t { root = root })
      → let t' = record t { root = root } in
        let (saved_hash, u) = save_new h empty_hash (t.loaded_version + 1) t' in
        IsSaved t' (saved_hash, t.loaded_version + 1, u)
  unfolding save_new root_hash entries IsValid save_tree
  save_new-root none t v = (
    refl,
    refl,
    refl,
    refl,
    tt,
    get_root_hash-save (t.loaded_version + 1) empty_hash t.node_db,
    contains_self (t.loaded_version + 1) t.versions,
  )
  save_new-root (some n) t v = (
    refl,
    refl,
    refl,
    to_list-shallow_clone h n,
    shallow_clone-IsSound h n v,
    get_root_hash-save (t.loaded_version + 1) _ _,
    contains_self (t.loaded_version + 1) t.versions,
  )

  save_same-root :
      (root : Option Node) (t : Tree) (saved_hash : Bytes)
      → IsValid h (record t { root = root })
      → contains (t.loaded_version + 1) t.versions ≡ true
      → get_root_hash t.node_db (t.loaded_version + 1) ≡ ok saved_hash
      → saved_hash ≡ root_hash h empty_hash (record t { root = root })
      → IsSaved
          (record t { root = root })
          (
            saved_hash,
            t.loaded_version + 1,
            record t { loaded_version = t.loaded_version + 1; root = map_root shallow_clone root },
          )
  unfolding root_hash entries IsValid
  save_same-root none t k v c g e = (e, refl, refl, refl, tt, g, c)
  save_same-root (some n) t k v c g e =
      (e, refl, refl, to_list-shallow_clone h n, shallow_clone-IsSound h n v, g, c)

  -- The same version again.
  again :
      (t : Tree)
      → IsValid h t
      → contains (t.loaded_version + 1) t.versions ≡ true
      → (r : Result Error Bytes) → get_root_hash t.node_db (t.loaded_version + 1) ≡ r
      → Answers
          (map_err (λ _. corrupt) r >>= λ saved_hash.
            if saved_hash ≟ root_hash h empty_hash t
            then ok (
              saved_hash,
              t.loaded_version + 1,
              record t {
                loaded_version = t.loaded_version + 1;
                root = map_root shallow_clone t.root;
              },
            )
            else err overwrite)
          (IsSaved t)
          (λ _. IsTaken t)
  again t v c (err e) g = (c, λ x. cc)
  again t v c (ok k) g = elim (Bool-cases (k ≟ root_hash h empty_hash t)) [
    | inl e ↦ rw e (save_same-root t.root t k v c g (eq_of_≟ k _ e))
    | inr e ↦ rw e (c, λ x. ne_of_≟ k (root_hash h empty_hash t) e cc)
  ]

  new :
      (t : Tree)
      → IsValid h t
      → IsSaved t (
          let (saved_hash, u) = save_new h empty_hash (t.loaded_version + 1) t in
          (saved_hash, t.loaded_version + 1, u))
  new t v = save_new-root t.root t v

  -- On a valid tree, `save_version` returns the hash of the tree and the next version, and leaves a
  -- valid tree with the same entries, loaded at that version, which is now saved under that hash; or
  -- it fails, and then the next version is saved already, and not with that hash.
  pub save_version_lem :
      (t : Tree) → IsValid h t → Answers (save_version h empty_hash t) (IsSaved t) (λ _. IsTaken t)
  unfolding save_version
  save_version_lem t v =
      if-Answers (IsSaved t) (λ _. IsTaken t) (contains (t.loaded_version + 1) t.versions) _ _
        (λ c. again t v c (get_root_hash t.node_db (t.loaded_version + 1)) refl) (λ c. new t v)

  abbrev pub KeepsRoot : Tree → Bytes × ℕ × Tree → Type 0
  KeepsRoot t (k, version, u) = u.root ≡ map_root shallow_clone t.root

  pub root-save_new :
      (root : Option Node) (t : Tree) (version : ℕ)
      → (save_new h empty_hash version (record t { root = root })).1.root
        ≡ map_root shallow_clone root
  unfolding save_new save_tree
  root-save_new none t version = refl
  root-save_new (some n) t version = refl

  root_again :
      (t : Tree) (r : Result Error Bytes)
      → Answers
          (map_err (λ _. corrupt) r >>= λ saved_hash.
            if saved_hash ≟ root_hash h empty_hash t
            then ok (
              saved_hash,
              t.loaded_version + 1,
              record t {
                loaded_version = t.loaded_version + 1;
                root = map_root shallow_clone t.root;
              },
            )
            else err overwrite)
          (KeepsRoot t)
          (λ _. Unit)
  root_again t (err e) = tt
  root_again t (ok k) =
      if-Answers (KeepsRoot t) (λ _. Unit) (k ≟ root_hash h empty_hash t) _ _ (λ _. refl) (λ _. tt)

  -- The root keeps its entries in place, without the loaded children.
  pub root-save_version :
      (t : Tree) → Answers (save_version h empty_hash t) (KeepsRoot t) (λ _. Unit)
  unfolding save_version
  root-save_version t =
      if-Answers (KeepsRoot t) (λ _. Unit) (contains (t.loaded_version + 1) t.versions) _ _
        (λ _. root_again t (get_root_hash t.node_db (t.loaded_version + 1)))
        (λ _. root-save_new t.root t (t.loaded_version + 1))
