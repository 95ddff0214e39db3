-- ===== src/Iavl/Store.antt =====
-- trees/src/iavl/tree.rs as the tree behind the stores: it fills the interface `PersistentTree`.
use gears.Base.{
  ℕ, ◌≡◌, refl, sym, ◌∙◌, ap, false, Option, none, some, [], ◌∷◌, subst, if◌then◌else◌, arith,
}
use gears.Base.Order.{Bytes, bytes_ord, nat_ord, ◌≟◌, equal_of_cmp, cmp_self}
use gears.Base.Results.{Result, ok, err, Answers}
use gears.Base.Maps.{BtreeMap, IsAscending, get-insert, get-remove, contains}
use gears.Base.Maps
use gears.KvStore.Bounds.{contains_key, select-IsAscending, get-select}
use gears.KvStore.Tree.{PersistentTree}
use gears.Iavl.Node.{Node, Hasher}
use gears.Iavl.NodeDb.{Error}
use gears.Iavl.Range.{new_range, next, collect}
use gears.Iavl.Tree.{Tree, get, set, remove, save_version}
use gears.Iavl.Tree.Valid.{IsValid, entries}
use gears.Iavl.Tree.Sets.{set-IsValid, entries-set}
use gears.Iavl.Tree.Removes.{remove_but_last, remove-IsValid, entries-remove}
use gears.Iavl.Tree.Reads.{steps, get-entries, collect-range, get-roots}
use gears.Iavl.Tree.Saves.{KeepsRoot, root-save_version}

-- `expect`, where the failure is shown not to happen.
abbrev pub expect {ℓ} : {E A : Type ℓ} → A → Result E A → A
expect a (ok b) = b
expect a (err e) = a

expect-Answers :
    {E A : Type 0} (P : A → Type 0) (a : A) (r : Result E A) → Answers r P (λ _. ⊥) → P (expect a r)
expect-Answers P a (ok b) p = p
expect-Answers P a (err e) p = absurd p

remove_but_last_of_other :
    (key other w : Bytes) (m : BtreeMap Bytes Bytes)
    → (key ≟ other) ≡ false
    → Maps.get other m ≡ some w
    → remove_but_last key m ≡ Maps.remove key m
unfolding Maps.get Maps.remove
remove_but_last_of_other key other w [] n g = refl
remove_but_last_of_other key other w ((j, x) ∷ []) n g =
    ground (arith, equal_of_cmp j key, equal_of_cmp j other, cmp_self key, cmp_self j)
remove_but_last_of_other key other w (e ∷ f ∷ m) n g = refl

module _ (h : Hasher) (empty_hash : Bytes) where
  abbrev pub put : Tree → Bytes → Bytes → Tree
  put t k v = expect t (set h k v t)

  abbrev pub take : Tree → Bytes → Tree
  take t k = (expect (none, t) (remove h k t)).1

  abbrev pub saved : Result Error (Bytes × ℕ × Tree) → Option (Bytes × Tree)
  saved (ok (k, version, u)) = some (k, u)
  saved (err e) = none

  abbrev pub save : Tree → Option (Bytes × Tree)
  save t = saved (save_version h empty_hash t)

  pub put-IsValid : (t : Tree) (k v : Bytes) → IsValid h t → IsValid h (put t k v)
  put-IsValid t k v s = expect-Answers (IsValid h) t (set h k v t) (set-IsValid h k v t s)

  pub take-IsValid : (t : Tree) (k : Bytes) → IsValid h t → IsValid h (take t k)
  take-IsValid t k s =
      expect-Answers (λ x. IsValid h x.1) (none, t) (remove h k t) (remove-IsValid h k t s)

  pub get-put :
      (t : Tree) (k v j : Bytes)
      → IsValid h t
      → get j (put t k v) ≡ (if k ≟ j then some v else get j t)
  get-put t k v j s =
      get-entries h j (put t k v) (put-IsValid t k v s)
      ∙ ap (Maps.get j) (
          expect-Answers (λ u. entries u ≡ Maps.insert k v (entries t)) t (set h k v t)
            (entries-set h k v t s))
      ∙ get-insert k j v (entries t)
      ∙ ap (λ z. if k ≟ j then some v else z) (sym (get-entries h j t s))

  pub get-take :
      (t : Tree) (k j other w : Bytes)
      → IsValid h t
      → (k ≟ other) ≡ false
      → get other t ≡ some w
      → get j (take t k) ≡ (if k ≟ j then none else get j t)
  get-take t k j other w s n g =
      get-entries h j (take t k) (take-IsValid t k s)
      ∙ ap (Maps.get j)
          (expect-Answers
            (λ (v, u). (v ≡ Maps.get k (entries t)) × (entries u ≡ remove_but_last k (entries t)))
            (none, t) (remove h k t) (entries-remove h k t s)).1
      ∙ ap (Maps.get j)
          (remove_but_last_of_other k other w (entries t) n (sym (get-entries h other t s) ∙ g))
      ∙ get-remove k j (entries t)
      ∙ ap (λ z. if k ≟ j then none else z) (sym (get-entries h j t s))

  pub get-save : (t u : Tree) (k j : Bytes) → save t ≡ some (k, u) → get j u ≡ get j t
  get-save t u k j e = go (save_version h empty_hash t) (root-save_version h empty_hash t) e
    where
      go :
          (r : Result Error (Bytes × ℕ × Tree))
          → Answers r (KeepsRoot h empty_hash t) (λ _. Unit)
          → saved r ≡ some (k, u)
          → get j u ≡ get j t
      go (ok x) a e =
          let f : x.2 ≡ u = cc in ap (get j) (sym f) ∙ get-roots j t.root x.2.root t x.2 a
      go (err x) a e = absurd cc

  entries-root :
      (root : Option Node) (t : Tree)
      → IsValid h (record t { root = root })
      → IsAscending (entries (record t { root = root }))
  unfolding entries IsValid
  entries-root none t v = tt
  entries-root (some n) t v = v.2

  pub entries-IsAscending : (t : Tree) → IsValid h t → IsAscending (entries t)
  entries-IsAscending t v = entries-root t.root t v

  -- The tree of the stores.
  abbrev pub iavl_tree : PersistentTree
  iavl_tree = record {
    Tree = Tree;
    Hash = Bytes;
    get = λ t k. get k t;
    set = put;
    remove = take;
    range = λ t b. collect next (steps h t) (new_range b t.root);
    save_version = save;
    IsValid = IsValid h;
    set-IsValid = put-IsValid;
    remove-IsValid = take-IsValid;
    get-set = get-put;
    get-remove = get-take;
    get-save_version = λ t u k j e. get-save t u k j e;
    range-IsAscending = λ t b s.
        subst IsAscending (sym (collect-range h t b s).0)
          (select-IsAscending (contains_key b) (entries t) (entries-IsAscending t s));
    get-range = λ t b j s.
        ap (Maps.get j) (collect-range h t b s).0
        ∙ get-select (contains_key b) (entries t) j
        ∙ ap (λ z. if contains_key b j then z else none) (sym (get-entries h j t s));
  }
