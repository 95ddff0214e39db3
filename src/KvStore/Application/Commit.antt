-- ===== src/KvStore/Application/Commit.antt =====
-- A commit writes to the tree what the bank read as.
use gears.Base.{
  ◌≡◌, refl, ◌∙◌, sym, ap, ◌≢◌, Bool-cases, inl, inr, false, Option, none, some, List, [], ◌∷◌,
  ◌++◌, arith, if◌then◌else◌,
}
use gears.Base.Order.{Bytes, bytes_ord, ◌≟◌, cmp_bytes-eq}
use gears.Base.Maps.{
  BtreeMap, HashSet, IsAscending, contains, get-above, get-insert, insert-IsAscending,
}
use gears.Base.Maps
use gears.KvStore.Cache.{KvCache, IsValid, empty, over-empty}
use gears.KvStore.Cache
use gears.KvStore.Tree.{PersistentTree}
use gears.KvStore.Application.{
  ApplicationKvBank, pending_writes, pending_deletes, collect, get, apply, commit,
}

abbrev Changes : Type 0
Changes = BtreeMap Bytes (Option Bytes)

-- What a key reads as under pending changes.
abbrev under : Option (Option Bytes) → Option Bytes → Option Bytes
under none below = below
under (some v) below = v

collect-IsAscending :
    (l : List (Bytes × Option Bytes)) (m : Changes) → IsAscending m → IsAscending (collect l m)
unfolding collect
collect-IsAscending [] m s = s
collect-IsAscending ((k, v) ∷ l) m s =
    collect-IsAscending l (Maps.insert k v m) (insert-IsAscending k v m s)

collect-append :
    (a b : List (Bytes × Option Bytes)) (m : Changes) → collect (a ++ b) m ≡ collect b (collect a m)
unfolding collect
collect-append [] b m = refl
collect-append ((k, v) ∷ a) b m = collect-append a b (Maps.insert k v m)

get-collect-pending_writes :
    (w : BtreeMap Bytes Bytes) (m : Changes) (j : Bytes)
    → IsAscending w
    → Maps.get j (collect (pending_writes w) m)
      ≡ elim (Maps.get j w) [ some v ↦ some (some v) | none ↦ Maps.get j m ]
unfolding collect pending_writes Maps.get
get-collect-pending_writes [] m j s = refl
get-collect-pending_writes ((k, v) ∷ w) m j s =
    get-collect-pending_writes w (Maps.insert k (some v) m) j s.1
    ∙ ground (arith, get-insert k j (some v) m, get-above k w s.0, cmp_bytes-eq k j)

get-collect-pending_deletes :
    (s : HashSet Bytes) (m : Changes) (j : Bytes)
    → Maps.get j (collect (pending_deletes s) m)
      ≡ (if contains j s then some none else Maps.get j m)
unfolding collect pending_deletes contains
get-collect-pending_deletes [] m j = refl
get-collect-pending_deletes (k ∷ s) m j =
    let gone : Option Bytes = none in
    get-collect-pending_deletes s (Maps.insert k gone m) j ∙ ground (arith, get-insert k j gone m)

-- The map that a commit writes out.
abbrev changes : KvCache → Changes
changes c = collect (pending_writes c.storage ++ pending_deletes c.delete) []

get-changes :
    (c : KvCache) (j : Bytes) (below : Option Bytes)
    → IsValid c
    → under (Maps.get j (changes c)) below ≡ Cache.over c j below
unfolding Cache.over Cache.get Maps.get
get-changes c j below h =
    let w = collect (pending_writes c.storage) [] in
    rw (collect-append (pending_writes c.storage) (pending_deletes c.delete) []) (
      ground (
        arith,
        get-collect-pending_deletes c.delete w j,
        get-collect-pending_writes c.storage [] j h.ascending,
      ))

module _ (p : PersistentTree) where
  open p use {Tree, Hash}

  -- Where a change is the first of an ascending map, a key keeps what the others do to it.
  kept_below :
      (k : Bytes) (v : Option Bytes) (m : Changes) (other : Bytes)
      → IsAscending ((k, v) ∷ m)
      → Maps.get other ((k, v) ∷ m) ≢ some none
      → Maps.get other m ≢ some none
  unfolding Maps.get
  kept_below k v m other s kept e = ground (arith, kept, get-above k m s.0, cmp_bytes-eq k other)

  head_differs :
      (k : Bytes) (m : Changes) (other : Bytes)
      → Maps.get other ((k, none) ∷ m) ≢ some none
      → (k ≟ other) ≡ false
  unfolding Maps.get
  head_differs k m other kept = ground (arith, kept)

  -- The tree after one change, at a key that the later changes leave alone.
  get_after_set :
      (t : Tree) (k v j : Bytes) (m : Changes)
      → p.IsValid t
      → IsAscending ((k, some v) ∷ m)
      → under (Maps.get j m) (p.get (p.set t k v) j)
        ≡ under (Maps.get j ((k, some v) ∷ m)) (p.get t j)
  unfolding Maps.get
  get_after_set t k v j m valid s =
      ground (arith, p.get-set t k v j valid, get-above k m s.0, cmp_bytes-eq k j)

  get_after_remove :
      (t : Tree) (k j other w : Bytes) (m : Changes)
      → p.IsValid t
      → IsAscending ((k, none) ∷ m)
      → (k ≟ other) ≡ false
      → p.get t other ≡ some w
      → under (Maps.get j m) (p.get (p.remove t k) j)
        ≡ under (Maps.get j ((k, none) ∷ m)) (p.get t j)
  unfolding Maps.get
  get_after_remove t k j other w m valid s differs stored =
      ground (
        arith,
        p.get-remove t k j other w valid differs stored,
        get-above k m s.0,
        cmp_bytes-eq k j,
      )

  still_stored :
      (t : Tree) (k v other w : Bytes)
      → p.IsValid t
      → p.get t other ≡ some w
      → p.get (p.set t k v) other ≡ (if k ≟ other then some v else some w)
  still_stored t k v other w valid stored = rw (p.get-set t k v other valid, stored)

  -- Writing an ascending map out, one change after another, while a key that no change deletes is
  -- stored beside the others.
  get-apply :
      (m : Changes) (t : Tree) (j other : Bytes)
      → IsAscending m
      → p.IsValid t
      → (w : Bytes) × (p.get t other ≡ some w)
      → Maps.get other m ≢ some none
      → p.get (apply p m t) j ≡ under (Maps.get j m) (p.get t j)
  unfolding apply
  get-apply [] t j other s valid stored kept = unfold Maps.get in refl
  get-apply ((k, some v) ∷ m) t j other s valid stored kept =
      get-apply m (p.set t k v) j other s.1 (p.set-IsValid t k v valid)
        (elim (Bool-cases (k ≟ other)) [
          | inl same ↦ (v, still_stored t k v other stored.0 valid stored.1 ∙ rw same)
          | inr differs ↦ (stored.0, still_stored t k v other stored.0 valid stored.1 ∙ rw differs)
        ])
        (kept_below k (some v) m other s kept)
      ∙ get_after_set t k v j m valid s
  get-apply ((k, none) ∷ m) t j other s valid stored kept =
      let differs = head_differs k m other kept in
      get-apply m (p.remove t k) j other s.1 (p.remove-IsValid t k valid)
        (
          stored.0,
          p.get-remove t k other other stored.0 valid differs stored.1 ∙ rw differs stored.1,
        )
        (kept_below k none m other s kept)
      ∙ get_after_remove t k j other stored.0 m valid s differs stored.1

  -- A bank reads its cache over the tree.
  pub get-eq-over :
      (t : Tree) (b : ApplicationKvBank) (j : Bytes)
      → get p t b j ≡ Cache.over b.cache j (p.get t j)
  unfolding get Cache.over
  get-eq-over t b j = ground arith

  saved :
      (t t' : Tree) (b b' : ApplicationKvBank) (h : Hash)
      → commit p t b ≡ some (h, t', b')
      → (p.save_version (apply p (changes b.cache) t) ≡ some (h, t')) × (b'.cache ≡ empty)
  unfolding commit Cache.take
  saved t t' b b' h done = ground arith

  survivor :
      (c : KvCache) (other w : Bytes)
      → IsValid c
      → contains other c.delete ≡ false
      → Maps.get other (changes c) ≢ some none
  survivor c other w valid kept gone =
      let below : Option Bytes = some w in
      unfold Cache.over Cache.get in ground (arith, get-changes c other below valid)

  get-saved :
      (t t' : Tree) (b b' : ApplicationKvBank) (h : Hash) (other w : Bytes)
      → p.IsValid t
      → IsValid b.cache
      → p.get t other ≡ some w
      → contains other b.cache.delete ≡ false
      → commit p t b ≡ some (h, t', b')
      → (j : Bytes) → p.get t' j ≡ get p t b j
  get-saved t t' b b' h other w valid cache stored kept done j =
      let m = changes b.cache in
      let ascending =
        collect-IsAscending (pending_writes b.cache.storage ++ pending_deletes b.cache.delete) []
          tt in
      p.get-save_version (apply p m t) t' h j (saved t t' b b' h done).0
      ∙ get-apply m t j other ascending valid (w, stored) (survivor b.cache other w cache kept)
      ∙ get-changes b.cache j (p.get t j) cache
      ∙ sym (get-eq-over t b j)

  -- After a commit that saves, every key reads from the tree as it read through the cache before,
  -- the cache is empty, and the bank over the new tree reads as it did. Asked of the state before:
  -- the tree and the cache are valid, and some key of the tree is not among the deletions.
  pub get-commit :
      (t t' : Tree) (b b' : ApplicationKvBank) (h : Hash) (other w : Bytes)
      → p.IsValid t
      → IsValid b.cache
      → p.get t other ≡ some w
      → contains other b.cache.delete ≡ false
      → commit p t b ≡ some (h, t', b')
      → (b'.cache ≡ empty)
        × ((j : Bytes) → p.get t' j ≡ get p t b j)
        × ((j : Bytes) → get p t' b' j ≡ get p t b j)
  get-commit t t' b b' h other w valid cache stored kept done =
      let reads = get-saved t t' b b' h other w valid cache stored kept done in
      (
        (saved t t' b b' h done).1,
        reads,
        λ j.
            get-eq-over t' b' j
            ∙ ap (λ (c : KvCache). Cache.over c j (p.get t' j)) (saved t t' b b' h done).1
            ∙ over-empty j (p.get t' j)
            ∙ reads j,
      )
