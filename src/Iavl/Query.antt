-- ===== src/Iavl/Query.antt =====
-- trees/src/iavl/query_tree.rs: a saved version of a tree, to read from.
use gears.Base.{ℕ, ◌+◌, ◌≡◌, refl, true, false, Option, none, some, if◌then◌else◌, ◌==◌, arith}
use gears.Base.Order.{Bytes, bytes_ord, nat_ord}
use gears.Base.Results.{Result, ok, err, map_err, ◌>>=◌, Answers}
use gears.Base.Maps.{contains}
use gears.KvStore.Bounds.{Bounds}
use gears.Iavl.Node.{Node, Hasher}
use gears.Iavl.NodeDb.{
  NodeDb, Error, version_not_found, corrupt, get_root_node, shallow_clone, save_tree,
}
use gears.Iavl.Range.{Range, new_range}
use gears.Iavl.Tree.{Tree, get, get_, save_version, save_new, map_root}
use gears.Iavl.Tree.Reads.{get-roots}
use gears.Iavl.Tree.Saves.{contains_self, root-save_new}
use gears.Iavl.Tree.Loads.{RootCanSave, get_root_node-save_new}
use gears.Iavl.Tree.Valid.{IsValid}
use gears.Iavl.NodeDb.{Stored}

pub record QueryTree : Type 0 where
  pub root : Option Node
  pub node_db : NodeDb

unfoldable pub query_get : Bytes → QueryTree → Option Bytes
unfolding get_
query_get key q = elim q.root [ none ↦ none | some n ↦ get_ key n ]

unfoldable pub query_range : Bounds → QueryTree → Range
unfolding new_range
query_range b q = new_range b q.root

module _ (empty_hash : Bytes) where
  -- Version 0 stands for the loaded one.
  unfoldable pub new_query : Tree → ℕ → Result Error QueryTree
  unfolding contains get_root_node
  new_query t version =
      let wanted = if version == 0 then t.loaded_version else version in
      if contains wanted t.versions
      then (map_err (λ _. corrupt) (get_root_node empty_hash t.node_db wanted) >>= λ root.
          ok (record { root = root; node_db = t.node_db }))
      else err (version_not_found wanted)

not_zero : (n : ℕ) → (n + 1 == 0) ≡ false
not_zero n = ground arith

query_get-root :
    (key : Bytes) (root other : Option Node) (t : Tree) (db : NodeDb)
    → other ≡ map_root shallow_clone root
    → query_get key (record { root = other; node_db = db }) ≡ get key (record t { root = root })
unfolding query_get get
query_get-root key root none t db e = get-roots key root none t t e
query_get-root key root (some n) t db e = get-roots key root (some n) t t e

module _ (h : Hasher) (empty_hash : Bytes) (key : Bytes) where
  -- The query tree of a version reads as a tree.
  abbrev pub Reads : Tree → Tree → ℕ → Type 0
  Reads t w version =
      Answers (new_query empty_hash w version) (λ q. query_get key q ≡ get key t) (λ _. ⊥)

  new_query-found :
      (w : Tree) (version : ℕ) (root : Option Node)
      → (version == 0) ≡ false
      → contains version w.versions ≡ true
      → get_root_node empty_hash w.node_db version ≡ ok root
      → new_query empty_hash w version ≡ ok (record { root = root; node_db = w.node_db })
  unfolding new_query
  new_query-found w version root e f g = rw (e, f, g) refl

  query-found :
      (t w : Tree) (version : ℕ) (root : Option Node)
      → (version == 0) ≡ false
      → contains version w.versions ≡ true
      → get_root_node empty_hash w.node_db version ≡ ok root
      → root ≡ map_root shallow_clone t.root
      → Reads t w version
  query-found t w version root e f g i =
      rw (new_query-found w version root e f g) (query_get-root key t.root root t w.node_db i)

  versions-save_new :
      (root : Option Node) (t : Tree) (version : ℕ)
      → contains version (save_new h empty_hash version (record t { root = root })).1.versions
        ≡ true
  unfolding save_new save_tree
  versions-save_new none t version = contains_self h empty_hash version t.versions
  versions-save_new (some n) t version = contains_self h empty_hash version t.versions

  module _ (world : Bytes → Stored) where
    query-save_new :
        (working : Option Node) (t : Tree)
        → IsValid h t
        → RootCanSave h empty_hash world t.node_db t.root
        → let (k, u) = save_new h empty_hash (t.loaded_version + 1) t in
          Reads t (record u { root = working }) (t.loaded_version + 1)
    query-save_new working t v c =
        let version = t.loaded_version + 1 in
        let u = (save_new h empty_hash version t).1 in
        query-found t (record u { root = working }) version u.root (not_zero t.loaded_version)
          (versions-save_new t.root t version)
          (get_root_node-save_new h empty_hash world t.root t version v c)
          (root-save_new h empty_hash t.root t version)

    -- After a valid tree is saved as a new version, whatever its root becomes, the query tree of that
    -- version exists, with every node read from the database under its parent's hash, and reads as the
    -- saved tree. The nodes that are not loaded were in the database, no two different nodes have the
    -- same hash, nor has the root that of the empty tree, and the height fits in a `u8`.
    pub new_query-save_version :
        (t : Tree)
        → IsValid h t
        → RootCanSave h empty_hash world t.node_db t.root
        → contains (t.loaded_version + 1) t.versions ≡ false
        → (working : Option Node)
        → Answers
            (save_version h empty_hash t)
            (λ (k, version, u). Reads t (record u { root = working }) version)
            (λ _. ⊥)
    unfolding save_version
    new_query-save_version t v c new working = rw new (query-save_new working t v c)
