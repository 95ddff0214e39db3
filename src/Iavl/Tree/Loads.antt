-- ===== src/Iavl/Tree/Loads.antt =====
-- trees/src/iavl/tree.rs: the load of a saved version.
use gears.Base.{ℕ, zero, suc, ap, fun_ext, ◌+◌, ◌<◌, ◌≡◌, refl, false, Option, none, some}
use gears.Base.Order.{Bytes, bytes_ord, nat_ord, ◌≟◌, ≟_refl}
use gears.Base.Results.{ok, Answers}
use gears.Base.Maps.{contains}
use gears.Base.Maps
use gears.Iavl.Node.{Node, Hasher, hash, get_height}
use gears.Iavl.NodeDb.{
  NodeDb, Stored, restored, levels, get_root_node, get_node, save_tree, save_root,
  recursive_tree_save,
}
use gears.Iavl.NodeDb.Persists.{Agrees, IsPersisted, save-IsIn, get_node-IsIn}
use gears.Iavl.Tree.{Tree, save_new, save_version, load}
use gears.Iavl.Tree.Valid.{IsValid}
use gears.Iavl.Tree.Saves.{get_root_hash-save}

get_node-save_root :
    (version : ℕ) (k : Bytes) (db : NodeDb) (f : ℕ) (j : Bytes)
    → get_node f (save_root version k db) j ≡ get_node f db j
unfolding get_node save_root
get_node-save_root version k db zero j = refl
get_node-save_root version k db (suc f) j =
    ap (λ c. restored c (Maps.get j db.nodes)) (fun_ext λ i. get_node-save_root version k db f i)

module _ (h : Hasher) (empty_hash : Bytes) (world : Bytes → Stored) where
  -- No two different nodes of the tree have the same hash, `world` being what each stands for, nor
  -- has the root that of the empty tree; what is not loaded is in the database; and the height fits
  -- in a `u8`.
  pub record CanSave (db : NodeDb) (n : Node) : Type 0 where
    pub agrees : Agrees world (hash h n) n
    pub persisted : IsPersisted world db n
    pub apart : (hash h n ≟ empty_hash) ≡ false
    pub low : get_height n < levels

  abbrev pub RootCanSave : NodeDb → Option Node → Type 0
  RootCanSave db none = Unit
  RootCanSave db (some n) = CanSave db n

  -- The saved root is found under the version.
  pub get_root_node-save_new :
      (root : Option Node) (t : Tree) (version : ℕ)
      → IsValid h (record t { root = root })
      → RootCanSave t.node_db root
      → let (k, u) = save_new h empty_hash version (record t { root = root }) in
        get_root_node empty_hash u.node_db version ≡ ok u.root
  unfolding save_new get_root_node save_tree IsValid
  get_root_node-save_new none t version v c =
      rw (get_root_hash-save h empty_hash version empty_hash t.node_db, ≟_refl empty_hash) refl
  get_root_node-save_new (some n) t version v c =
      rw
        (
          get_root_hash-save h empty_hash version (hash h n)
              (recursive_tree_save n (hash h n) t.node_db),
          c.apart,
          get_node-save_root version (hash h n) (recursive_tree_save n (hash h n) t.node_db) levels
              (hash h n),
          get_node-IsIn world levels n (hash h n) (recursive_tree_save n (hash h n) t.node_db) v.0
              c.low c.agrees (save-IsIn world n (hash h n) t.node_db c.agrees c.persisted),
        )
        refl

  load-new :
      (root : Option Node) (t : Tree) (version : ℕ)
      → IsValid h (record t { root = root })
      → RootCanSave t.node_db root
      → let (k, u) = save_new h empty_hash version (record t { root = root }) in
        load h empty_hash u.node_db u.versions version ≡ ok u
  unfolding save_new load save_tree
  load-new none t version v c = rw (get_root_node-save_new none t version v c) refl
  load-new (some n) t version v c = rw (get_root_node-save_new (some n) t version v c) refl

  -- A valid tree that is saved as a new version is what the load of that version returns, with every
  -- node read from the database under its parent's hash. The nodes that are not loaded were in the
  -- database, no two different nodes have the same hash, nor has the root that of the empty tree,
  -- and the height fits in a `u8`.
  pub load-save_version :
      (t : Tree)
      → IsValid h t
      → RootCanSave t.node_db t.root
      → contains (t.loaded_version + 1) t.versions ≡ false
      → Answers
          (save_version h empty_hash t)
          (λ (k, version, u). load h empty_hash u.node_db u.versions version ≡ ok u)
          (λ _. ⊥)
  unfolding save_version
  load-save_version t v c new = rw new (load-new t.root t (t.loaded_version + 1) v c)
