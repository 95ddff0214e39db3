-- ===== src/Iavl/Tree.antt =====
-- trees/src/iavl/tree.rs: the tree of the working version, and its saved versions.
pub mod Valid
pub mod Sets
pub mod Removes
pub mod Reads
pub mod Heights
pub mod Saves
pub mod Loads
use gears.Base.{ℕ, ◌+◌, Bool, true, false, Option, none, some, [], if◌then◌else◌}
use gears.Base.Order.{Bytes, bytes_ord, nat_ord, ◌≟◌}
use gears.Base.Results.{Result, ok, err, map_err, ◌>>=◌}
use gears.Base.Maps.{BtreeMap, HashSet, contains, add}
use gears.KvStore.Bounds.{lt_bytes}
use gears.Iavl.Node.{Node, leaf, inner, InternalError, Hasher, hash}
use gears.Iavl.NodeDb.{
  NodeDb, Error, overwrite, corrupt, get_root_hash, get_root_node, save_tree, save_root,
  shallow_clone,
}
use gears.Iavl.Insert.{recursive_set}
use gears.Iavl.Remove.{recursive_remove}

pub record Tree : Type 0 where
  pub root : Option Node
  pub node_db : NodeDb
  pub loaded_version : ℕ
  pub versions : HashSet ℕ

unfoldable pub get_ : Bytes → Node → Option Bytes
get_ key (leaf k v w) = if k ≟ key then some v else none
get_ key (inner m l r) =
    let below_left = get_ key l in
    let below_right = get_ key r in if lt_bytes key m.key then below_left else below_right

unfoldable pub get : Bytes → Tree → Option Bytes
unfolding get_
get key t = elim t.root [ none ↦ none | some n ↦ get_ key n ]

module _ (h : Hasher) where
  unfoldable pub set : Bytes → Bytes → Tree → Result InternalError Tree
  unfolding recursive_set
  set key value t = elim t.root [
    | none ↦ ok (record t { root = some (leaf key value (t.loaded_version + 1)) })
    | some n ↦ recursive_set h (t.loaded_version + 1) key value n >>= λ n'.
        ok (record t { root = some n' })
  ]

  unfoldable pub remove : Bytes → Tree → Result InternalError (Option Bytes × Tree)
  unfolding recursive_remove
  remove key t = elim t.root [
    | none ↦ ok (none, t)
    | some n ↦ recursive_remove h (t.loaded_version + 1) key n >>= λ removed.
        ok (removed.value, record t { root = some removed.node })
  ]

abbrev pub map_root : (Node → Node) → Option Node → Option Node
map_root f none = none
map_root f (some n) = some (f n)

-- `empty_hash` is `EMPTY_HASH`.
module _ (h : Hasher) (empty_hash : Bytes) where
  unfoldable pub root_hash : Tree → Bytes
  unfolding hash
  root_hash t = elim t.root [ none ↦ empty_hash | some n ↦ hash h n ]

  -- Where there is no tree of the version.
  unfoldable pub save_new : ℕ → Tree → Bytes × Tree
  unfolding save_tree save_root add
  save_new version t = elim t.root [
    | none ↦ (
      empty_hash,
      record t {
        node_db = save_root version empty_hash t.node_db;
        versions = add version t.versions;
        loaded_version = version;
      },
    )
    | some n ↦
        let (saved_hash, n', db) = save_tree h n t.node_db in
        (
          saved_hash,
          record t {
            root = some n';
            node_db = save_root version saved_hash db;
            versions = add version t.versions;
            loaded_version = version;
          },
        )
  ]

  unfoldable pub save_version : Tree → Result Error (Bytes × ℕ × Tree)
  unfolding contains get_root_hash root_hash shallow_clone save_new
  save_version t =
      let version = t.loaded_version + 1 in
      if contains version t.versions
      then (map_err (λ _. corrupt) (get_root_hash t.node_db version) >>= λ saved_hash.
          if saved_hash ≟ root_hash t
          then ok (
            saved_hash,
            version,
            record t { loaded_version = version; root = map_root shallow_clone t.root },
          )
          else err overwrite)
      else (let (saved_hash, t') = save_new version t in ok (saved_hash, version, t'))

  -- `Tree::new` at a version.
  unfoldable pub load : NodeDb → HashSet ℕ → ℕ → Result Error Tree
  unfolding get_root_node
  load db versions target_version = get_root_node empty_hash db target_version >>= λ root.
      ok
        (record { root = root; node_db = db; loaded_version = target_version; versions = versions })
