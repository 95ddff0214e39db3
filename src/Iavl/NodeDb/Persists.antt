-- ===== src/Iavl/NodeDb/Persists.antt =====
-- trees/src/iavl/node_db.rs: the nodes that a save leaves in the database, and their loading.
use gears.Base.{
  ℕ, zero, suc, ◌<◌, ◌≡◌, refl, sym, ◌∙◌, ap, Bool, true, false, some, if◌then◌else◌, arith,
}
use gears.Base.Order.{Bytes, bytes_ord, ≟_refl, eq_of_≟}
use gears.Base.Maps.{BtreeMap, get-insert}
use gears.Base.Maps
use gears.Iavl.Node.{Node, leaf, inner, get_height, max-cases}
use gears.Iavl.Shape.{IsBalanced}
use gears.Iavl.NodeDb.{
  NodeDb, Stored, stored_node, shallow_clone, get_node, both, restored, save_node,
  recursive_tree_save,
}

map_branch :
    {P Q R T : Type 0} (b : Bool) → (P → R) → (Q → T) → (if b then P else Q) → if b then R else T
map_branch true f g h = f h
map_branch false f g h = g h

-- What each hash stands for: no two different nodes have the same hash.
module _ (world : Bytes → Stored) where
  -- The node under the hash, and those below it under the hashes of their parents, are what these
  -- stand for.
  unfoldable pub Agrees : Bytes → Node → Type 0
  unfolding stored_node
  Agrees k (leaf key v w) = stored_node (leaf key v w) ≡ world k
  Agrees k (inner m l r) =
      (stored_node (inner m l r) ≡ world k) × Agrees m.left_hash l × Agrees m.right_hash r

  -- The database holds the node and every node below it.
  unfoldable pub IsIn : NodeDb → Bytes → Node → Type 0
  unfolding Maps.get
  IsIn db k (leaf key v w) = Maps.get k db.nodes ≡ some (world k)
  IsIn db k (inner m l r) =
      (Maps.get k db.nodes ≡ some (world k)) × IsIn db m.left_hash l × IsIn db m.right_hash r

  -- The database holds what is not loaded.
  unfoldable pub IsPersisted : NodeDb → Node → Type 0
  unfolding IsIn
  IsPersisted db (leaf key v w) = Unit
  IsPersisted db (inner m l r) =
      (if m.left_loaded then IsPersisted db l else IsIn db m.left_hash l)
      × (if m.right_loaded then IsPersisted db r else IsIn db m.right_hash r)

  abbrev Keeps : NodeDb → NodeDb → Type 0
  Keeps db db' =
      (j : Bytes) → Maps.get j db.nodes ≡ some (world j) → Maps.get j db'.nodes ≡ some (world j)

  IsIn-Keeps :
      (db db' : NodeDb) → Keeps db db' → (k : Bytes) (n : Node) → IsIn db k n → IsIn db' k n
  unfolding IsIn
  IsIn-Keeps db db' f k (leaf key v w) h = f k h
  IsIn-Keeps db db' f k (inner m l r) (h, a, b) =
      (f k h, IsIn-Keeps db db' f m.left_hash l a, IsIn-Keeps db db' f m.right_hash r b)

  IsPersisted-Keeps :
      (db db' : NodeDb) → Keeps db db' → (n : Node) → IsPersisted db n → IsPersisted db' n
  unfolding IsPersisted
  IsPersisted-Keeps db db' f (leaf key v w) h = tt
  IsPersisted-Keeps db db' f (inner m l r) (a, b) = (
    map_branch m.left_loaded (IsPersisted-Keeps db db' f l) (IsIn-Keeps db db' f m.left_hash l) a,
    map_branch m.right_loaded (IsPersisted-Keeps db db' f r) (IsIn-Keeps db db' f m.right_hash r) b,
  )

  saved :
      (n : Node) (k : Bytes) (db : NodeDb)
      → stored_node n ≡ world k
      → Maps.get k (save_node n k db).nodes ≡ some (world k)
  unfolding save_node
  saved n k db e = get-insert k k (stored_node n) db.nodes ∙ rw (≟_refl k) (ap some e)

  save_node-Keeps :
      (n : Node) (k : Bytes) (db : NodeDb) → stored_node n ≡ world k → Keeps db (save_node n k db)
  unfolding save_node
  save_node-Keeps n k db e j h =
      get-insert k j (stored_node n) db.nodes ∙ ground (arith, e, h, eq_of_≟ k j)

  abbrev save_child : Bool → Node → Bytes → NodeDb → NodeDb
  save_child loaded n k = if loaded then recursive_tree_save n k else λ d. d

  child-Keeps :
      (loaded : Bool) (n : Node) (k : Bytes) (db : NodeDb)
      → ((d : NodeDb) → Keeps d (recursive_tree_save n k d))
      → Keeps db (save_child loaded n k db)
  child-Keeps true n k db f = f db
  child-Keeps false n k db f = λ j h. h

  child-IsIn :
      (loaded : Bool) (n : Node) (k : Bytes) (db : NodeDb)
      → (IsPersisted db n → IsIn (recursive_tree_save n k db) k n)
      → (if loaded then IsPersisted db n else IsIn db k n)
      → IsIn (save_child loaded n k db) k n
  child-IsIn true n k db f h = f h
  child-IsIn false n k db f h = h

  -- A save leaves what is there under the hashes that are not saved, and the same under those that
  -- are.
  save-Keeps :
      (n : Node) (k : Bytes) (db : NodeDb) → Agrees k n → Keeps db (recursive_tree_save n k db)
  unfolding recursive_tree_save Agrees
  save-Keeps (leaf key v w) k db a = save_node-Keeps (leaf key v w) k db a
  save-Keeps (inner m l r) k db (e, a, b) =
      let left = save_child m.left_loaded l m.left_hash db in
      let right = save_child m.right_loaded r m.right_hash left in
      λ j h. save_node-Keeps (inner m l r) k right e j (
        child-Keeps m.right_loaded r m.right_hash left (λ d. save-Keeps r m.right_hash d b) j
          (child-Keeps m.left_loaded l m.left_hash db (λ d. save-Keeps l m.left_hash d a) j h))

  -- After a save of a node whose unloaded children are in the database, all of it is.
  pub save-IsIn :
      (n : Node) (k : Bytes) (db : NodeDb)
      → Agrees k n
      → IsPersisted db n
      → IsIn (recursive_tree_save n k db) k n
  unfolding recursive_tree_save Agrees IsIn IsPersisted
  save-IsIn (leaf key v w) k db a p = saved (leaf key v w) k db a
  save-IsIn (inner m l r) k db (e, a, b) (p, q) =
      let left = save_child m.left_loaded l m.left_hash db in
      let right = save_child m.right_loaded r m.right_hash left in
      let last = save_node-Keeps (inner m l r) k right e in
      let before = child-Keeps m.left_loaded l m.left_hash db (λ d. save-Keeps l m.left_hash d a) in
      let after =
        child-Keeps m.right_loaded r m.right_hash left (λ d. save-Keeps r m.right_hash d b) in
      let in_left : IsIn left m.left_hash l =
        child-IsIn m.left_loaded l m.left_hash db (save-IsIn l m.left_hash db a) p in
      let waits : if m.right_loaded then IsPersisted left r else IsIn left m.right_hash r =
        map_branch m.right_loaded (IsPersisted-Keeps db left before r)
          (IsIn-Keeps db left before m.right_hash r) q in
      let in_right : IsIn right m.right_hash r =
        child-IsIn m.right_loaded r m.right_hash left (save-IsIn r m.right_hash left b) waits in
      (
        saved (inner m l r) k right e,
        IsIn-Keeps right (save_node (inner m l r) k right) last m.left_hash l
            (IsIn-Keeps left right after m.left_hash l in_left),
        IsIn-Keeps right (save_node (inner m l r) k right) last m.right_hash r in_right,
      )

  -- A balanced node that is in the database with all below it is loaded from there.
  pub get_node-IsIn :
      (f : ℕ) (n : Node) (k : Bytes) (db : NodeDb)
      → IsBalanced n
      → get_height n < f
      → Agrees k n
      → IsIn db k n
      → get_node f db k ≡ some (shallow_clone n)
  unfolding get_node Agrees IsIn IsBalanced get_height shallow_clone stored_node
  get_node-IsIn zero n k db b h a i = absurd (omega arith)
  get_node-IsIn (suc f) (leaf key v w) k db b h a i = rw (i, restored) (rw (sym a, restored) refl)
  get_node-IsIn (suc f) (inner m l r) k db (eh, es, x, y, bl, br) h (e, a, c) (i, il, ir) =
      let top = max-cases (get_height l) (get_height r) in
      let left = get_node-IsIn f l m.left_hash db bl (omega arith) a il in
      let right = get_node-IsIn f r m.right_hash db br (omega arith) c ir in
      rw (i, restored) (rw (sym e, restored) (rw (left, both) (rw (right, both) refl)))
