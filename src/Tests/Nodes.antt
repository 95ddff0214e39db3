-- ===== src/Tests/Nodes.antt =====
-- The theorems of Iavl at a tree of two entries.
use gears.Base.{ℕ, none, Option, ltb, if◌then◌else◌, ◌^◌, ◌≡◌, refl, false, some, [], ◌∷◌, arith}
use gears.Base.Order.{Bytes, bytes_ord, nat_ord, ◌≟◌}
use gears.Base.Results.{ok, Answers}
use gears.KvStore.Bounds.{Bounds, included, unbounded}
use gears.Iavl.Node.{Node, leaf, Hasher, hash, get_height, max}
use gears.Iavl.Shape.{IsBalanced}
use gears.Iavl.Keys.{to_list, IsKeyed}
use gears.Iavl.Merkle.{IsHashed}
use gears.Iavl.Insert.{joined}
use mathlib.Core.List.{reverse}
use gears.Base.Maps
use gears.Base.Maps.{contains}
use gears.KvStore.Bounds.{contains_key, select}
use gears.Iavl.Range.{new_range, next, next_back, collect}
use gears.Iavl.NodeDb.{Stored, stored_leaf, stored_node}
use gears.Iavl.NodeDb.Persists.{Agrees, IsPersisted}
use gears.Iavl.Tree.Loads.{CanSave, load-save_version}
use gears.Iavl.Tree.{Tree, get, set, remove, save_version, load}
use gears.Iavl.Tree.Valid.{IsSound, IsValid, entries}
use gears.Iavl.Codec.{VarInt, serialize, deserialize}
use gears.Iavl.Codec.Trip.{ReadsBack, Fits, stored, deserialize-serialize}
use gears.Iavl.Query.{Reads, new_query-save_version}
use gears.Iavl.Tree.Sets.{set-IsValid, entries-set}
use gears.Iavl.Tree.Removes.{remove_but_last, remove-IsValid, entries-remove}
use gears.Iavl.Tree.Reads.{steps, get-entries, collect-range}

-- A digest that keeps its argument, after a byte that no hash of the empty tree has.
abbrev hasher : Hasher
hasher = record { digest = λ bz. 1 ∷ bz; encode_var = λ n. n ∷ [] }

abbrev no_hash : Bytes
no_hash = []

abbrev two_nodes : Node
unfolding joined
two_nodes = joined hasher 1 (5 ∷ []) (leaf (3 ∷ []) (7 ∷ []) 1) (leaf (5 ∷ []) (9 ∷ []) 1)

abbrev two_entries : Tree
two_entries = record {
  root = some two_nodes;
  node_db = record { roots = []; nodes = [] };
  loaded_version = 0;
  versions = [];
}

two_nodes-IsSound : IsSound hasher two_nodes
unfolding joined IsBalanced IsKeyed IsHashed to_list max
two_nodes-IsSound = (
  (refl, refl, omega arith, omega arith, tt, tt),
  (refl, tt, tt),
  ((refl, tt), (tt, tt)),
  (refl, refl, tt, tt),
)

two_entries-IsValid : IsValid hasher two_entries
unfolding IsValid
two_entries-IsValid = two_nodes-IsSound

set-IsValid_example : Answers (set hasher (4 ∷ []) (8 ∷ []) two_entries) (IsValid hasher) (λ _. ⊥)
set-IsValid_example = set-IsValid hasher (4 ∷ []) (8 ∷ []) two_entries two_entries-IsValid

entries-set_example :
    Answers
      (set hasher (4 ∷ []) (8 ∷ []) two_entries)
      (λ u. entries u ≡ Maps.insert (4 ∷ []) (8 ∷ []) (entries two_entries))
      (λ _. ⊥)
entries-set_example = entries-set hasher (4 ∷ []) (8 ∷ []) two_entries two_entries-IsValid

remove-IsValid_example :
    Answers (remove hasher (3 ∷ []) two_entries) (λ (v, u). IsValid hasher u) (λ _. ⊥)
remove-IsValid_example = remove-IsValid hasher (3 ∷ []) two_entries two_entries-IsValid

entries-remove_example :
    Answers
      (remove hasher (3 ∷ []) two_entries)
      (λ (v, u).
        (v ≡ Maps.get (3 ∷ []) (entries two_entries))
        × (entries u ≡ remove_but_last (3 ∷ []) (entries two_entries)))
      (λ _. ⊥)
entries-remove_example = entries-remove hasher (3 ∷ []) two_entries two_entries-IsValid

get-entries_example : get (5 ∷ []) two_entries ≡ Maps.get (5 ∷ []) (entries two_entries)
get-entries_example = get-entries hasher (5 ∷ []) two_entries two_entries-IsValid

abbrev from_four : Bounds
from_four = record { start = included (4 ∷ []); end = unbounded }

collect-range_example :
    (collect next (steps hasher two_entries) (new_range from_four two_entries.root)
      ≡ select (contains_key from_four) (entries two_entries))
    × (collect next_back (steps hasher two_entries) (new_range from_four two_entries.root)
        ≡ reverse (select (contains_key from_four) (entries two_entries)))
collect-range_example = collect-range hasher two_entries from_four two_entries-IsValid

abbrev no_entries : Tree
no_entries = record two_entries { root = none }

abbrev one_entry : Tree
one_entry = record two_entries { root = some (leaf (5 ∷ []) (9 ∷ []) 1) }

new_version : contains 1 two_entries.versions ≡ false
unfolding contains
new_version = refl

-- The hashes of the two leaves and of the root.
abbrev world : Bytes → Stored
unfolding joined hash stored_node
world k =
    if k ≟ hash hasher (leaf (3 ∷ []) (7 ∷ []) 1)
    then stored_leaf (3 ∷ []) (7 ∷ []) 1
    else if k ≟ hash hasher (leaf (5 ∷ []) (9 ∷ []) 1)
    then stored_leaf (5 ∷ []) (9 ∷ []) 1
    else stored_node two_nodes

two_entries-CanSave : CanSave hasher no_hash world two_entries.node_db two_nodes
unfolding joined hash Agrees IsPersisted max stored_node get_height
two_entries-CanSave = record {
  agrees = (refl, refl, refl);
  persisted = (tt, tt);
  apart = refl;
  low = omega arith;
}

load-save_version_example :
    Answers
      (save_version hasher no_hash two_entries)
      (λ (k, version, u). load hasher no_hash u.node_db u.versions version ≡ ok u)
      (λ _. ⊥)
load-save_version_example =
    load-save_version hasher no_hash world two_entries two_entries-IsValid two_entries-CanSave
      new_version

new_query-save_version_example :
    Answers
      (save_version hasher no_hash two_entries)
      (λ (k, version, u).
        Reads hasher no_hash (5 ∷ []) two_entries (record u { root = none }) version)
      (λ _. ⊥)
new_query-save_version_example =
    new_query-save_version hasher no_hash (5 ∷ []) world two_entries two_entries-IsValid
      two_entries-CanSave new_version none

-- Numbers as single digits, of any size.
abbrev read_digit : ℕ → Bytes → Option (ℕ × ℕ)
read_digit bits [] = none
read_digit bits (n ∷ bz) = if ltb n (2 ^ bits) then some (n, 1) else none

abbrev digits : VarInt
digits = record { encode_var = λ n. n ∷ []; decode_var = read_digit }

digits-ReadsBack : ReadsBack digits
digits-ReadsBack bits n rest f = ground arith

abbrev some_leaf : Node
some_leaf = leaf (3 ∷ []) (7 ∷ []) 1

some_leaf-Fits : Fits some_leaf
some_leaf-Fits = (omega arith, omega arith, omega arith)

deserialize-serialize_example :
    deserialize digits (serialize digits some_leaf) ≡ ok (stored some_leaf)
deserialize-serialize_example =
    deserialize-serialize digits digits-ReadsBack some_leaf some_leaf-Fits
