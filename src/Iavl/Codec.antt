-- ===== src/Iavl/Codec.antt =====
-- trees/src/iavl/tree.rs: the bytes under which a node is stored.
pub mod Trip
use gears.Base.{
  ℕ, ◌+◌, ◌-◌, ◌++◌, leb, false, length, take, drop, Option, none, some, if◌then◌else◌, ◌==◌,
}
use gears.Base.Order.{Bytes}
use gears.Base.Results.{Result, ok, err, ok_or, ◌>>=◌}
use gears.Iavl.Node.{Node, leaf, inner, InnerNode, InternalError, node_deserialize, out_of_range}

-- The variable-length integers of another crate: their bytes, and for a width in bits the number
-- that bytes start with and the bytes that it takes.
pub record VarInt : Type 0 where
  pub encode_var : ℕ → Bytes
  pub decode_var : ℕ → Bytes → Option (ℕ × ℕ)

-- A node without its children.
pub data Stored : Type 0 where
  stored_leaf : Bytes → Bytes → ℕ → Stored
  stored_inner : InnerNode → Stored

-- `&bytes[n..]`, which panics past the end.
unfoldable pub suffix : ℕ → Bytes → Result InternalError Bytes
suffix n bytes = if leb n (length bytes) then ok (drop n bytes) else err out_of_range

-- `try_into` an array of 32 bytes.
unfoldable pub to_hash : Bytes → Result InternalError Bytes
to_hash bz = if length bz == 32 then ok bz else err node_deserialize

module _ (c : VarInt) where
  abbrev pub encode_bytes : Bytes → Bytes
  encode_bytes bz = c.encode_var (length bz) ++ bz

  unfoldable pub decode_bytes : Bytes → Result InternalError (Bytes × ℕ)
  unfolding suffix
  decode_bytes bz = ok_or node_deserialize (c.decode_var 64 bz) >>= λ (bz_length, n_consumed).
      if leb (n_consumed + bz_length) (length bz)
      then ok (take bz_length (drop n_consumed bz), n_consumed + bz_length)
      else err out_of_range

  unfoldable pub serialize : Node → Bytes
  serialize (leaf key value version) =
      c.encode_var 0
      ++ (c.encode_var 1 ++ (c.encode_var version ++ (encode_bytes key ++ encode_bytes value)))
  serialize (inner m l r) =
      c.encode_var m.height
      ++ (c.encode_var m.size
          ++ (c.encode_var m.version
              ++ (encode_bytes m.key ++ (encode_bytes m.left_hash ++ encode_bytes m.right_hash))))

  -- A number, and where it ends.
  abbrev pub read_var : ℕ → ℕ → Bytes → Result InternalError (ℕ × ℕ)
  read_var bits n bytes = suffix n bytes >>= λ rest.
      ok_or node_deserialize (c.decode_var bits rest) >>= λ (v, k). ok (v, n + k)

  -- A byte string, and where it ends.
  abbrev pub read_bytes : ℕ → Bytes → Result InternalError (Bytes × ℕ)
  read_bytes n bytes = suffix n bytes >>= λ rest. decode_bytes rest >>= λ (bz, k). ok (bz, n + k)

  unfoldable pub deserialize : Bytes → Result InternalError Stored
  unfolding suffix decode_bytes to_hash
  deserialize bytes = read_var 8 0 bytes >>= λ (height, n1). read_var 32 n1 bytes >>= λ (size, n2).
      read_var 32 n2 bytes >>= λ (version, n3). read_bytes n3 bytes >>= λ (key, n4).
      if height == 0
      then (read_bytes n4 bytes >>= λ (value, n5). ok (stored_leaf key value version))
      else (read_bytes n4 bytes >>= λ (left_hash, n5). read_bytes n5 bytes >>= λ (right_hash, n6).
          to_hash left_hash >>= λ left. to_hash right_hash >>= λ right. ok (
            stored_inner (record {
              left_loaded = false;
              right_loaded = false;
              height = height;
              size = size;
              left_hash = left;
              right_hash = right;
              key = key;
              version = version;
            })))
