-- ===== src/Iavl/Codec/Trip.antt =====
-- trees/src/iavl/tree.rs: `deserialize` after `serialize`.
use gears.Base.{
  ℕ, ◌+◌, ◌^◌, ◌≤◌, ◌<◌, ◌≡◌, refl, sym, ◌∙◌, ap, ◌++◌, [], leb, true, false, length, length-append,
  take-append, drop-append, some, ◌==◌, arith,
}
use mathlib.Core.List.{append_assoc, append-nil}
use gears.Base.Order.{Bytes}
use gears.Base.Results.{ok}
use gears.Iavl.Node.{Node, leaf, inner, InnerNode}
use gears.Iavl.Codec.{
  VarInt, Stored, stored_leaf, stored_inner, suffix, to_hash, encode_bytes, decode_bytes, serialize,
  read_var, read_bytes, deserialize,
}

-- What is left of the bytes after the first n of them.
abbrev At : ℕ → Bytes → Bytes → Type 0
At n bytes rest = (pre : Bytes) × (n ≡ length pre) × (bytes ≡ pre ++ rest)

le→leb : (m n : ℕ) → m ≤ n → leb m n ≡ true
le→leb m n h = ground arith

suffix-At : (n : ℕ) (bytes rest : Bytes) → At n bytes rest → suffix n bytes ≡ ok rest
unfolding suffix
suffix-At n bytes rest (pre, e, f) =
    rw
      (
        e,
        f,
        le→leb (length pre) (length (pre ++ rest)) (let p = length-append pre rest in omega arith),
        drop-append pre rest,
      )
      refl

advance :
    (n k : ℕ) (bytes xs rest : Bytes)
    → At n bytes (xs ++ rest)
    → k ≡ length xs
    → At (n + k) bytes rest
advance n k bytes xs rest (pre, e, f) g =
    (pre ++ xs, (let p = length-append pre xs in omega arith), f ∙ sym (append_assoc pre xs rest))

last : (n : ℕ) (bytes xs : Bytes) → At n bytes xs → At n bytes (xs ++ [])
last n bytes xs (pre, e, f) = (pre, e, f ∙ ap (λ z. pre ++ z) (sym (append-nil xs)))

-- What the crate of variable-length integers documents: a number that fits the width is read back
-- from its bytes, whatever follows them, and takes all of them.
abbrev pub ReadsBack : VarInt → Type 0
ReadsBack c =
    (bits n : ℕ) (rest : Bytes)
    → n < 2 ^ bits
    → c.decode_var bits (c.encode_var n ++ rest) ≡ some (n, length (c.encode_var n))

-- The node without its children.
abbrev pub stored : Node → Stored
stored (leaf k v w) = stored_leaf k v w
stored (inner m l r) = stored_inner (record m { left_loaded = false; right_loaded = false })

-- The fields fit their widths, and hashes have 32 bytes.
abbrev pub Fits : Node → Type 0
Fits (leaf key value version) = version < 2 ^ 32 × length key < 2 ^ 64 × length value < 2 ^ 64
Fits (inner m l r) =
    0 < m.height
    × m.height < 2 ^ 8
    × m.size < 2 ^ 32
    × m.version < 2 ^ 32
    × length m.key < 2 ^ 64
    × (length m.left_hash ≡ 32)
    × (length m.right_hash ≡ 32)

module _ (c : VarInt) (reads : ReadsBack c) where
  read_var-At :
      (bits n v : ℕ) (bytes rest : Bytes)
      → v < 2 ^ bits
      → At n bytes (c.encode_var v ++ rest)
      → read_var c bits n bytes ≡ ok (v, n + length (c.encode_var v))
  read_var-At bits n v bytes rest f a =
      rw (suffix-At n bytes (c.encode_var v ++ rest) a, reads bits v rest f) refl

  decode-encode_bytes :
      (bz rest : Bytes)
      → length bz < 2 ^ 64
      → decode_bytes c (encode_bytes c bz ++ rest) ≡ ok (bz, length (encode_bytes c bz))
  unfolding decode_bytes
  decode-encode_bytes bz rest f =
      rw (append_assoc (c.encode_var (length bz)) bz rest, reads 64 (length bz) (bz ++ rest) f)
        (rw
          (
            drop-append (c.encode_var (length bz)) (bz ++ rest),
            take-append bz rest,
            le→leb (length (c.encode_var (length bz)) + length bz)
                (length (c.encode_var (length bz) ++ (bz ++ rest)))
                (let p = length-append (c.encode_var (length bz)) (bz ++ rest) in
                  let q = length-append bz rest in omega arith),
            length-append (c.encode_var (length bz)) bz,
          )
          refl)

  read_bytes-At :
      (n : ℕ) (bz bytes rest : Bytes)
      → length bz < 2 ^ 64
      → At n bytes (encode_bytes c bz ++ rest)
      → read_bytes c n bytes ≡ ok (bz, n + length (encode_bytes c bz))
  read_bytes-At n bz bytes rest f a =
      rw (suffix-At n bytes (encode_bytes c bz ++ rest) a, decode-encode_bytes bz rest f) refl

  leaf-trip :
      (b key value : Bytes) (version : ℕ)
      → version < 2 ^ 32
      → length key < 2 ^ 64
      → length value < 2 ^ 64
      → At 0 b (
          c.encode_var 0
          ++ (c.encode_var 1
              ++ (c.encode_var version ++ (encode_bytes c key ++ encode_bytes c value))))
      → deserialize c b ≡ ok (stored_leaf key value version)
  unfolding deserialize
  leaf-trip b key value version fv fk fb a0 =
      let a1 =
        advance 0 _ b (c.encode_var 0)
          (c.encode_var 1 ++ (c.encode_var version ++ (encode_bytes c key ++ encode_bytes c value)))
          a0 refl in
      let a2 =
        advance _ _ b (c.encode_var 1)
          (c.encode_var version ++ (encode_bytes c key ++ encode_bytes c value)) a1 refl in
      let a3 =
        advance _ _ b (c.encode_var version) (encode_bytes c key ++ encode_bytes c value) a2 refl in
      let a4 = advance _ _ b (encode_bytes c key) (encode_bytes c value) a3 refl in
      rw
        (
          read_var-At 8 _ 0 b
              (c.encode_var 1
                ++ (c.encode_var version ++ (encode_bytes c key ++ encode_bytes c value)))
              (omega arith) a0,
          read_var-At 32 _ 1 b
              (c.encode_var version ++ (encode_bytes c key ++ encode_bytes c value)) (omega arith)
              a1,
          read_var-At 32 _ version b (encode_bytes c key ++ encode_bytes c value) fv a2,
          read_bytes-At _ key b (encode_bytes c value) fk a3,
          read_bytes-At _ value b [] fb (last _ b (encode_bytes c value) a4),
        )
        refl

  to_hash_of : (bz : Bytes) → length bz ≡ 32 → to_hash bz ≡ ok bz
  unfolding to_hash
  to_hash_of bz e = rw e refl

  same_false : (n : ℕ) → 0 < n → (n == 0) ≡ false
  same_false n h = ground arith

  inner-trip :
      (b : Bytes) (m : InnerNode)
      → 0 < m.height
      → m.height < 2 ^ 8
      → m.size < 2 ^ 32
      → m.version < 2 ^ 32
      → length m.key < 2 ^ 64
      → length m.left_hash ≡ 32
      → length m.right_hash ≡ 32
      → At 0 b (
          c.encode_var m.height
          ++ (c.encode_var m.size
              ++ (c.encode_var m.version
                  ++ (encode_bytes c m.key
                      ++ (encode_bytes c m.left_hash ++ encode_bytes c m.right_hash)))))
      → deserialize c b ≡ ok (stored_inner (record m { left_loaded = false; right_loaded = false }))
  unfolding deserialize
  inner-trip b m pos fh fs fv fk fl fr a0 =
      let r5 = encode_bytes c m.right_hash in
      let r4 = encode_bytes c m.left_hash ++ r5 in
      let r3 = encode_bytes c m.key ++ r4 in
      let r2 = c.encode_var m.version ++ r3 in
      let r1 = c.encode_var m.size ++ r2 in
      let a1 = advance 0 _ b (c.encode_var m.height) r1 a0 refl in
      let a2 = advance _ _ b (c.encode_var m.size) r2 a1 refl in
      let a3 = advance _ _ b (c.encode_var m.version) r3 a2 refl in
      let a4 = advance _ _ b (encode_bytes c m.key) r4 a3 refl in
      let a5 = advance _ _ b (encode_bytes c m.left_hash) r5 a4 refl in
      rw
        (
          read_var-At 8 _ m.height b r1 fh a0,
          read_var-At 32 _ m.size b r2 fs a1,
          read_var-At 32 _ m.version b r3 fv a2,
          read_bytes-At _ m.key b r4 fk a3,
          same_false m.height pos,
          read_bytes-At _ m.left_hash b r5 (omega arith) a4,
          read_bytes-At _ m.right_hash b [] (omega arith) (last _ b r5 a5),
          to_hash_of m.left_hash fl,
          to_hash_of m.right_hash fr,
        )
        refl

  -- A node whose fields fit their widths is read back from its bytes, without its children, where
  -- the variable-length integers are read back from theirs.
  pub deserialize-serialize : (n : Node) → Fits n → deserialize c (serialize c n) ≡ ok (stored n)
  unfolding serialize
  deserialize-serialize (leaf k v w) (a, b, d) = leaf-trip _ k v w a b d ([], refl, refl)
  deserialize-serialize (inner m l r) (a, b, d, e, f, g, i) =
      inner-trip _ m a b d e f g i ([], refl, refl)
