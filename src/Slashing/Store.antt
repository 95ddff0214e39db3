-- ===== src/Slashing/Store.antt =====
-- x/slashing/src/keys.rs, and the reads and writes of the store of x/slashing/src/keeper.rs. The
-- store is the map that the application's store reads as.
use gears.Base.{
  ℕ, ◌/◌, ◌%◌, Bool, false, List, [], ◌∷◌, ◌++◌, Option, none, some, if◌then◌else◌, length, drop,
}
use gears.Base.Maps.{BtreeMap, get, insert, remove}
use gears.Base.Order.{Bytes, bytes_ord}
use gears.Base.Results.{Result, ok, err}
use gears.KvStore.Prefix.Exact.{begins_with}
use gears.Time.Timestamp.{Timestamp}

pub record ValidatorSigningInfo : Type 0 where
  pub address : Bytes
  pub start_height : ℕ
  pub index_offset : ℕ
  pub jailed_until : Timestamp
  pub tombstoned : Bool
  pub missed_blocks_counter : ℕ

-- What the serializers of other crates make of the stored types.
pub record Codecs : Type 0 where
  pub bool_to_vec : Bool → Bytes
  pub bool_from_slice : Bytes → Option Bool
  pub info_encode_vec : ValidatorSigningInfo → Bytes
  pub info_from_slice : Bytes → Option ValidatorSigningInfo
  pub pub_key_from_slice : Bytes → Option Bytes

pub data ValidatorHandlingError : Type 0 where
  consensus_not_found signing_info_not_found params_failed : ValidatorHandlingError
  -- a panic: bytes that cannot be read, a division by zero, a time out of range
  corrupt divided_by_zero time_out_of_range : ValidatorHandlingError

abbrev pub Store : Type 0
Store = BtreeMap Bytes Bytes

unfoldable pub must_length_prefixed : Bytes → Bytes
must_length_prefixed addr = length addr ∷ addr

-- `u32::to_le_bytes`
unfoldable pub to_le_bytes : ℕ → Bytes
to_le_bytes n = n % 256 ∷ n / 256 % 256 ∷ n / 65536 % 256 ∷ n / 16777216 % 256 ∷ []

unfoldable pub addr_pubkey_relation_key : Bytes → Bytes
unfolding must_length_prefixed
addr_pubkey_relation_key addr = 3 ∷ must_length_prefixed addr

unfoldable pub validator_signing_info_key : Bytes → Bytes
unfolding must_length_prefixed
validator_signing_info_key addr = 1 ∷ must_length_prefixed addr

unfoldable pub validator_missed_block_bit_array_prefix_key : Bytes → Bytes
unfolding must_length_prefixed
validator_missed_block_bit_array_prefix_key addr = 2 ∷ must_length_prefixed addr

unfoldable pub validator_missed_block_bit_array_key : Bytes → ℕ → Bytes
unfolding validator_missed_block_bit_array_prefix_key to_le_bytes
validator_missed_block_bit_array_key addr index =
    validator_missed_block_bit_array_prefix_key addr ++ to_le_bytes index

-- The rest of each key that begins with the prefix.
unfoldable pub suffixes : Bytes → Store → List Bytes
suffixes prefix [] = []
suffixes prefix ((k, v) ∷ m) =
    let rest = suffixes prefix m in
    if begins_with prefix k then drop (length prefix) k ∷ rest else rest

unfoldable pub delete_each : Bytes → List Bytes → Store → Store
delete_each prefix [] m = m
delete_each prefix (k ∷ ks) m = delete_each prefix ks (remove (prefix ++ k) m)

unfoldable pub clear_validator_missed_block_bit_array : Bytes → Store → Store
unfolding suffixes delete_each
clear_validator_missed_block_bit_array addr m =
    let prefix = validator_missed_block_bit_array_prefix_key addr in
    delete_each prefix (suffixes prefix m) m

-- `unwrap_or_corrupt` of what is stored, if anything is.
abbrev pub read :
    {A : Type 0} → (Bytes → Option A) → Option Bytes → Result ValidatorHandlingError (Option A)
read from_slice none = ok none
read from_slice (some bytes) = elim (from_slice bytes) [ none ↦ err corrupt | some a ↦ ok (some a) ]

module _ (codec : Codecs) where
  unfoldable pub get_pub_key : Store → Bytes → Result ValidatorHandlingError (Option Bytes)
  get_pub_key m addr = read codec.pub_key_from_slice (get (addr_pubkey_relation_key addr) m)

  unfoldable pub validator_signing_info :
      Store → Bytes → Result ValidatorHandlingError (Option ValidatorSigningInfo)
  validator_signing_info m addr =
      read codec.info_from_slice (get (validator_signing_info_key addr) m)

  unfoldable pub set_validator_signing_info : Bytes → ValidatorSigningInfo → Store → Store
  set_validator_signing_info addr info m =
      insert (validator_signing_info_key addr) (codec.info_encode_vec info) m

  -- `unwrap_or_default`
  abbrev pub read_bit : Option Bytes → Result ValidatorHandlingError Bool
  read_bit none = ok false
  read_bit (some bytes) = elim (codec.bool_from_slice bytes) [ none ↦ err corrupt | some b ↦ ok b ]

  unfoldable pub get_validator_missed_block_bit_array :
      Store → Bytes → ℕ → Result ValidatorHandlingError Bool
  get_validator_missed_block_bit_array m addr index =
      read_bit (get (validator_missed_block_bit_array_key addr index) m)

  unfoldable pub set_validator_missed_block_bit_array : Bytes → ℕ → Bool → Store → Store
  set_validator_missed_block_bit_array addr index missed m =
      insert (validator_missed_block_bit_array_key addr index) (codec.bool_to_vec missed) m
