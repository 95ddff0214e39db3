-- ===== src/Tests/Signatures.antt =====
-- The theorems of Slashing, on a validator that misses blocks in a window of three.
use gears.Base.{
  ℕ, zero, suc, subst, ◌+◌, ◌-◌, ◌*◌, ◌/◌, ◌≤◌, ◌<◌, ◌≡◌, refl, Bool, true, false, not, All, List,
  [], ◌∷◌, Option, none, some, leb, ◌==◌, if◌then◌else◌, arith,
}
use gears.Base.Int.{pos, wrap}
use gears.Base.Order.{Bytes, bytes_ord, ◌≟◌}
use gears.Base.Results.{ok}
use native.Mathlib.Nat.{div-mul-le_self, lt-div-mul-add}
use gears.Staking.Validator.{Decimals, RoundsDown}
use gears.Time.Timestamp.{Timestamp}
use gears.Slashing.Store.{
  ValidatorSigningInfo, Codecs, Store, set_validator_signing_info,
  get_validator_missed_block_bit_array, validator_signing_info_key, addr_pubkey_relation_key,
  validator_missed_block_bit_array_key,
}
use gears.Base.Maps.{get, insert, remove}
use gears.Slashing.Params.{SlashingParams, Ceilings, min_signed_per_window_u32}
use gears.Slashing.Params.Rounds.{RoundsUp, one}
use gears.Slashing.Keeper.{StakingKeeper, State, Block, jail_end, begin_block}
use gears.Slashing.Keeper.Jail.{begin_block-spares}

abbrev subtract : ℕ → ℕ → Option ℕ
subtract a b = if leb b a then some (a - b) else none

abbrev divide : ℕ → ℕ → Option ℕ
divide a b = if b == 0 then none else some (a * one / b)

abbrev decimals : Decimals
decimals = record {
  scale = one;
  uint_add = λ a b. some (a + b);
  uint_sub = subtract;
  from_atomics = λ a. some (a * one);
  checked_add = λ a b. some (a + b);
  checked_sub = subtract;
  checked_mul = λ a b. some (a * b / one);
  checked_div = divide;
  to_uint_floor = λ a. a / one;
}

-- Division that rounds up, and is checked only where the divisor is zero.
abbrev ceiling : ℕ → ℕ → Option ℕ
ceiling a b = if b == 0 then none else some ((a + b - 1) / b)

abbrev ceilings : Ceilings
ceilings = record { div_ceil = λ a b. ceiling (a * one) b; mul_ceil = λ a b. ceiling (a * b) one }

ceiling_least : (a b r : ℕ) → ceiling a b ≡ some r → (a ≤ r * b) × (r * b < a + b)
ceiling_least a zero r e = absurd cc
ceiling_least a (suc b) r e =
    let q : (a + suc b - 1) / suc b ≡ r = ground arith in
    let lo : (a + suc b - 1) / suc b * suc b ≤ a + suc b - 1 =
      div-mul-le_self (a + suc b - 1) (suc b) in
    let hi : a + suc b - 1 < (a + suc b - 1) / suc b * suc b + suc b =
      lt-div-mul-add (omega arith) in
    let lo' : r * suc b ≤ a + suc b - 1 = subst (λ z. z * suc b ≤ a + suc b - 1) q lo in
    let hi' : a + suc b - 1 < r * suc b + suc b =
      subst (λ z. a + suc b - 1 < z * suc b + suc b) q hi in
    (omega arith, omega arith)

quotient_least : (a b r : ℕ) → divide a b ≡ some r → a * one < (r + 1) * b
quotient_least a zero r e = absurd cc
quotient_least a (suc b) r e =
    let q : a * one / suc b ≡ r = ground arith in
    let hi : a * one < a * one / suc b * suc b + suc b = lt-div-mul-add (omega arith) in
    let hi' : a * one < r * suc b + suc b = subst (λ z. a * one < z * suc b + suc b) q hi in
    omega arith

decimals-RoundsDown : RoundsDown decimals
decimals-RoundsDown = record {
  scale_positive = omega arith;
  uint_add_exact = λ a b c e. ground arith;
  uint_sub_exact = λ a b c e. ground arith;
  from_atomics_exact = λ a c e. ground arith;
  checked_add_exact = λ a b c e. ground arith;
  checked_sub_exact = λ a b c e. ground arith;
  uint_sub_none = λ a b e. ground arith;
  checked_sub_none = λ a b e. ground arith;
  checked_mul_floor = λ a b c e. ground arith;
  checked_div_floor = λ a b c e. ground (arith, div-mul-le_self (a * one) b);
  to_uint_floor_le = λ a. omega arith;
}

decimals-RoundsUp : RoundsUp decimals ceilings
decimals-RoundsUp = record {
  scale_18 = refl;
  div_ceil_least = λ a b r e. ceiling_least (a * one) b r e;
  mul_ceil_least = λ a b r e. ceiling_least (a * b) one r e;
  checked_mul_least = λ a b c e. ground arith;
  checked_div_least = quotient_least;
}

-- Half of the window has to be signed, and a validator that does not goes to jail for a minute.
abbrev half : SlashingParams
half = record {
  signed_blocks_window = pos 3;
  min_signed_per_window = 500000000000000000;
  downtime_jail_duration = pos 60;
  slash_fraction_double_sign = 0;
  slash_fraction_downtime = 0;
}

half_rounds : min_signed_per_window_u32 decimals ceilings half ≡ ok 1
unfolding min_signed_per_window_u32
half_rounds = refl

abbrev validator : Bytes
validator = 7 ∷ []

abbrev until_epoch : Timestamp
until_epoch = record { seconds = pos 0; nanos = pos 0 }

-- At the third block of the window, after two missed ones.
abbrev signing : ValidatorSigningInfo
signing = record {
  address = validator;
  start_height = 0;
  index_offset = 2;
  jailed_until = until_epoch;
  tombstoned = false;
  missed_blocks_counter = 2;
}

abbrev bool_bytes : Bool → Bytes
bool_bytes true = 1 ∷ []
bool_bytes false = 0 ∷ []

abbrev read_bool : Bytes → Option Bool
read_bool [] = none
read_bool (x ∷ bytes) = some (x == 1)

abbrev codecs : Codecs
codecs = record {
  bool_to_vec = bool_bytes;
  bool_from_slice = read_bool;
  info_encode_vec = λ info. info.missed_blocks_counter ∷ [];
  info_from_slice = λ bytes. some signing;
  pub_key_from_slice = λ bytes. some bytes;
}

-- A vote is punished where the staking keeper says that the validator is jailed, which it says of
-- all but validator 8; it lists the addresses of its calls.
abbrev free : Bytes
free = 8 ∷ []

abbrev keeper : StakingKeeper (List Bytes)
keeper = record {
  validator_by_cons_addr = λ addr z. some (record { is_jailed = not (addr ≟ free) });
  slash = λ addr height power fraction z. addr ∷ z;
  jail = λ addr z. addr ∷ z;
}

abbrev entries : Store
entries =
    (validator_signing_info_key validator, 0 ∷ [])
    ∷ (validator_missed_block_bit_array_key validator 0, 1 ∷ [])
    ∷ (validator_missed_block_bit_array_key validator 1, 1 ∷ [])
    ∷ (addr_pubkey_relation_key validator, 5 ∷ [])
    ∷ []

abbrev fourth : Block
fourth = record { height = 4; time = until_epoch; params = half }

abbrev stored : State (List Bytes)
stored = record { store = entries; staking = [] }

abbrev IsSpared : List Bytes → Type 0
IsSpared z = All (λ (addr : Bytes). (addr ≟ free) ≡ false) z

begin_block-spares_example :
    IsSpared
      (begin_block keeper codecs decimals ceilings fourth
        ((validator, 9, false) ∷ (free, 9, false) ∷ [])
        stored).1.staking
begin_block-spares_example =
    begin_block-spares keeper codecs decimals ceilings fourth IsSpared
      (λ addr power z h p. let other : (addr ≟ free) ≡ false = ground arith in (other, (other, p)))
      ((validator, 9, false) ∷ (free, 9, false) ∷ []) stored tt

-- The jailed validator is punished.
punished :
    (begin_block keeper codecs decimals ceilings fourth
      ((validator, 9, false) ∷ [])
      stored).1.staking
    ≡ validator ∷ validator ∷ []
unfolding begin_block min_signed_per_window_u32 jail_end wrap get insert remove
    gears.Time.Duration.try_new gears.Time.Timestamp.checked_add validator_signing_info_key
    addr_pubkey_relation_key validator_missed_block_bit_array_key
    get_validator_missed_block_bit_array gears.Slashing.Keeper.is_liable
    gears.Slashing.Keeper.punish
punished = refl

-- The length of the first field, and a brace.
abbrev read_json : Bytes → Option ValidatorSigningInfo
read_json [] = none
read_json (x ∷ bytes) = if x == 123 then some signing else none

abbrev foreign_codecs : Codecs
foreign_codecs = record codecs { info_encode_vec = λ info. 10 ∷ []; info_from_slice = read_json }

abbrev known : Store
known = (addr_pubkey_relation_key validator, 5 ∷ []) ∷ []

abbrev written : State (List Bytes)
written = record {
  store = set_validator_signing_info foreign_codecs validator signing known;
  staking = [];
}
