-- ===== src/Slashing/Keeper.antt =====
-- x/slashing/src/keeper.rs: what a block says of a validator's signature.
pub mod Corrupt
pub mod Jail
use gears.Base.{
  ℕ, ◌+◌, ◌-◌, ◌*◌, ◌%◌, Bool, true, false, not, ◌&&◌, List, [], ◌∷◌, Option, none, some, ltb, ◌==◌,
  if◌then◌else◌,
}
use gears.Base.Int.{ℤ, pos, wrap}
use gears.Base.Order.{Bytes}
use gears.Base.Results.{Result, ok, err, ok_or, map_err, ◌>>=◌}
use gears.Staking.Validator.{Decimals}
use gears.Time.Duration
use gears.Time.Timestamp.{Timestamp, checked_add, before, to_option}
use gears.Slashing.Store.{
  Store, Codecs, ValidatorSigningInfo, ValidatorHandlingError, consensus_not_found,
  signing_info_not_found, params_failed, corrupt, divided_by_zero, time_out_of_range, get_pub_key,
  validator_signing_info, set_validator_signing_info, get_validator_missed_block_bit_array,
  set_validator_missed_block_bit_array, clear_validator_missed_block_bit_array,
}
use gears.Slashing.Params.{SlashingParams, Ceilings, min_signed_per_window_u32}

abbrev pub u32_values : ℕ
u32_values = 4294967296

-- The trait `StakingValidator`, as far as the functions below call it.
pub record StakingValidator : Type 0 where
  pub is_jailed : Bool

-- The trait `SlashingStakingKeeper`, likewise, over the state that the keeper writes to.
pub record StakingKeeper (S : Type 0) : Type 0 where
  pub validator_by_cons_addr : Bytes → S → Option StakingValidator
  pub slash : Bytes → ℕ → ℕ → ℕ → S → S
  pub jail : Bytes → S → S

pub record State (S : Type 0) : Type 0 where
  pub store : Store
  pub staking : S

-- The block's header, and the parameters at it.
pub record Block : Type 0 where
  pub height : ℕ
  pub time : Timestamp
  pub params : SlashingParams

-- `params.signed_blocks_window as u32`
abbrev pub window_of : SlashingParams → ℕ
window_of p = wrap u32_values p.signed_blocks_window

-- `time.checked_add(Duration::try_new(downtime_jail_duration, 0).unwrap()).unwrap()`
unfoldable pub jail_end : Block → Option Timestamp
jail_end block = elim (Duration.try_new block.params.downtime_jail_duration (pos 0)) [
  | err e ↦ none
  | ok delta ↦ checked_add block.time delta
]

-- `height.saturating_sub(VALIDATOR_UPDATE_DELAY).saturating_sub(1)`
abbrev pub distribution_height : Block → ℕ
distribution_height block = block.height - 1 - 1

-- What is read of the validator: its info with the next offset, the index of the block in the
-- window, and the bit there.
abbrev pub Read : Type 0
Read = ValidatorSigningInfo × ℕ × Bool

module _ (codec : Codecs) where
  unfoldable pub read_signature :
      SlashingParams → Bytes → Store → Result ValidatorHandlingError Read
  unfolding wrap get_pub_key validator_signing_info
  read_signature p addr m = get_pub_key codec m addr >>= λ pub_key.
      ok_or consensus_not_found pub_key >>= λ _. validator_signing_info codec m addr >>= λ found.
      ok_or signing_info_not_found found >>= λ info.
      if window_of p == 0
      then err divided_by_zero
      else (let index = info.index_offset % window_of p in
          get_validator_missed_block_bit_array codec m addr index >>= λ previous.
          ok (record info { index_offset = (info.index_offset + 1) % u32_values }, index, previous))

  -- The bit and the counter, where the bit changes.
  unfoldable pub mark : Bytes → Bool → Read → Store → ValidatorSigningInfo × Store
  unfolding set_validator_missed_block_bit_array
  mark addr false (info, index, false) m = (
    record info { missed_blocks_counter = (info.missed_blocks_counter + 1) % u32_values },
    set_validator_missed_block_bit_array codec addr index true m,
  )
  mark addr true (info, index, true) m = (
    record info {
      missed_blocks_counter = (info.missed_blocks_counter + u32_values - 1) % u32_values;
    },
    set_validator_missed_block_bit_array codec addr index false m,
  )
  mark addr true (info, index, false) m = (info, m)
  mark addr false (info, index, true) m = (info, m)

-- Past the minimum height, with too many blocks missed. The arithmetic is that of `u32`.
unfoldable pub is_liable : Block → ℕ → ValidatorSigningInfo → Bool
unfolding wrap
is_liable block min_signed info =
    let window = window_of block.params in
    ltb ((info.start_height + window) % u32_values) block.height
    && ltb ((window + u32_values - min_signed) % u32_values) info.missed_blocks_counter

abbrev pub jailed : Option StakingValidator → Bool
jailed none = false
jailed (some v) = v.is_jailed

module _ {S : Type 0} (k : StakingKeeper S) (codec : Codecs) (d : Decimals) (c : Ceilings) where
  -- The validator is slashed and jailed, and its record of missed blocks is cleared.
  unfoldable pub punish :
      Block
      → Bytes
      → ℕ
      → ValidatorSigningInfo
      → State S
      → Result ValidatorHandlingError ValidatorSigningInfo × State S
  punish block addr power info s =
      let staking = k.jail addr (
        k.slash addr (distribution_height block) power block.params.slash_fraction_downtime
          s.staking) in
      elim (jail_end block) [
        | none ↦ (err time_out_of_range, record s { staking = staking })
        | some until ↦ (
          ok (record info { jailed_until = until; missed_blocks_counter = 0; index_offset = 0 }),
          record { store = clear_validator_missed_block_bit_array addr s.store; staking = staking },
        )
      ]

  unfoldable pub settle :
      Block
      → Bytes
      → ℕ
      → ℕ
      → ValidatorSigningInfo
      → State S
      → Result ValidatorHandlingError ValidatorSigningInfo × State S
  settle block addr power min_signed info s =
      if is_liable block min_signed info && jailed (k.validator_by_cons_addr addr s.staking)
      then punish block addr power info s
      else (ok info, s)

  -- The updated info is stored at the end.
  unfoldable pub save_info :
      Bytes
      → Result ValidatorHandlingError ValidatorSigningInfo × State S
      → Result ValidatorHandlingError (Unit {0}) × State S
  unfolding set_validator_signing_info
  save_info addr (err e, s) = (err e, s)
  save_info addr (ok info, s) =
      (ok tt, record s { store = set_validator_signing_info codec addr info s.store })

  unfoldable pub handle_validator_signature :
      Block → Bytes → ℕ → Bool → State S → Result ValidatorHandlingError (Unit {0}) × State S
  unfolding read_signature mark min_signed_per_window_u32 settle save_info
  handle_validator_signature block addr power signed s =
      elim (read_signature codec block.params addr s.store) [
        | err e ↦ (err e, s)
        | ok found ↦
            let (info, store) = mark codec addr signed found s.store in
            let marked : State S = record s { store = store } in
            elim (min_signed_per_window_u32 d c block.params) [
              | err e ↦ (err params_failed, marked)
              | ok min_signed ↦ save_info addr (settle block addr power min_signed info marked)
            ]
      ]

  -- The votes of the last commit, up to the first that fails, where the code panics.
  unfoldable pub begin_block :
      Block → List (Bytes × ℕ × Bool) → State S → Result ValidatorHandlingError (Unit {0}) × State S
  unfolding handle_validator_signature
  begin_block block [] s = (ok tt, s)
  begin_block block ((addr, power, signed) ∷ votes) s =
      let (result, s') = handle_validator_signature block addr power signed s in
      elim result [ err e ↦ (err e, s') | ok _ ↦ begin_block block votes s' ]
