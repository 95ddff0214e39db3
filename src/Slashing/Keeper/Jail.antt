-- ===== src/Slashing/Keeper/Jail.antt =====
-- x/slashing/src/keeper.rs: who is slashed and jailed.
use gears.Base.{
  ℕ, ◌≡◌, refl, List, [], ◌∷◌, Option, none, some, Bool, true, false, ◌&&◌, if◌then◌else◌,
}
use gears.Base.Order.{Bytes}
use gears.Base.Results.{Result, ok, err}
use gears.Staking.Validator.{Decimals}
use gears.Slashing.Store.{
  Codecs, ValidatorSigningInfo, ValidatorHandlingError, params_failed, time_out_of_range,
  clear_validator_missed_block_bit_array,
}
use gears.Time.Timestamp.{Timestamp}
use gears.Slashing.Params.{Ceilings, ParamsError, min_signed_per_window_u32}
use gears.Slashing.Keeper.{
  StakingKeeper, State, Block, Read, jailed, distribution_height, jail_end, read_signature,
  is_liable, mark, settle, punish, save_info, handle_validator_signature, begin_block,
}

module _ {S : Type 0} (k : StakingKeeper S) (codec : Codecs) (d : Decimals) (c : Ceilings)
    (block : Block) (P : S → Type 0)
    (punishes : (addr : Bytes) (power : ℕ) (z : S)
      → jailed (k.validator_by_cons_addr addr z) ≡ true
      → P z
      → P (
          k.jail addr (
            k.slash addr
              (distribution_height block)
              power
              block.params.slash_fraction_downtime
              z))) where
  save_info-keeps :
      (addr : Bytes) (x : Result ValidatorHandlingError ValidatorSigningInfo × State S)
      → P x.1.staking
      → P (save_info k codec d c addr x).1.staking
  unfolding save_info
  save_info-keeps addr (err e, s) h = h
  save_info-keeps addr (ok info, s) h = h

  punish-keeps :
      (addr : Bytes) (power : ℕ) (info : ValidatorSigningInfo) (s : State S)
      → jailed (k.validator_by_cons_addr addr s.staking) ≡ true
      → P s.staking
      → P (punish k codec d c block addr power info s).1.staking
  unfolding punish
  punish-keeps addr power info s j h = go (jail_end block)
    where
      go :
          (until : Option Timestamp)
          → P
              (elim until as (λ _. Result ValidatorHandlingError ValidatorSigningInfo × State S) [
                | none ↦ (
                  err time_out_of_range,
                  record s {
                    staking = k.jail addr (
                        k.slash addr
                          (distribution_height block)
                          power
                          block.params.slash_fraction_downtime
                          s.staking);
                  },
                )
                | some until ↦ (
                  ok (record info {
                    jailed_until = until;
                    missed_blocks_counter = 0;
                    index_offset = 0;
                  }),
                  record {
                    store = clear_validator_missed_block_bit_array addr s.store;
                    staking = k.jail addr (
                        k.slash addr
                          (distribution_height block)
                          power
                          block.params.slash_fraction_downtime
                          s.staking);
                  },
                )
              ]).1.staking
      go none = punishes addr power s.staking j h
      go (some until) = punishes addr power s.staking j h

  settle-keeps :
      (addr : Bytes) (power n : ℕ) (info : ValidatorSigningInfo) (s : State S)
      → P s.staking
      → P (settle k codec d c block addr power n info s).1.staking
  unfolding settle
  settle-keeps addr power n info s h =
      go (is_liable block n info) (jailed (k.validator_by_cons_addr addr s.staking)) refl
    where
      go :
          (a b : Bool)
          → jailed (k.validator_by_cons_addr addr s.staking) ≡ b
          → P
              (if a && b
                then punish k codec d c block addr power info s
                else (ok info, s)).1.staking
      go true true e = punish-keeps addr power info s e h
      go true false e = h
      go false b e = h

  handle-keeps :
      (addr : Bytes) (power : ℕ) (signed : Bool) (s : State S)
      → P s.staking
      → P (handle_validator_signature k codec d c block addr power signed s).1.staking
  unfolding handle_validator_signature
  handle-keeps addr power signed s h =
      go (read_signature codec block.params addr s.store)
        (min_signed_per_window_u32 d c block.params)
    where
      go :
          (x : Result ValidatorHandlingError Read) (q : Result ParamsError ℕ)
          → P
              (elim x as (λ _. Result ValidatorHandlingError (Unit {0}) × State S) [
                | err e ↦ (err e, s)
                | ok found ↦
                    let (info, store) = mark codec addr signed found s.store in
                    elim q [
                      | err e ↦ (err params_failed, record s { store = store })
                      | ok n ↦
                          save_info k codec d c addr (
                            settle k codec d c block addr power n info (record s { store = store }))
                    ]
              ]).1.staking
      go (err e) q = h
      go (ok found) (err e) = h
      go (ok found) (ok n) =
          let m = mark codec addr signed found s.store in
          save_info-keeps addr
            (settle k codec d c block addr power n m.0 (record s { store = m.1 }))
            (settle-keeps addr power n m.0 (record s { store = m.1 }) h)

  -- `begin_block` slashes and jails no validator that is not jailed when its vote is handled,
  -- however many blocks it has missed and whatever the other votes do: what the punishment of a
  -- jailed validator keeps of the staking state holds after the votes.
  pub begin_block-spares :
      (votes : List (Bytes × ℕ × Bool)) (s : State S)
      → P s.staking
      → P (begin_block k codec d c block votes s).1.staking
  unfolding begin_block
  begin_block-spares [] s h = h
  begin_block-spares ((addr, power, signed) ∷ votes) s h =
      go (handle_validator_signature k codec d c block addr power signed s)
        (handle-keeps addr power signed s h) (begin_block-spares votes)
    where
      go :
          (x : Result ValidatorHandlingError (Unit {0}) × State S)
          → P x.1.staking
          → ((z : State S) → P z.staking → P (begin_block k codec d c block votes z).1.staking)
          → P
              (elim x.0 as (λ _. Result ValidatorHandlingError (Unit {0}) × State S) [
                | err e ↦ (err e, x.1)
                | ok _ ↦ begin_block k codec d c block votes x.1
              ]).1.staking
      go (err e, s') g ih = g
      go (ok u, s') g ih = ih s' g
