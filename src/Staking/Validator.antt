-- ===== src/Staking/Validator.antt =====
-- x/staking/src/types/validator.rs: the tokens and the shares of a validator. A token amount is the
-- number of a `Uint256`, and shares are the atomics of a `Decimal256`.
pub mod Rounding
pub mod Rate
pub mod Steps
use gears.Base.{
  ℕ, ◌+◌, ◌*◌, ◌≤◌, ◌<◌, ◌≡◌, Bool, true, false, Option, none, some, ltb, ◌&&◌, ◌==◌, if◌then◌else◌,
}
use gears.Base.Results.{Result, ok, err, ok_or, ◌>>=◌}

pub data BondStatus : Type 0 where
  unspecified unbonded unbonding bonded : BondStatus

-- The fields that the methods below read or write.
pub record Validator : Type 0 where
  pub tokens : ℕ
  pub delegator_shares : ℕ
  pub jailed : Bool
  pub status : BondStatus

pub data ValidatorError : Type 0 where
  insufficient_shares overflow : ValidatorError

-- The arithmetic of the crate of `Uint256` and `Decimal256`: every operation fails where the result
-- does not fit, and multiplication, division and `to_uint_floor` round down.
pub record Decimals : Type 0 where
  pub scale : ℕ
  pub uint_add : ℕ → ℕ → Option ℕ
  pub uint_sub : ℕ → ℕ → Option ℕ
  pub from_atomics : ℕ → Option ℕ
  pub checked_add : ℕ → ℕ → Option ℕ
  pub checked_sub : ℕ → ℕ → Option ℕ
  pub checked_mul : ℕ → ℕ → Option ℕ
  pub checked_div : ℕ → ℕ → Option ℕ
  pub to_uint_floor : ℕ → ℕ

-- What the crate documents of the results, and that a difference fails only where it is negative.
pub record RoundsDown (d : Decimals) : Type 0 where
  pub scale_positive : 0 < d.scale
  pub uint_add_exact : (a b c : ℕ) → d.uint_add a b ≡ some c → c ≡ a + b
  pub uint_sub_exact : (a b c : ℕ) → d.uint_sub a b ≡ some c → a ≡ c + b
  pub from_atomics_exact : (a c : ℕ) → d.from_atomics a ≡ some c → c ≡ a * d.scale
  pub checked_add_exact : (a b c : ℕ) → d.checked_add a b ≡ some c → c ≡ a + b
  pub checked_sub_exact : (a b c : ℕ) → d.checked_sub a b ≡ some c → a ≡ c + b
  pub uint_sub_none : (a b : ℕ) → d.uint_sub a b ≡ none → a < b
  pub checked_sub_none : (a b : ℕ) → d.checked_sub a b ≡ none → a < b
  pub checked_mul_floor : (a b c : ℕ) → d.checked_mul a b ≡ some c → c * d.scale ≤ a * b
  pub checked_div_floor : (a b c : ℕ) → d.checked_div a b ≡ some c → c * b ≤ a * d.scale
  pub to_uint_floor_le : (a : ℕ) → d.to_uint_floor a * d.scale ≤ a

unfoldable pub bonded_tokens : Validator → ℕ
bonded_tokens v = elim v.status [ bonded ↦ v.tokens | _ ↦ 0 ]

unfoldable pub invalid_ex_rate : Validator → Bool
invalid_ex_rate v = (v.tokens == 0) && ltb 0 v.delegator_shares

module _ (d : Decimals) where
  -- `?` on an operation that may overflow.
  abbrev pub lift : Option ℕ → Result ValidatorError ℕ
  lift r = ok_or overflow r

  unfoldable pub shares_from_tokens : Validator → ℕ → Result ValidatorError ℕ
  shares_from_tokens v amount =
      if v.tokens == 0
      then err insufficient_shares
      else (lift (d.from_atomics amount) >>= λ a. lift (d.checked_mul v.delegator_shares a) >>= λ p.
          lift (d.from_atomics v.tokens) >>= λ t. lift (d.checked_div p t))

  unfoldable pub tokens_from_shares : Validator → ℕ → Result ValidatorError ℕ
  tokens_from_shares v shares = lift (d.from_atomics v.tokens) >>= λ t.
      lift (d.checked_mul shares t) >>= λ p. lift (d.checked_div p v.delegator_shares)

  -- The shares that a delegation is given.
  unfoldable pub shares_to_issue : Validator → ℕ → Result ValidatorError ℕ
  unfolding shares_from_tokens
  shares_to_issue v amount =
      if v.delegator_shares == 0 then lift (d.from_atomics amount) else shares_from_tokens v amount

  -- The tokens are written before the sum of the shares is tried.
  unfoldable pub add_tokens_from_del : ℕ → Validator → Result ValidatorError ℕ × Validator
  unfolding shares_to_issue
  add_tokens_from_del amount v = elim (shares_to_issue v amount) [
    | err e ↦ (err e, v)
    | ok issued ↦ elim (d.uint_add v.tokens amount) [
      | none ↦ (err overflow, v)
      | some tokens ↦ elim (d.checked_add v.delegator_shares issued) [
        | none ↦ (err overflow, record v { tokens = tokens })
        | some shares ↦ (ok issued, record v { tokens = tokens; delegator_shares = shares })
      ]
    ]
  ]

  -- The tokens to issue for shares, and the tokens that are left.
  unfoldable pub tokens_to_issue : Validator → ℕ → ℕ → Result ValidatorError (ℕ × ℕ)
  unfolding tokens_from_shares
  tokens_to_issue v del_shares remaining =
      if remaining == 0
      then ok (v.tokens, 0)
      else (tokens_from_shares v del_shares >>= λ worth.
          let tokens = d.to_uint_floor worth in
          lift (d.uint_sub v.tokens tokens) >>= λ left. ok (tokens, left))

  unfoldable pub remove_del_shares : ℕ → Validator → Result ValidatorError ℕ × Validator
  unfolding tokens_to_issue
  remove_del_shares del_shares v = elim (d.checked_sub v.delegator_shares del_shares) [
    | none ↦ (err overflow, v)
    | some remaining ↦ elim (tokens_to_issue v del_shares remaining) [
      | err e ↦ (err e, v)
      | ok (tokens, left) ↦ (ok tokens, record v { tokens = left; delegator_shares = remaining })
    ]
  ]
