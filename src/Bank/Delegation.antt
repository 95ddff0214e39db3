-- ===== src/Bank/Delegation.antt =====
-- x/bank/src/keeper/mod.rs: the methods that move coins between an account and a module.
pub mod Additions
pub mod Stakes
pub mod Conserves
use gears.Base.{ℕ, ◌-◌, Bool, true, false, Option, none, some, List, [], ◌∷◌, ltb, if◌then◌else◌}
use gears.Base.Order.{Bytes}
use gears.Base.Results.{Result, ok, err, map_err}
use gears.Base.Exec.{Exec, pure, lift, ◌>>=◌, ◌>>◌}
use gears.Coins.{Coin, amount_of}
use gears.Coins
use gears.Coins.Combine.{Arithmetic}
use gears.Bank.Ledger.{Ledger}
use gears.Bank.Keeper.{
  BankKeeperError, account_not_found, delegation, amount_error, insufficient_account, coins_error,
  panicked, Keeper, metered, balance, set_balance, add_coins,
}

module _ (u : Arithmetic) (l : Ledger) where
  -- Both branches of the method return no coins.
  unfoldable pub locked_coins : Bytes → Keeper u l (List Coin)
  locked_coins addr = metered u l (l.get_account addr) >>= λ _. pure []

  abbrev pub required : Bytes → Bool → Keeper u l (Unit {0})
  required addr true = pure tt
  required addr false = lift (err (account_not_found addr))

  -- `track_delegation` and `track_undelegation`, and the first test of the two methods below
  unfoldable pub require_account : Bytes → Keeper u l (Unit {0})
  require_account addr = metered u l (l.get_account addr) >>= required addr

  -- The body of the loop of `sub_unlocked_coins`.
  unfoldable pub sub_found : Bytes → List Coin → Coin → Option Coin → Keeper u l (Unit {0})
  unfolding set_balance amount_of
  sub_found addr locked c none = lift (err (insufficient_account addr c.denom))
  sub_found addr locked c (some b) =
      let locked_amount = amount_of locked c.denom in
      let spendable = b.amount - locked_amount in
      if ltb b.amount locked_amount
      then lift (err panicked)
      else if ltb spendable c.amount
      then lift (err (amount_error spendable c.amount))
      else set_balance u l addr (record b { amount = b.amount - c.amount })

  unfoldable pub sub_all : Bytes → List Coin → List Coin → Keeper u l (Unit {0})
  unfolding balance sub_found
  sub_all addr locked [] = pure tt
  sub_all addr locked (c ∷ amount) =
      (balance u l addr c.denom >>= sub_found addr locked c) >> sub_all addr locked amount

  unfoldable pub sub_unlocked_coins : Bytes → List Coin → Keeper u l (Unit {0})
  unfolding locked_coins sub_all
  sub_unlocked_coins addr amount = locked_coins addr >>= λ locked. sub_all addr locked amount

  -- The body of the loop of `delegate_coins`, which returns the balance it pushes.
  unfoldable pub stake_found : Bytes → Coin → Option Coin → Keeper u l Coin
  unfolding set_balance
  stake_found addr c none = lift (err (delegation 0 c.amount))
  stake_found addr c (some b) =
      if ltb b.amount c.amount
      then lift (err (delegation b.amount c.amount))
      else (set_balance u l addr (record b { amount = b.amount - c.amount }) >>= λ _. pure b)

  unfoldable pub stake_all : Bytes → List Coin → Keeper u l (List Coin)
  unfolding balance stake_found
  stake_all addr [] = pure []
  stake_all addr (c ∷ amount) = (balance u l addr c.denom >>= stake_found addr c) >>= λ b.
      stake_all addr amount >>= λ balances. pure (b ∷ balances)

  unfoldable pub delegate_coins : Bytes → Bytes → List Coin → Keeper u l (Unit {0})
  unfolding require_account stake_all add_coins
  delegate_coins delegator_addr module_acc_addr amount =
      (((require_account module_acc_addr >> stake_all delegator_addr amount) >>= λ balances.
      lift (map_err coins_error (Coins.new balances)))
        >> require_account delegator_addr)
      >> add_coins u l module_acc_addr amount

  unfoldable pub undelegate_coins : Bytes → Bytes → List Coin → Keeper u l (Unit {0})
  unfolding require_account sub_unlocked_coins add_coins
  undelegate_coins module_acc_addr delegator_addr amount =
      ((require_account module_acc_addr >> sub_unlocked_coins module_acc_addr amount)
        >> require_account delegator_addr)
      >> add_coins u l delegator_addr amount
