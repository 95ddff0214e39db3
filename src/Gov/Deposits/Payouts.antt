-- ===== src/Gov/Deposits/Payouts.antt =====
-- `deposit_refund` and `deposit_del` of x/gov/src/keeper.rs. `none` is a panic.
pub mod Refunds
use gears.Base.{ℕ, List, [], ◌∷◌, Option, some}
use gears.Base.Maps.{BtreeMap, remove}
use gears.Base.Options.{◌>>=◌}
use gears.Base.Order.{Bytes, bytes_ord}
use gears.Gov.Deposits.{Deposit, BankKeeper, State, deposit_key}

-- What `DepositIterator` yields.
unfoldable pub all_deposits : BtreeMap Bytes Deposit → List Deposit
all_deposits [] = []
all_deposits ((_, x) ∷ m) = x ∷ all_deposits m

module _ {S : Type 0} (k : BankKeeper S) where
  unfoldable pub refund_each : List Deposit → State S → Option (State S)
  unfolding deposit_key
  refund_each [] s = some s
  refund_each (x ∷ xs) s =
      k.send_coins_from_module_to_account x.depositor x.amount s.funds >>= λ funds.
      refund_each xs (record s {
        deposits = remove (deposit_key x.proposal_id x.depositor) s.deposits;
        funds = funds;
      })

  unfoldable pub deposit_refund : State S → Option (State S)
  unfolding refund_each all_deposits
  deposit_refund s = refund_each (all_deposits s.deposits) s

  unfoldable pub burn_each : ℕ → List Deposit → State S → Option (State S)
  unfolding deposit_key
  burn_each proposal_id [] s = some s
  burn_each proposal_id (x ∷ xs) s = k.coins_burn x.amount s.funds >>= λ funds.
      burn_each proposal_id xs (record s {
        deposits = remove (deposit_key proposal_id x.depositor) s.deposits;
        funds = funds;
      })

  unfoldable pub deposit_del : ℕ → State S → Option (State S)
  unfolding burn_each all_deposits
  deposit_del proposal_id s = burn_each proposal_id (all_deposits s.deposits) s
