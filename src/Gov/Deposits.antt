-- ===== src/Gov/Deposits.antt =====
-- x/gov/src/msg/deposit.rs and the deposits of x/gov/src/keeper.rs. The errors of gas are not
-- modelled.
pub mod Sums
pub mod Backed
pub mod Repeats
pub mod Payouts
pub mod Funds
use gears.Base.{
  ℕ, Bool, true, false, ◌&&◌, List, [], ◌∷◌, ◌++◌, Option, none, some, length, map, if◌then◌else◌,
}
use gears.Base.Maps.{BtreeMap, get, insert}
use gears.Base.Order.{Bytes, bytes_ord}
use gears.Base.Results.{Result, ok, err, ok_or, map_err, ◌>>=◌}
use gears.Coins.{Coin, CoinsError}
use gears.Coins.Unsigned.{checked_add, is_all_gte}
use gears.Gov.Votes.{to_be_bytes}

pub record Deposit : Type 0 where
  pub proposal_id : ℕ
  pub depositor : Bytes
  pub amount : List Coin

pub data ProposalStatus : Type 0 where
  nil deposit_period voting_period passed rejected failed : ProposalStatus

-- The fields that a deposit reads or writes.
pub record ProposalModel : Type 0 where
  pub proposal_id : ℕ
  pub status : ProposalStatus
  pub total_deposit : List Coin

pub data GovKeeperError : Type 0 where
  bank no_handler time custom : GovKeeperError
  coins : CoinsError → GovKeeperError
  inactive_proposal proposal_unknown : ℕ → GovKeeperError
  -- a panic: no id has been set
  unset : GovKeeperError

-- The trait `GovernanceBankKeeper`, as far as deposits call it for the module's account: coins that
-- come in, go out, and are burned. `none` is an error.
pub record BankKeeper (S : Type 0) : Type 0 where
  pub send_coins_from_account_to_module : Bytes → List Coin → S → Option S
  pub send_coins_from_module_to_account : Bytes → List Coin → S → Option S
  pub coins_burn : List Coin → S → Option S

-- The store of the module, as far as it holds proposals and deposits, and what the bank writes to.
pub record State (S : Type 0) : Type 0 where
  pub proposals : BtreeMap Bytes ProposalModel
  pub deposits : BtreeMap Bytes Deposit
  pub funds : S

unfoldable pub deposit_key : ℕ → Bytes → Bytes
unfolding to_be_bytes
deposit_key proposal_id depositor = 16 ∷ to_be_bytes 8 proposal_id ++ length depositor ∷ depositor

unfoldable pub proposal_key : ℕ → Bytes
unfolding to_be_bytes
proposal_key proposal_id = 0 ∷ to_be_bytes 8 proposal_id

-- `ProposalStatus::DepositPeriod | ProposalStatus::VotingPeriod`
unfoldable pub takes_deposits : ProposalStatus → Bool
takes_deposits deposit_period = true
takes_deposits voting_period = true
takes_deposits _ = false

unfoldable pub in_deposit_period : ProposalStatus → Bool
in_deposit_period deposit_period = true
in_deposit_period _ = false

-- The deposit of the same account with what is added.
unfoldable pub joined : Deposit → Option Deposit → Result GovKeeperError Deposit
unfolding checked_add
joined new none = ok new
joined new (some old) = map_err coins (checked_add old.amount new.amount) >>= λ amount.
    ok (record old { amount = amount })

module _ {S : Type 0} (k : BankKeeper S) where
  unfoldable pub deposit_add :
      List Coin → Deposit → State S → Result GovKeeperError (Bool × State S)
  unfolding proposal_key deposit_key takes_deposits in_deposit_period joined checked_add is_all_gte
  deposit_add min_deposit new s =
      ok_or (proposal_unknown new.proposal_id) (get (proposal_key new.proposal_id) s.proposals)
      >>= λ proposal.
          if takes_deposits proposal.status
          then (ok_or bank (k.send_coins_from_account_to_module new.depositor new.amount s.funds)
              >>= λ funds.
                  map_err coins (checked_add proposal.total_deposit new.amount) >>= λ total.
                  joined new (get (deposit_key new.proposal_id new.depositor) s.deposits)
                  >>= λ deposit. ok (
                    in_deposit_period proposal.status && is_all_gte total min_deposit,
                    record {
                      proposals =
                          insert (proposal_key proposal.proposal_id)
                            (record proposal { total_deposit = total }) s.proposals;
                      deposits =
                          insert (deposit_key deposit.proposal_id deposit.depositor) deposit
                            s.deposits;
                      funds = funds;
                    },
                  ))
          else err (inactive_proposal new.proposal_id)
