-- ===== src/Gov/Submissions.antt =====
-- `submit_proposal` of x/gov/src/keeper.rs, and the handler of `GovMsg::Proposal` of
-- x/gov/src/abci_handler.rs.
pub mod Refusals
use gears.Base.{ℕ, ◌+◌, ◌%◌, Bool, not, Option, some, List, if◌then◌else◌}
use gears.Base.Maps.{BtreeMap, insert}
use gears.Base.Order.{Bytes, bytes_ord}
use gears.Base.Results.{Result, ok, err, ok_or, ◌>>=◌}
use gears.Coins.{Coin}
use gears.Time.Timestamp.{Timestamp, checked_add}
use gears.Time.Duration.{Duration}
use gears.Gov.Deposits.{
  deposit_period, GovKeeperError, unset, custom, time, no_handler, BankKeeper, State, proposal_key,
  deposit_add,
}

pub record MsgSubmitProposal : Type 0 where
  pub content : Bytes
  pub initial_deposit : List Coin
  pub proposer : Bytes

-- The rest of the module's store: the next id and the queue of proposals that wait for deposits.
pub record Store (S : Type 0) : Type 0 where
  pub next_proposal_id : Option ℕ
  pub inactive_queue : BtreeMap Bytes ℕ
  pub gov : State S

-- The header's time, the parameters, and what is asked of the types that the module is built with:
-- whether a content can be read, and whether there is a handler for it. The queue's key holds a
-- formatted time.
pub record Setting : Type 0 where
  pub submit_time : Timestamp
  pub max_deposit_period : Duration
  pub min_deposit : List Coin
  pub reads : Bytes → Bool
  pub checks : Bytes → Bool
  pub inactive_queue_key : ℕ → Timestamp → Bytes

module _ {S : Type 0} (setting : Setting) where
  unfoldable pub submit_proposal : MsgSubmitProposal → Store S → Result GovKeeperError (ℕ × Store S)
  submit_proposal msg s = ok_or unset s.next_proposal_id >>= λ id.
      if not (setting.reads msg.content)
      then err custom
      else (ok_or time (checked_add setting.submit_time setting.max_deposit_period) >>= λ end_time.
          if not (setting.checks msg.content)
          then err no_handler
          else ok (
            id,
            record {
              next_proposal_id = some ((id + 1) % 18446744073709551616);
              inactive_queue = insert (setting.inactive_queue_key id end_time) id s.inactive_queue;
              gov = record s.gov {
                proposals =
                    insert (proposal_key id)
                      (record {
                        proposal_id = id;
                        status = deposit_period;
                        total_deposit = msg.initial_deposit;
                      })
                      s.gov.proposals;
              };
            },
          ))

  -- The proposal's handler: the proposal, and then its initial deposit.
  unfoldable pub handle_proposal :
      BankKeeper S → MsgSubmitProposal → Store S → Result GovKeeperError (Bool × Store S)
  unfolding submit_proposal deposit_add
  handle_proposal k msg s = submit_proposal msg s >>= λ submitted.
      deposit_add k setting.min_deposit
        (record {
          proposal_id = submitted.0;
          depositor = msg.proposer;
          amount = msg.initial_deposit;
        })
        (submitted.1).gov
      >>= λ added. ok (added.0, record submitted.1 { gov = added.1 })
