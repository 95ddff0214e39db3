-- ===== src/Tests/Deposits.antt =====
-- The theorems of Gov/Deposits, with a bank that is the balances of the module's account.
use gears.Base.{true, ℕ, ◌≡◌, refl, some, none, [], ◌∷◌, arith}
use gears.Base.Maps.{BtreeMap, add, contains, get, insert, remove}
use gears.Base.Order.{Bytes, bytes_ord, cmp_bytes-eq}
use gears.Base.Results.{err, Answers}
use gears.Coins.{Coin, duplicates, new}
use gears.Gov.Deposits.{
  Deposit, GovKeeperError, ProposalModel, deposit_period, BankKeeper, State, coins, deposit_key,
  deposit_add,
}
use gears.Gov.Deposits.Backed.{Custody, IsBacked, deposit_add-IsBacked}
use gears.Gov.Deposits.Payouts.{deposit_refund}
use gears.Gov.Deposits.Payouts.Refunds.{Outcome, deposit_refund-Outcome}
use gears.Gov.Deposits.Funds.{bank_keeper, custody}
use gears.Bank.Stored.{Context, Trees, balances}
use gears.Bank.Stored
use gears.Bank.Stored.Modules.{AccountCodecs, send_coins_from_account_to_module}
use gears.Gas.Amount
use gears.Gas.Guard
use gears.Gas.Meter
use gears.Gas.Store
use gears.Gas.Store.Prefix
use gears.KvStore.Cache
use gears.KvStore.Transaction
use gears.Gas.Meter.{infinite_meter}
use gears.KvStore.Cache.{empty}
use gears.KvStore.Transaction.{TransactionKvBank}
use gears.Tests.Amounts.{uint256}
use gears.Tests.Transfers.{codec, reads_back}
use gears.Tests.Trees.{map_tree}
use gears.Gov.Submissions.{MsgSubmitProposal, Store, Setting, handle_proposal}
use gears.Gov.Submissions.Refusals.{handle_proposal-refused}
use gears.Time.Timestamp.{checked_add}
use gears.Base.Int.{pos}

-- The module's account is 9.
abbrev stores : Trees map_tree.Tree
stores = record { bank = []; auth = []; params = [] }

abbrev numbers : AccountCodecs
numbers = record {
  number_encode = λ n. n ∷ [];
  number_decode = λ _. some 0;
  account_encode = λ a n. n ∷ a;
}

abbrev keeper : BankKeeper Context
keeper =
    bank_keeper uint256 map_tree codec numbers reads_back stores (9 ∷ []) ((9 ∷ []) ∷ [])
      λ _ _. none

abbrev bank : Custody keeper
bank = custody uint256 map_tree codec numbers reads_back stores (9 ∷ []) ((9 ∷ []) ∷ []) λ _ _. none

abbrev five : Coin
five = record { denom = 1 ∷ []; amount = 5 }

abbrev two : Coin
two = record { denom = 2 ∷ []; amount = 2 }

abbrev deposit : ℕ → Coin → Deposit
deposit id c = record { proposal_id = id; depositor = 2 ∷ []; amount = c ∷ [] }

abbrev proposal : ProposalModel
proposal = record { proposal_id = 7; status = deposit_period; total_deposit = five ∷ [] }

abbrev in_tx : BtreeMap Bytes Bytes → TransactionKvBank
in_tx m = record { tx = record { storage = m; delete = [] }; block = empty }

-- The depositor and the module hold five of the first denomination each, and the depositor two of
-- the second.
abbrev holdings : Context
holdings = record {
  meter = infinite_meter 0;
  bank = in_tx (
      (2 ∷ 1 ∷ 2 ∷ 1 ∷ [], 5 ∷ 1 ∷ [])
      ∷ (2 ∷ 1 ∷ 2 ∷ 2 ∷ [], 2 ∷ 2 ∷ [])
      ∷ (2 ∷ 1 ∷ 9 ∷ 1 ∷ [], 5 ∷ 1 ∷ [])
      ∷ []);
  auth = in_tx [];
  params = in_tx [];
}

abbrev start : State Context
start = record {
  proposals = (0 ∷ 0 ∷ 0 ∷ 0 ∷ 0 ∷ 0 ∷ 0 ∷ 0 ∷ 7 ∷ [], proposal) ∷ [];
  deposits = (16 ∷ 0 ∷ 0 ∷ 0 ∷ 0 ∷ 0 ∷ 0 ∷ 0 ∷ 7 ∷ 1 ∷ 2 ∷ [], deposit 7 five) ∷ [];
  funds = holdings;
}

start-IsBacked : IsBacked keeper bank start
unfolding deposit_key balances Transaction.get Cache.get get contains
start-IsBacked = ((tt, tt), ((refl, refl), tt), λ d. ground (arith, cmp_bytes-eq (1 ∷ []) d))

deposit_add-IsBacked_example :
    Answers
      (deposit_add keeper (five ∷ []) (deposit 7 two) start)
      (λ answer. IsBacked keeper bank answer.1)
      (λ _. Unit)
deposit_add-IsBacked_example =
    deposit_add-IsBacked keeper bank (five ∷ []) (deposit 7 two) start refl start-IsBacked

deposit_refund-Outcome_example :
    Outcome keeper bank start.deposits start (deposit_refund keeper start)
deposit_refund-Outcome_example = deposit_refund-Outcome keeper bank start start-IsBacked

-- The same denomination again.
again : deposit_add keeper (five ∷ []) (deposit 7 five) start ≡ err (coins duplicates)
unfolding deposit_add get insert new contains send_coins_from_account_to_module Stored.has_account
    Stored.try_get_params Stored.get_balance Store.get Store.set Prefix.get Prefix.set Prefix.delete
    Guard.get Guard.set Guard.charge Guard.charge_bytes Meter.consume_gas Amount.try_from
    Amount.checked_mul Transaction.get Transaction.set Cache.get Cache.set Stored.delete_balance
    Store.delete Guard.delete Transaction.delete Cache.delete add remove Stored.put_balance
again = refl

abbrev setting : Setting
setting = record {
  submit_time = record { seconds = pos 100; nanos = pos 0 };
  max_deposit_period = record { seconds = pos 50; nanos = pos 0 };
  min_deposit = five ∷ [];
  reads = λ _. true;
  checks = λ _. true;
  inactive_queue_key = λ id _. 1 ∷ id ∷ [];
}

abbrev store : Store Context
store = record { next_proposal_id = some 8; inactive_queue = []; gov = start }

abbrev submission : MsgSubmitProposal
submission = record { content = []; initial_deposit = two ∷ []; proposer = 2 ∷ [] }

-- The deposit fails, and not the submission.
fails : handle_proposal setting keeper submission store ≡ err (coins duplicates)
unfolding handle_proposal checked_add get insert new contains send_coins_from_account_to_module
    Stored.has_account Stored.try_get_params Stored.get_balance Store.get Store.set Prefix.get
    Prefix.set Prefix.delete Guard.get Guard.set Guard.charge Guard.charge_bytes Meter.consume_gas
    Amount.try_from Amount.checked_mul Transaction.get Transaction.set Cache.get Cache.set
    Stored.delete_balance Store.delete Guard.delete Transaction.delete Cache.delete add remove
    Stored.put_balance
fails = refl

handle_proposal-refused_example :
    (e : GovKeeperError) × (handle_proposal setting keeper submission store ≡ err e)
handle_proposal-refused_example =
    handle_proposal-refused setting keeper submission store (tt, (omega arith, tt, tt))
