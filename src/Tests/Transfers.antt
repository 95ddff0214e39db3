-- ===== src/Tests/Transfers.antt =====
-- The theorems on the bank's keeper, on stores over ordered maps, with coins as their amount before
-- their denomination.
use gears.Base.{◌≡◌, refl, ◌+◌, ◌≤◌, true, Option, none, some, [], ◌∷◌, arith, if◌then◌else◌}
use gears.Base.Order.{Bytes, bytes_ord, ◌≟◌, cmp_bytes-eq}
use gears.Base.Results.{ok}
use gears.Coins.{Coin}
use gears.Coins
use gears.Base.Maps
use gears.Gas.Amount
use gears.Gas.Guard
use gears.Gas.Meter
use gears.Gas.Store
use gears.Gas.Store.Prefix
use gears.KvStore.Cache.{empty}
use gears.KvStore.Cache
use gears.KvStore.Transaction.{TransactionKvBank}
use gears.KvStore.Transaction
use gears.Bank.Ledger.{Ledger}
use gears.Bank.Keeper.{MsgSend, send_coins}
use gears.Bank.Keeper
use gears.Bank.Moves.{held, total}
use gears.Bank.Delegation.{delegate_coins, undelegate_coins}
use gears.Bank.Delegation
use gears.Bank.Delegation.Additions.{IsKeyed}
use gears.Bank.Stored.{Codecs, Context, Trees, balances, balance_key, put_balance}
use gears.Bank.Stored
use gears.Bank.Stored.Accesses.{stored_ledger, put_balance-Ensures}
use gears.Bank.Stored.Moves.{send_coins-stored, delegate_coins-stored}
use gears.Tests.Amounts.{uint256, coin}
use gears.Tests.Trees.{map_tree}

abbrev pub encoded : Coin → Bytes
encoded c = c.amount ∷ c.denom

abbrev pub decoded : Bytes → Option Coin
decoded [] = none
decoded (n ∷ d) = some (record { denom = d; amount = n })

-- Every denomination may be sent.
abbrev pub codec : Codecs
codec = record {
  coin_encode_vec = encoded;
  coin_decode = decoded;
  account_decodes = λ _. true;
  params_fields = [];
  params_prefix = [];
  params_parse = λ _. some ([], true);
}

pub reads_back : (c : Coin) → decoded (encoded c) ≡ some c
reads_back c = refl

abbrev trees : Trees map_tree.Tree
trees = record { bank = []; auth = []; params = [] }

abbrev ledger : Ledger
ledger = stored_ledger map_tree codec reads_back trees

abbrev alice : Bytes
alice = 1 ∷ []

abbrev bob : Bytes
bob = 2 ∷ []

abbrev atom : Bytes
atom = 97 ∷ []

abbrev cached : TransactionKvBank
cached = record { tx = empty; block = empty }

-- Both have accounts.
abbrev accounts : TransactionKvBank
accounts = record cached {
  tx = record { storage = (1 ∷ alice, []) ∷ (1 ∷ bob, []) ∷ []; delete = [] };
}

abbrev nothing : Context
nothing = record { meter = Meter.infinite_meter 0; bank = cached; auth = accounts; params = cached }

-- Alice holds 5 atoms.
abbrev start : Context
start = (put_balance map_tree codec alice atom (coin 97 5) nothing).1

abbrev message : MsgSend
message = record { from_address = alice; to_address = bob; amount = coin 97 3 ∷ [] }

writes : (put_balance map_tree codec alice atom (coin 97 5) nothing).0 ≡ ok tt
unfolding put_balance Store.set Store.guarded Prefix.set Prefix.get Prefix.delete Guard.set
    Guard.charge Guard.cost_of Guard.charge_bytes Meter.consume_gas Amount.try_from
    Amount.checked_mul
writes = refl

sends : (send_coins uint256 ledger message start).0 ≡ ok tt
unfolding send_coins Keeper.find_first_blocked_denom_if_any Keeper.first_blocked Keeper.enabled
    Keeper.send_unless Keeper.debit Keeper.debit_one Keeper.debit_coin Keeper.credit
    Keeper.credit_one Keeper.increased put_balance Stored.get_balance Stored.delete_balance
    Stored.get_account Stored.try_get_params Stored.read_fields Store.set Store.guarded Prefix.set
    Prefix.get Prefix.delete Guard.set Guard.charge Guard.cost_of Guard.charge_bytes
    Meter.consume_gas Amount.try_from Amount.checked_mul Store.get Store.delete Guard.get
    Guard.delete Transaction.get Transaction.set Transaction.delete Cache.get Cache.set Cache.delete
    Maps.get Maps.insert Maps.remove Maps.contains Maps.add Maps.discard
sends = refl

send_coins-stored_example :
    (held uint256 ledger (send_coins uint256 ledger message start).1 bob atom
        + (if alice ≟ bob then total message.amount atom else 0)
      ≡ held uint256 ledger start bob atom + (if bob ≟ bob then total message.amount atom else 0))
    × (total message.amount atom ≤ held uint256 ledger start alice atom)
send_coins-stored_example =
    send_coins-stored uint256 map_tree codec reads_back trees message start bob atom sends

start-IsKeyed : IsKeyed uint256 ledger start
unfolding balances Transaction.get Cache.get Maps.get Maps.contains
start-IsKeyed a d c h =
    let b =
      (put_balance-Ensures map_tree codec reads_back trees alice atom (coin 97 5)).holds nothing tt
        writes a d in
    ground (arith, b, h, cmp_bytes-eq atom d)

delegates : (delegate_coins uint256 ledger alice bob (coin 97 3 ∷ []) start).0 ≡ ok tt
unfolding delegate_coins Delegation.require_account Delegation.stake_all Delegation.stake_found
    Keeper.balance Keeper.set_balance Keeper.add_coins Keeper.added Keeper.increased Coins.new
    Coins.any_zero Coins.check_order put_balance Stored.get_balance Stored.delete_balance
    Stored.get_account Stored.try_get_params Stored.read_fields Store.set Store.guarded Prefix.set
    Prefix.get Prefix.delete Guard.set Guard.charge Guard.cost_of Guard.charge_bytes
    Meter.consume_gas Amount.try_from Amount.checked_mul Store.get Store.delete Guard.get
    Guard.delete Transaction.get Transaction.set Transaction.delete Cache.get Cache.set Cache.delete
    Maps.get Maps.insert Maps.remove Maps.contains Maps.add Maps.discard
delegates = refl

delegate_coins-stored_example :
    IsKeyed uint256 ledger (delegate_coins uint256 ledger alice bob (coin 97 3 ∷ []) start).1
    × ((a d : Bytes)
        → held uint256 ledger (delegate_coins uint256 ledger alice bob (coin 97 3 ∷ []) start).1 a d
            + (if alice ≟ a then total (coin 97 3 ∷ []) d else 0)
          ≡ held uint256 ledger start a d + (if bob ≟ a then total (coin 97 3 ∷ []) d else 0))
delegate_coins-stored_example =
    delegate_coins-stored uint256 map_tree codec reads_back trees alice bob (coin 97 3 ∷ []) start
      start-IsKeyed delegates

undelegates : (undelegate_coins uint256 ledger alice bob (coin 97 3 ∷ []) start).0 ≡ ok tt
unfolding undelegate_coins Delegation.require_account Delegation.sub_unlocked_coins
    Delegation.locked_coins Delegation.sub_all Delegation.sub_found Keeper.balance
    Keeper.set_balance Keeper.add_coins Keeper.added Keeper.increased Coins.amount_of put_balance
    Stored.get_balance Stored.delete_balance Stored.get_account Stored.try_get_params
    Stored.read_fields Store.set Store.guarded Prefix.set Prefix.get Prefix.delete Guard.set
    Guard.charge Guard.cost_of Guard.charge_bytes Meter.consume_gas Amount.try_from
    Amount.checked_mul Store.get Store.delete Guard.get Guard.delete Transaction.get Transaction.set
    Transaction.delete Cache.get Cache.set Cache.delete Maps.get Maps.insert Maps.remove
    Maps.contains Maps.add Maps.discard
undelegates = refl
