-- ===== src/Bank/Stored/Moves.antt =====
-- x/bank/src/keeper: transfers and delegation over the metered stores of the modules.
use gears.Base.{◌≡◌, ◌+◌, ◌≤◌, List, some, if◌then◌else◌}
use gears.Base.Order.{Bytes, bytes_ord, ◌≟◌}
use gears.Base.Results.{ok}
use gears.Coins.{Coin}
use gears.Coins.Combine.{Arithmetic}
use gears.KvStore.Tree.{PersistentTree}
use gears.Bank.Ledger.{Ledger}
use gears.Bank.Keeper.{MsgSend, send_coins}
use gears.Bank.Moves.{total, held}
use gears.Bank.Transfers.{send_coins-transfers}
use gears.Bank.Delegation.{delegate_coins}
use gears.Bank.Delegation.Additions.{IsKeyed}
use gears.Bank.Delegation.Conserves.{delegate_coins-moves}
use gears.Bank.Stored.{Codecs, Context, Trees}
use gears.Bank.Stored.Accesses.{stored_ledger}

module _ (u : Arithmetic) (p : PersistentTree) (codec : Codecs)
    (reads_back : (c : Coin) → codec.coin_decode (codec.coin_encode_vec c) ≡ some c) where
  open p use {Tree}

  module _ (t : Trees Tree) where
    abbrev pub stores : Ledger
    stores = stored_ledger p codec reads_back t

    -- Where `send_coins` succeeds on the metered stores, the sender held what it sent, and of every
    -- account and denomination the balance after, with what the account sent, is the balance before
    -- with what it received; sender and recipient may be the same.
    pub send_coins-stored :
        (msg : MsgSend) (c : Context) (a d : Bytes)
        → (send_coins u stores msg c).0 ≡ ok tt
        → (held u stores (send_coins u stores msg c).1 a d
              + (if msg.from_address ≟ a then total msg.amount d else 0)
            ≡ held u stores c a d + (if msg.to_address ≟ a then total msg.amount d else 0))
          × (total msg.amount d ≤ held u stores c msg.from_address d)
    send_coins-stored = send_coins-transfers u stores

    -- Where `delegate_coins` succeeds on metered stores that hold each balance under its own
    -- denomination, they still do, and the coins have moved from the delegator to the module, with
    -- every other balance as it was.
    pub delegate_coins-stored :
        (delegator_addr module_acc_addr : Bytes) (coins : List Coin) (c : Context)
        → IsKeyed u stores c
        → (delegate_coins u stores delegator_addr module_acc_addr coins c).0 ≡ ok tt
        → IsKeyed u stores (delegate_coins u stores delegator_addr module_acc_addr coins c).1
          × ((a d : Bytes)
              → held u stores (delegate_coins u stores delegator_addr module_acc_addr coins c).1 a d
                  + (if delegator_addr ≟ a then total coins d else 0)
                ≡ held u stores c a d + (if module_acc_addr ≟ a then total coins d else 0))
    delegate_coins-stored = delegate_coins-moves u stores
