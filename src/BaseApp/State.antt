-- ===== src/BaseApp/State.antt =====
-- gears/src/baseapp/state.rs, over one key-value store: the multi stores of the program hold a bank
-- for each store key, and each of these methods does the same to all of them.
use gears.Base.{Option, none, some}
use gears.Gas.Meter.{Gas, GasMeter, block_meter}
use gears.KvStore.Tree.{PersistentTree}
use gears.KvStore.Application.{ApplicationKvBank, set_all, delete_all}
use gears.KvStore.Application
use gears.KvStore.Transaction.{TransactionKvBank, to_tx_kind, tx_cache_clear, block_cache_clear}
use gears.KvStore.Transaction

-- `CheckTxMode` and `DeliverTxMode`
pub record TxMode : Type 0 where
  pub block_gas_meter : GasMeter
  pub multi_store : TransactionKvBank

-- `ApplicationState`, without the hash and the height that it reports
pub record ApplicationState : Type 0 where
  pub check_mode : TxMode
  pub deliver_mode : TxMode

unfoldable pub new : Gas → ApplicationKvBank → ApplicationState
new max_gas multi_store = record {
  check_mode = record {
    block_gas_meter = block_meter max_gas;
    multi_store = to_tx_kind multi_store;
  };
  deliver_mode = record {
    block_gas_meter = block_meter max_gas;
    multi_store = to_tx_kind multi_store;
  };
}

unfoldable pub replace_meter : Gas → ApplicationState → ApplicationState
replace_meter max_gas s = record {
  check_mode = record s.check_mode { block_gas_meter = block_meter max_gas };
  deliver_mode = record s.deliver_mode { block_gas_meter = block_meter max_gas };
}

unfoldable pub append_block_cache : ApplicationKvBank → ApplicationState → ApplicationState
append_block_cache multi_store s = record {
  check_mode = record s.check_mode {
    multi_store = Transaction.append_block_cache s.check_mode.multi_store multi_store;
  };
  deliver_mode = record s.deliver_mode {
    multi_store = Transaction.append_block_cache s.deliver_mode.multi_store multi_store;
  };
}

-- The deletions first, then the writes.
unfoldable pub take_block_cache :
    ApplicationKvBank → ApplicationState → ApplicationKvBank × ApplicationState
take_block_cache multi_store s =
    let ((written, deleted), bank) = Transaction.take_block_cache s.deliver_mode.multi_store in
    (
      record { cache = set_all written (delete_all deleted multi_store.cache) },
      record s { deliver_mode = record s.deliver_mode { multi_store = bank } },
    )

module _ (p : PersistentTree) where
  open p use {Tree, Hash}

  -- `none` where the application's commit aborts.
  unfoldable pub commit :
      Tree
      → ApplicationKvBank
      → ApplicationState
      → Option (Hash × Tree × ApplicationKvBank × ApplicationState)
  commit t multi_store s =
      let check = block_cache_clear (tx_cache_clear s.check_mode.multi_store) in
      let deliver = tx_cache_clear s.deliver_mode.multi_store in
      let (consumed, deliver') = Transaction.consume_block_cache multi_store deliver in
      elim (Application.commit p t consumed) [
        | none ↦ none
        | some (h, t', multi_store') ↦ some (
          h,
          t',
          multi_store',
          record {
            check_mode = record s.check_mode { multi_store = check };
            deliver_mode = record s.deliver_mode { multi_store = deliver' };
          },
        )
      ]
