-- ===== src/BaseApp/Block.antt =====
-- gears/src/baseapp/abci.rs: the calls that make up a block, as they move writes between the
-- banks. What a handler or a transaction does to a store is the sequence of its writes.
pub mod Caches
pub mod Open
pub mod Commits
use gears.Base.{Option, none, some, List, [], ◌∷◌}
use gears.Base.Order.{Bytes, bytes_ord}
use gears.KvStore.Tree.{PersistentTree}
use gears.KvStore.Application.{ApplicationKvBank}
use gears.KvStore.Application
use gears.KvStore.Transaction.Ops.{Op}
use gears.KvStore.Transaction.Ops
use gears.Gas.Meter.{Gas}
use gears.BaseApp.State.{
  ApplicationState, TxMode, replace_meter, append_block_cache, take_block_cache, commit,
}

-- A write of a block handler: `none` deletes.
abbrev pub Write : Type 0
Write = Bytes × Option Bytes

-- The shared tree, the application's bank and the state.
pub record Node (Tree : Type 0) : Type 0 where
  pub tree : Tree
  pub multi_store : ApplicationKvBank
  pub state : ApplicationState

module _ (p : PersistentTree) where
  open p use {Tree, Hash}

  unfoldable pub write : Tree → Write → ApplicationKvBank → ApplicationKvBank
  write t (k, some v) b = Application.set b k v
  write t (k, none) b = (Application.delete p t b k).1

  unfoldable pub write_all : Tree → List Write → ApplicationKvBank → ApplicationKvBank
  unfolding write
  write_all t [] b = b
  write_all t (w ∷ ws) b = write_all t ws (write t w b)

  unfoldable pub begin_block : Gas → List Write → Node Tree → Node Tree
  begin_block max_gas ws n =
      let bank = write_all n.tree ws n.multi_store in
      record n {
        multi_store = bank;
        state = append_block_cache bank (replace_meter max_gas n.state);
      }

  -- The operations of the delivered transactions, one after the other: writes, and the `upgrade` and
  -- `clear` that `run_tx` makes of them.
  unfoldable pub deliver : List Op → Node Tree → Node Tree
  deliver os n = record n {
    state = record n.state {
      deliver_mode = record n.state.deliver_mode {
        multi_store = Ops.run p n.tree os n.state.deliver_mode.multi_store;
      };
    };
  }

  unfoldable pub end_block : List Write → Node Tree → Node Tree
  end_block ws n =
      let (taken, state) = take_block_cache n.multi_store n.state in
      let bank = write_all n.tree ws taken in
      record n { multi_store = bank; state = append_block_cache bank state }

  unfoldable pub commit_block : Node Tree → Option (Hash × Node Tree)
  commit_block n = elim (commit p n.tree n.multi_store n.state) [
    | none ↦ none
    | some (h, t, b, s) ↦ some (h, record { tree = t; multi_store = b; state = s })
  ]
