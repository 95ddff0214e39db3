-- ===== src/Tests/Blocks.antt =====
-- The theorems on blocks and banks, on a tree with two keys.
use gears.Base.{◌≡◌, ◌≢◌, refl, none, some, List, [], ◌∷◌, ℕ}
use gears.Base.Order.{Bytes, bytes_ord}
use gears.Base.Maps.{BtreeMap, IsAscending, add, discard, contains}
use gears.Base.Maps
use gears.Gas.Meter.{infinite, block_meter, new_infinite}
use gears.KvStore.Cache.{KvCache, take}
use gears.KvStore.Cache
use gears.KvStore.Application.{ApplicationKvBank}
use gears.KvStore.Application
use gears.KvStore.Transaction.{TransactionKvBank, to_tx_kind}
use gears.KvStore.Transaction
use gears.KvStore.Transaction.Ops.{Op, set_key, delete_key, upgrade, clear, run_maps, step_maps}
use gears.KvStore.Transaction.Ops
use gears.BaseApp.State
use gears.BaseApp.Block.{
  Node, Write, begin_block, deliver, end_block, commit_block, write, write_all,
}
use gears.BaseApp.Block.Caches.{written}
use gears.BaseApp.Block.Open.{IsBetween}
use gears.BaseApp.Block.Commits.{block-commits, delivered}
use gears.Tests.Trees.{map_tree}

abbrev key : ℕ → Bytes
key n = n ∷ []

abbrev stored : BtreeMap Bytes Bytes
stored = (key 1, key 10) ∷ (key 2, key 20) ∷ []

abbrev bank : ApplicationKvBank
bank = record { cache = Cache.empty }

abbrev node : Node (BtreeMap Bytes Bytes)
node = record { tree = stored; multi_store = bank; state = State.new infinite bank }

abbrev begin_writes : List Write
begin_writes = (key 3, some (key 30)) ∷ []

-- A transaction that succeeds, and one that fails.
abbrev ops : List Op
ops = set_key (key 1) (key 11) ∷ delete_key (key 3) ∷ upgrade ∷ delete_key (key 2) ∷ clear ∷ []

abbrev end_writes : List Write
end_writes = (key 4, some (key 40)) ∷ []

abbrev node' : Node (BtreeMap Bytes Bytes)
node' = record {
  tree = (key 1, key 11) ∷ (key 2, key 20) ∷ (key 4, key 40) ∷ [];
  multi_store = bank;
  state = State.new infinite bank;
}

node-IsBetween : IsBetween map_tree node
unfolding State.new to_tx_kind
node-IsBetween = record {
  multi_store = refl;
  tx = refl;
  block = refl;
  check_tx = refl;
  check_block = refl;
}

node_commits :
    commit_block map_tree (
      end_block map_tree end_writes
        (deliver map_tree ops (begin_block map_tree infinite begin_writes node)))
    ≡ some (0, node')
unfolding commit_block end_block deliver begin_block write write_all Ops.run Ops.step State.new
    State.commit State.take_block_cache State.append_block_cache State.replace_meter to_tx_kind
    block_meter new_infinite Transaction.set Transaction.delete Transaction.upgrade_cache
    Transaction.tx_cache_clear Transaction.block_cache_clear Transaction.take_block_cache
    Transaction.append_block_cache Transaction.consume_block_cache Application.set
    Application.delete Application.set_all Application.delete_all Application.merge
    Application.pending_writes Application.pending_deletes Application.collect Application.apply
    Application.commit take Cache.set Cache.delete Maps.get Maps.insert Maps.remove add discard
node_commits = refl

stored-IsAscending : IsAscending stored
stored-IsAscending = ((refl, tt), (tt, tt))

two_stored : Maps.get (key 2) stored ≡ some (key 20)
unfolding Maps.get
two_stored = refl

two_kept :
    written end_writes (delivered ops (written begin_writes (λ k. Maps.get k stored))) (key 2)
    ≢ none
unfolding Maps.get run_maps step_maps
two_kept h = cc

block-commits_example :
    IsBetween map_tree node'
    × ((j : Bytes)
        → Maps.get j node'.tree
          ≡ written end_writes (delivered ops (written begin_writes (λ k. Maps.get k stored))) j)
block-commits_example =
    block-commits map_tree node node' infinite begin_writes end_writes ops 0 (key 2) (key 20)
      stored-IsAscending node-IsBetween two_stored two_kept node_commits
