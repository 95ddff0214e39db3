-- ===== src/BaseApp/Block/Commits.antt =====
-- A block commits what its writes, taken in order on a plain map, come to.
use gears.Base.{◌≡◌, ◌≢◌, ◌∙◌, sym, Option, none, some, false, List, arith}
use gears.Base.Order.{Bytes, bytes_ord}
use gears.Base.Maps.{contains}
use gears.Gas.Meter.{Gas}
use gears.KvStore.Cache.{KvCache, IsValid, over, over-empty, empty-IsValid}
use gears.KvStore.Cache
use gears.KvStore.Tree.{PersistentTree}
use gears.KvStore.Application.{ApplicationKvBank, merge}
use gears.KvStore.Application
use gears.KvStore.Application.Views.{over-merge, merge-IsValid, set_all-IsValid, delete_all-IsValid}
use gears.KvStore.Application.Commit.{get-commit, get-eq-over}
use gears.KvStore.Transaction.{
  TransactionKvBank, tx_cache_clear, block_cache_clear, consume_block_cache,
}
use gears.KvStore.Transaction
use gears.KvStore.Transaction.Views.{get-eq-over-over}
use gears.KvStore.Transaction.Ops.{Op, run_maps, Represents, run_refines}
use gears.BaseApp.State.{append_block_cache, take_block_cache, commit}
use gears.BaseApp.Block.{Write, Node, write_all, begin_block, deliver, end_block, commit_block}
use gears.BaseApp.Block.Caches.{
  Contents, written, IsIdle, taken, over-taken, over-write_all, write_all-IsValid,
}
use gears.BaseApp.Block.Open.{IsBetween, IsOpen, begin_block-IsOpen, appended-IsOpen, run-keeps}

-- What the upgrades among the operations of a block's transactions leave of a map.
abbrev pub delivered : List Op → Contents → Contents
delivered os m = (run_maps os (record { tx = m; block = m })).block

module _ (p : PersistentTree) where
  open p use {Tree, Hash}

  deliver-IsOpen :
      (os : List Op) (n : Node Tree) (m : Contents)
      → IsOpen p n m
      → IsIdle n.state.deliver_mode.multi_store.tx
      → IsOpen p (deliver p os n) (delivered os m)
  unfolding deliver
  deliver-IsOpen os n m h idle =
      let b = n.state.deliver_mode.multi_store in
      let (tx, block, covers) = run-keeps p n.tree os b n.multi_store.cache h.tx h.block h.covers in
      let start : Represents p n.tree b (record { tx = m; block = m }) = record {
        valid = h.tx;
        tx = λ k. get-eq-over-over p n.tree b k ∙ idle k _ ∙ h.reads k;
        block = h.reads;
      } in
      record {
        multi_store = h.multi_store;
        tx = tx;
        block = block;
        covers = covers;
        reads = (run_refines p n.tree os b (record { tx = m; block = m }) start).block;
      }

  end_block-IsOpen :
      (ws : List Write) (n : Node Tree) (m : Contents)
      → IsOpen p n m
      → IsOpen p (end_block p ws n) (written ws m)
  unfolding end_block take_block_cache append_block_cache Transaction.take_block_cache
      Transaction.append_block_cache Cache.take
  end_block-IsOpen ws n m h =
      let block = n.state.deliver_mode.multi_store.block in
      let b : ApplicationKvBank = record { cache = taken block n.multi_store.cache } in
      let valid = write_all-IsValid p n.tree ws b (
        set_all-IsValid block.storage _
          (delete_all-IsValid block.delete n.multi_store.cache h.multi_store)) in
      let (block', covers, reads) =
        appended-IsOpen p n.tree (write_all p n.tree ws b)
          (record n.state.deliver_mode.multi_store { block = Cache.empty }) (written ws m) valid
          empty-IsValid (λ k below. over-empty k below)
          (over-write_all p n.tree ws b (p.get n.tree) m (λ j.
            over-taken block n.multi_store.cache j (p.get n.tree j) h.block
            ∙ h.covers j (p.get n.tree j)
            ∙ h.reads j)) in
      record { multi_store = valid; tx = h.tx; block = block'; covers = covers; reads = reads }

  consumed : Node Tree → ApplicationKvBank
  consumed n = record { cache = merge n.state.deliver_mode.multi_store.block n.multi_store.cache }

  committed :
      (n n' : Node Tree) (h : Hash)
      → commit_block p n ≡ some (h, n')
      → (Application.commit p n.tree (consumed n) ≡ some (h, n'.tree, n'.multi_store))
        × (n'.state.deliver_mode.multi_store.tx ≡ Cache.empty)
        × (n'.state.deliver_mode.multi_store.block ≡ Cache.empty)
        × (n'.state.check_mode.multi_store.tx ≡ Cache.empty)
        × (n'.state.check_mode.multi_store.block ≡ Cache.empty)
  unfolding commit_block commit consumed consume_block_cache tx_cache_clear block_cache_clear
      Cache.take
  committed n n' h done = (ground arith, ground arith, ground arith, ground arith, ground arith)

  over-consumed :
      (n : Node Tree) (m : Contents)
      → IsOpen p n m
      → (j : Bytes) → over (consumed n).cache j (p.get n.tree j) ≡ m j
  unfolding consumed
  over-consumed n m h j =
      over-merge n.state.deliver_mode.multi_store.block n.multi_store.cache j (p.get n.tree j)
        h.block
      ∙ h.covers j (p.get n.tree j)
      ∙ h.reads j

  not_deleted :
      (c : KvCache) (k : Bytes) (below : Option Bytes)
      → over c k below ≢ none
      → contains k c.delete ≡ false
  unfolding over Cache.get
  not_deleted c k below h = ground arith

  commit_block-reads :
      (n n' : Node Tree) (m : Contents) (h : Hash) (other w : Bytes)
      → p.IsValid n.tree
      → IsOpen p n m
      → p.get n.tree other ≡ some w
      → m other ≢ none
      → commit_block p n ≡ some (h, n')
      → IsBetween p n' × ((j : Bytes) → p.get n'.tree j ≡ m j)
  commit_block-reads n n' m h other w valid open' stored kept done =
      let (app, tx, block, check_tx, check_block) = committed n n' h done in
      let reads = over-consumed n m open' in
      let cache : IsValid (consumed n).cache =
        unfold consumed in
        merge-IsValid n.state.deliver_mode.multi_store.block n.multi_store.cache
          open'.multi_store in
      let gone =
        not_deleted (consumed n).cache other (p.get n.tree other)
          (λ e. kept (sym (reads other) ∙ e)) in
      let result =
        get-commit p n.tree n'.tree (consumed n) n'.multi_store h other w valid cache stored gone
          app in
      (
        record {
          multi_store = result.0;
          tx = tx;
          block = block;
          check_tx = check_tx;
          check_block = check_block;
        },
        λ j. result.1 j ∙ get-eq-over p n.tree (consumed n) j ∙ reads j,
      )

  -- A whole block, from a node whose caches hold nothing: where the commit saves, the new tree
  -- reads as the old one after the writes of `begin_block`, those of the deliveries that an upgrade
  -- keeps, in that order, and those of `end_block`, and the caches of both modes and of the
  -- application hold nothing again. The deliveries are any sequence of writes, upgrades and clears:
  -- a transaction upgrades once after its ante checks, whether or not it fails then, and once at
  -- its end. The tree is valid, and some key of it is still stored at the end.
  pub block-commits :
      (n n' : Node Tree) (max_gas : Gas) (begin end : List Write) (os : List Op) (h : Hash)
      (other w : Bytes)
      → p.IsValid n.tree
      → IsBetween p n
      → p.get n.tree other ≡ some w
      → written end (delivered os (written begin (p.get n.tree))) other ≢ none
      → commit_block p (end_block p end (deliver p os (begin_block p max_gas begin n)))
        ≡ some (h, n')
      → IsBetween p n'
        × ((j : Bytes)
            → p.get n'.tree j ≡ written end (delivered os (written begin (p.get n.tree))) j)
  unfolding begin_block deliver end_block
  block-commits n n' max_gas begin end os h other w valid between stored kept done =
      let begun = begin_block-IsOpen p max_gas begin n between in
      let m = written begin (p.get n.tree) in
      let n1 = begin_block p max_gas begin n in
      let n2 = deliver p os n1 in
      commit_block-reads (end_block p end n2) n' (written end (delivered os m)) h other w valid
        (end_block-IsOpen end n2 (delivered os m) (deliver-IsOpen os n1 m begun.0 begun.1)) stored
        kept done
