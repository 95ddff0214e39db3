-- ===== src/BaseApp/Block/Open.antt =====
-- The state of the caches between blocks and within one, and that the calls keep it.
use gears.Base.{◌≡◌, ◌∙◌, ap, List, [], ◌∷◌}
use gears.Base.Order.{Bytes, bytes_ord}
use gears.Gas.Meter.{Gas}
use gears.KvStore.Cache.{KvCache, IsValid, over, over-empty, empty-IsValid}
use gears.KvStore.Cache
use gears.KvStore.Tree.{PersistentTree}
use gears.KvStore.Application.{ApplicationKvBank, merge}
use gears.KvStore.Application.Views.{merge-IsValid}
use gears.KvStore.Transaction.{TransactionKvBank, upgrade_cache, tx_cache_clear}
use gears.KvStore.Transaction
use gears.KvStore.Transaction.Ops.{Op, set_key, delete_key, upgrade, clear, step, run}
use gears.BaseApp.State.{append_block_cache, replace_meter}
use gears.BaseApp.Block.{Write, Node, write_all, begin_block}
use gears.BaseApp.Block.Caches.{
  Contents, written, Covers, IsIdle, merge-Covers, merge_idle-Covers, over-merge_idle,
  over-write_all, write_all-IsValid,
}

module _ (p : PersistentTree) where
  open p use {Tree, Hash}

  -- Between blocks: the caches of the application, of the delivery and of the check hold nothing.
  pub record IsBetween (n : Node Tree) : Type 0 where
    pub multi_store : n.multi_store.cache ≡ Cache.empty
    pub tx : n.state.deliver_mode.multi_store.tx ≡ Cache.empty
    pub block : n.state.deliver_mode.multi_store.block ≡ Cache.empty
    pub check_tx : n.state.check_mode.multi_store.tx ≡ Cache.empty
    pub check_block : n.state.check_mode.multi_store.block ≡ Cache.empty

  -- Within a block: the delivery's block cache covers the application's, and reads as `m`.
  pub record IsOpen (n : Node Tree) (m : Contents) : Type 0 where
    pub multi_store : IsValid n.multi_store.cache
    pub tx : IsValid n.state.deliver_mode.multi_store.tx
    pub block : IsValid n.state.deliver_mode.multi_store.block
    pub covers : Covers n.state.deliver_mode.multi_store.block n.multi_store.cache
    pub reads : (k : Bytes) → over n.state.deliver_mode.multi_store.block k (p.get n.tree k) ≡ m k

  pub IsIdle-of_empty : (c : KvCache) → c ≡ Cache.empty → IsIdle c
  IsIdle-of_empty c e k below = ap (λ (x : KvCache). over x k below) e ∙ over-empty k below

  pub IsValid-of_empty : (c : KvCache) → c ≡ Cache.empty → IsValid c
  IsValid-of_empty c e = rw e empty-IsValid

  -- What `append_block_cache` makes of an idle delivery.
  pub appended-IsOpen :
      (t : Tree) (b : ApplicationKvBank) (d : TransactionKvBank) (m : Contents)
      → IsValid b.cache
      → IsValid d.block
      → IsIdle d.block
      → ((j : Bytes) → over b.cache j (p.get t j) ≡ m j)
      → IsValid (merge b.cache d.block)
        × Covers (merge b.cache d.block) b.cache
        × ((j : Bytes) → over (merge b.cache d.block) j (p.get t j) ≡ m j)
  appended-IsOpen t b d m valid block idle reads = (
    merge-IsValid b.cache d.block block,
    merge_idle-Covers b.cache d.block valid idle,
    λ j. over-merge_idle b.cache d.block j (p.get t j) valid idle ∙ reads j,
  )

  pub begin_block-IsOpen :
      (max_gas : Gas) (ws : List Write) (n : Node Tree)
      → IsBetween n
      → IsOpen (begin_block p max_gas ws n) (written ws (p.get n.tree))
        × IsIdle (begin_block p max_gas ws n).state.deliver_mode.multi_store.tx
  unfolding begin_block append_block_cache Transaction.append_block_cache replace_meter
  begin_block-IsOpen max_gas ws n h =
      let d = n.state.deliver_mode.multi_store in
      let valid =
        write_all-IsValid p n.tree ws n.multi_store
          (IsValid-of_empty n.multi_store.cache h.multi_store) in
      let (block, covers, reads) =
        appended-IsOpen n.tree (write_all p n.tree ws n.multi_store) d (written ws (p.get n.tree))
          valid (IsValid-of_empty d.block h.block) (IsIdle-of_empty d.block h.block)
          (over-write_all p n.tree ws n.multi_store (p.get n.tree) (p.get n.tree)
            (λ j. IsIdle-of_empty n.multi_store.cache h.multi_store j (p.get n.tree j))) in
      (
        record {
          multi_store = valid;
          tx = IsValid-of_empty d.tx h.tx;
          block = block;
          covers = covers;
          reads = reads;
        },
        IsIdle-of_empty d.tx h.tx,
      )

  -- Running transactions keeps the block cache valid and over the application's.
  pub run-keeps :
      (t : Tree) (os : List Op) (b : TransactionKvBank) (c : KvCache)
      → IsValid b.tx
      → IsValid b.block
      → Covers b.block c
      → IsValid (run p t os b).tx × IsValid (run p t os b).block × Covers (run p t os b).block c
  unfolding run step
  run-keeps t [] b c tx block covers = (tx, block, covers)
  run-keeps t (set_key k v ∷ os) b c tx block covers =
      run-keeps t os (step p t (set_key k v) b) c
        (unfold Transaction.set in Cache.set-IsValid b.tx k v tx) (unfold Transaction.set in block)
        (unfold Transaction.set in covers)
  run-keeps t (delete_key k ∷ os) b c tx block covers =
      run-keeps t os (step p t (delete_key k) b) c
        (unfold Transaction.delete in Cache.delete-IsValid b.tx k tx)
        (unfold Transaction.delete in block) (unfold Transaction.delete in covers)
  run-keeps t (upgrade ∷ os) b c tx block covers =
      run-keeps t os (step p t upgrade b) c (unfold upgrade_cache Cache.take in empty-IsValid)
        (unfold upgrade_cache Cache.take in merge-IsValid b.tx b.block block)
        (unfold upgrade_cache Cache.take in merge-Covers b.tx b.block c tx covers)
  run-keeps t (clear ∷ os) b c tx block covers =
      run-keeps t os (step p t clear b) c (unfold tx_cache_clear in empty-IsValid)
        (unfold tx_cache_clear in block) (unfold tx_cache_clear in covers)
