-- ===== src/KvStore/Transaction/Ops.antt =====
-- A transaction bank refines two plain maps: what the transaction sees, and what the block holds.
use gears.Base.{◌≡◌, ◌∙◌, sym, Option, none, some, List, [], ◌∷◌, if◌then◌else◌}
use gears.Base.Order.{Bytes, bytes_ord, ◌≟◌}
use gears.KvStore.Cache.{KvCache, IsValid, set-IsValid, delete-IsValid, empty-IsValid}
use gears.KvStore.Cache
use gears.KvStore.Tree.{PersistentTree}
use gears.KvStore.Transaction.{TransactionKvBank, tx_cache_clear, upgrade_cache, set, get, delete}
use gears.KvStore.Transaction.Views.{
  block_view, get-set, get-delete, get-upgrade_cache, get-tx_cache_clear,
}

pub data Op : Type 0 where
  set_key : Bytes → Bytes → Op
  delete_key : Bytes → Op
  -- the transaction succeeds
  upgrade : Op
  -- the transaction fails
  clear : Op

-- The specification: a transaction's map over the block's, with no caches.
pub record Maps : Type 0 where
  pub tx : Bytes → Option Bytes
  pub block : Bytes → Option Bytes

unfoldable pub step_maps : Op → Maps → Maps
step_maps (set_key k v) m = record m { tx = λ j. if k ≟ j then some v else m.tx j }
step_maps (delete_key k) m = record m { tx = λ j. if k ≟ j then none else m.tx j }
step_maps upgrade m = record m { block = m.tx }
step_maps clear m = record m { tx = m.block }

unfoldable pub run_maps : List Op → Maps → Maps
unfolding step_maps
run_maps [] m = m
run_maps (o ∷ os) m = run_maps os (step_maps o m)

module _ (p : PersistentTree) where
  open p use {Tree}

  unfoldable pub step : Tree → Op → TransactionKvBank → TransactionKvBank
  step t (set_key k v) b = set b k v
  step t (delete_key k) b = (delete p t b k).1
  step t upgrade b = upgrade_cache b
  step t clear b = tx_cache_clear b

  unfoldable pub run : Tree → List Op → TransactionKvBank → TransactionKvBank
  run t [] b = b
  run t (o ∷ os) b = run t os (step t o b)

  -- The bank represents the maps.
  pub record Represents (t : Tree) (b : TransactionKvBank) (m : Maps) : Type 0 where
    pub valid : IsValid b.tx
    pub tx : (k : Bytes) → get p t b k ≡ m.tx k
    pub block : (k : Bytes) → block_view p t b k ≡ m.block k

  step_refines :
      (t : Tree) (o : Op) (b : TransactionKvBank) (m : Maps)
      → Represents t b m
      → Represents t (step t o b) (step_maps o m)
  unfolding step step_maps
  step_refines t (set_key k v) b m r = record {
    valid = unfold set in set-IsValid b.tx k v r.valid;
    tx = λ j. get-set p t b k v j ∙ rw (r.tx j);
    block = unfold set in r.block;
  }
  step_refines t (delete_key k) b m r = record {
    valid = unfold delete in delete-IsValid b.tx k r.valid;
    tx = λ j. get-delete p t b k j ∙ rw (r.tx j);
    block = unfold delete in r.block;
  }
  step_refines t upgrade b m r = record {
    valid = unfold upgrade_cache Cache.take in empty-IsValid;
    tx = λ j. (get-upgrade_cache p t b j r.valid).0 ∙ r.tx j;
    block = λ j.
        sym (get-tx_cache_clear p t (upgrade_cache b) j)
        ∙ (get-upgrade_cache p t b j r.valid).1
        ∙ r.tx j;
  }
  step_refines t clear b m r = record {
    valid = unfold tx_cache_clear in empty-IsValid;
    tx = λ j. get-tx_cache_clear p t b j ∙ r.block j;
    block = unfold tx_cache_clear in r.block;
  }

  -- Any sequence of writes, deletions, successes and failures does to the bank what it does to the
  -- two maps that the bank represents.
  pub run_refines :
      (t : Tree) (os : List Op) (b : TransactionKvBank) (m : Maps)
      → Represents t b m
      → Represents t (run t os b) (run_maps os m)
  unfolding run run_maps
  run_refines t [] b m r = r
  run_refines t (o ∷ os) b m r =
      run_refines t os (step t o b) (step_maps o m) (step_refines t o b m r)
