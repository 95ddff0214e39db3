-- ===== src/KvStore.antt =====
-- The crate kv_store: the write caches over the persistent tree.
pub mod Cache
pub mod Bounds
pub mod Tree
pub mod Application
pub mod Transaction
pub mod Merge
pub mod Range
pub mod Prefix
