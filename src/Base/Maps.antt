-- ===== src/Base/Maps.antt =====
-- The standard containers that the program uses. A `BTreeMap` is the list of its entries in
-- ascending order of keys, the order in which it iterates; a `HashSet` and a `HashMap` are lists in
-- an order that nothing below depends on.
mod Btree
mod Sets
mod Append
mod Sums
unfoldable pub use Btree.*
unfoldable pub use Sets.*
pub use Append.*
pub use Sums.*
