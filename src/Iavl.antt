-- ===== src/Iavl.antt =====
-- trees/src/iavl: the balanced tree of versions, whose leaves hold the entries.
pub mod Node
pub mod Shape
pub mod Keys
pub mod Merkle
pub mod Rotate
pub mod Insert
pub mod Remove
pub mod NodeDb
pub mod Tree
pub mod Range
pub mod Codec
pub mod Store
pub mod Query
