-- ===== src/Slashing.antt =====
-- x/slashing/src: the blocks that a validator misses, and the return of a jailed validator.
pub mod Store
pub mod Params
pub mod Keeper
