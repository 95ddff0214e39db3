-- ===== src/Mint.antt =====
-- x/mint/src: the coins that each block mints.
pub mod Minter
pub mod Block
