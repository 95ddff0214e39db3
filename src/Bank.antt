-- ===== src/Bank.antt =====
-- x/bank/src/keeper: the balances of accounts, and their transfers.
pub mod Ledger
pub mod Stored
pub mod Keeper
pub mod Moves
pub mod Transfers
pub mod Delegation
