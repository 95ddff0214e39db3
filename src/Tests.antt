-- ===== src/Tests.antt =====
-- A tree model, and the theorems of the library on concrete data.
pub mod Trees
mod Blocks
mod Stores
mod Meters
mod Amounts
mod Transfers
mod Runs
mod Nodes
pub mod Validators
mod Times
mod Signatures
mod Pages
mod Mints
mod Roots
mod Proposals
mod Deposits
