-- ===== src/BaseApp.antt =====
-- gears/src/baseapp: the state behind the ABCI calls, the run of a transaction, and a block.
pub mod State
pub mod Block
pub mod Runner
