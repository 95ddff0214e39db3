-- ===== src/Slashing/Keeper/Corrupt.antt =====
-- x/slashing/src/keeper.rs: a signing info that the keeper has written, and its next reading.
use gears.Base.Order.{bytes_ord}
use gears.Slashing.Store.{Store}
