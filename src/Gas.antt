-- ===== src/Gas.antt =====
-- Gas: amounts, meters, and the stores that charge for what they do.
pub mod Amount
pub mod Meter
pub mod Guard
pub mod Store
