-- ===== src/Time.antt =====
-- tendermint/src/types/time: points in time, spans of time, and their sums and differences.
pub mod Duration
pub mod Timestamp
