-- ===== src/Gov.antt =====
-- x/gov: proposals, the votes on them and the deposits.
pub mod Votes
pub mod Tally
pub mod Deposits
pub mod Submissions
