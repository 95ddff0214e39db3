-- ===== src/Staking.antt =====
-- x/staking/src: the validators.
pub mod Validator
