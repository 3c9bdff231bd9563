-- ===== src/User.antt =====
-- The user programs, user/.
pub mod Wrapper
