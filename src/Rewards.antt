-- ===== src/Rewards.antt =====
-- services/rewards: rewards for completed payments.
pub mod Domain
pub mod Calculation
pub mod Repo
pub mod Rules
pub mod Payouts
pub mod Service
