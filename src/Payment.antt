-- ===== src/Payment.antt =====
-- services/payment: accounts, the double-entry ledger, deposits, pods and transfers.
pub mod Domain
pub mod Constraints
pub mod Queries
pub mod Ledger
pub mod Deposits
pub mod Transfers
pub mod Withdrawals
pub mod Wallets
pub mod Pods
pub mod System
