-- ===== src/Merchant.antt =====
-- services/merchant: the stores' offers.
pub mod Campaigns
