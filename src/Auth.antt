-- ===== src/Auth.antt =====
-- services/auth: PINs, handles, sessions and codes by mail.
pub mod Pins
pub mod Redis
pub mod Codes
pub mod Handles
pub mod Sessions
