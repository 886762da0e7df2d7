-- ===== src/Auth/Sessions.antt =====
-- services/auth: sessions by refresh tokens, log-in and passwords (internal/usecases/auth_usecase.go).
pub mod Store
pub mod Issuing
pub mod Calls
pub mod Spending
pub mod Reading
pub mod Keeping
pub mod Once
pub mod Admitting
pub mod Ending
pub mod Tests
