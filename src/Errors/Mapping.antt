-- ===== src/Errors/Mapping.antt =====
-- Which errors the translation of database errors can return (apperrors.go, MapDBErrors).
use moneymate_backend.Shared.{◌↔◌, String, ◌≡◌, ◌≢◌, refl, arith, eq_iff}
use moneymate_backend.Errors.{
  DbError, no_rows, pg_error, driver_error, idempotency_key_used, insufficient_funds, map_db_errors,
}

-- No database error becomes `ErrIdempotencyKeyUsed`: a repeated idempotency key, like any other
-- unique violation, is reported by another error.
pub map_db_errors-ne-idempotency_key_used : (e : DbError) → map_db_errors e ≢ idempotency_key_used
unfolding map_db_errors
map_db_errors-ne-idempotency_key_used no_rows h = ground arith
map_db_errors-ne-idempotency_key_used (pg_error c n) h = ground arith
map_db_errors-ne-idempotency_key_used (driver_error n) h = ground arith

-- A database error becomes `ErrInsufficientFunds` exactly if it is a check violation (23514) of the
-- constraint that is called `chk_positive_balance`.
pub map_db_errors-insufficient_funds :
    (code name : String)
    → (map_db_errors (pg_error code name) ≡ insufficient_funds)
      ↔ ((code ≡ "23514") × (name ≡ "chk_positive_balance"))
unfolding map_db_errors
map_db_errors-insufficient_funds code name = (
  λ h. ground (arith, eq_iff code "23514", eq_iff name "chk_positive_balance"),
  λ h. simp (h.0, h.1) refl,
)
