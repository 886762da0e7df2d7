-- ===== src/Errors.antt =====
-- shared/pkg/errors/apperrors.go: the error values that the services share, the translation of
-- database errors into them, and the HTTP response that each of them becomes.
--
-- An error that Go wraps by `fmt.Errorf("…: %w", err)` is modelled by the error inside: every test
-- in the program goes through `errors.Is` or `errors.As`, which look through the wrapping.
pub mod Mapping
pub mod Statuses
mod Tests
use moneymate_backend.Shared.{ℕ, String, Bool, str_eq, ◌||◌, if◌then◌else◌}

-- An error of the pgx driver: `pgx.ErrNoRows`, a `pgconn.PgError`, or any other failure, such as a
-- lost connection.
pub data DbError : Type 0 where
  no_rows : DbError
  pg_error : (code constraint_name : String) → DbError
  driver_error : ℕ → DbError

-- The package's error variables, `AppError` (status, code and message), a database error that was
-- passed on untranslated, and `errors.New` of a text that the package does not declare.
pub data Error : Type 0 where
  not_found already_exists invalid_input unauthorized forbidden internal : Error
  dependency_failure bad_request : Error
  user_not_found email_already_taken phone_already_taken invalid_password : Error
  incorrect_password same_password password_mismatch : Error
  otp_expired otp_invalid otp_timeout oauth_failure email_not_verified : Error
  insufficient_funds transaction_locked daily_limit_reached : Error
  idempotency_key_used pod_non_zero_balance : Error
  token_expired invalid_token : Error
  pin_not_set invalid_pin pin_locked : Error
  app_error : (status : ℕ) (code message : String) → Error
  db_error : DbError → Error
  plain_error : String → Error

-- The cases of `switch pgErr.Code`.
map_pg_error : String → String → Error
map_pg_error code constraint_name =
    if str_eq code "23505"
    then (if str_eq constraint_name "users_email_key" || str_eq constraint_name "users_email_idx"
        then email_already_taken
        else if str_eq constraint_name "users_phone_key" || str_eq constraint_name "users_phone_idx"
        then phone_already_taken
        else already_exists)
    else if str_eq code "23503"
    then not_found
    else if str_eq code "23514"
    then (if str_eq constraint_name "chk_positive_balance"
        then insufficient_funds
        else invalid_input)
    else if str_eq code "40001"
    then transaction_locked
    else db_error (pg_error code constraint_name)

-- `MapDBErrors`, on an error that is not nil
unfoldable pub map_db_errors : DbError → Error
unfolding map_pg_error
map_db_errors no_rows = not_found
map_db_errors (pg_error code constraint_name) = map_pg_error code constraint_name
map_db_errors (driver_error n) = db_error (driver_error n)

pub record AppError : Type 0 where
  pub status_code : ℕ
  pub code : String
  pub message : String

abbrev pub new_app_error : ℕ → String → String → AppError
new_app_error status code message = record { status_code = status; code = code; message = message }

-- `ParseError`: the first case that the error is one of, or `INTERNAL_ERROR`.
unfoldable pub parse_error : Error → AppError
parse_error (app_error status code message) = new_app_error status code message
parse_error not_found = new_app_error 404 "NOT_FOUND" "The requested resource was not found."
parse_error user_not_found = new_app_error 404 "NOT_FOUND" "The requested resource was not found."
parse_error incorrect_password =
    new_app_error 401 "INCORRECT_PASSWORD" "The current password you entered is incorrect."
parse_error same_password =
    new_app_error 400 "SAME_PASSWORD" "New password cannot be identical to your old password."
parse_error password_mismatch =
    new_app_error 400 "PASSWORD_MISMATCH" "Confirm password does not match new password."
parse_error invalid_password = new_app_error 401 "UNAUTHORIZED" "Invalid email or password."
parse_error invalid_input = new_app_error 400 "BAD_REQUEST" "Invalid request parameters."
parse_error bad_request = new_app_error 400 "BAD_REQUEST" "Invalid request parameters."
parse_error otp_expired = new_app_error 400 "OTP_EXPIRED" "The verification code has expired."
parse_error otp_invalid = new_app_error 400 "OTP_INVALID" "The code you entered is incorrect."
parse_error otp_timeout =
    new_app_error 429 "OTP_MAX_TRIES" "Maximum verification attempts exceeded."
parse_error email_already_taken = new_app_error 409 "EMAIL_TAKEN" "This email is already in use."
parse_error insufficient_funds =
    new_app_error 402 "INSUFFICIENT_FUNDS" "Your wallet balance is too low for this transaction."
parse_error pod_non_zero_balance =
    new_app_error 409 "POD_NON_ZERO_BALANCE"
      "Cannot delete pod with non-zero balance. Please withdraw all funds first."
parse_error transaction_locked =
    new_app_error 409 "TRANSACTION_LOCKED"
      "This account is currently processing another transaction. Please try again in a few seconds."
parse_error unauthorized = new_app_error 401 "UNAUTHORIZED" "Please log in to continue."
parse_error email_not_verified =
    new_app_error 403 "EMAIL_NOT_VERIFIED"
      "Please verify your email before completing registration."
parse_error pin_locked =
    new_app_error 429 "PIN_LOCKED" "Too many failed attempts. Try again in 15 minutes."
parse_error pin_not_set = new_app_error 400 "PIN_NOT_SET" "Set a transaction PIN first."
parse_error invalid_pin = new_app_error 400 "INVALID_PIN" "Incorrect transaction PIN."
parse_error forbidden = new_app_error 403 "FORBIDDEN" "You do not have access to this resource."
parse_error _ =
    new_app_error 500 "INTERNAL_ERROR" "Something went wrong on our end. Please try again later."
