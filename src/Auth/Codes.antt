-- ===== src/Auth/Codes.antt =====
-- Codes sent by mail: SendRegistrationOTP, VerifyRegistrationOTP and ForgotPassword (otp.go) and
-- ResetPassword (auth_usecase.go), over the keys of internal/adapter/redis/token_store.go.
pub mod Guessing
pub mod Counter
pub mod Attempts
pub mod Limit
pub mod Verifying
pub mod Answering
pub mod Sending
pub mod Resetting
pub mod Admitting
mod Tests
use Prim.Native.String.{◌++◌}
use moneymate_backend.Shared.{
  ℕ, String, Bool, true, false, not, ◌||◌, Option, none, some, List, is_some, find?, str_eq, ltb,
  ◌==◌, if◌then◌else◌,
}
use moneymate_backend.Shared.Text.{is_empty, trim_space}
use moneymate_backend.Shared.Action.{
  Action, Env, World, Result, ok, err, ◌>>=◌, ◌>>◌, pure, raise, raise_if, or_raise, handle,
  map_err, external, statement, query,
}
use moneymate_backend.Errors.{
  DbError, Error, db_error, invalid_input, email_already_taken, otp_timeout, otp_expired,
  password_mismatch, invalid_password, app_error, user_not_found, not_found,
}
use moneymate_backend.Auth.Pins.{Uuid, Time}
use moneymate_backend.Auth.Handles.{has_at}
use moneymate_backend.Auth.Redis.{
  Redis, RedisAnswer, redis_set, redis_get, redis_ttl, redis_del, redis_incr, redis_expire,
  redis_set_nx, redis_get_del,
}
use moneymate_backend.Auth.Sessions.Store.{
  User, SessionDb, SessionCall, get_user_by_email, update_password,
}
use moneymate_backend.Auth.Sessions.Issuing.{Ports}
use moneymate_backend.Auth.Sessions.Calls.{normalize_email, is_bad_password, logout_all}

pub record OtpConfig : Type 0 where
  pub ttl : Time
  pub length : ℕ
  pub resend_cooldown : Time
  pub max_verify_attempts : ℕ
  pub email_verified_ttl : Time

-- What the use case needs of others: SHA-256, `crypto/rand` and the mailer.
pub record Mail : Type 0 where
  pub hash_otp : String → String
  pub generate_otp : ℕ → ℕ → Result Error String
  pub send : String → String → ℕ → Result Error Unit

-- The three keys of an address: of the code, of the attempts, and of the time between two codes.
pub record CodeKeys : Type 0 where
  pub code_key : String
  pub attempts_key : String
  pub cooldown_key : String

abbrev keys_under : String → String → CodeKeys
keys_under prefix email = record {
  code_key = prefix ++ email;
  attempts_key = prefix ++ (email ++ ":attempts");
  cooldown_key = prefix ++ (email ++ ":cooldown");
}

abbrev pub registration_keys : String → CodeKeys
registration_keys email = keys_under "auth:otp:register:" email

abbrev pub password_reset_keys : String → CodeKeys
password_reset_keys email = keys_under "auth:otp:password_reset:" email

abbrev pub email_verified_key : String → String
email_verified_key email = "auth:otp:register:" ++ (email ++ ":verified")

abbrev in_redis : {A : Type 0} → SessionDb → RedisAnswer A → Result DbError (A × SessionDb)
in_redis d (err e) = err e
in_redis d (ok (a, redis)) = ok (a, record d { redis = redis })

-- A command to Redis, at the time when it runs.
abbrev pub command : {A : Type 0} → (Time → Redis → RedisAnswer A) → SessionCall A
command f = map_err db_error (statement λ now _ d. in_redis d (f now (SessionDb.redis d)))

-- `SetRegistrationOTP`, `SetPasswordResetOTP`
unfoldable pub set_otp : CodeKeys → String → Time → SessionCall Unit
set_otp keys otp_hash ttl = command (redis_set keys.code_key otp_hash ttl)

-- `GetRegistrationOTP`, `GetPasswordResetOTP`
unfoldable pub get_otp : CodeKeys → SessionCall (Option String)
get_otp keys = command (redis_get keys.code_key)

-- `DeleteRegistrationOTP`, `DeletePasswordResetOTP`
unfoldable pub delete_otp : CodeKeys → SessionCall Unit
delete_otp keys = command (λ _. redis_del keys.code_key)

-- `IncrementOTPAttempts`, `IncrementPasswordResetOTPAttempts`
unfoldable pub increment_attempts : CodeKeys → Time → SessionCall ℕ
increment_attempts keys ttl = do
  attempts ← command (redis_incr keys.attempts_key)
  if attempts == 1
      then command (redis_expire keys.attempts_key ttl) >> pure attempts
      else pure attempts

-- `ResetOTPAttempts`, `ResetPasswordResetOTPAttempts`
unfoldable pub reset_attempts : CodeKeys → SessionCall Unit
reset_attempts keys = command (λ _. redis_del keys.attempts_key)

-- `TrySetResendCooldown`, `TrySetPasswordResetResendCooldown`
unfoldable pub try_set_cooldown : CodeKeys → Time → SessionCall Bool
try_set_cooldown keys ttl = do
  is_set ← command (redis_set_nx keys.cooldown_key "1" ttl)
  if is_set then pure true else command (redis_ttl keys.cooldown_key) >> pure false

-- `MarkEmailVerified` and `ConsumeEmailVerified`
unfoldable pub mark_email_verified : String → Time → SessionCall Unit
mark_email_verified email ttl = command (redis_set (email_verified_key email) "1" ttl)

unfoldable pub consume_email_verified : String → SessionCall Bool
consume_email_verified email = command (redis_get_del (email_verified_key email))

unfoldable pub email_exists : String → SessionCall Bool
email_exists email =
    map_err db_error
      (query λ d. ok (is_some (find? (λ u. str_eq (User.email u) email) (SessionDb.users d))))

abbrev pub otp_cooldown : Error
otp_cooldown = app_error 429 "OTP_COOLDOWN" "Please wait before requesting another code."

abbrev pub otp_wrong : Error
otp_wrong = app_error 400 "OTP_INVALID" "The code you entered is incorrect."

-- Fifteen minutes, in nanoseconds.
abbrev pub reset_window : Time
reset_window = 900000000000

module _ (mail : Mail) where
  unfoldable pub compare_code : CodeKeys → String → SessionCall Unit
  compare_code keys code = do
    stored ← get_otp keys
    stored_hash ← or_raise stored otp_expired
    raise_if (not (str_eq stored_hash (mail.hash_otp code))) otp_wrong

  unfoldable pub within_limit : CodeKeys → ℕ → String → ℕ → SessionCall Unit
  within_limit keys max code attempts =
      if ltb max attempts
      then handle (delete_otp keys) (λ _. raise otp_timeout)
      else compare_code keys code

  -- An attempt is counted, and its code compared unless there were too many.
  unfoldable pub check_code : CodeKeys → ℕ → Time → String → SessionCall Unit
  check_code keys max ttl code = increment_attempts keys ttl >>= within_limit keys max code

module _ (ports : Ports) (mail : Mail) (config : OtpConfig) where
  -- The part that SendRegistrationOTP and ForgotPassword share.
  unfoldable pub send_code : CodeKeys → String → SessionCall Unit
  send_code keys email = do
    allowed ← try_set_cooldown keys config.resend_cooldown
    raise_if (not allowed) otp_cooldown
    code ← external (mail.generate_otp config.length)
    set_otp keys (mail.hash_otp code) config.ttl
    reset_attempts keys
    external (mail.send email code)

  -- `SendRegistrationOTP`
  unfoldable pub send_registration_otp : String → SessionCall Unit
  send_registration_otp given = do
    raise_if (is_empty (normalize_email ports given) || not (has_at (normalize_email ports given)))
        invalid_input
    exists ← email_exists (normalize_email ports given)
    raise_if exists email_already_taken
    send_code (registration_keys (normalize_email ports given)) (normalize_email ports given)

  abbrev is_not_found : Error → Bool
  is_not_found not_found = true
  is_not_found user_not_found = true
  is_not_found _ = false

  unfoldable pub send_to_user : String → Result Error User → SessionCall Unit
  send_to_user email (err e) = if is_not_found e then pure tt else raise e
  send_to_user email (ok user) = send_code (password_reset_keys email) email

  -- `ForgotPassword`
  unfoldable pub forgot_password : String → SessionCall Unit
  forgot_password given = do
    raise_if (is_empty (normalize_email ports given) || not (has_at (normalize_email ports given)))
        invalid_input
    handle (get_user_by_email (normalize_email ports given))
        (send_to_user (normalize_email ports given))

  -- `VerifyRegistrationOTP`
  unfoldable pub verify_registration_otp : String → String → SessionCall Unit
  verify_registration_otp given code = do
    raise_if (is_empty (normalize_email ports given) || is_empty (trim_space code)) invalid_input
    check_code mail (registration_keys (normalize_email ports given)) config.max_verify_attempts
        config.ttl (trim_space code)
    delete_otp (registration_keys (normalize_email ports given))
    reset_attempts (registration_keys (normalize_email ports given))
    mark_email_verified (normalize_email ports given) config.email_verified_ttl

  -- `_ = f()`
  abbrev ignore : SessionCall Unit → SessionCall Unit
  ignore m = handle m (λ _. pure tt)

  -- `ResetPassword`
  unfoldable pub reset_password : String → String → String → String → SessionCall Unit
  reset_password given code new_password confirm_password = do
    raise_if
        (is_empty (normalize_email ports given)
          || is_empty (trim_space code)
          || is_empty new_password
          || is_empty confirm_password)
        invalid_input
    raise_if (not (str_eq new_password confirm_password)) password_mismatch
    raise_if (is_bad_password new_password) invalid_password
    check_code mail (password_reset_keys (normalize_email ports given)) 5 reset_window
        (trim_space code)
    user ← get_user_by_email (normalize_email ports given)
    new_hash ← external (ports.hash new_password)
    update_password (User.id user) new_hash
    logout_all ports (User.id user)
    ignore (delete_otp (password_reset_keys (normalize_email ports given)))
    ignore (reset_attempts (password_reset_keys (normalize_email ports given)))
