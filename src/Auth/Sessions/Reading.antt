-- ===== src/Auth/Sessions/Reading.antt =====
-- The parts of the operations on sessions that only read (auth_usecase.go).
use Prim.Native.String.{len}
use moneymate_backend.Shared.{String, refl, arith, is_some, not, ◌||◌, str_eq, ltb, ◌==◌}
use moneymate_backend.Shared.Text.{is_empty}
use moneymate_backend.Shared.Action.{
  Result, external, get_now, Reads, query-Reads, map_err-Reads, pure-Reads, raise_if-Reads,
  or_raise-Reads, bind-Reads,
}
use moneymate_backend.Errors.{
  Error, map_db_errors, invalid_input, invalid_token, token_expired, forbidden, password_mismatch,
  same_password, invalid_password, incorrect_password,
}
use moneymate_backend.Auth.Pins.{Uuid}
use moneymate_backend.Auth.Sessions.Store.{
  User, RefreshToken, get_by_token_hash, get_user_by_id, get_user_by_email, get_user_roles,
  get_token_version, user_error, is_active_status,
}
use moneymate_backend.Auth.Sessions.Issuing.{Ports}
use moneymate_backend.Auth.Sessions.Calls.{
  LoginRequest, ChangePasswordRequest, claimed_user, active_user, check_password,
  check_old_password, check_change, from_result, is_bad_password, normalize_email, login_error,
  lookup_error, parse_error_of,
}

pub get_user_by_id-Reads : (k : Uuid) → Reads (get_user_by_id k)
unfolding get_user_by_id
get_user_by_id-Reads k = map_err-Reads user_error (query-Reads _)

pub get_user_by_email-Reads : (email : String) → Reads (get_user_by_email email)
unfolding get_user_by_email
get_user_by_email-Reads email = map_err-Reads user_error (query-Reads _)

pub get_token_version-Reads : (k : Uuid) → Reads (get_token_version k)
unfolding get_token_version
get_token_version-Reads k = map_err-Reads user_error (query-Reads _)

pub get_user_roles-Reads : (k : Uuid) → Reads (get_user_roles k)
unfolding get_user_roles
get_user_roles-Reads k = record { keeps = λ env w. ground arith }

pub get_by_token_hash-Reads : (h : String) → Reads (get_by_token_hash h)
unfolding get_by_token_hash
get_by_token_hash-Reads h = map_err-Reads map_db_errors (query-Reads _)

pub from_result-Reads : {A : Type 0} (r : Result Error A) → Reads (from_result r)
from_result-Reads r = record { keeps = λ env w. refl }

pub claimed_user-Reads : (ports : Ports) (token : String) → Reads (claimed_user ports token)
unfolding claimed_user
claimed_user-Reads ports token = bind-Reads (raise_if-Reads (is_empty token) invalid_input) λ u.
    bind-Reads
      (map_err-Reads parse_error_of {m = external (ports.parse_refresh token)}
        (record { keeps = λ env w. refl }))
      λ text.
        bind-Reads (map_err-Reads lookup_error (get_by_token_hash-Reads (ports.hash_token token)))
          λ stored.
            bind-Reads (raise_if-Reads (is_some (RefreshToken.revoked_at stored)) invalid_token)
              λ x.
                bind-Reads {m = get_now} (record { keeps = λ env w. refl })
                  λ now.
                    bind-Reads
                      (raise_if-Reads (ltb (RefreshToken.expires_at stored) now) token_expired)
                      λ y. pure-Reads text

pub check_change-Reads :
    (ports : Ports) (req : ChangePasswordRequest) → Reads (check_change ports req)
unfolding check_change
check_change-Reads ports req =
    bind-Reads
      (raise_if-Reads
        (is_empty req.old_password || is_empty req.new_password || is_empty req.confirm_password)
        invalid_input)
      λ u.
        bind-Reads
          (raise_if-Reads (not (str_eq req.new_password req.confirm_password)) password_mismatch)
          λ x.
            bind-Reads (raise_if-Reads (str_eq req.new_password req.old_password) same_password)
              λ y. raise_if-Reads (is_bad_password req.new_password) invalid_password

pub check_password-Reads : (ports : Ports) (req : LoginRequest) → Reads (check_password ports req)
unfolding check_password
check_password-Reads ports req =
    bind-Reads
      (raise_if-Reads
        (is_empty (normalize_email ports req.identifier)
          || is_empty req.password
          || not (len req.pin == 6))
        invalid_input)
      λ u.
        bind-Reads
          (map_err-Reads login_error
            (get_user_by_email-Reads (normalize_email ports req.identifier)))
          λ user.
            bind-Reads (or_raise-Reads (User.password_hash user) invalid_password) λ password_hash.
              bind-Reads (from_result-Reads (ports.verify password_hash req.password)) λ matches.
                bind-Reads (raise_if-Reads (not matches) invalid_password) λ x.
                  bind-Reads (raise_if-Reads (not (is_active_status user.status)) forbidden)
                    λ y. pure-Reads user

pub active_user-Reads : (ports : Ports) (text : String) → Reads (active_user ports text)
unfolding active_user
active_user-Reads ports text =
    bind-Reads (or_raise-Reads (ports.parse_uuid text) invalid_token) λ uid.
      bind-Reads (map_err-Reads (λ e. invalid_token) (get_user_by_id-Reads uid)) λ user.
        bind-Reads (raise_if-Reads (not (is_active_status (User.status user))) forbidden)
          λ x. pure-Reads user

pub check_old_password-Reads :
    (ports : Ports) (user : Uuid) (req : ChangePasswordRequest)
    → Reads (check_old_password ports user req)
unfolding check_old_password
check_old_password-Reads ports user req = bind-Reads (check_change-Reads ports req) λ u.
    bind-Reads (get_user_by_id-Reads user) λ found.
      bind-Reads (or_raise-Reads (User.password_hash found) incorrect_password) λ old_hash.
        bind-Reads (from_result-Reads (ports.verify old_hash req.old_password)) λ matches.
          bind-Reads (raise_if-Reads (not matches) incorrect_password) λ x. pure-Reads found
