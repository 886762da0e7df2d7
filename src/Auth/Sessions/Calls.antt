-- ===== src/Auth/Sessions/Calls.antt =====
-- The operations of auth_usecase.go on sessions: Login, Logout, RefreshToken and ChangePassword.
use Prim.Native.String.{len}
use moneymate_backend.Shared.{
  String, Bool, true, false, not, ◌||◌, List, [], ◌∷◌, is_some, str_eq, ltb, ◌==◌, if◌then◌else◌,
}
use moneymate_backend.Shared.Text.{is_empty, trim_space}
use moneymate_backend.Shared.Action.{
  Action, Env, World, Result, ok, err, ◌>>=◌, ◌>>◌, pure, raise, raise_if, or_raise, handle,
  map_err, external, get_now,
}
use moneymate_backend.Errors.{
  DbError, Error, not_found, invalid_input, forbidden, user_not_found, invalid_password,
  incorrect_password, same_password, password_mismatch, token_expired, invalid_token,
}
use moneymate_backend.Auth.Pins.{Uuid, AuthDb, verify_pin}
use moneymate_backend.Auth.Sessions.Store.{
  User, RefreshToken, SessionDb, SessionCall, is_active_status, get_user_by_id, get_user_by_email,
  get_token_version, increment_token_version, update_password, get_user_roles, get_by_token_hash,
  revoke_refresh_token, revoke_all_for_user, upgrade_token_version,
}
use moneymate_backend.Auth.Sessions.Issuing.{Ports, TokenPair, issue_pair, issue_and_persist_tokens}

pub record LoginRequest : Type 0 where
  pub identifier : String
  pub password : String
  pub pin : String

pub record LogoutRequest : Type 0 where
  pub user_id : Uuid
  pub refresh_token : String
  pub all_devices : Bool

pub record ChangePasswordRequest : Type 0 where
  pub old_password : String
  pub new_password : String
  pub confirm_password : String

-- `err == apperrors.Err…` in the callers.
abbrev pub login_error : Error → Error
login_error user_not_found = invalid_password
login_error e = e

abbrev pub parse_error_of : Error → Error
parse_error_of token_expired = token_expired
parse_error_of _ = invalid_token

abbrev pub lookup_error : Error → Error
lookup_error not_found = invalid_token
lookup_error e = e

abbrev pub is_expired_error : Error → Bool
is_expired_error token_expired = true
is_expired_error _ = false

abbrev pub is_unknown_error : Error → Bool
is_unknown_error not_found = true
is_unknown_error _ = false

abbrev pub from_result : {A : Type 0} → Result Error A → SessionCall A
from_result r env w = (r, w)

-- An operation on the tables of the PINs.
abbrev pub on_pins : {A : Type 0} → Action DbError AuthDb Error A → SessionCall A
on_pins m env w =
    let (r, v) = m env (record { db = w.db.pin_db; calls = w.calls }) in
    (r, record { db = record w.db { pin_db = v.db }; calls = v.calls })

-- `validatePassword`: the length in bytes.
unfoldable pub is_bad_password : String → Bool
is_bad_password pw = ltb (len pw) 8 || ltb 256 (len pw)

module _ (ports : Ports) where
  abbrev pub normalize_email : String → String
  normalize_email email = ports.to_lower (trim_space email)

  -- The part of `Login` that comes before the PIN.
  unfoldable pub check_password : LoginRequest → SessionCall User
  check_password req = do
    raise_if
        (is_empty (normalize_email req.identifier)
          || is_empty req.password
          || not (len req.pin == 6))
        invalid_input
    user ← map_err login_error (get_user_by_email (normalize_email req.identifier))
    password_hash ← or_raise user.password_hash invalid_password
    matches ← from_result (ports.verify password_hash req.password)
    raise_if (not matches) invalid_password
    raise_if (not (is_active_status user.status)) forbidden
    pure user

  -- `Login`
  unfoldable pub login : LoginRequest → SessionCall TokenPair
  login req = do
    user ← check_password req
    on_pins (verify_pin ports.verify user.id req.pin)
    issue_and_persist_tokens ports user

  -- The errors of the two calls that `Query2` runs at once.
  unfoldable pub both : {A B : Type 0} → Result Error A → Result Error B → SessionCall Unit
  both (err e) r = raise e
  both (ok a) (err e) = raise e
  both (ok a) (ok b) = pure tt

  unfoldable pub logout_all : Uuid → SessionCall Unit
  logout_all user =
      handle (increment_token_version user)
        λ a. handle (upgrade_token_version user) λ b. both a b >> revoke_all_for_user user

  unfoldable pub revoke_found : String → Result Error RefreshToken → SessionCall Unit
  revoke_found h (err e) = if is_unknown_error e then pure tt else raise e
  revoke_found h (ok t) = if is_some t.revoked_at then pure tt else revoke_refresh_token h

  unfoldable pub logout_parsed : Uuid → String → Result Error String → SessionCall Unit
  logout_parsed user token (err e) = if is_expired_error e then pure tt else raise e
  logout_parsed user token (ok text) = do
    raise_if (not (str_eq text (ports.uuid_text user))) forbidden
    handle (get_by_token_hash (ports.hash_token token)) (revoke_found (ports.hash_token token))

  -- `Logout`
  unfoldable pub logout : LogoutRequest → SessionCall Unit
  logout req =
      if req.all_devices
      then logout_all req.user_id
      else raise_if (is_empty req.refresh_token) invalid_input
        >> handle (external (ports.parse_refresh req.refresh_token))
            (logout_parsed req.user_id req.refresh_token)

  -- Steps 1 to 4 of `RefreshToken`: the user that a live token names.
  unfoldable pub claimed_user : String → SessionCall String
  claimed_user token = do
    raise_if (is_empty token) invalid_input
    text ← map_err parse_error_of (external (ports.parse_refresh token))
    stored ← map_err lookup_error (get_by_token_hash (ports.hash_token token))
    raise_if (is_some stored.revoked_at) invalid_token
    now ← get_now
    raise_if (ltb stored.expires_at now) token_expired
    pure text

  -- Steps 5 and 6: an active user.
  unfoldable pub active_user : String → SessionCall User
  active_user text = do
    uid ← or_raise (ports.parse_uuid text) invalid_token
    user ← map_err (λ e. invalid_token) (get_user_by_id uid)
    raise_if (not (is_active_status user.status)) forbidden
    pure user

  -- `RefreshToken`
  unfoldable pub refresh_token : String → SessionCall TokenPair
  refresh_token token = do
    text ← claimed_user token
    user ← active_user text
    roles ← get_user_roles user.id
    version ← get_token_version user.id
    issue_pair ports user roles version (revoke_refresh_token (ports.hash_token token))

  -- The tests of `ChangePassword` that need no store.
  unfoldable pub check_change : ChangePasswordRequest → SessionCall Unit
  check_change req = do
    raise_if
        (is_empty req.old_password || is_empty req.new_password || is_empty req.confirm_password)
        invalid_input
    raise_if (not (str_eq req.new_password req.confirm_password)) password_mismatch
    raise_if (str_eq req.new_password req.old_password) same_password
    raise_if (is_bad_password req.new_password) invalid_password

  -- The user whose password hash the hasher accepts the old password for.
  unfoldable pub check_old_password : Uuid → ChangePasswordRequest → SessionCall User
  check_old_password user req = do
    check_change req
    found ← get_user_by_id user
    old_hash ← or_raise found.password_hash incorrect_password
    matches ← from_result (ports.verify old_hash req.old_password)
    raise_if (not matches) incorrect_password
    pure found

  -- `ChangePassword`
  unfoldable pub change_password : Uuid → ChangePasswordRequest → SessionCall Unit
  change_password user req = do
    found ← check_old_password user req
    new_hash ← external (ports.hash req.new_password)
    update_password user new_hash
    revoke_all_for_user user

-- Requests of clients, one after another.
pub data SessionRequest : Type 0 where
  post_login : LoginRequest → SessionRequest
  post_refresh : (token : String) → SessionRequest
  post_logout : LogoutRequest → SessionRequest
  post_password : Uuid → ChangePasswordRequest → SessionRequest

abbrev pub silent : {A : Type 0} → SessionCall A → Env DbError → World SessionDb → World SessionDb
silent m env w = (m env w).1

module _ (ports : Ports) where
  unfoldable pub serve_session : SessionRequest → Env DbError → World SessionDb → World SessionDb
  serve_session (post_login req) = silent (login ports req)
  serve_session (post_refresh token) = silent (refresh_token ports token)
  serve_session (post_logout req) = silent (logout ports req)
  serve_session (post_password user req) = silent (change_password ports user req)

  unfoldable pub serve_sessions :
      List SessionRequest → Env DbError → World SessionDb → World SessionDb
  serve_sessions [] env w = w
  serve_sessions (r ∷ rest) env w = serve_sessions rest env (serve_session r env w)
