-- ===== src/Auth/Sessions/Tests.antt =====
-- Sessions of one user at single inputs (auth_usecase.go), and the theorems at them.
use moneymate_backend.Shared.{
  ◌+◌, ◌≡◌, refl, true, false, some, none, List, [], ◌∷◌, inl, find?, find_by, update_by, str_eq,
  ltb, if◌then◌else◌,
}
use moneymate_backend.Shared.Int.{pos}
use moneymate_backend.Shared.Text.{trim_space}
use moneymate_backend.Shared.Action.{Env, World, Result, ok, err}
use moneymate_backend.Errors.{DbError, Error}
use moneymate_backend.Auth.Pins.{
  UserPin, get_pin_by_user_id, get_unlocked, decide, right_pin, reset_failed_attempts, verify_pin,
}
use moneymate_backend.Auth.Pins.Verifying.{IsOpen}
use moneymate_backend.Auth.Sessions.Store.{
  User, RefreshToken, SessionDb, status_active, is_active_status, get_user_by_id, get_user_by_email,
  get_token_version, get_user_roles, get_by_token_hash, create_refresh_token, insert_token_row,
  revoke_refresh_token, revoke_all_for_user, revoke_where, update_password,
}
use moneymate_backend.Auth.Sessions.Issuing.{Ports, TokenPair, issue_pair, issue_and_persist_tokens}
use moneymate_backend.Auth.Sessions.Calls.{
  LoginRequest, ChangePasswordRequest, login, refresh_token, claimed_user, active_user,
  check_password, check_old_password, check_change, change_password, is_bad_password,
  normalize_email, SessionRequest, post_login, post_refresh, post_password, serve_sessions,
}
use moneymate_backend.Auth.Sessions.Once.{refresh_once}
use moneymate_backend.Auth.Sessions.Admitting.{KnowsPassword, login_admits}
use moneymate_backend.Auth.Sessions.Ending.{ended_refused}

-- Tokens and hashes as plain texts.
abbrev pub ports : Ports
ports = record {
  to_lower = λ s. s;
  parse_uuid = λ s. some 11;
  uuid_text = λ u. "11";
  parse_refresh = λ token n. ok "11";
  hash_token = λ s. s;
  issue_access = λ user handle roles version n. ok ("access", 100);
  issue_refresh = λ user n. ok (record {
    token = if ltb n 9 then "t2" else "t3";
    token_hash = if ltb n 9 then "t2" else "t3";
    expires_at = 900;
  });
  new_v7 = λ n. ok (70 + n);
  verify = λ h text. ok (str_eq h text);
  hash = λ text n. ok text;
}

abbrev pub still : Env DbError
still = record { fault = λ n. none; now = λ n. 50; new_uuid = λ n. n }

abbrev pub member : User
member = record {
  id = 11;
  email = "a@b.c";
  phone = none;
  full_name = "A B";
  handle = "ab";
  password_hash = some "password";
  status = status_active;
  token_version = pos 4;
  is_email_verified = true;
  is_phone_verified = false;
  qr_code = "q";
  profile_picture_url = none;
  created_at = 0;
  updated_at = 0;
}

abbrev pub issued : RefreshToken
issued = record {
  id = 60;
  user_id = 11;
  token_hash = "t1";
  expires_at = 200;
  revoked_at = none;
  created_at = 10;
}

abbrev pin : UserPin
pin = record {
  id = 1;
  user_id = 11;
  pin_hash = "123456";
  failed_attempts = 0;
  locked_until = none;
  created_at = 0;
  updated_at = 0;
}

abbrev pub start : World SessionDb
start = record {
  db = record {
    users = member ∷ [];
    user_roles = record { user_id = 11; name = "user" } ∷ [];
    refresh_tokens = issued ∷ [];
    versions = [];
    redis = λ k. none;
    pin_db = record { pins = pin ∷ []; users = 11 ∷ [] };
  };
  calls = 0;
}

abbrev second : TokenPair
second = record {
  access_token = "access";
  refresh_token = "t2";
  access_expires_at = 100;
  refresh_expires_at = 900;
}

abbrev refreshed : Result Error TokenPair × World SessionDb
refreshed = refresh_token ports "t1" still start

refresh_runs : refreshed ≡ (ok second, refreshed.1)
unfolding refresh_token claimed_user active_user get_by_token_hash get_user_by_id get_user_roles
    get_token_version issue_pair revoke_refresh_token revoke_where create_refresh_token
    insert_token_row find_by
refresh_runs = refl

abbrev entry : LoginRequest
entry = record { identifier = " a@b.c"; password = "password"; pin = "123456" }

abbrev change : ChangePasswordRequest
change = record {
  old_password = "password";
  new_password = "passw0rd!";
  confirm_password = "passw0rd!";
}

abbrev pub later : List SessionRequest
later = post_login entry ∷ post_refresh "t2" ∷ post_password 11 change ∷ []

refresh_once_example :
    (e : Error) × (w'' : World SessionDb) × (refresh_token ports "t1" still
        (serve_sessions ports later still refreshed.1)
      ≡ (err e, w''))
    × (w''.db ≡ (serve_sessions ports later still refreshed.1).db)
refresh_once_example = refresh_once ports still "t1" later start refreshed.1 second refresh_runs

abbrev entered : Result Error TokenPair × World SessionDb
entered = login ports entry still start

login_runs : entered ≡ (ok second, entered.1)
unfolding login check_password trim_space get_user_by_email verify_pin get_unlocked decide right_pin
    get_pin_by_user_id reset_failed_attempts issue_and_persist_tokens get_user_roles
    get_token_version issue_pair create_refresh_token insert_token_row find_by update_by
login_runs = refl

login_admits_example :
    (user : User) × (find?
        (λ u. str_eq (User.email u) (normalize_email ports entry.identifier))
        start.db.users
      ≡ some user)
    × KnowsPassword ports entry.password user
    × (is_active_status user.status ≡ true)
    × ((p : UserPin) × IsOpen user.id still start.db.pin_db p
        × (ports.verify p.pin_hash entry.pin ≡ ok true))
login_admits_example = login_admits ports still start entry second entered.1 login_runs

abbrev changed : Result Error Unit × World SessionDb
changed = change_password ports 11 change still start

change_runs : changed ≡ (ok tt, changed.1)
unfolding change_password check_old_password check_change is_bad_password get_user_by_id
    update_password revoke_all_for_user revoke_where find_by update_by
change_runs = refl

ended_refused_example :
    (e : Error) × (w'' : World SessionDb) × (refresh_token ports "t1" still
        (serve_sessions ports later still changed.1)
      ≡ (err e, w''))
    × (w''.db ≡ (serve_sessions ports later still changed.1).db)
ended_refused_example =
    ended_refused ports still 11 "t1" later start changed.1
      (record { row = issued; row_found = refl; is_mine = refl }) (inl (change, change_runs))
