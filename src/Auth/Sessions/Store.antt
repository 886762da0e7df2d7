-- ===== src/Auth/Sessions/Store.antt =====
-- The tables that sessions stand on: internal/domain/user.go and refresh.go, with the statements of
-- sqlc/generated/users.sql.go, user_roles.sql.go and refresh_tokens.sql.go and the repositories around
-- them (internal/adapter/postgres/repo), and the versions of tokens in Redis
-- (internal/adapter/redis/token_store.go).
use moneymate_backend.Shared.{
  ℕ, suc, String, Bool, true, false, ◌&&◌, not, Option, none, some, List, [], ◌∷◌, map, is_some,
  find?, find_by, update_by, keep_if, str_eq, ◌==◌, if◌then◌else◌,
}
use moneymate_backend.Shared.Int.{ℤ, pos, ◌+ℤ◌, in_int64}
use moneymate_backend.Shared.Action.{Action, Result, ok, err, map_err, statement, query}
use moneymate_backend.Errors.{
  DbError, no_rows, pg_error, driver_error, Error, db_error, map_db_errors, user_not_found,
}
use moneymate_backend.Auth.Pins.{Uuid, Time, AuthDb}
use moneymate_backend.Auth.Redis.{Redis}

pub data UserStatus : Type 0 where
  status_pending status_active status_suspended status_deleted : UserStatus

abbrev pub is_active_status : UserStatus → Bool
is_active_status status_active = true
is_active_status status_pending = false
is_active_status status_suspended = false
is_active_status status_deleted = false

pub record User : Type 0 where
  pub id : Uuid
  pub email : String
  pub phone : Option String
  pub full_name : String
  pub handle : String
  pub password_hash : Option String
  pub status : UserStatus
  pub token_version : ℤ
  pub is_email_verified : Bool
  pub is_phone_verified : Bool
  pub qr_code : String
  pub profile_picture_url : Option String
  pub created_at : Time
  pub updated_at : Time

pub record RefreshToken : Type 0 where
  pub id : Uuid
  pub user_id : Uuid
  pub token_hash : String
  pub expires_at : Time
  pub revoked_at : Option Time
  pub created_at : Time

-- A row of `auth.user_roles`, with the name of its role.
pub record UserRole : Type 0 where
  pub user_id : Uuid
  pub name : String

-- The key `auth:user:<id>:version` and its number.
pub record TokenVersion : Type 0 where
  pub user_id : Uuid
  pub version : ℕ

-- The tables, with those of the PINs, the versions in Redis and its other keys.
pub record SessionDb : Type 0 where
  pub users : List User
  pub user_roles : List UserRole
  pub refresh_tokens : List RefreshToken
  pub versions : List TokenVersion
  pub redis : Redis
  pub pin_db : AuthDb

abbrev pub SessionCall : Type 0 → Type 0
SessionCall A = Action DbError SessionDb Error A

abbrev pub SessionQuery : Type 0 → Type 0
SessionQuery A = Action DbError SessionDb DbError A

abbrev pub row_of : {A : Type 0} → Option A → Result DbError A
row_of none = err no_rows
row_of (some a) = ok a

-- `errors.Is(err, pgx.ErrNoRows)`, and any other error wrapped.
abbrev pub user_error : DbError → Error
user_error no_rows = user_not_found
user_error (pg_error code name) = db_error (pg_error code name)
user_error (driver_error n) = db_error (driver_error n)

unfoldable pub get_user_by_id : Uuid → SessionCall User
get_user_by_id k = map_err user_error (query λ d. row_of (find_by User.id k (SessionDb.users d)))

unfoldable pub get_user_by_email : String → SessionCall User
get_user_by_email email =
    map_err user_error
      (query λ d. row_of (find? (λ u. str_eq (User.email u) email) (SessionDb.users d)))

abbrev version_of : Option User → Result DbError ℤ
version_of none = err no_rows
version_of (some u) = ok u.token_version

unfoldable pub get_token_version : Uuid → SessionCall ℤ
get_token_version k =
    map_err user_error (query λ d. version_of (find_by User.id k (SessionDb.users d)))

abbrev pub with_users : List User → SessionDb → SessionDb
with_users rows d = record d { users = rows }

abbrev pub with_tokens : List RefreshToken → SessionDb → SessionDb
with_tokens rows d = record d { refresh_tokens = rows }

abbrev pub set_version : ℤ → Time → User → User
set_version v now u = record u { token_version = v; updated_at = now }

-- `token_version + 1` in BIGINT
abbrev pub version_row : Uuid → Time → SessionDb → Option User → Result DbError (ℤ × SessionDb)
version_row k now d none = err no_rows
version_row k now d (some u) =
    let v = u.token_version +ℤ pos 1 in
    if in_int64 v
    then ok (v, with_users (update_by User.id k (set_version v now) d.users) d)
    else err (pg_error "22003" "")

unfoldable pub increment_token_version : Uuid → SessionCall ℤ
increment_token_version k =
    map_err db_error
      (statement λ now _ d. version_row k now d (find_by User.id k (SessionDb.users d)))

abbrev pub set_password : String → Time → User → User
set_password h now u = record u { password_hash = some h; updated_at = now }

unfoldable pub update_password : Uuid → String → SessionCall Unit
update_password k h = map_err db_error (
    statement λ now _ d.
      ok (tt, with_users (update_by User.id k (set_password h now) (SessionDb.users d)) d))

-- The names of the user's roles.
unfoldable pub get_user_roles : Uuid → SessionCall (List String)
get_user_roles k =
    map_err db_error
      (query λ d. ok (map UserRole.name (keep_if (λ r. UserRole.user_id r == k) d.user_roles)))

abbrev pub has_hash : String → RefreshToken → Bool
has_hash h t = str_eq (RefreshToken.token_hash t) h

unfoldable pub insert_token_row : RefreshToken → SessionDb → Result DbError (Unit × SessionDb)
insert_token_row t d =
    if is_some (find_by RefreshToken.id t.id d.refresh_tokens)
    then err (pg_error "23505" "refresh_tokens_pkey")
    else if is_some (find? (has_hash t.token_hash) d.refresh_tokens)
    then err (pg_error "23505" "refresh_tokens_token_hash_key")
    else ok (tt, with_tokens (t ∷ d.refresh_tokens) d)

unfoldable pub create_refresh_token : Uuid → Uuid → String → Time → SessionCall Unit
create_refresh_token id user token_hash expires_at = map_err map_db_errors (
    statement λ now _ d.
      insert_token_row
        (record {
          id = id;
          user_id = user;
          token_hash = token_hash;
          expires_at = expires_at;
          revoked_at = none;
          created_at = now;
        })
        d)

unfoldable pub get_by_token_hash : String → SessionCall RefreshToken
get_by_token_hash h =
    map_err map_db_errors (query λ d. row_of (find? (has_hash h) (SessionDb.refresh_tokens d)))

abbrev pub revoked : Time → RefreshToken → RefreshToken
revoked now t = record t { revoked_at = some now }

-- `UPDATE auth.refresh_tokens SET revoked_at = … WHERE p`
unfoldable pub revoke_where : (RefreshToken → Bool) → Time → List RefreshToken → List RefreshToken
revoke_where p now [] = []
revoke_where p now (t ∷ rows) = (if p t then revoked now t else t) ∷ revoke_where p now rows

unfoldable pub revoke_refresh_token : String → SessionCall Unit
revoke_refresh_token h = map_err map_db_errors (
    statement λ now _ d.
      ok (tt, with_tokens (revoke_where (has_hash h) now (SessionDb.refresh_tokens d)) d))

abbrev pub is_live_of : Uuid → RefreshToken → Bool
is_live_of user t = t.user_id == user && not (is_some t.revoked_at)

unfoldable pub revoke_all_for_user : Uuid → SessionCall Unit
revoke_all_for_user user = map_err map_db_errors (
    statement λ now _ d.
      ok (tt, with_tokens (revoke_where (is_live_of user) now (SessionDb.refresh_tokens d)) d))

abbrev bumped : Uuid → Option TokenVersion → List TokenVersion → List TokenVersion
bumped k none rows = record { user_id = k; version = 1 } ∷ rows
bumped k (some v) rows =
    update_by TokenVersion.user_id k (λ x. record x { version = suc (TokenVersion.version x) }) rows

-- `UpgradeTokenVersion`: Redis's INCR, its overflow left out.
unfoldable pub upgrade_token_version : Uuid → SessionCall Unit
upgrade_token_version k = map_err db_error (
    statement λ _ _ d. ok (
      tt,
      record d {
        versions = bumped k (find_by TokenVersion.user_id k (SessionDb.versions d)) d.versions;
      },
    ))
