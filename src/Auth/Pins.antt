-- ===== src/Auth/Pins.antt =====
-- services/auth: internal/usecases/userpin_usecase.go, internal/adapter/postgres/repo/userpin_repo.go
-- and sqlc/generated/user_pins.sql.go. Times are nanoseconds.
pub mod Verifying
pub mod Guessing
pub mod Changing
pub mod Tests
use Prim.Native.String.{len}
use moneymate_backend.Shared.{
  ℕ, suc, ◌+◌, String, Bool, true, false, not, Option, none, some, List, [], ◌∷◌, any, is_some,
  find_by, update_by, ltb, leb, ◌==◌, if◌then◌else◌,
}
use moneymate_backend.Shared.Action.{
  Action, Env, World, Result, ok, err, ◌>>=◌, ◌>>◌, pure, raise, raise_if, map_err, get_now,
  external, statement, query,
}
use moneymate_backend.Errors.{
  DbError, no_rows, pg_error, Error, db_error, map_db_errors, already_exists, invalid_input,
  forbidden,
}

abbrev pub Uuid : Type 0
Uuid = ℕ

abbrev pub Time : Type 0
Time = ℕ

pub record UserPin : Type 0 where
  pub id : Uuid
  pub user_id : Uuid
  pub pin_hash : String
  pub failed_attempts : ℕ
  pub locked_until : Option Time
  pub created_at : Time
  pub updated_at : Time

-- The tables `auth.user_pins` and `auth.users`, of which the identifiers matter here.
pub record AuthDb : Type 0 where
  pub pins : List UserPin
  pub users : List Uuid

abbrev pub Call : Type 0 → Type 0
Call A = Action DbError AuthDb Error A

abbrev pub PinQuery : Type 0 → Type 0
PinQuery A = Action DbError AuthDb DbError A

abbrev pub with_pins : List UserPin → AuthDb → AuthDb
with_pins rows d = record d { pins = rows }

abbrev found_pin : Option UserPin → Result DbError UserPin
found_pin none = err no_rows
found_pin (some p) = ok p

unfoldable pub get_pin_by_user_id : Uuid → PinQuery UserPin
get_pin_by_user_id user = query λ d. found_pin (find_by UserPin.user_id user d.pins)

unfoldable pub pin_exists : Uuid → PinQuery Bool
pin_exists user = query λ d. ok (is_some (find_by UserPin.user_id user d.pins))

-- `user_pins`: the primary key, one row for each user, and the user is there.
abbrev insert_pin_row : UserPin → AuthDb → Result DbError (Unit × AuthDb)
insert_pin_row p d =
    if is_some (find_by UserPin.id p.id d.pins)
    then err (pg_error "23505" "user_pins_pkey")
    else if is_some (find_by UserPin.user_id p.user_id d.pins)
    then err (pg_error "23505" "user_pins_user_id_key")
    else if any (λ u. u == p.user_id) d.users
    then ok (tt, with_pins (p ∷ d.pins) d)
    else err (pg_error "23503" "user_pins_user_id_fkey")

unfoldable pub create_pin : Uuid → Uuid → String → PinQuery Unit
create_pin id user pin_hash = statement λ now _ d.
    insert_pin_row
      (record {
        id = id;
        user_id = user;
        pin_hash = pin_hash;
        failed_attempts = 0;
        locked_until = none;
        created_at = now;
        updated_at = now;
      })
      d

abbrev pub failed_once : Time → UserPin → UserPin
failed_once now p = record p { failed_attempts = p.failed_attempts + 1; updated_at = now }

-- INTEGER has 32 bits: one more than its greatest number is error 22003.
abbrev pub increment_row : Uuid → Time → AuthDb → Option UserPin → Result DbError (ℕ × AuthDb)
increment_row user now d none = err no_rows
increment_row user now d (some p) =
    if ltb p.failed_attempts 2147483647
    then ok (
      p.failed_attempts + 1,
      with_pins (update_by UserPin.user_id user (failed_once now) d.pins) d,
    )
    else err (pg_error "22003" "")

unfoldable pub increment_failed_attempts : Uuid → PinQuery ℕ
increment_failed_attempts user =
    statement λ now _ d. increment_row user now d (find_by UserPin.user_id user d.pins)

abbrev pub locked : Time → Time → UserPin → UserPin
locked until now p = record p { locked_until = some until; updated_at = now }

unfoldable pub lock_pin : Uuid → Time → PinQuery Unit
lock_pin user until =
    statement
      λ now _ d. ok (tt, with_pins (update_by UserPin.user_id user (locked until now) d.pins) d)

abbrev pub unlocked : Time → UserPin → UserPin
unlocked now p = record p { failed_attempts = 0; locked_until = none; updated_at = now }

unfoldable pub reset_failed_attempts : Uuid → PinQuery Unit
reset_failed_attempts user =
    statement λ now _ d. ok (tt, with_pins (update_by UserPin.user_id user (unlocked now) d.pins) d)

abbrev pub rehashed : String → Time → UserPin → UserPin
rehashed pin_hash now p = record (unlocked now p) { pin_hash = pin_hash }

unfoldable pub update_pin_hash : Uuid → String → PinQuery Unit
update_pin_hash user pin_hash =
    statement λ now _ d.
      ok (tt, with_pins (update_by UserPin.user_id user (rehashed pin_hash now) d.pins) d)

-- `MapDBErrors` around a statement.
abbrev pub mapped : {A : Type 0} → PinQuery A → Call A
mapped q = map_err map_db_errors q

-- `maxPinAttempts` and `pinLockDuration`
abbrev pub max_pin_attempts : ℕ
max_pin_attempts = 5

abbrev pub pin_lock_duration : Time
pin_lock_duration = 900000000000

-- `pin.LockedUntil != nil && pin.LockedUntil.After(time.Now())`: the clock is read for a lock only.
abbrev pub is_locked : Option Time → Call Bool
is_locked none = pure false
is_locked (some until) = get_now >>= λ now. pure (ltb now until)

-- The row of a user whose PIN is not locked now.
unfoldable pub get_unlocked : Uuid → Call UserPin
get_unlocked user = do
  pin ← mapped (get_pin_by_user_id user)
  is_now ← is_locked pin.locked_until
  raise_if is_now forbidden
  pure pin

-- `if attempts >= maxPinAttempts`
unfoldable pub count_failure : Uuid → ℕ → Call Unit
count_failure user attempts =
    if leb max_pin_attempts attempts
    then (get_now >>= λ now.
        mapped (lock_pin user (now + pin_lock_duration)) >>= λ _. raise forbidden)
    else raise invalid_input

unfoldable pub wrong_pin : Uuid → Call Unit
wrong_pin user = mapped (increment_failed_attempts user) >>= count_failure user

unfoldable pub right_pin : Uuid → UserPin → Call Unit
right_pin user pin =
    if ltb 0 pin.failed_attempts then mapped (reset_failed_attempts user) else pure tt

-- What the hasher says of the PIN.
unfoldable pub decide : Uuid → UserPin → Result Error Bool → Call Unit
decide user pin (err e) = raise e
decide user pin (ok matches) = if matches then right_pin user pin else wrong_pin user

-- The hasher: `Verify`, given the hash and the PIN, and `Hash`, which is salted, given the PIN and
-- the number of the call; the generator of identifiers, given the number of the call.
module _ (verify : String → String → Result Error Bool) where
  -- `VerifyPIN`
  unfoldable pub verify_pin : Uuid → String → Call Unit
  verify_pin user text = get_unlocked user >>= λ pin. decide user pin (verify pin.pin_hash text)

module _ (hash : String → ℕ → Result Error String) (new_v7 : ℕ → Result Error Uuid) where
  -- `SetPIN`; a failure of `PINExists` is passed on untranslated.
  unfoldable pub set_pin : Uuid → String → Call Unit
  set_pin user text = do
    raise_if (not (len text == 6)) invalid_input
    exists ← map_err db_error (pin_exists user)
    raise_if exists already_exists
    pin_hash ← external (hash text)
    id ← external new_v7
    mapped (create_pin id user pin_hash)

abbrev pub settle_match : Result Error Bool → Call Unit
settle_match (err e) = raise e
settle_match (ok matches) = if matches then pure tt else raise invalid_input

module _ (verify : String → String → Result Error Bool)
    (hash : String → ℕ → Result Error String) where
  -- `UpdatePIN`: a wrong old PIN is not counted as a failed attempt.
  unfoldable pub update_pin : Uuid → String → String → Call Unit
  update_pin user old new = do
    raise_if (not (len new == 6)) invalid_input
    pin ← get_unlocked user
    settle_match (verify pin.pin_hash old)
    pin_hash ← external (hash new)
    mapped (update_pin_hash user pin_hash)
