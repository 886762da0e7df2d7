-- ===== src/Auth/Pins/Tests.antt =====
-- PINs at single inputs (userpin_usecase.go), and the theorems at them.
use Prim.Native.String.{len}
use moneymate_backend.Shared.{
  ℕ, ◌+◌, ◌≤◌, ◌≡◌, refl, arith, Bool, true, false, String, none, some, List, [], ◌∷◌, All, inr,
  find_by, update_by, str_eq,
}
use moneymate_backend.Shared.Action.{Env, World, Result, ok, err}
use moneymate_backend.Errors.{DbError, Error, invalid_input, already_exists}
use moneymate_backend.Auth.Pins.{
  UserPin, AuthDb, get_pin_by_user_id, pin_exists, create_pin, increment_failed_attempts, lock_pin,
  reset_failed_attempts, update_pin_hash, get_unlocked, count_failure, wrong_pin, right_pin, decide,
  verify_pin, set_pin, update_pin,
}
use moneymate_backend.Auth.Pins.Verifying.{IsOpen, verify_pin-IsOpen}
use moneymate_backend.Auth.Pins.Changing.{IsRehashed, update_pin-IsRehashed, update_pin_uncounted}
use moneymate_backend.Auth.Pins.Guessing.{count_tries, count_tries-wrong}

-- A hasher that leaves the text as it is.
abbrev verify : String → String → Result Error Bool
verify pin_hash text = ok (str_eq pin_hash text)

abbrev hash : String → ℕ → Result Error String
hash text n = ok text

abbrev still : Env DbError
still = record { fault = λ n. none; now = λ n. 50; new_uuid = λ n. n }

abbrev tried : UserPin
tried = record {
  id = 1;
  user_id = 11;
  pin_hash = "123456";
  failed_attempts = 3;
  locked_until = some 40;
  created_at = 0;
  updated_at = 0;
}

abbrev start : World AuthDb
start = record { db = record { pins = tried ∷ []; users = 11 ∷ 12 ∷ [] }; calls = 0 }

abbrev entry : Result Error Unit × World AuthDb
entry = verify_pin verify 11 "123456" still start

enters : entry ≡ (ok tt, entry.1)
unfolding verify_pin get_unlocked decide right_pin get_pin_by_user_id reset_failed_attempts find_by
    update_by
enters = refl

verify_pin-IsOpen_example :
    (p : UserPin) × IsOpen 11 still start.db p
    × (verify p.pin_hash "123456" ≡ ok true)
    × ((q : UserPin) × (find_by UserPin.user_id 11 entry.1.db.pins ≡ some q)
        × (q.failed_attempts ≡ 0)
        × (q.pin_hash ≡ p.pin_hash))
verify_pin-IsOpen_example = verify_pin-IsOpen verify 11 "123456" still start entry.1 enters

abbrev shut_pin : UserPin
shut_pin = record tried { locked_until = some 60 }

abbrev shut : World AuthDb
shut = record { db = record { pins = shut_pin ∷ []; users = 11 ∷ [] }; calls = 0 }

shut_found : find_by UserPin.user_id 11 shut.db.pins ≡ some shut_pin
unfolding find_by
shut_found = refl

start_found : find_by UserPin.user_id 11 start.db.pins ≡ some tried
unfolding find_by
start_found = refl

abbrev guesses : List String
guesses = "000000" ∷ "111111" ∷ "222222" ∷ []

guesses_wrong : All (λ g. verify tried.pin_hash g ≡ ok false) guesses
guesses_wrong = (refl, (refl, (refl, tt)))

count_tries-wrong_example : count_tries verify 11 guesses still start + 3 ≤ 5
count_tries-wrong_example =
    count_tries-wrong verify 11 guesses still start 50 tried (λ _. refl) (λ _. ground arith)
      (λ _. ground arith) start_found (ground arith) guesses_wrong

-- Two of the three guesses are compared.
two_compared : count_tries verify 11 guesses still start ≡ 2
unfolding verify_pin get_unlocked decide wrong_pin count_failure get_pin_by_user_id
    increment_failed_attempts lock_pin find_by update_by
two_compared = refl

-- A PIN that is there already is not set again, and a new one is.
set_again : (set_pin hash (λ n. ok 7) 11 "654321" still start).0 ≡ err already_exists
unfolding set_pin pin_exists find_by
set_again = refl

set_first : (set_pin hash (λ n. ok 7) 12 "654321" still start).0 ≡ ok tt
unfolding set_pin pin_exists create_pin find_by
set_first = refl

-- A wrong old PIN is refused.
update_refused : (update_pin verify hash 11 "000000" "654321" still start).0 ≡ err invalid_input
unfolding update_pin get_unlocked get_pin_by_user_id find_by
update_refused = refl

abbrev change : Result Error Unit × World AuthDb
change = update_pin verify hash 11 "123456" "654321" still start

changes : change ≡ (ok tt, change.1)
unfolding update_pin get_unlocked get_pin_by_user_id update_pin_hash find_by update_by
changes = refl

update_pin-IsRehashed_example :
    (len "654321" ≡ 6)
    × ((p : UserPin) × IsOpen 11 still start.db p × (verify p.pin_hash "123456" ≡ ok true))
    × IsRehashed hash 11 "654321" change.1.db
update_pin-IsRehashed_example =
    update_pin-IsRehashed verify hash 11 "123456" "654321" still start change.1 changes

update_pin_uncounted_example :
    (e : Error) × ((update_pin verify hash 11 "000000" "654321" still start).0 ≡ err e)
    × ((update_pin verify hash 11 "000000" "654321" still start).1.db ≡ start.db)
update_pin_uncounted_example =
    update_pin_uncounted verify hash 11 "000000" "654321" still start tried start_found refl

tried-IsOpen : IsOpen 11 still start.db tried
tried-IsOpen = record { row_found = start_found; is_over = inr (40, 0, refl, ground arith) }
