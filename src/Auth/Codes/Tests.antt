-- ===== src/Auth/Codes/Tests.antt =====
-- Codes by mail at single inputs (otp.go), and the theorems at them.
use Prim.Native.String.{◌++◌}
use moneymate_backend.Shared.{
  ◌≤◌, ◌≡◌, refl, arith, Bool, true, false, String, List, [], ◌∷◌, some, find?, ap, find_by,
  update_by, str_eq,
}
use moneymate_backend.Shared.Int.{◌+ℤ◌, in_int64}
use moneymate_backend.Shared.Text.{trim_space}
use moneymate_backend.Shared.Action.{World, Result, ok, err}
use moneymate_backend.Errors.{Error}
use moneymate_backend.Auth.Handles.{has_at}
use moneymate_backend.Auth.Sessions.Store.{
  SessionDb, User, has_hash, get_user_by_email, update_password, increment_token_version,
  upgrade_token_version, revoke_all_for_user, revoke_where,
}
use moneymate_backend.Auth.Sessions.Tests.{ports, still, start, member, issued, later}
use moneymate_backend.Auth.Sessions.Calls.{
  refresh_token, serve_sessions, logout_all, both, is_bad_password, normalize_email,
}
use moneymate_backend.Auth.Codes.{
  forgot_password, send_to_user, reset_password, OtpConfig, Mail, set_otp, get_otp, delete_otp,
  increment_attempts, reset_attempts, try_set_cooldown, mark_email_verified, email_exists,
  send_code, send_registration_otp, compare_code, within_limit, check_code, verify_registration_otp,
  consume_email_verified, password_reset_keys, CodeKeys,
}
use moneymate_backend.Auth.Codes.Admitting.{IsStored, reset_admits}
use moneymate_backend.Auth.Codes.Resetting.{reset_refused}
use moneymate_backend.Auth.Codes.Guessing.{IsSteady}
use moneymate_backend.Auth.Codes.Sending.{count_answers, count_answers_le_max}

abbrev mail : Mail
mail = record {
  hash_otp = λ code. "h" ++ code;
  generate_otp = λ digits n. ok "123456";
  send = λ email code n. ok tt;
}

abbrev config : OtpConfig
config = record {
  ttl = 300;
  length = 6;
  resend_cooldown = 60;
  max_verify_attempts = 2;
  email_verified_ttl = 900;
}

abbrev sent : Result Error Unit × World SessionDb
sent = send_registration_otp ports mail config "new@b.c" still start

sent_runs : sent ≡ (ok tt, sent.1)
unfolding send_registration_otp trim_space has_at email_exists send_code try_set_cooldown set_otp
    reset_attempts
sent_runs = refl

still-IsSteady : IsSteady still
still-IsSteady = record { later = λ n. omega arith }

abbrev guesses : List String
guesses = "000000" ∷ "000001" ∷ "123456" ∷ "123456" ∷ []

count_answers_le_max_example :
    count_answers ports mail config "new@b.c" guesses still sent.1 ≤ config.max_verify_attempts
count_answers_le_max_example =
    count_answers_le_max ports mail config still still-IsSteady "new@b.c" guesses start sent.1
      sent_runs

-- The right code comes too late here.
two_answers : count_answers ports mail config "new@b.c" guesses still sent.1 ≡ 2
unfolding send_registration_otp trim_space has_at email_exists send_code try_set_cooldown set_otp
    reset_attempts count_answers verify_registration_otp check_code increment_attempts within_limit
    compare_code get_otp delete_otp mark_email_verified
two_answers = refl

abbrev right : Result Error Unit × World SessionDb
right = verify_registration_otp ports mail config "new@b.c" " 123456" still sent.1

abbrev taken : Result Error Bool × World SessionDb
taken = consume_email_verified "new@b.c" still right.1

-- The first guess is right, and the address is verified for one registration.
verified_once :
    (right.0 ≡ ok tt)
    × (taken.0 ≡ ok true)
    × ((consume_email_verified "new@b.c" still taken.1).0 ≡ ok false)
unfolding send_registration_otp trim_space has_at email_exists send_code try_set_cooldown set_otp
    reset_attempts verify_registration_otp check_code increment_attempts within_limit compare_code
    get_otp delete_otp mark_email_verified consume_email_verified
verified_once = (refl, refl, refl)

abbrev forgotten : Result Error Unit × World SessionDb
forgotten = forgot_password ports mail config "a@b.c" still start

abbrev reset : Result Error Unit × World SessionDb
reset = reset_password ports mail config "a@b.c" "123456" "passw0rd!" "passw0rd!" still forgotten.1

reset_runs : reset ≡ (ok tt, reset.1)
unfolding forgot_password trim_space has_at get_user_by_email send_to_user send_code
    try_set_cooldown set_otp reset_attempts reset_password is_bad_password check_code
    increment_attempts within_limit compare_code get_otp delete_otp update_password logout_all both
    increment_token_version upgrade_token_version revoke_all_for_user revoke_where find_by update_by
    ◌+ℤ◌ in_int64
reset_runs = refl

member_stays : forgotten.1.db.users ≡ start.db.users
unfolding forgot_password trim_space has_at get_user_by_email send_to_user send_code
    try_set_cooldown set_otp reset_attempts
member_stays = refl

token_stays : forgotten.1.db.refresh_tokens ≡ start.db.refresh_tokens
unfolding forgot_password trim_space has_at get_user_by_email send_to_user send_code
    try_set_cooldown set_otp reset_attempts
token_stays = refl

member_found :
    find? (λ u. str_eq (User.email u) (normalize_email ports "a@b.c")) forgotten.1.db.users
    ≡ some member
unfolding trim_space
member_found = ap (find? (λ u. str_eq (User.email u) "a@b.c")) member_stays

reset_refused_example :
    (e : Error) × (w'' : World SessionDb) × (refresh_token ports "t1" still
        (serve_sessions ports later still reset.1)
      ≡ (err e, w''))
    × (w''.db ≡ (serve_sessions ports later still reset.1).db)
reset_refused_example =
    reset_refused ports mail config still "a@b.c" "123456" "passw0rd!" "passw0rd!" member "t1" later
      forgotten.1 reset.1 member_found
      (record { row = issued; row_found = ap (find? (has_hash "t1")) token_stays; is_mine = refl })
      reset_runs

reset_admits_example :
    IsStored still
      (CodeKeys.code_key (password_reset_keys (normalize_email ports "a@b.c")))
      (mail.hash_otp (trim_space "123456"))
      forgotten.1.db
    × (◌≡◌ {A = String} "passw0rd!" "passw0rd!")
    × (is_bad_password "passw0rd!" ≡ false)
reset_admits_example =
    reset_admits ports mail config still "a@b.c" "123456" "passw0rd!" "passw0rd!" forgotten.1
      reset.1 reset_runs
