-- ===== src/Errors/Tests.antt =====
-- The answers of ParseError (apperrors.go) at single errors.
use moneymate_backend.Shared.{ℕ, String, ◌≤◌, ◌≡◌, ◌≢◌, ◌⊎◌, true, false}
use moneymate_backend.Errors.{already_exists, app_error, parse_error}
use moneymate_backend.Errors.Statuses.{unlisted, parse_error_statuses}

no_app_error : (s : ℕ) (c m : String) → already_exists ≢ app_error s c m
no_app_error s c m h = cc

parse_error_statuses_example :
    ((unlisted already_exists ≡ true)
      × ((parse_error already_exists).status_code ≡ 500)
      × ((parse_error already_exists).code ≡ "INTERNAL_ERROR"))
    ⊎ ((unlisted already_exists ≡ false)
        × (400 ≤ (parse_error already_exists).status_code)
        × ((parse_error already_exists).status_code ≤ 429))
parse_error_statuses_example = parse_error_statuses already_exists no_app_error

abbrev check_violation : String
check_violation = "23514"

abbrev balance_check : String
balance_check = "wallets_balance_check"
