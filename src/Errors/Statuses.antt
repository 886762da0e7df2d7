-- ===== src/Errors/Statuses.antt =====
-- Which errors the client sees as an internal error (apperrors.go, ParseError).
use moneymate_backend.Shared.{
  ℕ, String, ◌≤◌, ◌≡◌, ◌≢◌, refl, ◌⊎◌, inl, inr, arith, Bool, true, false,
}
use moneymate_backend.Errors.{
  Error, already_exists, internal, dependency_failure, phone_already_taken, oauth_failure,
  daily_limit_reached, idempotency_key_used, token_expired, invalid_token, app_error, db_error,
  plain_error, parse_error,
}

-- The errors that `ParseError` has no case for.
abbrev pub unlisted : Error → Bool
unlisted already_exists = true
unlisted internal = true
unlisted dependency_failure = true
unlisted phone_already_taken = true
unlisted oauth_failure = true
unlisted daily_limit_reached = true
unlisted idempotency_key_used = true
unlisted token_expired = true
unlisted invalid_token = true
unlisted (db_error _) = true
unlisted (plain_error _) = true
unlisted _ = false

-- Of the errors without a response of their own (all but `AppError`), `ParseError` answers 500
-- exactly for those that it has no case for; every other answer is a client error, 400 to 429.
-- Among the former is `ErrAlreadyExists`.
pub parse_error_statuses :
    (e : Error)
    → ((s : ℕ) (c m : String) → e ≢ app_error s c m)
    → ((unlisted e ≡ true)
        × ((parse_error e).status_code ≡ 500)
        × ((parse_error e).code ≡ "INTERNAL_ERROR"))
      ⊎ ((unlisted e ≡ false)
          × (400 ≤ (parse_error e).status_code)
          × ((parse_error e).status_code ≤ 429))
unfolding parse_error
parse_error_statuses (app_error s c m) h = absurd (h s c m refl)
parse_error_statuses (db_error _) h = inl (refl, refl, refl)
parse_error_statuses (plain_error _) h = inl (refl, refl, refl)
parse_error_statuses already_exists h = inl (refl, refl, refl)
parse_error_statuses internal h = inl (refl, refl, refl)
parse_error_statuses dependency_failure h = inl (refl, refl, refl)
parse_error_statuses phone_already_taken h = inl (refl, refl, refl)
parse_error_statuses oauth_failure h = inl (refl, refl, refl)
parse_error_statuses daily_limit_reached h = inl (refl, refl, refl)
parse_error_statuses idempotency_key_used h = inl (refl, refl, refl)
parse_error_statuses token_expired h = inl (refl, refl, refl)
parse_error_statuses invalid_token h = inl (refl, refl, refl)
parse_error_statuses _ h = inr (refl, omega arith, omega arith)
