-- ===== src/Auth/Codes/Resetting.antt =====
-- ResetPassword ends the user's sessions (auth_usecase.go).
use moneymate_backend.Shared.{
  ℕ, String, ◌≡◌, refl, sym, ap, subst, ◌∙◌, arith, inl, inr, not, ◌||◌, some, some-injective, List,
  str_eq, find?, ltb, ◌==◌, Option-cases,
}
use moneymate_backend.Shared.Text.{is_empty, trim_space}
use moneymate_backend.Shared.Action.{
  Env, World, Result, ok, err, bind-ok, guard-ok, ◌>>=◌, ◌>>◌, pure, raise_if, raise-Reads,
  raise_if-Reads, or_raise-Reads, pure-Reads, handle, external,
}
use moneymate_backend.Shared.Evolving.{
  Chains, Evolves, Reads-Evolves, bind-Evolves, handle-Evolves, if-Evolves,
}
use moneymate_backend.Errors.{
  DbError, Error, invalid_input, password_mismatch, invalid_password, otp_timeout, otp_expired,
}
use moneymate_backend.Auth.Pins.{Time}
use moneymate_backend.Auth.Redis.{
  Redis, RedisAnswer, redis_incr, redis_expire, redis_get, redis_del,
}
use moneymate_backend.Auth.Sessions.Store.{
  User, SessionDb, SessionCall, get_user_by_email, update_password,
}
use moneymate_backend.Auth.Sessions.Issuing.{Ports}
use moneymate_backend.Auth.Sessions.Calls.{
  normalize_email, is_bad_password, logout_all, refresh_token, SessionRequest, serve_sessions,
}
use moneymate_backend.Auth.Sessions.Spending.{Spent, kept-Spent}
use moneymate_backend.Auth.Sessions.Reading.{get_user_by_email-Reads}
use moneymate_backend.Auth.Sessions.Keeping.{serve_sessions-Spent}
use moneymate_backend.Auth.Sessions.Once.{Spent-refused}
use moneymate_backend.Auth.Sessions.Ending.{
  IsTokenOf, kept-IsTokenOf, update_password-keeps, logout_all-Spent,
}
use moneymate_backend.Auth.Codes.{
  OtpConfig, Mail, CodeKeys, password_reset_keys, reset_window, command, get_otp, delete_otp,
  increment_attempts, reset_attempts, compare_code, within_limit, check_code, otp_wrong,
  reset_password,
}
use moneymate_backend.Auth.Codes.Guessing.{command-cases}

-- The tables of users and tokens are left alone.
abbrev KeepsTables : SessionDb → SessionDb → Type 0
KeepsTables d d' = (d'.refresh_tokens ≡ d.refresh_tokens) × (d'.users ≡ d.users)

abbrev c : Chains KeepsTables
c = record { stays = λ d. (refl, refl); chained = λ d d' d'' f g. (g.0 ∙ f.0, g.1 ∙ f.1) }

command-Evolves : {A : Type 0} (f : Time → Redis → RedisAnswer A) → Evolves KeepsTables (command f)
command-Evolves {A} f = record {
  evolves = λ env w. elim (command-cases f env w) [
    | inl (x, stops) ↦
        subst (λ (r : Result Error A × World SessionDb). KeepsTables w.db r.1.db) (sym stops)
          (refl, refl)
    | inr (a, redis, ran, runs) ↦
        subst (λ (r : Result Error A × World SessionDb). KeepsTables w.db r.1.db) (sym runs)
          (refl, refl)
  ];
}

increment_attempts-Evolves :
    (keys : CodeKeys) (ttl : Time) → Evolves KeepsTables (increment_attempts keys ttl)
unfolding increment_attempts
increment_attempts-Evolves keys ttl =
    bind-Evolves c (command-Evolves (redis_incr keys.attempts_key)) λ attempts.
      if-Evolves c (attempts == 1)
        (bind-Evolves c (command-Evolves (redis_expire keys.attempts_key ttl))
          λ u. Reads-Evolves c (pure-Reads attempts))
        (Reads-Evolves c (pure-Reads attempts))

check_code-Evolves :
    (mail : Mail) (keys : CodeKeys) (max : ℕ) (ttl : Time) (code : String)
    → Evolves KeepsTables (check_code mail keys max ttl code)
unfolding check_code within_limit compare_code delete_otp get_otp
check_code-Evolves mail keys max ttl code =
    bind-Evolves c (increment_attempts-Evolves keys ttl) λ attempts.
      if-Evolves c (ltb max attempts)
        (handle-Evolves c (command-Evolves (λ _. redis_del keys.code_key))
          λ r. Reads-Evolves c (raise-Reads otp_timeout))
        (bind-Evolves c (command-Evolves (redis_get keys.code_key)) λ stored.
          bind-Evolves c (Reads-Evolves c (or_raise-Reads stored otp_expired)) λ stored_hash.
            Reads-Evolves c
              (raise_if-Reads (not (str_eq stored_hash (mail.hash_otp code))) otp_wrong))

delete_otp-Evolves : (keys : CodeKeys) → Evolves KeepsTables (delete_otp keys)
unfolding delete_otp
delete_otp-Evolves keys = command-Evolves (λ _. redis_del keys.code_key)

reset_attempts-Evolves : (keys : CodeKeys) → Evolves KeepsTables (reset_attempts keys)
unfolding reset_attempts
reset_attempts-Evolves keys = command-Evolves (λ _. redis_del keys.attempts_key)

get_user_by_email-ok :
    (email : String) (env : Env DbError) (w w' : World SessionDb) (user : User)
    → get_user_by_email email env w ≡ (ok user, w')
    → find? (λ u. str_eq (User.email u) email) w.db.users ≡ some user
unfolding get_user_by_email
get_user_by_email-ok email env w w' user h =
    elim (Option-cases (find? (λ u. str_eq (User.email u) email) w.db.users)) [
      | inl m ↦ absurd (ground arith)
      | inr (x, f) ↦ ground arith
    ]

module _ (ports : Ports) (mail : Mail) (config : OtpConfig) (env : Env DbError)
    (given code new_password confirm_password : String) (user : User) (h : String) where
  -- The steps of ResetPassword from the user's row on.
  after_code-Spent :
      (w w' : World SessionDb)
      → find? (λ u. str_eq (User.email u) (normalize_email ports given)) w.db.users ≡ some user
      → IsTokenOf user.id h w.db
      → (get_user_by_email (normalize_email ports given) >>= λ found.
            external (ports.hash new_password) >>= λ new_hash.
            update_password (User.id found) new_hash
            >> (logout_all ports (User.id found)
                >> (handle
                      (delete_otp (password_reset_keys (normalize_email ports given)))
                      (λ _. pure {F = DbError} {S = SessionDb} {E = Error} tt)
                    >> handle
                        (reset_attempts (password_reset_keys (normalize_email ports given)))
                        (λ _. pure tt))))
          env w
        ≡ (ok tt, w')
      → Spent h w'.db
  after_code-Spent w w' is_user own run =
      let email = normalize_email ports given in
      let reset_keys = password_reset_keys email in
      let tidy : SessionCall Unit =
        handle (delete_otp reset_keys) (λ _. pure tt)
        >> handle (reset_attempts reset_keys) (λ _. pure tt) in
      let store : User → String → SessionCall Unit = λ found new_hash.
        update_password found.id new_hash >> (logout_all ports found.id >> tidy) in
      let (found, w₁, p₁, r₁) =
        bind-ok (get_user_by_email email)
          (λ found. external (ports.hash new_password) >>= store found) env w run in
      let (new_hash, w₂, p₂, r₂) =
        bind-ok (external (ports.hash new_password)) (store found) env w₁ r₁ in
      let (u₁, w₃, p₃, r₃) =
        bind-ok (update_password (User.id found) new_hash) (λ u. logout_all ports found.id >> tidy)
          env w₂ r₂ in
      let (u₂, w₄, p₄, r₄) = bind-ok (logout_all ports (User.id found)) (λ u. tidy) env w₃ r₃ in
      let same_user : user ≡ found =
        some-injective _ _ (sym is_user ∙ get_user_by_email-ok email env w w₁ found p₁) in
      let s₁ : w₁.db ≡ w.db =
        ap (λ r. World.db r.1) (sym p₁) ∙ (get_user_by_email-Reads email).keeps env w in
      let s₂ : w₂.db ≡ w₁.db = ground arith in
      let s₃ : w₃.db.refresh_tokens ≡ w₂.db.refresh_tokens =
        ap (λ r. SessionDb.refresh_tokens (World.db r.1)) (sym p₃)
        ∙ update_password-keeps found.id new_hash env w₂ in
      let own₃ : IsTokenOf user.id h w₃.db =
        kept-IsTokenOf user.id h w.db w₃.db (s₃ ∙ ap SessionDb.refresh_tokens (s₂ ∙ s₁)) own in
      let spent : Spent h w₄.db =
        logout_all-Spent ports env found.id h w₃ w₄
          (subst (λ (x : User). IsTokenOf x.id h w₃.db) same_user own₃) p₄ in
      let tidies : Evolves KeepsTables tidy =
        bind-Evolves c
          (handle-Evolves c (delete_otp-Evolves reset_keys) λ r. Reads-Evolves c (pure-Reads tt))
          λ u.
            handle-Evolves c (reset_attempts-Evolves reset_keys)
              λ r. Reads-Evolves c (pure-Reads tt) in
      kept-Spent h w₄.db w'.db
        (ap (λ r. SessionDb.refresh_tokens (World.db r.1)) (sym r₄) ∙ (tidies.evolves env w₄).0)
        spent

  reset_password-Spent :
      (w w' : World SessionDb)
      → find? (λ u. str_eq (User.email u) (normalize_email ports given)) w.db.users ≡ some user
      → IsTokenOf user.id h w.db
      → reset_password ports mail config given code new_password confirm_password env w
        ≡ (ok tt, w')
      → Spent h w'.db
  unfolding reset_password
  reset_password-Spent w w' is_user own run =
      let email = normalize_email ports given in
      let check : SessionCall Unit =
        check_code mail (password_reset_keys email) 5 reset_window (trim_space code) in
      let rest : Unit → SessionCall Unit = λ u. get_user_by_email email >>= λ found.
      external (ports.hash new_password) >>= λ new_hash.
      update_password (User.id found) new_hash
      >> (logout_all ports (User.id found)
          >> (handle (delete_otp (password_reset_keys email)) (λ _. pure tt)
              >> handle (reset_attempts (password_reset_keys email)) (λ _. pure tt))) in
      let (g₁, r₁) =
        guard-ok
          (is_empty email
            || is_empty (trim_space code)
            || is_empty new_password
            || is_empty confirm_password)
          invalid_input
          (raise_if (not (str_eq new_password confirm_password)) password_mismatch
            >> (raise_if (is_bad_password new_password) invalid_password >> (check >>= rest)))
          env w run in
      let (g₂, r₂) =
        guard-ok (not (str_eq new_password confirm_password)) password_mismatch
          (raise_if (is_bad_password new_password) invalid_password >> (check >>= rest)) env w r₁ in
      let (g₃, r₃) =
        guard-ok (is_bad_password new_password) invalid_password (check >>= rest) env w r₂ in
      let (u, w₁, p, r₄) = bind-ok check rest env w r₃ in
      let kept =
        (check_code-Evolves mail (password_reset_keys email) 5 reset_window
            (trim_space code)).evolves
          env w in
      let tokens : w₁.db.refresh_tokens ≡ w.db.refresh_tokens =
        ap (λ r. SessionDb.refresh_tokens (World.db r.1)) (sym p) ∙ kept.0 in
      let users : w₁.db.users ≡ w.db.users =
        ap (λ r. SessionDb.users (World.db r.1)) (sym p) ∙ kept.1 in
      after_code-Spent w₁ w' (ap (find? (λ u. str_eq (User.email u) email)) users ∙ is_user)
        (kept-IsTokenOf user.id h w.db w₁.db tokens own) r₄

-- When ResetPassword returned for the address of a user, then for each refresh token whose row was the
-- user's, after any log-ins, refreshes, log-outs and changes of passwords that follow, RefreshToken
-- raises and leaves the tables as they are.
pub reset_refused :
    (ports : Ports) (mail : Mail) (config : OtpConfig) (env : Env DbError)
    (given code new_password confirm_password : String) (user : User) (token : String)
    (requests : List SessionRequest) (w w' : World SessionDb)
    → find? (λ u. str_eq (User.email u) (normalize_email ports given)) w.db.users ≡ some user
    → IsTokenOf user.id (ports.hash_token token) w.db
    → reset_password ports mail config given code new_password confirm_password env w ≡ (ok tt, w')
    → (e : Error) × (w'' : World SessionDb) × (refresh_token ports token env
          (serve_sessions ports requests env w')
        ≡ (err e, w''))
      × (w''.db ≡ (serve_sessions ports requests env w').db)
reset_refused ports mail config env given code new_password confirm_password user token requests w
      w' is_user own run =
    Spent-refused ports env token (serve_sessions ports requests env w') (
      serve_sessions-Spent (ports.hash_token token) ports env requests w' (
        reset_password-Spent ports mail config env given code new_password confirm_password user
          (ports.hash_token token) w w' is_user own run))
