-- ===== src/Auth/Sessions/Keeping.antt =====
-- What is spent stays spent under every operation on sessions (auth_usecase.go).
use moneymate_backend.Shared.{
  ℕ, String, ◌≡◌, refl, subst, arith, none, List, [], ◌∷◌, is_some, not, str_eq,
}
use moneymate_backend.Shared.Int.{ℤ}
use moneymate_backend.Shared.Text.{is_empty}
use moneymate_backend.Shared.Action.{
  Action, Env, World, Result, ok, err, external, pure, Reads, pure-Reads, raise-Reads,
}
use moneymate_backend.Shared.Evolving.{
  Chains, Evolves, Reads-Evolves, bind-Evolves, handle-Evolves, guard-Evolves, if-Evolves,
  map_err-Evolves, statement-Evolves,
}
use moneymate_backend.Errors.{DbError, Error, map_db_errors, invalid_input, forbidden}
use moneymate_backend.Auth.Pins.{Uuid, Time, AuthDb, verify_pin}
use moneymate_backend.Auth.Sessions.Store.{
  User, RefreshToken, SessionDb, SessionCall, has_hash, revoke_where, is_live_of, with_tokens,
  insert_token_row, create_refresh_token, revoke_refresh_token, revoke_all_for_user,
  update_password, increment_token_version, upgrade_token_version,
}
use moneymate_backend.Auth.Sessions.Issuing.{
  Ports, RefreshIssue, issue_pair, issue_and_persist_tokens,
}
use moneymate_backend.Auth.Sessions.Calls.{
  LoginRequest, LogoutRequest, ChangePasswordRequest, login, logout, logout_all, logout_parsed,
  revoke_found, both, refresh_token, change_password, on_pins, is_unknown_error, is_expired_error,
  SessionRequest, post_login, post_refresh, post_logout, post_password, serve_session,
  serve_sessions,
}
use moneymate_backend.Auth.Sessions.Spending.{Spent, kept-Spent, revoked-Spent, inserted-Spent}
use moneymate_backend.Auth.Sessions.Reading.{
  get_token_version-Reads, get_user_roles-Reads, get_by_token_hash-Reads, claimed_user-Reads,
  check_password-Reads, active_user-Reads, check_old_password-Reads,
}

module _ (h : String) where
  abbrev pub StaysSpent : SessionDb → SessionDb → Type 0
  StaysSpent d d' = Spent h d → Spent h d'

  abbrev pub c : Chains StaysSpent
  c = record { stays = λ d s. s; chained = λ d d' d'' f g s. g (f s) }

  reads : {A : Type 0} {m : SessionCall A} → Reads m → Evolves StaysSpent m
  reads r = Reads-Evolves c r

  pub create_refresh_token-Evolves :
      (id user : Uuid) (token_hash : String) (expires_at : Time)
      → Evolves StaysSpent (create_refresh_token id user token_hash expires_at)
  unfolding create_refresh_token
  create_refresh_token-Evolves id user token_hash expires_at =
      let fresh : Time → RefreshToken = λ now. record {
        id = id;
        user_id = user;
        token_hash = token_hash;
        expires_at = expires_at;
        revoked_at = none;
        created_at = now;
      } in
      map_err-Evolves c map_db_errors (
        statement-Evolves c (λ now _ d. insert_token_row (fresh now) d)
          λ now new d d' a e s. inserted-Spent h (fresh now) d d' e s)

  revoke_refresh_token-Evolves : (k : String) → Evolves StaysSpent (revoke_refresh_token k)
  unfolding revoke_refresh_token
  revoke_refresh_token-Evolves k = map_err-Evolves c map_db_errors (
      statement-Evolves c
        (λ now _ d.
          ok (tt, with_tokens (revoke_where (has_hash k) now (SessionDb.refresh_tokens d)) d))
        λ now new d d' a e s.
          let same : with_tokens (revoke_where (has_hash k) now d.refresh_tokens) d ≡ d' =
            ground arith in
          subst (Spent h) same (revoked-Spent h (has_hash k) now d s))

  revoke_all-Evolves : (user : Uuid) → Evolves StaysSpent (revoke_all_for_user user)
  unfolding revoke_all_for_user
  revoke_all-Evolves user = map_err-Evolves c map_db_errors (
      statement-Evolves c
        (λ now _ d.
          ok (tt, with_tokens (revoke_where (is_live_of user) now (SessionDb.refresh_tokens d)) d))
        λ now new d d' a e s.
          let same : with_tokens (revoke_where (is_live_of user) now d.refresh_tokens) d ≡ d' =
            ground arith in
          subst (Spent h) same (revoked-Spent h (is_live_of user) now d s))

  update_password-Evolves : (k : Uuid) (new : String) → Evolves StaysSpent (update_password k new)
  unfolding update_password
  update_password-Evolves k new = record { evolves = λ env w. kept-Spent h w.db _ (ground arith) }

  increment-Evolves : (k : Uuid) → Evolves StaysSpent (increment_token_version k)
  unfolding increment_token_version
  increment-Evolves k = record { evolves = λ env w. kept-Spent h w.db _ (ground arith) }

  upgrade-Evolves : (k : Uuid) → Evolves StaysSpent (upgrade_token_version k)
  unfolding upgrade_token_version
  upgrade-Evolves k = record { evolves = λ env w. kept-Spent h w.db _ (ground arith) }

  on_pins-Evolves :
      {A : Type 0} (m : Action DbError AuthDb Error A) → Evolves StaysSpent (on_pins m)
  on_pins-Evolves m = record { evolves = λ env w. kept-Spent h w.db _ refl }

  pub external-Evolves :
      {A : Type 0} (f : ℕ → Result Error A) → Evolves {F = DbError} StaysSpent (external f)
  external-Evolves f = reads {m = external f} (record { keeps = λ env w. refl })

  module _ (ports : Ports) where
    issue_pair-Evolves :
        (user : User) (roles : List String) (version : ℤ) (revoke : SessionCall Unit)
        → Evolves StaysSpent revoke
        → Evolves StaysSpent (issue_pair ports user roles version revoke)
    unfolding issue_pair
    issue_pair-Evolves user roles version revoke g =
        bind-Evolves c (external-Evolves (ports.issue_access user.id user.handle roles version))
          λ access. bind-Evolves c (external-Evolves (ports.issue_refresh user.id)) λ refresh.
            bind-Evolves c g λ u. bind-Evolves c (external-Evolves ports.new_v7) λ id.
              bind-Evolves c
                (create_refresh_token-Evolves id user.id (RefreshIssue.token_hash refresh)
                  refresh.expires_at)
                λ x. reads (pure-Reads _)

    login-Evolves : (req : LoginRequest) → Evolves StaysSpent (login ports req)
    unfolding login issue_and_persist_tokens
    login-Evolves req = bind-Evolves c (reads (check_password-Reads ports req)) λ user.
        bind-Evolves c (on_pins-Evolves (verify_pin ports.verify (User.id user) req.pin)) λ z.
          bind-Evolves c (reads (get_user_roles-Reads user.id)) λ roles.
            bind-Evolves c (reads (get_token_version-Reads user.id))
              λ version. issue_pair-Evolves user roles version (pure tt) (reads (pure-Reads tt))

    refresh_token-Evolves : (token : String) → Evolves StaysSpent (refresh_token ports token)
    unfolding refresh_token
    refresh_token-Evolves token = bind-Evolves c (reads (claimed_user-Reads ports token)) λ text.
        bind-Evolves c (reads (active_user-Reads ports text)) λ user.
          bind-Evolves c (reads (get_user_roles-Reads (User.id user))) λ roles.
            bind-Evolves c (reads (get_token_version-Reads user.id)) λ version.
              issue_pair-Evolves user roles version (revoke_refresh_token (ports.hash_token token))
                (revoke_refresh_token-Evolves (ports.hash_token token))

    both-Reads : {A B : Type 0} (r : Result Error A) (s : Result Error B) → Reads (both ports r s)
    unfolding both
    both-Reads (err e) s = raise-Reads e
    both-Reads (ok a) (err e) = raise-Reads e
    both-Reads (ok a) (ok b) = pure-Reads tt

    revoke_found-Evolves :
        (k : String) (r : Result Error RefreshToken) → Evolves StaysSpent (revoke_found ports k r)
    unfolding revoke_found
    revoke_found-Evolves k (err e) =
        if-Evolves c (is_unknown_error e) (reads (pure-Reads tt)) (reads (raise-Reads e))
    revoke_found-Evolves k (ok t) =
        if-Evolves c (is_some t.revoked_at) (reads (pure-Reads tt)) (revoke_refresh_token-Evolves k)

    logout_parsed-Evolves :
        (user : Uuid) (token : String) (r : Result Error String)
        → Evolves StaysSpent (logout_parsed ports user token r)
    unfolding logout_parsed
    logout_parsed-Evolves user token (err e) =
        if-Evolves c (is_expired_error e) (reads (pure-Reads tt)) (reads (raise-Reads e))
    logout_parsed-Evolves user token (ok text) =
        guard-Evolves c (not (str_eq text (ports.uuid_text user))) forbidden (
          handle-Evolves c (reads (get_by_token_hash-Reads (ports.hash_token token)))
            (revoke_found-Evolves (ports.hash_token token)))

    logout-Evolves : (req : LogoutRequest) → Evolves StaysSpent (logout ports req)
    unfolding logout logout_all
    logout-Evolves req =
        if-Evolves c req.all_devices
          (handle-Evolves c (increment-Evolves req.user_id) λ a.
            handle-Evolves c (upgrade-Evolves req.user_id)
              λ b. bind-Evolves c (reads (both-Reads a b)) λ u. revoke_all-Evolves req.user_id)
          (guard-Evolves c (is_empty req.refresh_token) invalid_input (
            handle-Evolves c (external-Evolves (ports.parse_refresh req.refresh_token))
              (logout_parsed-Evolves req.user_id req.refresh_token)))

    change_password-Evolves :
        (user : Uuid) (req : ChangePasswordRequest)
        → Evolves StaysSpent (change_password ports user req)
    unfolding change_password
    change_password-Evolves user req =
        bind-Evolves c (reads (check_old_password-Reads ports user req)) λ found.
          bind-Evolves c (external-Evolves (ports.hash req.new_password)) λ new_hash.
            bind-Evolves c (update_password-Evolves user new_hash) λ u. revoke_all-Evolves user

    module _ (env : Env DbError) where
      pub serve_session-Spent :
          (r : SessionRequest) (w : World SessionDb)
          → Spent h w.db
          → Spent h (serve_session ports r env w).db
      unfolding serve_session
      serve_session-Spent (post_login req) w = (login-Evolves req).evolves env w
      serve_session-Spent (post_refresh token) w = (refresh_token-Evolves token).evolves env w
      serve_session-Spent (post_logout req) w = (logout-Evolves req).evolves env w
      serve_session-Spent (post_password user req) w =
          (change_password-Evolves user req).evolves env w

      pub serve_sessions-Spent :
          (requests : List SessionRequest) (w : World SessionDb)
          → Spent h w.db
          → Spent h (serve_sessions ports requests env w).db
      unfolding serve_sessions
      serve_sessions-Spent [] w s = s
      serve_sessions-Spent (r ∷ rest) w s = serve_sessions-Spent rest _ (serve_session-Spent r w s)
