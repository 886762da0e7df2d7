-- ===== src/Auth/Sessions/Once.antt =====
-- A refresh token is good once (RefreshToken in auth_usecase.go).
use moneymate_backend.Shared.{
  ℕ, String, ◌≡◌, refl, sym, ap, subst, ◌∙◌, arith, inl, inr, false, none, some, List, Option-cases,
  find?, find?_passes, is_some, some-injective, ltb,
}
use moneymate_backend.Shared.Int.{ℤ}
use moneymate_backend.Shared.Text.{is_empty}
use moneymate_backend.Shared.Action.{
  Env, World, ok, err, Result-cases, bind-ok, guard-ok, map_err, external, get_now, tick, raise_if,
  pure, ◌>>=◌, ◌>>◌, outcome, pure-Reads,
}
use moneymate_backend.Shared.Evolving.{Evolves, Reads-Evolves, bind-Evolves}
use moneymate_backend.Errors.{DbError, Error, invalid_input, invalid_token, token_expired}
use moneymate_backend.Auth.Pins.{Time}
use moneymate_backend.Auth.Sessions.Store.{
  User, RefreshToken, SessionDb, SessionCall, has_hash, revoked, revoke_where, with_tokens,
  create_refresh_token, get_by_token_hash, revoke_refresh_token, get_user_roles, get_token_version,
}
use moneymate_backend.Auth.Sessions.Issuing.{Ports, TokenPair, RefreshIssue, issue_pair}
use moneymate_backend.Auth.Sessions.Calls.{
  refresh_token, claimed_user, active_user, lookup_error, parse_error_of, SessionRequest,
  serve_sessions,
}
use moneymate_backend.Auth.Sessions.Spending.{Spent, revoked_found}
use moneymate_backend.Auth.Sessions.Reading.{
  claimed_user-Reads, active_user-Reads, get_user_roles-Reads, get_token_version-Reads,
}
use moneymate_backend.Auth.Sessions.Keeping.{
  StaysSpent, c, create_refresh_token-Evolves, external-Evolves, serve_sessions-Spent,
}

-- What the token's row has passed.
pub record IsLive (ports : Ports) (token : String) (env : Env DbError) (w : World SessionDb)
    (text : String) : Type 0 where
  pub parsed : ports.parse_refresh token w.calls ≡ ok text
  pub row : RefreshToken
  pub row_found : find? (has_hash (ports.hash_token token)) w.db.refresh_tokens ≡ some row
  pub not_revoked : row.revoked_at ≡ none
  pub not_expired : (n : ℕ) × (ltb row.expires_at (env.now n) ≡ false)

abbrev Access : Type 0
Access = String × Time

module _ (ports : Ports) (token : String) (env : Env DbError) (w : World SessionDb) where
  got-row :
      (w₁ w₂ : World SessionDb) (t : RefreshToken)
      → map_err lookup_error (get_by_token_hash (ports.hash_token token)) env w₁ ≡ (ok t, w₂)
      → find? (has_hash (ports.hash_token token)) w₁.db.refresh_tokens ≡ some t
  unfolding get_by_token_hash
  got-row w₁ w₂ t h =
      elim (Option-cases (find? (has_hash (ports.hash_token token)) w₁.db.refresh_tokens)) [
        | inl m ↦ absurd (ground arith)
        | inr (x, f) ↦ ground arith
      ]

  parsed-text :
      (w₁ : World SessionDb) (text : String)
      → map_err parse_error_of (external (ports.parse_refresh token)) env w ≡ (ok text, w₁)
      → (ports.parse_refresh token w.calls ≡ ok text) × (w₁.db ≡ w.db)
  parsed-text w₁ text h = elim (Result-cases (ports.parse_refresh token w.calls)) [
    | inl (x, e) ↦ (ground arith, ground arith)
    | inr (x, e) ↦ absurd (ground arith)
  ]

  pub claimed_user-IsLive :
      (text : String) (w' : World SessionDb)
      → claimed_user ports token env w ≡ (ok text, w')
      → IsLive ports token env w text
  unfolding claimed_user
  claimed_user-IsLive text w' h =
      let last : String → RefreshToken → SessionCall String = λ text stored.
        raise_if (is_some stored.revoked_at) invalid_token
        >> (get_now >>= λ now. raise_if (ltb stored.expires_at now) token_expired >> pure text) in
      let after_parse : String → SessionCall String =
        λ text. map_err lookup_error (get_by_token_hash (ports.hash_token token)) >>= last text in
      let (given, h₁) =
        guard-ok (is_empty token) invalid_input
          (map_err parse_error_of (external (ports.parse_refresh token)) >>= after_parse) env w h in
      let (text', w₁, parsed, h₂) =
        bind-ok (map_err parse_error_of (external (ports.parse_refresh token))) after_parse env w
          h₁ in
      let (t, w₂, got, h₃) =
        bind-ok (map_err lookup_error (get_by_token_hash (ports.hash_token token))) (last text') env
          w₁ h₂ in
      let (live, h₄) =
        guard-ok (is_some (RefreshToken.revoked_at t)) invalid_token
          (get_now >>= λ now. raise_if (ltb t.expires_at now) token_expired >> pure text') env w₂
          h₃ in
      let (fresh, h₅) =
        guard-ok (ltb t.expires_at (env.now w₂.calls)) token_expired (pure text') env (tick w₂)
          h₄ in
      let same : text' ≡ text = ground arith in
      let (p, q) = parsed-text w₁ text' parsed in
      record {
        parsed = p ∙ ap ok same;
        row = t;
        row_found =
            ap (λ d. find? (has_hash (ports.hash_token token)) (SessionDb.refresh_tokens d)) (sym q)
            ∙ got-row w₁ w₂ t got;
        not_revoked = ground arith;
        not_expired = (w₂.calls, fresh);
      }

-- A revocation that ran.
revoke_refresh_token-Spent :
    (h : String) (t : RefreshToken) (env : Env DbError) (w w' : World SessionDb)
    → find? (has_hash h) w.db.refresh_tokens ≡ some t
    → revoke_refresh_token h env w ≡ (ok tt, w')
    → Spent h w'.db
unfolding revoke_refresh_token
revoke_refresh_token-Spent h t env w w' e run = elim (Option-cases (env.fault w.calls)) [
  | inl runs ↦
      let now : Time = env.now w.calls in
      let same : with_tokens (revoke_where (has_hash h) now w.db.refresh_tokens) w.db ≡ w'.db =
        ground arith in
      subst (Spent h) same (record {
        row = revoked now t;
        row_found =
            revoked_found h (has_hash h) now w.db.refresh_tokens t e
            ∙ (rw (find?_passes (has_hash h) w.db.refresh_tokens e) refl);
        is_revoked = refl;
      })
  | inr (x, stops) ↦ absurd (ground arith)
]

module _ (ports : Ports) (env : Env DbError) where
  issue_pair-Spent :
      (h : String) (t : RefreshToken) (user : User) (roles : List String) (version : ℤ)
      (w w' : World SessionDb) (pair : TokenPair)
      → find? (has_hash h) w.db.refresh_tokens ≡ some t
      → issue_pair ports user roles version (revoke_refresh_token h) env w ≡ (ok pair, w')
      → Spent h w'.db
  unfolding issue_pair
  issue_pair-Spent h t user roles version w w' pair e run =
      let after_revoke : Access → RefreshIssue → SessionCall TokenPair = λ access refresh.
        external ports.new_v7 >>= λ id.
        create_refresh_token id user.id refresh.token_hash refresh.expires_at
        >> pure (record {
          access_token = access.0;
          refresh_token = refresh.token;
          access_expires_at = access.1;
          refresh_expires_at = refresh.expires_at;
        }) in
      let (access, w₁, p₁, run₁) =
        bind-ok (external (ports.issue_access user.id user.handle roles version))
          (λ access. external (ports.issue_refresh user.id) >>= λ refresh.
            revoke_refresh_token h >> after_revoke access refresh)
          env w run in
      let (refresh, w₂, p₂, run₂) =
        bind-ok (external (ports.issue_refresh user.id))
          (λ refresh. revoke_refresh_token h >> after_revoke access refresh) env w₁ run₁ in
      let (u, w₃, p₃, run₃) =
        bind-ok (revoke_refresh_token h) (λ u. after_revoke access refresh) env w₂ run₂ in
      let same : w₂.db ≡ w.db = ground arith in
      let spent : Spent h w₃.db =
        revoke_refresh_token-Spent h t env w₂ w₃
          (ap (λ d. find? (has_hash h) (SessionDb.refresh_tokens d)) same ∙ e) p₃ in
      let after : Evolves (StaysSpent h) (after_revoke access refresh) =
        bind-Evolves (c h) (external-Evolves h ports.new_v7) λ id.
          bind-Evolves (c h)
            (create_refresh_token-Evolves h id user.id (RefreshIssue.token_hash refresh)
              refresh.expires_at)
            λ x. Reads-Evolves (c h) (pure-Reads _) in
      subst (λ (w : World SessionDb). Spent h w.db) (ap (λ r. r.1) run₃)
        (after.evolves env w₃ spent)

  issue_refresh-Spent :
      (token : String) (w w' : World SessionDb) (pair : TokenPair)
      → refresh_token ports token env w ≡ (ok pair, w')
      → Spent (ports.hash_token token) w'.db
  unfolding refresh_token
  issue_refresh-Spent token w w' pair run =
      let h = ports.hash_token token in
      let issue : User → List String → ℤ → SessionCall TokenPair =
        λ user roles version. issue_pair ports user roles version (revoke_refresh_token h) in
      let (text, w₁, p₁, run₁) =
        bind-ok (claimed_user ports token)
          (λ text. active_user ports text >>= λ user. get_user_roles (User.id user) >>= λ roles.
            get_token_version user.id >>= λ version. issue user roles version)
          env w run in
      let (user, w₂, p₂, run₂) =
        bind-ok (active_user ports text)
          (λ user. get_user_roles (User.id user) >>= λ roles.
            get_token_version user.id >>= λ version. issue user roles version)
          env w₁ run₁ in
      let (roles, w₃, p₃, run₃) =
        bind-ok (get_user_roles (User.id user))
          (λ roles. get_token_version user.id >>= λ version. issue user roles version) env w₂
          run₂ in
      let (version, w₄, p₄, run₄) =
        bind-ok (get_token_version (User.id user)) (λ version. issue user roles version) env w₃
          run₃ in
      let live = claimed_user-IsLive ports token env w text w₁ p₁ in
      let s₁ : w₁.db ≡ w.db =
        ap (λ r. World.db r.1) (sym p₁) ∙ (claimed_user-Reads ports token).keeps env w in
      let s₂ : w₂.db ≡ w₁.db =
        ap (λ r. World.db r.1) (sym p₂) ∙ (active_user-Reads ports text).keeps env w₁ in
      let s₃ : w₃.db ≡ w₂.db =
        ap (λ r. World.db r.1) (sym p₃) ∙ (get_user_roles-Reads (User.id user)).keeps env w₂ in
      let s₄ : w₄.db ≡ w₃.db =
        ap (λ r. World.db r.1) (sym p₄) ∙ (get_token_version-Reads (User.id user)).keeps env w₃ in
      issue_pair-Spent h live.row user roles version w₄ w' pair
        (ap (λ d. find? (has_hash h) (SessionDb.refresh_tokens d)) (s₄ ∙ s₃ ∙ s₂ ∙ s₁)
          ∙ live.row_found)
        run₄

  -- A spent token is refused before anything is written.
  pub Spent-refused :
      (token : String) (w : World SessionDb)
      → Spent (ports.hash_token token) w.db
      → (e : Error) × (w' : World SessionDb) × (refresh_token ports token env w ≡ (err e, w'))
        × (w'.db ≡ w.db)
  unfolding refresh_token
  Spent-refused token w s =
      let row_found = s.row_found in
      let is_revoked = s.is_revoked in
      let keeps = (claimed_user-Reads ports token).keeps env w in
      elim (outcome (claimed_user ports token env w)) [
        | inl (text, run) ↦
            let live = claimed_user-IsLive ports token env w text _ run in
            let same : s.row ≡ live.row = some-injective _ _ (sym row_found ∙ live.row_found) in
            let not_revoked = live.not_revoked in absurd (ground arith)
        | inr (e, run) ↦ (e, (claimed_user ports token env w).1, (rw run refl), keeps)
      ]

  -- A refresh token is good once: when RefreshToken returned for a token, then after any log-ins,
  -- refreshes, log-outs and changes of passwords that follow, RefreshToken raises for the same token
  -- and leaves the tables as they are.
  pub refresh_once :
      (token : String) (requests : List SessionRequest) (w w' : World SessionDb) (pair : TokenPair)
      → refresh_token ports token env w ≡ (ok pair, w')
      → (e : Error) × (w'' : World SessionDb) × (refresh_token ports token env
            (serve_sessions ports requests env w')
          ≡ (err e, w''))
        × (w''.db ≡ (serve_sessions ports requests env w').db)
  refresh_once token requests w w' pair run =
      Spent-refused token (serve_sessions ports requests env w') (
        serve_sessions-Spent (ports.hash_token token) ports env requests w'
          (issue_refresh-Spent token w w' pair run))
