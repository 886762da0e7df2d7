-- ===== src/Auth/Sessions/Ending.antt =====
-- What ends all sessions of a user: ChangePassword, and Logout on all devices (auth_usecase.go).
use moneymate_backend.Shared.{
  String, ◌≡◌, ◌⊎◌, sym, ap, subst, ◌∙◌, arith, inl, inr, true, some, List, Option-cases, find?,
  if◌then◌else◌,
}
use moneymate_backend.Shared.Action.{Env, World, Result, ok, err, bind-ok, external, ◌>>=◌, ◌>>◌}
use moneymate_backend.Errors.{DbError, Error}
use moneymate_backend.Auth.Pins.{Uuid, Time}
use moneymate_backend.Auth.Sessions.Store.{
  RefreshToken, SessionDb, has_hash, revoked, revoke_where, is_live_of, with_tokens,
  revoke_all_for_user, update_password, increment_token_version, upgrade_token_version,
}
use moneymate_backend.Auth.Sessions.Issuing.{Ports}
use moneymate_backend.Auth.Sessions.Calls.{
  LogoutRequest, ChangePasswordRequest, logout, logout_all, both, refresh_token, check_old_password,
  change_password, SessionRequest, serve_sessions,
}
use moneymate_backend.Auth.Sessions.Spending.{Spent, revoked_found}
use moneymate_backend.Auth.Sessions.Reading.{check_old_password-Reads}
use moneymate_backend.Auth.Sessions.Keeping.{serve_sessions-Spent}
use moneymate_backend.Auth.Sessions.Once.{Spent-refused}

-- A row of one user's token is there.
pub record IsTokenOf (user : Uuid) (h : String) (d : SessionDb) : Type 0 where
  pub row : RefreshToken
  pub row_found : find? (has_hash h) d.refresh_tokens ≡ some row
  pub is_mine : row.user_id ≡ user

revoke_all-Spent :
    (user : Uuid) (h : String) (env : Env DbError) (w w' : World SessionDb)
    → IsTokenOf user h w.db
    → revoke_all_for_user user env w ≡ (ok tt, w')
    → Spent h w'.db
unfolding revoke_all_for_user
revoke_all-Spent user h env w w' own run =
    let t = own.row in
    let mine = own.is_mine in
    elim (Option-cases (env.fault w.calls)) [
      | inl runs ↦
          let now : Time = env.now w.calls in
          let same : with_tokens (revoke_where (is_live_of user) now w.db.refresh_tokens) w.db
              ≡ w'.db =
            ground arith in
          subst (Spent h) same (record {
            row = if is_live_of user t then revoked now t else t;
            row_found = revoked_found h (is_live_of user) now w.db.refresh_tokens t own.row_found;
            is_revoked = ground arith;
          })
      | inr (x, stops) ↦ absurd (ground arith)
    ]

pub kept-IsTokenOf :
    (user : Uuid) (h : String) (d d' : SessionDb)
    → d'.refresh_tokens ≡ d.refresh_tokens
    → IsTokenOf user h d
    → IsTokenOf user h d'
kept-IsTokenOf user h d d' e own = record {
  row = own.row;
  row_found = ap (find? (has_hash h)) e ∙ own.row_found;
  is_mine = own.is_mine;
}

pub update_password-keeps :
    (k : Uuid) (new : String) (env : Env DbError) (w : World SessionDb)
    → (update_password k new env w).1.db.refresh_tokens ≡ w.db.refresh_tokens
unfolding update_password
update_password-keeps k new env w = ground arith

increment-keeps :
    (k : Uuid) (env : Env DbError) (w : World SessionDb)
    → (increment_token_version k env w).1.db.refresh_tokens ≡ w.db.refresh_tokens
unfolding increment_token_version
increment-keeps k env w = ground arith

upgrade-keeps :
    (k : Uuid) (env : Env DbError) (w : World SessionDb)
    → (upgrade_token_version k env w).1.db.refresh_tokens ≡ w.db.refresh_tokens
unfolding upgrade_token_version
upgrade-keeps k env w = ground arith

both-db :
    (ports : Ports) {A B : Type 0} (r : Result Error A) (s : Result Error B) (env : Env DbError)
    (w w' : World SessionDb)
    → both ports r s env w ≡ (ok tt, w')
    → w ≡ w'
unfolding both
both-db ports (err e) s env w w' h = absurd (ground arith)
both-db ports (ok a) (err e) env w w' h = absurd (ground arith)
both-db ports (ok a) (ok b) env w w' h = ground arith

-- A change of the user's password, or a log-out of the user on all devices, that returned.
abbrev pub EndsSessions : Ports → Env DbError → Uuid → World SessionDb → World SessionDb → Type 0
EndsSessions ports env user w w' =
    ((req : ChangePasswordRequest) × (change_password ports user req env w ≡ (ok tt, w')))
    ⊎ ((req : LogoutRequest) × (req.user_id ≡ user)
        × (req.all_devices ≡ true)
        × (logout ports req env w ≡ (ok tt, w')))

module _ (ports : Ports) (env : Env DbError) (user : Uuid) (h : String) where
  change_password-Spent :
      (req : ChangePasswordRequest) (w w' : World SessionDb)
      → IsTokenOf user h w.db
      → change_password ports user req env w ≡ (ok tt, w')
      → Spent h w'.db
  unfolding change_password
  change_password-Spent req w w' own run =
      let (found, w₁, checked, run₁) =
        bind-ok (check_old_password ports user req)
          (λ found. external (ports.hash req.new_password) >>= λ new_hash.
            update_password user new_hash >> revoke_all_for_user user)
          env w run in
      let (new_hash, w₂, hashed, run₂) =
        bind-ok (external (ports.hash req.new_password))
          (λ new_hash. update_password user new_hash >> revoke_all_for_user user) env w₁ run₁ in
      let (u, w₃, updated, run₃) =
        bind-ok (update_password user new_hash) (λ u. revoke_all_for_user user) env w₂ run₂ in
      let s₁ : w₁.db ≡ w.db =
        ap (λ r. World.db r.1) (sym checked)
        ∙ (check_old_password-Reads ports user req).keeps env w in
      let s₂ : w₂.db ≡ w₁.db = ground arith in
      let s₃ : w₃.db.refresh_tokens ≡ w₂.db.refresh_tokens =
        ap (λ r. SessionDb.refresh_tokens (World.db r.1)) (sym updated)
        ∙ update_password-keeps user new_hash env w₂ in
      revoke_all-Spent user h env w₃ w'
        (kept-IsTokenOf user h w.db w₃.db (s₃ ∙ ap SessionDb.refresh_tokens (s₂ ∙ s₁)) own) run₃

  pub logout_all-Spent :
      (w w' : World SessionDb)
      → IsTokenOf user h w.db
      → logout_all ports user env w ≡ (ok tt, w')
      → Spent h w'.db
  unfolding logout_all
  logout_all-Spent w w' own run =
      let up = increment_token_version user env w in
      let cached = upgrade_token_version user env up.1 in
      let (u, w₂, agreed, run₂) =
        bind-ok (both ports up.0 cached.0) (λ u. revoke_all_for_user user) env cached.1 run in
      let same : cached.1 ≡ w₂ = both-db ports up.0 cached.0 env cached.1 w₂ agreed in
      let kept : w₂.db.refresh_tokens ≡ w.db.refresh_tokens =
        ap (λ (w : World SessionDb). w.db.refresh_tokens) (sym same)
        ∙ upgrade-keeps user env up.1
        ∙ increment-keeps user env w in
      revoke_all-Spent user h env w₂ w' (kept-IsTokenOf user h w.db w₂.db kept own) run₂

  logout-Spent :
      (req : LogoutRequest) (w w' : World SessionDb)
      → req.user_id ≡ user
      → req.all_devices ≡ true
      → IsTokenOf user h w.db
      → logout ports req env w ≡ (ok tt, w')
      → Spent h w'.db
  unfolding logout
  logout-Spent req w w' who all own run =
      let run₁ : logout_all ports req.user_id env w ≡ (ok tt, w') = rw all at run in
      logout_all-Spent w w' own
        (subst (λ (k : Uuid). logout_all ports k env w ≡ (ok tt, w')) who run₁)

  EndsSessions-Spent :
      (w w' : World SessionDb)
      → IsTokenOf user h w.db
      → EndsSessions ports env user w w'
      → Spent h w'.db
  EndsSessions-Spent w w' own (inl (req, run)) = change_password-Spent req w w' own run
  EndsSessions-Spent w w' own (inr (req, who, all, run)) = logout-Spent req w w' who all own run

-- When ChangePassword of a user returned, or Logout of the user on all devices, then for each refresh
-- token whose row was the user's, after any requests that follow, RefreshToken raises and leaves the
-- tables as they are.
pub ended_refused :
    (ports : Ports) (env : Env DbError) (user : Uuid) (token : String)
    (requests : List SessionRequest) (w w' : World SessionDb)
    → IsTokenOf user (ports.hash_token token) w.db
    → EndsSessions ports env user w w'
    → (e : Error) × (w'' : World SessionDb) × (refresh_token ports token env
          (serve_sessions ports requests env w')
        ≡ (err e, w''))
      × (w''.db ≡ (serve_sessions ports requests env w').db)
ended_refused ports env user token requests w w' own ends =
    Spent-refused ports env token (serve_sessions ports requests env w') (
      serve_sessions-Spent (ports.hash_token token) ports env requests w'
        (EndsSessions-Spent ports env user (ports.hash_token token) w w' own ends))
