-- ===== src/Auth/Sessions/Admitting.antt =====
-- Whom the operations on sessions let in (Login and ChangePassword in auth_usecase.go), and the tokens
-- that a change of the password ends.
use Prim.Native.String.{len}
use moneymate_backend.Shared.{
  String, ◌≡◌, refl, sym, ap, subst, ◌∙◌, arith, inl, inr, Bool, true, false, Option, none, some,
  Option-cases, find?, find_by, not, ◌||◌, str_eq, ◌==◌,
}
use moneymate_backend.Shared.Text.{is_empty}
use moneymate_backend.Shared.Action.{
  Env, World, Result, ok, err, bind-ok, guard-ok, map_err, or_raise, raise_if, pure, ◌>>=◌, ◌>>◌,
}
use moneymate_backend.Errors.{DbError, Error, invalid_input, forbidden, invalid_password}
use moneymate_backend.Auth.Pins.{Uuid, AuthDb, verify_pin, UserPin}
use moneymate_backend.Auth.Sessions.Store.{
  User, SessionDb, SessionCall, get_user_by_id, get_user_by_email, is_active_status,
}
use moneymate_backend.Auth.Sessions.Issuing.{Ports, TokenPair, issue_and_persist_tokens}
use moneymate_backend.Auth.Sessions.Calls.{
  LoginRequest, login, check_password, on_pins, from_result, normalize_email, login_error,
}
use moneymate_backend.Auth.Pins.Verifying.{IsOpen, verify_pin-IsOpen}
use moneymate_backend.Auth.Sessions.Reading.{check_password-Reads}

or_raise-ok :
    {A : Type 0} (o : Option A) (e : Error) (env : Env DbError) (w : World SessionDb) {a : A}
    {w' : World SessionDb}
    → or_raise o e env w ≡ (ok a, w')
    → (o ≡ some a) × (w ≡ w')
or_raise-ok none e env w h = absurd (ground arith)
or_raise-ok (some x) e env w h = (ground arith, ground arith)

get_user_by_email-ok :
    (ports : Ports) (email : String) (env : Env DbError) (w w' : World SessionDb) (user : User)
    → map_err login_error (get_user_by_email email) env w ≡ (ok user, w')
    → (find? (λ u. str_eq (User.email u) email) w.db.users ≡ some user)
unfolding get_user_by_email
get_user_by_email-ok ports email env w w' user h =
    elim (Option-cases (find? (λ u. str_eq (User.email u) email) w.db.users)) [
      | inl m ↦ absurd (ground arith)
      | inr (x, f) ↦ ground arith
    ]

get_user_by_id-ok :
    (k : Uuid) (env : Env DbError) (w w' : World SessionDb) (user : User)
    → get_user_by_id k env w ≡ (ok user, w')
    → (find_by User.id k w.db.users ≡ some user)
unfolding get_user_by_id
get_user_by_id-ok k env w w' user h = elim (Option-cases (find_by User.id k w.db.users)) [
  | inl m ↦ absurd (ground arith)
  | inr (x, f) ↦ ground arith
]

-- The user's row, and the password that the hasher accepted for it.
pub record KnowsPassword (ports : Ports) (password : String) (user : User) : Type 0 where
  pub password_hash : String
  pub is_set : user.password_hash ≡ some password_hash
  pub matches : ports.verify password_hash password ≡ ok true

matched :
    (r : Result Error Bool) (e : Error) (k : SessionCall User) (env : Env DbError)
    (w : World SessionDb) {b : User} {w' : World SessionDb}
    → (from_result r >>= λ matches. raise_if (not matches) e >> k) env w ≡ (ok b, w')
    → (r ≡ ok true) × (k env w ≡ (ok b, w'))
matched (ok true) e k env w h = (refl, h)
matched (ok false) e k env w h = absurd (ground arith)
matched (err x) e k env w h = absurd (ground arith)

module _ (ports : Ports) (env : Env DbError) (w : World SessionDb) where
  check_password-KnowsPassword :
      (req : LoginRequest) (user : User) (w' : World SessionDb)
      → check_password ports req env w ≡ (ok user, w')
      → (find? (λ u. str_eq (User.email u) (normalize_email ports req.identifier)) w.db.users
          ≡ some user)
        × KnowsPassword ports req.password user
        × (is_active_status user.status ≡ true)
  unfolding check_password
  check_password-KnowsPassword req user w' h =
      let email = normalize_email ports req.identifier in
      let last : User → SessionCall User =
        λ user. raise_if (not (is_active_status user.status)) forbidden >> pure user in
      let compare : User → String → SessionCall User = λ user password_hash.
        from_result (ports.verify password_hash req.password) >>= λ matches.
        raise_if (not matches) invalid_password >> last user in
      let (given, h₁) =
        guard-ok (is_empty email || is_empty req.password || not (len req.pin == 6)) invalid_input
          (map_err login_error (get_user_by_email email) >>= λ user.
            or_raise (User.password_hash user) invalid_password >>= compare user)
          env w h in
      let (found, w₁, got, h₂) =
        bind-ok (map_err login_error (get_user_by_email email))
          (λ user. or_raise (User.password_hash user) invalid_password >>= compare user) env w h₁ in
      let (password_hash, w₂, set, h₃) =
        bind-ok (or_raise (User.password_hash found) invalid_password) (compare found) env w₁ h₂ in
      let (accepts, h₄) =
        matched (ports.verify password_hash req.password) invalid_password (last found) env w₂ h₃ in
      let (active, h₅) =
        guard-ok (not (is_active_status (User.status found))) forbidden (pure found) env w₂ h₄ in
      let same : found ≡ user = ground arith in
      let row_found = get_user_by_email-ok ports email env w w₁ found got in
      (
        row_found ∙ ap some same,
        subst (KnowsPassword ports req.password) same (record {
          password_hash = password_hash;
          is_set = (or_raise-ok (User.password_hash found) invalid_password env w₁ set).0;
          matches = accepts;
        }),
        subst (λ (u : User). is_active_status u.status ≡ true) same (ground arith),
      )

  -- Login returns only for an active user that the normalised email finds, whose password hash is set
  -- and accepted by the hasher for the password, and whose PIN is set, not locked at a reading of the
  -- clock and accepted by the hasher for the PIN.
  pub login_admits :
      (req : LoginRequest) (tokens : TokenPair) (w' : World SessionDb)
      → login ports req env w ≡ (ok tokens, w')
      → (user : User) × (find?
            (λ u. str_eq (User.email u) (normalize_email ports req.identifier))
            w.db.users
          ≡ some user)
        × KnowsPassword ports req.password user
        × (is_active_status user.status ≡ true)
        × ((p : UserPin) × IsOpen user.id env w.db.pin_db p
            × (ports.verify p.pin_hash req.pin ≡ ok true))
  unfolding login
  login_admits req tokens w' h =
      let (user, w₁, checked, h₁) =
        bind-ok (check_password ports req)
          (λ user.
            on_pins (verify_pin ports.verify (User.id user) req.pin)
            >> issue_and_persist_tokens ports user)
          env w h in
      let (u, w₂, pinned, h₂) =
        bind-ok (on_pins (verify_pin ports.verify (User.id user) req.pin))
          (λ u. issue_and_persist_tokens ports user) env w₁ h₁ in
      let (row_found, known, active) = check_password-KnowsPassword req user w₁ checked in
      let pins : World SessionDb → World AuthDb =
        λ w. record { db = w.db.pin_db; calls = w.calls } in
      let (p, is_open, accepts, rest) =
        verify_pin-IsOpen ports.verify user.id req.pin env (pins w₁)
          (verify_pin ports.verify (User.id user) req.pin env (pins w₁)).1 (ground arith) in
      let same : w₁.db ≡ w.db =
        ap (λ r. World.db r.1) (sym checked) ∙ (check_password-Reads ports req).keeps env w in
      (
        user,
        row_found,
        known,
        active,
        (p, subst (λ (d : SessionDb). IsOpen user.id env d.pin_db p) same is_open, accepts),
      )
