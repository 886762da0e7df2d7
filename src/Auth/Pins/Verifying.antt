-- ===== src/Auth/Pins/Verifying.antt =====
-- The outcomes of VerifyPIN and UpdatePIN (userpin_usecase.go).
use moneymate_backend.Shared.{
  ap, sym, ◌∙◌, ℕ, suc, ◌≤◌, ◌<◌, String, Bool, true, false, ◌≡◌, ◌≢◌, ◌⊎◌, inl, inr, refl, arith,
  Option, none, some, Option-cases, Bool-cases, find_by, update_by, find_by-update_self, ltb,
}
use moneymate_backend.Shared.Action.{
  Env, World, Result, ok, err, Result-cases, bind-ok, Reads, bind-Reads, pure-Reads, raise_if-Reads,
}
use moneymate_backend.Errors.{DbError, Error, forbidden}
use moneymate_backend.Auth.Pins.{
  Uuid, Time, UserPin, AuthDb, lock_pin, increment_failed_attempts, with_pins, get_pin_by_user_id,
  reset_failed_attempts, unlocked, mapped, is_locked, get_unlocked, count_failure, wrong_pin,
  right_pin, decide, verify_pin,
}

get_pin-Reads : (user : Uuid) → Reads (mapped (get_pin_by_user_id user))
unfolding get_pin_by_user_id
get_pin-Reads user = record { keeps = λ env w. ground arith }

is_locked-Reads : (until : Option Time) → Reads (is_locked until)
is_locked-Reads none = pure-Reads false
is_locked-Reads (some until) = record { keeps = λ env w. refl }

pub get_unlocked-Reads : (user : Uuid) → Reads (get_unlocked user)
unfolding get_unlocked
get_unlocked-Reads user = bind-Reads (get_pin-Reads user) λ pin.
    bind-Reads (is_locked-Reads (UserPin.locked_until pin))
      λ is_now. bind-Reads (raise_if-Reads is_now forbidden) λ _. pure-Reads pin

-- The row was there, and its lock, if it had one, was over at a reading of the clock.
pub record IsOpen (user : Uuid) (env : Env DbError) (d : AuthDb) (p : UserPin) : Type 0 where
  pub row_found : find_by UserPin.user_id user d.pins ≡ some p
  pub is_over :
      (p.locked_until ≡ none)
      ⊎ ((until : Time) × (n : ℕ) × (p.locked_until ≡ some until) × (until ≤ env.now n))

module _ (user : Uuid) (env : Env DbError) (w : World AuthDb) where
  pub get_unlocked-IsOpen :
      {p : UserPin} {w' : World AuthDb}
      → get_unlocked user env w ≡ (ok p, w')
      → IsOpen user env w.db p
  unfolding get_unlocked get_pin_by_user_id
  get_unlocked-IsOpen {p} h = elim (Option-cases (find_by UserPin.user_id user w.db.pins)) [
    | inl m ↦ absurd (ground arith)
    | inr (q, f) ↦ elim (Option-cases q.locked_until) [
      | inl n ↦ record { row_found = ground arith; is_over = ground arith }
      | inr (until, l) ↦ record {
        row_found = ground arith;
        is_over = inr (until, suc w.calls, ground arith, ground arith);
      }
    ]
  ]

  count_failure-ne-ok : (n : ℕ) {w' : World AuthDb} → count_failure user n env w ≢ (ok tt, w')
  unfolding count_failure lock_pin
  count_failure-ne-ok n h = ground arith

wrong_pin-ne-ok :
    (user : Uuid) (env : Env DbError) (w : World AuthDb) {w' : World AuthDb}
    → wrong_pin user env w ≢ (ok tt, w')
unfolding wrong_pin
wrong_pin-ne-ok user env w h =
    let (n, w₁, counted, rest) =
      bind-ok (mapped (increment_failed_attempts user)) (count_failure user) env w h in
    count_failure-ne-ok user env w₁ n rest

-- The user's row after a PIN that was right.
abbrev Cleared : Uuid → UserPin → AuthDb → Type 0
Cleared user p d' =
    (q : UserPin) × (find_by UserPin.user_id user d'.pins ≡ some q)
    × (q.failed_attempts ≡ 0)
    × (q.pin_hash ≡ p.pin_hash)

module _ (user : Uuid) (env : Env DbError) (w : World AuthDb) (p : UserPin)
    (f : find_by UserPin.user_id user w.db.pins ≡ some p) where
  right_pin-Cleared :
      {w' : World AuthDb} → right_pin user p env w ≡ (ok tt, w') → Cleared user p w'.db
  unfolding right_pin reset_failed_attempts
  right_pin-Cleared {w'} h = elim (Bool-cases (ltb 0 p.failed_attempts)) [
    | inl y ↦
        let stored : w'.db
            ≡ with_pins (update_by UserPin.user_id user (unlocked (env.now w.calls)) w.db.pins)
                w.db =
          ground arith in
        (
          unlocked (env.now w.calls) p,
          ap (λ d. find_by UserPin.user_id user (AuthDb.pins d)) stored
              ∙ find_by-update_self UserPin.user_id (unlocked (env.now w.calls)) (λ _. refl) user
                  w.db.pins p f,
          refl,
          refl,
        )
    | inr n ↦ (p, ground (arith, f), ground arith, refl)
  ]

  decide-ok :
      (x : Result Error Bool) {w' : World AuthDb}
      → decide user p x env w ≡ (ok tt, w')
      → (x ≡ ok true) × Cleared user p w'.db
  unfolding decide
  decide-ok (ok true) h = (refl, right_pin-Cleared h)
  decide-ok (ok false) h = absurd (wrong_pin-ne-ok user env w h)
  decide-ok (err e) h = absurd (ground arith)

pub pair : {q : UserPin} {x : Result Error UserPin × World AuthDb} → x.0 ≡ ok q → x ≡ (ok q, x.1)
pair e = ground arith

pub open_lem :
    {user : Uuid} {env : Env DbError} {d : AuthDb} (p : UserPin) (until : Time)
    → find_by UserPin.user_id user d.pins ≡ some p
    → p.locked_until ≡ some until
    → ((n : ℕ) → env.now n < until)
    → (q : UserPin) → IsOpen user env d q
    → ⊥
open_lem p until f l early q o = elim o.is_over [
  | inl n ↦ ground (arith, f, o.row_found)
  | inr (u, n, m, le) ↦ ground (arith, f, o.row_found, early n)
]

module _ (verify : String → String → Result Error Bool) (user : Uuid) (text : String)
    (env : Env DbError) (w : World AuthDb) where
  -- VerifyPIN returns only for a user whose PIN is set and whose lock, if any, was over at a reading
  -- of the clock, and only if the hasher accepts the PIN; the failed attempts are then 0 and the
  -- hash is as before.
  pub verify_pin-IsOpen :
      (w' : World AuthDb)
      → verify_pin verify user text env w ≡ (ok tt, w')
      → (p : UserPin) × IsOpen user env w.db p
        × (verify p.pin_hash text ≡ ok true)
        × ((q : UserPin) × (find_by UserPin.user_id user w'.db.pins ≡ some q)
            × (q.failed_attempts ≡ 0)
            × (q.pin_hash ≡ p.pin_hash))
  unfolding verify_pin
  verify_pin-IsOpen w' h =
      let (p, w₁, got, rest) =
        bind-ok (get_unlocked user) (λ p. decide user p (verify (UserPin.pin_hash p) text)) env w
          h in
      let open_row = get_unlocked-IsOpen user env w got in
      let same = ap (λ x. World.db x.1) (sym got) ∙ (get_unlocked-Reads user).keeps env w in
      let (matched, cleared) =
        decide-ok user env w₁ p
          (ap (λ d. find_by UserPin.user_id user (AuthDb.pins d)) same ∙ open_row.row_found)
          (verify p.pin_hash text) rest in
      (p, open_row, matched, cleared)

  -- While the lock of a user's PIN lasts, VerifyPIN raises for every PIN, the right one too, and
  -- changes nothing.
  pub verify_pin_locked :
      (p : UserPin) (until : Time)
      → find_by UserPin.user_id user w.db.pins ≡ some p
      → p.locked_until ≡ some until
      → ((n : ℕ) → env.now n < until)
      → (e : Error) × ((verify_pin verify user text env w).0 ≡ err e)
        × ((verify_pin verify user text env w).1.db ≡ w.db)
  unfolding verify_pin
  verify_pin_locked p until f l early = elim (Result-cases (get_unlocked user env w).0) [
    | inl (q, e) ↦ absurd (open_lem p until f l early q (get_unlocked-IsOpen user env w (pair e)))
    | inr (e, raised) ↦ (e, rw raised refl, rw raised ((get_unlocked-Reads user).keeps env w))
  ]
