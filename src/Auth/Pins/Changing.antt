-- ===== src/Auth/Pins/Changing.antt =====
-- The outcomes of UpdatePIN (userpin_usecase.go).
use Prim.Native.String.{len}
use moneymate_backend.Shared.{
  ap, sym, ◌∙◌, ℕ, suc, ◌≤◌, String, Bool, true, false, not, ◌≡◌, inl, inr, refl, arith, none, some,
  Bool-cases, find_by, update_by, find_by-update_self, ◌==◌,
}
use moneymate_backend.Shared.Action.{
  Env, World, Result, ok, err, Result-cases, bind-ok, guard-ok, external, ◌>>=◌,
}
use moneymate_backend.Errors.{DbError, Error, invalid_input}
use moneymate_backend.Auth.Pins.{
  Uuid, Time, UserPin, AuthDb, Call, with_pins, rehashed, get_unlocked, settle_match, update_pin,
  update_pin_hash, verify_pin, decide, right_pin, reset_failed_attempts, mapped, get_pin_by_user_id,
}
use moneymate_backend.Auth.Pins.Verifying.{get_unlocked-Reads, IsOpen, get_unlocked-IsOpen, pair}

settle_match-ok :
    (x : Result Error Bool) (env : Env DbError) (w w' : World AuthDb)
    → settle_match x env w ≡ (ok tt, w')
    → (x ≡ ok true) × (w' ≡ w)
settle_match-ok (err e) env w w' h = absurd (ground arith)
settle_match-ok (ok true) env w w' h = (refl, ground arith)
settle_match-ok (ok false) env w w' h = absurd (ground arith)

-- The user's row with a hash of the new PIN, no failed attempts and no lock.
abbrev pub IsRehashed : (String → ℕ → Result Error String) → Uuid → String → AuthDb → Type 0
IsRehashed hash user new d' =
    (q : UserPin) × (n : ℕ) × (find_by UserPin.user_id user d'.pins ≡ some q)
    × (hash new n ≡ ok q.pin_hash)
    × (q.failed_attempts ≡ 0)
    × (q.locked_until ≡ none)

module _ (verify : String → String → Result Error Bool) (hash : String → ℕ → Result Error String)
    (user : Uuid) (old new : String) (env : Env DbError) (w : World AuthDb) where
  abbrev store_hash : Call Unit
  store_hash = external (hash new) >>= λ pin_hash. mapped (update_pin_hash user pin_hash)

  abbrev replace : UserPin → Call Unit
  replace p = settle_match (verify p.pin_hash old) >>= λ _. store_hash

  store_hash-IsRehashed :
      (w₁ w' : World AuthDb) (p : UserPin)
      → find_by UserPin.user_id user w₁.db.pins ≡ some p
      → store_hash env w₁ ≡ (ok tt, w')
      → IsRehashed hash user new w'.db
  unfolding update_pin_hash
  store_hash-IsRehashed w₁ w' p f h =
      let (text, w₂, drawn, rest) =
        bind-ok (external (hash new)) (λ pin_hash. mapped (update_pin_hash user pin_hash)) env w₁
          h in
      let stored : w'.db
          ≡ with_pins (update_by UserPin.user_id user (rehashed text (env.now w₂.calls)) w₁.db.pins)
              w₁.db =
        ground (arith, drawn) in
      (
        rehashed text (env.now w₂.calls) p,
        w₁.calls,
        ap (λ d. find_by UserPin.user_id user (AuthDb.pins d)) stored
            ∙ find_by-update_self UserPin.user_id (rehashed text (env.now w₂.calls)) (λ _. refl)
                user w₁.db.pins p f,
        ground (arith, drawn),
        refl,
        refl,
      )

  -- UpdatePIN returns only if the new PIN has six bytes, the user's PIN is set and not locked, and
  -- the hasher accepts the old one; the row then has a hash of the new PIN, no failed attempts and
  -- no lock.
  pub update_pin-IsRehashed :
      (w' : World AuthDb)
      → update_pin verify hash user old new env w ≡ (ok tt, w')
      → (len new ≡ 6)
        × ((p : UserPin) × IsOpen user env w.db p × (verify p.pin_hash old ≡ ok true))
        × IsRehashed hash user new w'.db
  unfolding update_pin
  update_pin-IsRehashed w' h =
      let (six, rest) =
        guard-ok (not (len new == 6)) invalid_input (get_unlocked user >>= replace) env w h in
      let (p, w₁, got, rest₁) = bind-ok (get_unlocked user) replace env w rest in
      let (u, w₂, settled, rest₂) =
        bind-ok (settle_match (verify p.pin_hash old)) (λ _. store_hash) env w₁ rest₁ in
      let (matched, still) = settle_match-ok (verify p.pin_hash old) env w₁ w₂ settled in
      let open_row = get_unlocked-IsOpen user env w got in
      let same : w₂.db ≡ w.db =
        ap World.db still
        ∙ ap (λ x. World.db x.1) (sym got)
        ∙ (get_unlocked-Reads user).keeps env w in
      (
        ground arith,
        (p, open_row, matched),
        store_hash-IsRehashed w₂ w' p
            (ap (λ d. find_by UserPin.user_id user (AuthDb.pins d)) same ∙ open_row.row_found)
            rest₂,
      )

  -- A wrong old PIN leaves the store as it was: UpdatePIN raises and no failed attempt is counted.
  pub update_pin_uncounted :
      (p : UserPin)
      → find_by UserPin.user_id user w.db.pins ≡ some p
      → verify p.pin_hash old ≡ ok false
      → (e : Error) × ((update_pin verify hash user old new env w).0 ≡ err e)
        × ((update_pin verify hash user old new env w).1.db ≡ w.db)
  unfolding update_pin
  update_pin_uncounted p f wrong = elim (Bool-cases (len new == 6)) [
    | inr n ↦ (invalid_input, rw n refl, rw n refl)
    | inl y ↦ elim (Result-cases (get_unlocked user env w).0) [
      | inr (e, raised) ↦
          (e, rw (y, raised) refl, rw (y, raised) ((get_unlocked-Reads user).keeps env w))
      | inl (q, got) ↦
          let same : q ≡ p =
            ground (arith, f, (get_unlocked-IsOpen user env w (pair got)).row_found) in
          let wrong' : verify q.pin_hash old ≡ ok false =
            ap (λ r. verify (UserPin.pin_hash r) old) same ∙ wrong in
          (
            invalid_input,
            rw (y, got, wrong') refl,
            rw (y, got, wrong') ((get_unlocked-Reads user).keeps env w),
          )
    ]
  ]

module _ (verify : String → String → Result Error Bool) (user : Uuid) (text : String)
    (env : Env DbError) (w : World AuthDb) where
  -- VerifyPIN returns for the right PIN of a user without a lock, or whose lock is over at every
  -- reading of the clock, if every statement goes well.
  pub verify_pin_succeeds :
      (p : UserPin)
      → ((n : ℕ) → env.fault n ≡ none)
      → IsOpen user env w.db p
      → ((until : Time) (n : ℕ) → p.locked_until ≡ some until → until ≤ env.now n)
      → verify p.pin_hash text ≡ ok true
      → (verify_pin verify user text env w).0 ≡ ok tt
  unfolding verify_pin get_unlocked get_pin_by_user_id decide right_pin reset_failed_attempts
  verify_pin_succeeds p quiet o over match = elim o.is_over [
    | inl n ↦ ground (arith, quiet w.calls, quiet (suc w.calls), o.row_found, n, match)
    | inr (u, n, l, le) ↦ ground (
      arith,
      quiet w.calls,
      quiet (suc (suc w.calls)),
      o.row_found,
      l,
      over u (suc w.calls) l,
      match,
    )
  ]
