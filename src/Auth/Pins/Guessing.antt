-- ===== src/Auth/Pins/Guessing.antt =====
-- Guesses at a PIN: how many of them are compared with the hash (userpin_usecase.go, VerifyPIN).
use moneymate_backend.Shared.{
  ap, sym, subst, ◌∙◌, ℕ, suc, ◌+◌, ◌≤◌, ◌<◌, String, Bool, true, false, ◌≡◌, ◌⊎◌, inl, inr, refl,
  arith, none, some, List, [], ◌∷◌, All, Bool-cases, find_by, update_by, find_by-update_self, leb,
  if◌then◌else◌,
}
use moneymate_backend.Shared.Action.{Env, World, Result, ok, err, Result-cases}
use moneymate_backend.Errors.{DbError, Error}
use moneymate_backend.Auth.Pins.{
  Uuid, Time, UserPin, AuthDb, with_pins, increment_failed_attempts, lock_pin, failed_once, locked,
  max_pin_attempts, pin_lock_duration, get_unlocked, count_failure, wrong_pin, decide, verify_pin,
}
use moneymate_backend.Auth.Pins.Verifying.{
  get_unlocked-Reads, get_unlocked-IsOpen, pair, open_lem, verify_pin_locked,
}

-- Whether a call goes as far as the hasher.
abbrev pub is_compared : Result Error UserPin → Bool
is_compared (ok p) = true
is_compared (err e) = false

module _ (verify : String → String → Result Error Bool) (user : Uuid) where
  -- How many of the guesses, one VerifyPIN after another, are compared with the hash.
  abbrev pub count_tries : List String → Env DbError → World AuthDb → ℕ
  count_tries [] env w = 0
  count_tries (g ∷ gs) env w =
      let rest = count_tries gs env (verify_pin verify user g env w).1 in
      (if is_compared (get_unlocked user env w).0 then 1 else 0) + rest

  module _ (env : Env DbError) (start : Time) (late : (n : ℕ) → start ≤ env.now n)
      (early : (n : ℕ) → env.now n < start + pin_lock_duration) where
    abbrev IsShut : AuthDb → Type 0
    IsShut d =
        (p : UserPin) × (until : Time) × (find_by UserPin.user_id user d.pins ≡ some p)
        × (p.locked_until ≡ some until)
        × (start + pin_lock_duration ≤ until)

    not_compared :
        (d : AuthDb) (w : World AuthDb)
        → w.db ≡ d
        → IsShut d
        → is_compared (get_unlocked user env w).0 ≡ false
    not_compared d w same (p, until, f, l, long) = elim (Result-cases (get_unlocked user env w).0) [
      | inr (e, raised) ↦ rw raised refl
      | inl (q, e) ↦ absurd (
          open_lem p until (ap (λ x. find_by UserPin.user_id user (AuthDb.pins x)) same ∙ f) l
            (λ n. omega (arith, early n, long)) q (get_unlocked-IsOpen user env w (pair e)))
    ]

    shut_lem :
        (gs : List String) (d : AuthDb) (w : World AuthDb)
        → w.db ≡ d
        → IsShut d
        → count_tries gs env w ≡ 0
    shut_lem [] d w same shut = refl
    shut_lem (g ∷ gs) d w same (p, until, f, l, long) =
        let (e, raised, kept) =
          verify_pin_locked verify user g env w p until
            (ap (λ x. find_by UserPin.user_id user (AuthDb.pins x)) same ∙ f) l
            (λ n. omega (arith, early n, long)) in
        let rest =
          shut_lem gs d (verify_pin verify user g env w).1 (kept ∙ same) (p, until, f, l, long) in
        rw (not_compared d w same (p, until, f, l, long)) (omega (arith, rest))

    -- The row after one more failure.
    abbrev counted : Time → AuthDb → AuthDb
    counted now d = with_pins (update_by UserPin.user_id user (failed_once now) d.pins) d

    abbrev shut : Time → Time → AuthDb → AuthDb
    shut until now d = with_pins (update_by UserPin.user_id user (locked until now) d.pins) d

    abbrev Fails : UserPin → AuthDb → Type 0
    Fails p d' =
        (q : UserPin) × (find_by UserPin.user_id user d'.pins ≡ some q)
        × (q.pin_hash ≡ p.pin_hash)
        × (((p.failed_attempts ≤ 3) × (q.failed_attempts ≡ p.failed_attempts + 1))
            ⊎ ((until : Time) × (q.locked_until ≡ some until)
                × (start + pin_lock_duration ≤ until)))

    module _ (quiet : (n : ℕ) → env.fault n ≡ none) where
      wrong_pin-Fails :
          (p : UserPin) (w : World AuthDb)
          → find_by UserPin.user_id user w.db.pins ≡ some p
          → p.failed_attempts ≤ 4
          → Fails p (wrong_pin user env w).1.db
      unfolding wrong_pin increment_failed_attempts count_failure lock_pin
      wrong_pin-Fails p w f few = elim (Bool-cases (leb max_pin_attempts (p.failed_attempts + 1))) [
        | inr n ↦
            let stored : (wrong_pin user env w).1.db ≡ counted (env.now w.calls) w.db =
              ground (arith, quiet w.calls) in
            (
              failed_once (env.now w.calls) p,
              ap (λ d. find_by UserPin.user_id user (AuthDb.pins d)) stored
                  ∙ find_by-update_self UserPin.user_id (failed_once (env.now w.calls)) (λ _. refl)
                      user w.db.pins p f,
              refl,
              inl (ground arith, refl),
            )
        | inl y ↦
            let until = env.now (suc w.calls) + pin_lock_duration in
            let after = env.now (suc (suc w.calls)) in
            let stored : (wrong_pin user env w).1.db
                ≡ shut until after (counted (env.now w.calls) w.db) =
              ground (arith, quiet w.calls, quiet (suc (suc w.calls))) in
            (
              locked until after (failed_once (env.now w.calls) p),
              ap (λ d. find_by UserPin.user_id user (AuthDb.pins d)) stored
                  ∙ find_by-update_self UserPin.user_id (locked until after) (λ _. refl) user _ _
                      (find_by-update_self UserPin.user_id (failed_once (env.now w.calls))
                        (λ _. refl) user w.db.pins p f),
              refl,
              inr (until, refl, omega (arith, late (suc w.calls))),
            )
      ]

      runs_wrong :
          (g : String) (p q : UserPin) (w : World AuthDb)
          → (get_unlocked user env w).0 ≡ ok q
          → q ≡ p
          → verify p.pin_hash g ≡ ok false
          → (verify_pin verify user g env w).1 ≡ (wrong_pin user env (get_unlocked user env w).1).1
      unfolding verify_pin decide
      runs_wrong g p q w got same wrong =
          let wrong' : verify q.pin_hash g ≡ ok false =
            ap (λ r. verify (UserPin.pin_hash r) g) same ∙ wrong in
          rw (got, wrong') refl

      runs_raised :
          (g : String) (e : Error) (w : World AuthDb)
          → (get_unlocked user env w).0 ≡ err e
          → (verify_pin verify user g env w).1 ≡ (get_unlocked user env w).1
      unfolding verify_pin
      runs_raised g e w raised = rw raised refl

      -- The row, its failures so far, and that every guess is wrong for its hash.
      budget_lem :
          (gs : List String) (p : UserPin) (w : World AuthDb)
          → find_by UserPin.user_id user w.db.pins ≡ some p
          → p.failed_attempts ≤ 4
          → All (λ g. verify p.pin_hash g ≡ ok false) gs
          → count_tries gs env w + p.failed_attempts ≤ 5
      budget_lem [] p w f few wrong = omega arith
      budget_lem (g ∷ gs) p w f few wrong = elim (Result-cases (get_unlocked user env w).0) [
        | inr (e, raised) ↦
            let kept = (get_unlocked-Reads user).keeps env w in
            let rest =
              budget_lem gs p (get_unlocked user env w).1
                (ap (λ d. find_by UserPin.user_id user (AuthDb.pins d)) kept ∙ f) few wrong.1 in
            rw (raised, runs_raised g e w raised) (omega (arith, rest))
        | inl (q, got) ↦
            let kept = (get_unlocked-Reads user).keeps env w in
            let w₁ = (get_unlocked user env w).1 in
            let f₁ = ap (λ d. find_by UserPin.user_id user (AuthDb.pins d)) kept ∙ f in
            let same : q ≡ p =
              ground (arith, f, (get_unlocked-IsOpen user env w (pair got)).row_found) in
            let after : (verify_pin verify user g env w).1 ≡ (wrong_pin user env w₁).1 =
              runs_wrong g p q w got same wrong.0 in
            let w₂ = (wrong_pin user env w₁).1 in
            let (r, f₂, hash_same, counted_or_shut) = wrong_pin-Fails p w₁ f₁ few in
            rw (got, after)
              (elim counted_or_shut [
                | inl (below, counts) ↦
                    let rest =
                      budget_lem gs r w₂ f₂ (omega (arith, below, counts)) (
                        subst (λ h. All (λ g. verify h g ≡ ok false) gs) (sym hash_same) wrong.1) in
                    omega (arith, rest, counts)
                | inr (until, l, long) ↦
                    let rest = shut_lem gs w₂.db w₂ refl (r, until, f₂, l, long) in
                    omega (arith, rest, few)
              ])
      ]

  -- If every statement goes well and the clock stays within fifteen minutes of `start`, then of a
  -- series of wrong guesses at a PIN with at most four failed attempts, however long, no more than
  -- the attempts that were left of five are compared with the hash.
  pub count_tries-wrong :
      (gs : List String) (env : Env DbError) (w : World AuthDb) (start : Time) (p : UserPin)
      → ((n : ℕ) → env.fault n ≡ none)
      → ((n : ℕ) → start ≤ env.now n)
      → ((n : ℕ) → env.now n < start + pin_lock_duration)
      → find_by UserPin.user_id user w.db.pins ≡ some p
      → p.failed_attempts ≤ 4
      → All (λ g. verify p.pin_hash g ≡ ok false) gs
      → count_tries gs env w + p.failed_attempts ≤ 5
  count_tries-wrong gs env w start p quiet late early f few wrong =
      budget_lem env start late early quiet gs p w f few wrong
