-- ===== src/Auth/Codes/Verifying.antt =====
-- All verifications of one address, after its code was sent (otp.go).
use moneymate_backend.Shared.{
  ℕ, suc, ◌≤◌, ◌<◌, String, ◌≡◌, ◌⊎◌, inl, inr, refl, sym, ap, subst, ◌∙◌, arith, Bool, false,
  Bool-cases, none, str_eq, ltb, if◌then◌else◌,
}
use moneymate_backend.Shared.Action.{
  Env, World, Result, err, outcome, raise, handle, bind-runs, bind-stops,
}
use moneymate_backend.Errors.{DbError, Error, db_error, otp_timeout}
use moneymate_backend.Auth.Pins.{Time}
use moneymate_backend.Auth.Redis.{Redis, redis_del}
use moneymate_backend.Auth.Sessions.Store.{SessionDb, SessionCall}
use moneymate_backend.Auth.Codes.{
  Mail, CodeKeys, delete_otp, increment_attempts, compare_code, within_limit, check_code,
}
use moneymate_backend.Auth.Codes.Guessing.{
  left, IsSteady, told, command-cases, put_entry-same, IsCounter, Guarded, IsOver, ticked-Guarded,
}
use moneymate_backend.Auth.Codes.Attempts.{increment_attempts-Ends}
use moneymate_backend.Auth.Codes.Limit.{Bounded, compare_code-Bounded, increment_attempts-IsUntold}

module _ (mail : Mail) (keys : CodeKeys) (apart : str_eq keys.code_key keys.attempts_key ≡ false)
    (env : Env DbError) (steady : IsSteady env) (E ttl : Time) (max : ℕ) where
  abbrev pub Within : ℕ → Result Error Unit × World SessionDb → Type 0
  Within = Bounded mail keys apart env steady E ttl max

  pub emptied-Guarded :
      (n : ℕ) (w : World SessionDb)
      → w.db.redis keys.code_key ≡ none
      → Guarded keys apart env steady E ttl n w
  emptied-Guarded n w gone = record { code_ends = inl gone; attempts = inl (inl gone) }

  -- The code is deleted, if Redis does not fail.
  pub delete_otp-Guarded :
      (n : ℕ) (w : World SessionDb)
      → Guarded keys apart env steady E ttl n w
      → Guarded keys apart env steady E ttl n (delete_otp keys env w).1
        × (((e : DbError) × ((delete_otp keys env w).0 ≡ err (db_error e)))
            ⊎ ((delete_otp keys env w).1.db.redis keys.code_key ≡ none))
  unfolding delete_otp
  delete_otp-Guarded n w g =
      let Deleted : Result Error Unit × World SessionDb → Type 0 = λ r.
        Guarded keys apart env steady E ttl n r.1
        × (((e : DbError) × (r.0 ≡ err (db_error e))) ⊎ (r.1.db.redis keys.code_key ≡ none)) in
      elim (command-cases (λ _. redis_del keys.code_key) env w) [
        | inl (x, stops) ↦
            subst Deleted (sym stops)
              (ticked-Guarded keys apart env steady E ttl n w g, inl (x, refl))
        | inr (u, redis, ran, runs) ↦
            let w₁ : World SessionDb = record {
              db = record w.db { redis = redis };
              calls = suc w.calls;
            } in
            let gone : redis keys.code_key ≡ none =
              ap (λ (r : Redis). r keys.code_key) (sym (ap (left w.db.redis) ran))
              ∙ put_entry-same keys.code_key none w.db.redis in
            subst Deleted (sym runs) (emptied-Guarded n w₁ gone, inr gone)
      ]

  within_limit-Within :
      (n a : ℕ) (w : World SessionDb) (code : String)
      → n ≤ max
      → Guarded keys apart env steady E ttl n w
      → IsOver keys apart env steady E ttl w
        ⊎ ((n < a) × IsCounter E a (w.db.redis keys.attempts_key))
      → Within n (within_limit mail keys max code a env w)
  unfolding within_limit
  within_limit-Within n a w code le g counted =
      let run : Bool → SessionCall Unit = λ b.
        if b
        then handle (delete_otp keys) (λ _. raise otp_timeout)
        else compare_code mail keys code in
      elim (Bool-cases (ltb max a)) [
        | inl over ↦
            subst (λ (b : Bool). Within n (run b env w)) (sym over)
              (le, (delete_otp-Guarded n w g).0)
        | inr within ↦
            subst (λ (b : Bool). Within n (run b env w)) (sym within)
              (compare_code-Bounded mail keys apart env steady E ttl max n w code le g
                (elim counted [
                  | inl over ↦ inl over
                  | inr (less, c) ↦ inr (a, less, ground arith, c)
                ]))
      ]

  pub check_code-Within :
      (n : ℕ) (w : World SessionDb) (code : String)
      → n ≤ max
      → Guarded keys apart env steady E ttl n w
      → Within n (check_code mail keys max ttl code env w)
  unfolding check_code
  check_code-Within n w code le g =
      let m : SessionCall ℕ = increment_attempts keys ttl in
      let rest : ℕ → SessionCall Unit = within_limit mail keys max code in
      let (g₁, counted) = increment_attempts-Ends keys apart env steady E ttl n w g in
      let w₁ = (increment_attempts keys ttl env w).1 in
      elim (outcome (increment_attempts keys ttl env w)) [
        | inl (a, run) ↦ subst (Within n) (sym (bind-runs m rest env w a w₁ run)) (
            within_limit-Within n a w₁ code le g₁ (elim counted.over_or_counted [
              | inl over ↦ inl over
              | inr f ↦ inr (f a (ap (λ x. x.0) run))
            ]))
        | inr (e, run) ↦
            let same : told {A = Unit {0}} (err e) n ≡ n =
              (increment_attempts-IsUntold keys ttl).untold env w e n (ap (λ x. x.0) run) in
            subst (Within n) (sym (bind-stops m rest env w e w₁ run)) (
              subst (λ (k : ℕ). (k ≤ max) × Guarded keys apart env steady E ttl k w₁) (sym same)
                (le, g₁))
      ]
