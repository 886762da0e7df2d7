-- ===== src/Auth/Codes/Answering.antt =====
-- How many guesses of one code are answered (VerifyRegistrationOTP in otp.go).
use Prim.Native.String.{len, ◌++◌}
use text.Mathlib.TextPositions.{len-append}
use moneymate_backend.Shared.{
  ℕ, suc, ◌+◌, ◌≤◌, ◌<◌, String, ◌≡◌, inl, inr, sym, ap, subst, ◌∙◌, arith, Bool, false, ◌||◌,
  Bool-cases, none, str_eq, eq_iff,
}
use moneymate_backend.Shared.Text.{is_empty, trim_space}
use moneymate_backend.Shared.Action.{
  Env, World, Result, err, outcome, ◌>>=◌, ◌>>◌, raise_if, bind-runs, bind-stops,
}
use moneymate_backend.Errors.{DbError, Error, db_error, invalid_input}
use moneymate_backend.Auth.Pins.{Time}
use moneymate_backend.Auth.Redis.{Redis, RedisAnswer, redis_del, redis_set}
use moneymate_backend.Auth.Sessions.Store.{SessionDb, SessionCall}
use moneymate_backend.Auth.Sessions.Issuing.{Ports}
use moneymate_backend.Auth.Codes.{
  OtpConfig, Mail, CodeKeys, command, delete_otp, reset_attempts, check_code, registration_keys,
  verify_registration_otp, mark_email_verified, email_verified_key,
}
use moneymate_backend.Auth.Codes.Guessing.{
  left, IsSteady, told, command-cases, put_entry-other, Guarded,
}
use moneymate_backend.Auth.Codes.Limit.{weaker-Guarded, told-le_suc}
use moneymate_backend.Auth.Codes.Verifying.{
  Within, check_code-Within, delete_otp-Guarded, emptied-Guarded,
}
use moneymate_backend.Auth.Sessions.Calls.{normalize_email}
use moneymate_backend.Shared.Evolving.{Chains, Evolves, bind-Evolves}

-- A key is not one that goes on.
pub longer-ne :
    (prefix email suffix : String)
    → 0 < len suffix
    → str_eq (prefix ++ email) (prefix ++ (email ++ suffix)) ≡ false
longer-ne prefix email suffix long =
    elim (Bool-cases (str_eq (prefix ++ email) (prefix ++ (email ++ suffix)))) [
      | inr differs ↦ differs
      | inl y ↦
          let same : prefix ++ email ≡ prefix ++ (email ++ suffix) = (eq_iff _ _).0 y in
          let lens : len prefix + len email ≡ len prefix + (len email + len suffix) =
            sym (len-append prefix email)
            ∙ ap len same
            ∙ len-append prefix (email ++ suffix)
            ∙ ap (λ (k : ℕ). len prefix + k) (len-append email suffix) in
          absurd (omega arith)
    ]

-- What keeps a deleted key deleted.
abbrev StaysGone : String → SessionDb → SessionDb → Type 0
StaysGone k d d' = d.redis k ≡ none → d'.redis k ≡ none

abbrev gone : (k : String) → Chains (StaysGone k)
gone k = record { stays = λ d h. h; chained = λ d d' d'' f g h. g (f h) }

module _ (k : String) where
  command-Evolves :
      {A : Type 0} (f : Time → Redis → RedisAnswer A)
      → ((now : Time) → (t : Redis) → left t (f now t) k ≡ t k)
      → Evolves (StaysGone k) (command f)
  command-Evolves f same = record {
    evolves = λ env w h. elim (command-cases f env w) [
      | inl (x, stops) ↦
          subst (λ (r : Result Error _ × World SessionDb). r.1.db.redis k ≡ none) (sym stops) h
      | inr (a, redis, ran, runs) ↦
          subst (λ (r : Result Error _ × World SessionDb). r.1.db.redis k ≡ none) (sym runs)
            (ap (λ (r : Redis). r k) (sym (ap (left w.db.redis) ran))
              ∙ same (env.now w.calls) w.db.redis
              ∙ h)
    ];
  }

  reset_attempts-Evolves :
      (keys : CodeKeys)
      → str_eq k keys.attempts_key ≡ false
      → Evolves (StaysGone k) (reset_attempts keys)
  unfolding reset_attempts
  reset_attempts-Evolves keys apart =
      command-Evolves (λ _. redis_del keys.attempts_key)
        λ now t. put_entry-other keys.attempts_key k none t apart

  mark_email_verified-Evolves :
      (email : String) (ttl : Time)
      → str_eq k (email_verified_key email) ≡ false
      → Evolves (StaysGone k) (mark_email_verified email ttl)
  unfolding mark_email_verified
  mark_email_verified-Evolves email ttl apart =
      command-Evolves (redis_set (email_verified_key email) "1" ttl)
        λ now t. put_entry-other (email_verified_key email) k _ t apart

module _ (ports : Ports) (mail : Mail) (config : OtpConfig) (given : String) (env : Env DbError)
    (steady : IsSteady env) (E : Time) where
  abbrev pub keys : CodeKeys
  keys = registration_keys (normalize_email ports given)

  abbrev pub max : ℕ
  max = config.max_verify_attempts

  pub attempts_apart : str_eq keys.code_key keys.attempts_key ≡ false
  attempts_apart =
      longer-ne "auth:otp:register:" (normalize_email ports given) ":attempts" (omega arith)

  verified_apart : str_eq keys.code_key (email_verified_key (normalize_email ports given)) ≡ false
  verified_apart =
      longer-ne "auth:otp:register:" (normalize_email ports given) ":verified" (omega arith)

  abbrev pub IsWithin : ℕ → Result Error Unit × World SessionDb → Type 0
  IsWithin n x = Within mail keys attempts_apart env steady E config.ttl max n x

  abbrev pub IsGuardedAt : ℕ → World SessionDb → Type 0
  IsGuardedAt n w = Guarded keys attempts_apart env steady E config.ttl n w

  -- Once the code is gone, no guess is answered but the last.
  gone-IsWithin :
      (n : ℕ) (x : Result Error Unit × World SessionDb)
      → suc n ≤ max
      → x.1.db.redis keys.code_key ≡ none
      → IsWithin n x
  gone-IsWithin n x le gone = (
    ground (arith, told-le_suc x.0 n),
    emptied-Guarded mail keys attempts_apart env steady E config.ttl max (told x.0 n) x.1 gone,
  )

  abbrev cleanup : SessionCall Unit
  cleanup =
      reset_attempts keys
      >> mark_email_verified (normalize_email ports given) config.email_verified_ttl

  cleanup-IsWithin :
      (n : ℕ) (w : World SessionDb)
      → suc n ≤ max
      → IsGuardedAt (suc n) w
      → IsWithin n ((delete_otp keys >> cleanup) env w)
  cleanup-IsWithin n w le g =
      let weak = weaker-Guarded keys E config.ttl n (env.now w.calls) w.db.redis g in
      let (g₁, deleted) =
        delete_otp-Guarded mail keys attempts_apart env steady E config.ttl max n w weak in
      let w₁ = (delete_otp keys env w).1 in
      let rest : Unit → SessionCall Unit = λ u. cleanup in
      let keeps : Evolves (StaysGone keys.code_key) cleanup =
        bind-Evolves (gone keys.code_key) (reset_attempts-Evolves keys.code_key keys attempts_apart)
          λ u.
            mark_email_verified-Evolves keys.code_key (normalize_email ports given)
              config.email_verified_ttl verified_apart in
      elim (outcome (delete_otp keys env w)) [
        | inl (u, run) ↦ elim deleted [
          | inl (x, failed) ↦ absurd (ground arith)
          | inr left_none ↦
              subst (IsWithin n) (sym (bind-runs (delete_otp keys) rest env w u w₁ run))
                (gone-IsWithin n (cleanup env w₁) le (keeps.evolves env w₁ left_none))
        ]
        | inr (e, run) ↦
            subst (IsWithin n) (sym (bind-stops (delete_otp keys) rest env w e w₁ run))
              (elim deleted [
                | inl (x, failed) ↦
                    let same : db_error x ≡ e = ground arith in
                    subst (λ (e : Error). IsWithin n (err e, w₁)) same (ground arith, g₁)
                | inr left_none ↦ gone-IsWithin n (err e, w₁) le left_none
              ])
      ]

  pub verify-IsWithin :
      (n : ℕ) (w : World SessionDb) (code : String)
      → n ≤ max
      → IsGuardedAt n w
      → IsWithin n (verify_registration_otp ports mail config given code env w)
  unfolding verify_registration_otp
  verify-IsWithin n w code le g =
      let check : SessionCall Unit = check_code mail keys max config.ttl (trim_space code) in
      let rest : Unit → SessionCall Unit = λ u. delete_otp keys >> cleanup in
      let w₁ = (check env w).1 in
      let checked =
        check_code-Within mail keys attempts_apart env steady E config.ttl max n w (trim_space code)
          le g in
      let bad : Bool = is_empty (normalize_email ports given) || is_empty (trim_space code) in
      let run : Bool → Result Error Unit × World SessionDb =
        λ b. (raise_if b invalid_input >> (check >>= rest)) env w in
      elim (Bool-cases bad) [
        | inl y ↦ subst (λ (b : Bool). IsWithin n (run b)) (sym y) (le, g)
        | inr good ↦
            subst (λ (b : Bool). IsWithin n (run b)) (sym good)
              (elim (outcome (check env w)) [
                | inl (u, ran) ↦
                    let (within, g₁) = subst (IsWithin n) ran checked in
                    subst (IsWithin n) (sym (bind-runs check rest env w u w₁ ran))
                      (cleanup-IsWithin n w₁ within g₁)
                | inr (e, ran) ↦
                    subst (IsWithin n) (sym (bind-stops check rest env w e w₁ ran))
                      (subst (IsWithin n) ran checked)
              ])
      ]
