-- ===== src/Auth/Codes/Sending.antt =====
-- From the sending of a code (SendRegistrationOTP in otp.go) on, over any sequence of guesses.
use moneymate_backend.Shared.{
  ℕ, suc, ◌+◌, ◌≤◌, String, ◌≡◌, inl, inr, refl, sym, ap, subst, ◌∙◌, arith, false, not, ◌||◌,
  Option, none, some, List, [], ◌∷◌, str_eq,
}
use moneymate_backend.Shared.Text.{is_empty}
use moneymate_backend.Shared.Action.{
  Env, World, Result, ok, err, bind-ok, guard-ok, tick, ◌>>=◌, ◌>>◌, raise_if, external,
}
use moneymate_backend.Errors.{DbError, Error, app_error, invalid_input, email_already_taken}
use moneymate_backend.Auth.Pins.{Time}
use moneymate_backend.Auth.Redis.{Redis, RedisEntry, redis_text, put_entry, redis_del, redis_set}
use moneymate_backend.Auth.Sessions.Store.{SessionDb, SessionCall}
use moneymate_backend.Auth.Sessions.Issuing.{Ports}
use moneymate_backend.Auth.Codes.{
  OtpConfig, Mail, CodeKeys, set_otp, reset_attempts, registration_keys, verify_registration_otp,
  send_registration_otp, send_code, try_set_cooldown, otp_cooldown, email_exists,
}
use moneymate_backend.Auth.Codes.Guessing.{
  left, IsSteady, told, command-cases, put_entry-same, put_entry-other, IsGuarded,
}
use moneymate_backend.Auth.Codes.Answering.{keys, attempts_apart, IsGuardedAt, verify-IsWithin}
use moneymate_backend.Auth.Sessions.Calls.{normalize_email}
use moneymate_backend.Auth.Handles.{has_at}

set_otp-stores :
    (keys : CodeKeys) (h : String) (ttl : Time) (env : Env DbError) (w w' : World SessionDb)
    {u : Unit}
    → set_otp keys h ttl env w ≡ (ok u, w')
    → (w'.db.redis keys.code_key
        ≡ some (record { value = redis_text h; expires_at = some (env.now w.calls + ttl) }))
      × (w'.calls ≡ suc w.calls)
unfolding set_otp
set_otp-stores keys h ttl env w w' run =
    let e : Option RedisEntry =
      some (record { value = redis_text h; expires_at = some (env.now w.calls + ttl) }) in
    elim (command-cases (redis_set keys.code_key h ttl) env w) [
      | inl (x, stops) ↦ absurd (ground arith)
      | inr (a, redis, ran, runs) ↦
          let same : record { db = record w.db { redis = redis }; calls = suc w.calls } ≡ w' =
            ap (λ x. x.1) (sym runs ∙ run) in
          (
            ap (λ (w : World SessionDb). w.db.redis keys.code_key) (sym same)
                ∙ ap (λ (r : Redis). r keys.code_key) (sym (ap (left w.db.redis) ran))
                ∙ put_entry-same keys.code_key e w.db.redis,
            ap (λ (w : World SessionDb). w.calls) (sym same),
          )
    ]

reset_attempts-clears :
    (keys : CodeKeys) (env : Env DbError) (w w' : World SessionDb) {u : Unit}
    → str_eq keys.code_key keys.attempts_key ≡ false
    → reset_attempts keys env w ≡ (ok u, w')
    → (w'.db.redis keys.attempts_key ≡ none)
      × (w'.db.redis keys.code_key ≡ w.db.redis keys.code_key)
      × (w'.calls ≡ suc w.calls)
unfolding reset_attempts
reset_attempts-clears keys env w w' apart run =
    elim (command-cases (λ _. redis_del keys.attempts_key) env w) [
      | inl (x, stops) ↦ absurd (ground arith)
      | inr (a, redis, ran, runs) ↦
          let same : record { db = record w.db { redis = redis }; calls = suc w.calls } ≡ w' =
            ap (λ x. x.1) (sym runs ∙ run) in
          let stored : put_entry keys.attempts_key none w.db.redis ≡ redis =
            ap (left w.db.redis) ran in
          (
            ap (λ (w : World SessionDb). w.db.redis keys.attempts_key) (sym same)
                ∙ ap (λ (r : Redis). r keys.attempts_key) (sym stored)
                ∙ put_entry-same keys.attempts_key none w.db.redis,
            ap (λ (w : World SessionDb). w.db.redis keys.code_key) (sym same)
                ∙ ap (λ (r : Redis). r keys.code_key) (sym stored)
                ∙ put_entry-other keys.attempts_key keys.code_key none w.db.redis apart,
            ap (λ (w : World SessionDb). w.calls) (sym same),
          )
    ]

-- How many of the codes given for one address were compared, one after another.
unfoldable pub count_answers :
    Ports → Mail → OtpConfig → String → List String → Env DbError → World SessionDb → ℕ
count_answers ports mail config given [] env w = 0
count_answers ports mail config given (code ∷ codes) env w =
    let answer = verify_registration_otp ports mail config given code env w in
    told answer.0 (count_answers ports mail config given codes env answer.1)

told_add : {A : Type 0} (r : Result Error A) (k n : ℕ) → told r k + n ≡ k + told r n
told_add (ok a) k n = ground arith
told_add (err (app_error s c m)) k n = ground arith
told_add (err e) k n = refl

module _ (ports : Ports) (mail : Mail) (config : OtpConfig) (env : Env DbError)
    (steady : IsSteady env) where
  -- A code that was sent, before the first guess.
  send_code-IsGuarded :
      (keys : CodeKeys) (email : String) (w w' : World SessionDb) {u : Unit}
      → str_eq keys.code_key keys.attempts_key ≡ false
      → send_code ports mail config keys email env w ≡ (ok u, w')
      → (E : Time) × IsGuarded keys E config.ttl 0 (env.now w'.calls) w'.db.redis
  unfolding send_code
  send_code-IsGuarded keys email w w' apart run =
      let after_code : String → SessionCall Unit = λ code.
        set_otp keys (mail.hash_otp code) config.ttl
        >> (reset_attempts keys >> external (mail.send email code)) in
      let (allowed, w₁, p₁, r₁) =
        bind-ok (try_set_cooldown keys config.resend_cooldown)
          (λ allowed.
            raise_if (not allowed) otp_cooldown
            >> (external (mail.generate_otp config.length) >>= after_code))
          env w run in
      let (q, r₂) =
        guard-ok (not allowed) otp_cooldown
          (external (mail.generate_otp config.length) >>= after_code) env w₁ r₁ in
      let (code, w₂, p₂, r₃) =
        bind-ok (external (mail.generate_otp config.length)) after_code env w₁ r₂ in
      let (u₁, w₃, p₃, r₄) =
        bind-ok (set_otp keys (mail.hash_otp code) config.ttl)
          (λ u. reset_attempts keys >> external (mail.send email code)) env w₂ r₃ in
      let (u₂, w₄, p₄, r₅) =
        bind-ok (reset_attempts keys) (λ u. external (mail.send email code)) env w₃ r₄ in
      let (stored, c₃) = set_otp-stores keys (mail.hash_otp code) config.ttl env w₂ w₃ p₃ in
      let (cleared, kept, c₄) = reset_attempts-clears keys env w₃ w₄ apart p₄ in
      let last : tick w₄ ≡ w' = ap (λ x. x.1) r₅ in
      let calls_is : w'.calls ≡ suc (suc (suc w₂.calls)) =
        ap (λ (w : World SessionDb). w.calls) (sym last) ∙ ap suc (c₄ ∙ ap suc c₃) in
      let now_is : env.now w'.calls ≡ env.now (suc (suc (suc w₂.calls))) = ap env.now calls_is in
      let in_time : env.now w₂.calls + config.ttl ≤ env.now w'.calls + config.ttl = omega (
        arith,
        now_is,
        steady.later w₂.calls,
        steady.later (suc w₂.calls),
        steady.later (suc (suc w₂.calls)),
      ) in
      (
        env.now w₂.calls + config.ttl,
        subst
            (λ (v : World SessionDb).
              IsGuarded keys (env.now w₂.calls + config.ttl) config.ttl 0 (env.now w'.calls)
                v.db.redis)
            last
            (record {
              code_ends = inr (_, kept ∙ stored, refl);
              attempts = inr (inl (cleared, refl, in_time));
            }),
      )

  send_registration_otp-IsGuarded :
      (given : String) (w w' : World SessionDb)
      → send_registration_otp ports mail config given env w ≡ (ok tt, w')
      → (E : Time) × IsGuardedAt ports mail config given env steady E 0 w'
  unfolding send_registration_otp
  send_registration_otp-IsGuarded given w w' run =
      let email = normalize_email ports given in
      let send : SessionCall Unit = send_code ports mail config (registration_keys email) email in
      let (q, r₁) =
        guard-ok (is_empty email || not (has_at email)) invalid_input
          (email_exists email >>= λ exists. raise_if exists email_already_taken >> send) env w
          run in
      let (exists, w₁, p, r₂) =
        bind-ok (email_exists email) (λ exists. raise_if exists email_already_taken >> send) env w
          r₁ in
      let (q₂, r₃) = guard-ok exists email_already_taken send env w₁ r₂ in
      send_code-IsGuarded (registration_keys email) email w₁ w'
        (attempts_apart ports mail config given env steady 0) r₃

  count_answers-Guarded :
      (given : String) (codes : List String) (E n : ℕ) (w : World SessionDb)
      → n ≤ config.max_verify_attempts
      → IsGuardedAt ports mail config given env steady E n w
      → count_answers ports mail config given codes env w + n ≤ config.max_verify_attempts
  unfolding count_answers
  count_answers-Guarded given [] E n w le g = ground arith
  count_answers-Guarded given (code ∷ codes) E n w le g =
      let answer = verify_registration_otp ports mail config given code env w in
      let rest = count_answers ports mail config given codes env answer.1 in
      let (within, g₁) = verify-IsWithin ports mail config given env steady E n w code le g in
      let later : rest + told answer.0 n ≤ config.max_verify_attempts =
        count_answers-Guarded given codes E (told answer.0 n) answer.1 within g₁ in
      subst (λ (k : ℕ). k ≤ config.max_verify_attempts) (sym (told_add answer.0 rest n)) later

  -- When the clock does not go back and SendRegistrationOTP returned for an address, at most
  -- max_verify_attempts of any codes that VerifyRegistrationOTP is then given for the address, one
  -- after another, are compared with the code sent, that is answered as right or as incorrect,
  -- whatever fails and whenever keys expire.
  pub count_answers_le_max :
      (given : String) (codes : List String) (w w' : World SessionDb)
      → send_registration_otp ports mail config given env w ≡ (ok tt, w')
      → count_answers ports mail config given codes env w' ≤ config.max_verify_attempts
  count_answers_le_max given codes w w' run =
      let (E, g) = send_registration_otp-IsGuarded given w w' run in
      let bound = count_answers-Guarded given codes E 0 w' (ground arith) g in ground (arith, bound)
