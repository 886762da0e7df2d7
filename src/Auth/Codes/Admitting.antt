-- ===== src/Auth/Codes/Admitting.antt =====
-- Which codes ResetPassword takes (auth_usecase.go).
use moneymate_backend.Shared.{
  ℕ, String, ◌≡◌, refl, sym, ap, subst, ◌∙◌, arith, inl, inr, true, false, not, ◌||◌, Bool-cases,
  Option, none, some, Option-cases, str_eq, eq_iff, ltb, ◌==◌,
}
use moneymate_backend.Shared.Text.{is_empty, trim_space}
use moneymate_backend.Shared.Action.{
  Env, World, Result, ok, bind-ok, guard-ok, ◌>>=◌, ◌>>◌, pure, raise_if, or_raise, handle,
  external, pure-Reads,
}
use moneymate_backend.Shared.Evolving.{Chains, Evolves, Reads-Evolves, bind-Evolves, if-Evolves}
use moneymate_backend.Errors.{
  DbError, Error, invalid_input, password_mismatch, invalid_password, otp_expired,
}
use moneymate_backend.Auth.Pins.{Time}
use moneymate_backend.Auth.Redis.{
  Redis, RedisEntry, RedisValue, RedisAnswer, redis_text, redis_count, live, has_expired, text_of,
  text_in, redis_incr, redis_expire, redis_get,
}
use moneymate_backend.Auth.Sessions.Store.{
  User, SessionDb, SessionCall, get_user_by_email, update_password,
}
use moneymate_backend.Auth.Sessions.Issuing.{Ports}
use moneymate_backend.Auth.Sessions.Calls.{normalize_email, is_bad_password, logout_all}
use moneymate_backend.Auth.Codes.{
  OtpConfig, Mail, CodeKeys, password_reset_keys, reset_window, command, get_otp, delete_otp,
  increment_attempts, reset_attempts, compare_code, within_limit, check_code, otp_wrong,
  reset_password,
}
use moneymate_backend.Auth.Codes.Guessing.{left, command-cases, put_entry-other}
use moneymate_backend.Auth.Codes.Counter.{incr-other}
use moneymate_backend.Auth.Codes.Limit.{got-text}
use moneymate_backend.Auth.Codes.Answering.{longer-ne}

abbrev KeepsKey : String → SessionDb → SessionDb → Type 0
KeepsKey k d d' = d'.redis k ≡ d.redis k

abbrev c : (k : String) → Chains (KeepsKey k)
c k = record { stays = λ d. refl; chained = λ d d' d'' f g. g ∙ f }

command-KeepsKey :
    {A : Type 0} (k : String) (f : Time → Redis → RedisAnswer A)
    → ((now : Time) (t : Redis) (a : A) (redis : Redis) → f now t ≡ ok (a, redis) → redis k ≡ t k)
    → Evolves (KeepsKey k) (command f)
command-KeepsKey {A} k f same = record {
  evolves = λ env w. elim (command-cases f env w) [
    | inl (x, stops) ↦
        subst (λ (r : Result Error A × World SessionDb). KeepsKey k w.db r.1.db) (sym stops) refl
    | inr (a, redis, ran, runs) ↦
        subst (λ (r : Result Error A × World SessionDb). KeepsKey k w.db r.1.db) (sym runs)
          (same (env.now w.calls) w.db.redis a redis ran)
  ];
}

increment_attempts-KeepsKey :
    (keys : CodeKeys) (ttl : Time)
    → str_eq keys.code_key keys.attempts_key ≡ false
    → Evolves (KeepsKey keys.code_key) (increment_attempts keys ttl)
unfolding increment_attempts
increment_attempts-KeepsKey keys ttl apart =
    bind-Evolves (c keys.code_key)
      (command-KeepsKey keys.code_key (redis_incr keys.attempts_key)
        λ now t a redis ran. incr-other keys.attempts_key keys.code_key now a t redis apart ran)
      λ attempts.
        if-Evolves (c keys.code_key) (attempts == 1)
          (bind-Evolves (c keys.code_key)
            (command-KeepsKey keys.code_key (redis_expire keys.attempts_key ttl)
              λ now t a redis ran.
                ap (λ (r : Redis). r keys.code_key) (sym (ap (left t) ran))
                ∙ put_entry-other keys.attempts_key keys.code_key _ t apart)
            λ u. Reads-Evolves (c keys.code_key) (pure-Reads attempts))
          (Reads-Evolves (c keys.code_key) (pure-Reads attempts))

live-found :
    (now : Time) (x : Option RedisEntry) (e : RedisEntry)
    → live now x ≡ some e
    → (x ≡ some e) × (has_expired now e.expires_at ≡ false)
live-found now none e h = absurd (ground arith)
live-found now (some y) e h = elim (Bool-cases (has_expired now y.expires_at)) [
  | inl over ↦ absurd (ground arith)
  | inr lives ↦
      let same : y ≡ e = ground arith in
      (ap some same, subst (λ (z : RedisEntry). has_expired now z.expires_at ≡ false) same lives)
]

value-found : (v : RedisValue) (h : String) → text_in v ≡ ok (some h) → v ≡ redis_text h
value-found (redis_text s) h r = ground arith
value-found (redis_count n) h r = absurd (ground arith)

text-found :
    (x : Option RedisEntry) (h : String)
    → text_of x ≡ ok (some h)
    → (e : RedisEntry) × (x ≡ some e) × (e.value ≡ redis_text h)
text-found none h r = absurd (ground arith)
text-found (some e) h r = (e, refl, value-found e.value h r)

-- The key holds a text that was live at a reading of the clock.
pub record IsStored (env : Env DbError) (k text : String) (d : SessionDb) : Type 0 where
  pub entry : RedisEntry
  pub found : d.redis k ≡ some entry
  pub is_text : entry.value ≡ redis_text text
  pub is_live : (n : ℕ) × (has_expired (env.now n) entry.expires_at ≡ false)

module _ (mail : Mail) (keys : CodeKeys) (env : Env DbError) (code : String) where
  compare_code-IsStored :
      (w w' : World SessionDb)
      → compare_code mail keys code env w ≡ (ok tt, w')
      → IsStored env keys.code_key (mail.hash_otp code) w.db
  unfolding compare_code get_otp
  compare_code-IsStored w w' run =
      let m : SessionCall (Option String) = command (redis_get keys.code_key) in
      let test : String → SessionCall Unit =
        λ stored_hash. raise_if (not (str_eq stored_hash (mail.hash_otp code))) otp_wrong in
      let (stored, w₁, p, r₁) =
        bind-ok m (λ stored. or_raise stored otp_expired >>= test) env w run in
      let (h, w₂, q, r₂) = bind-ok (or_raise stored otp_expired) test env w₁ r₁ in
      elim (Option-cases stored) [
        | inl none_yet ↦ absurd (ground arith)
        | inr (x, is_some) ↦
            let x_is : x ≡ h = ground arith in
            let equal : str_eq h (mail.hash_otp code) ≡ true = ground arith in
            let h_is : h ≡ mail.hash_otp code = (eq_iff h (mail.hash_otp code)).0 equal in
            elim (command-cases (redis_get keys.code_key) env w) [
              | inl (y, stops) ↦ absurd (ground arith)
              | inr (a, redis, ran, runs) ↦
                  let a_is : a ≡ stored = ground arith in
                  let now : Time = env.now w.calls in
                  let text =
                    got-text w.db.redis (text_of (live now (w.db.redis keys.code_key))) a redis
                      ran in
                  let given : a ≡ some (mail.hash_otp code) =
                    a_is ∙ is_some ∙ ap some (x_is ∙ h_is) in
                  let (e, lives, value) =
                    text-found (live now (w.db.redis keys.code_key)) (mail.hash_otp code)
                      (text ∙ ap ok given) in
                  let (found, fresh) = live-found now (w.db.redis keys.code_key) e lives in
                  record { entry = e; found = found; is_text = value; is_live = (w.calls, fresh) }
            ]
      ]

  check_code-IsStored :
      (max : ℕ) (ttl : Time) (w w' : World SessionDb)
      → str_eq keys.code_key keys.attempts_key ≡ false
      → check_code mail keys max ttl code env w ≡ (ok tt, w')
      → IsStored env keys.code_key (mail.hash_otp code) w.db
  unfolding check_code within_limit
  check_code-IsStored max ttl w w' apart run =
      let (a, w₁, p, r₁) =
        bind-ok (increment_attempts keys ttl) (within_limit mail keys max code) env w run in
      let kept : w₁.db.redis keys.code_key ≡ w.db.redis keys.code_key =
        ap (λ r. SessionDb.redis (World.db r.1) keys.code_key) (sym p)
        ∙ (increment_attempts-KeepsKey keys ttl apart).evolves env w in
      elim (Bool-cases (ltb max a)) [
        | inl over ↦ absurd (ground arith)
        | inr within ↦
            let r₂ : compare_code mail keys code env w₁ ≡ (ok tt, w') = rw within at r₁ in
            let s = compare_code-IsStored w₁ w' r₂ in
            record {
              entry = s.entry;
              found = sym kept ∙ s.found;
              is_text = s.is_text;
              is_live = s.is_live;
            }
      ]

module _ (ports : Ports) (mail : Mail) (config : OtpConfig) (env : Env DbError) where
  -- ResetPassword returns only when the hash of the code, without spaces around it, is stored for the
  -- normalised address and had not expired at a reading of the clock, and when the new password is
  -- the confirmed one and of a length that is allowed.
  pub reset_admits :
      (given code new_password confirm_password : String) (w w' : World SessionDb)
      → reset_password ports mail config given code new_password confirm_password env w
        ≡ (ok tt, w')
      → IsStored env
          (CodeKeys.code_key (password_reset_keys (normalize_email ports given)))
          (mail.hash_otp (trim_space code))
          w.db
        × (new_password ≡ confirm_password)
        × (is_bad_password new_password ≡ false)
  unfolding reset_password
  reset_admits given code new_password confirm_password w w' run =
      let email = normalize_email ports given in
      let keys = password_reset_keys email in
      let check : SessionCall Unit = check_code mail keys 5 reset_window (trim_space code) in
      let rest : Unit → SessionCall Unit = λ u. get_user_by_email email >>= λ found.
      external (ports.hash new_password) >>= λ new_hash.
      update_password (User.id found) new_hash
      >> (logout_all ports (User.id found)
          >> (handle (delete_otp keys) (λ _. pure tt)
              >> handle (reset_attempts keys) (λ _. pure tt))) in
      let (g₁, r₁) =
        guard-ok
          (is_empty email
            || is_empty (trim_space code)
            || is_empty new_password
            || is_empty confirm_password)
          invalid_input
          (raise_if (not (str_eq new_password confirm_password)) password_mismatch
            >> (raise_if (is_bad_password new_password) invalid_password >> (check >>= rest)))
          env w run in
      let (g₂, r₂) =
        guard-ok (not (str_eq new_password confirm_password)) password_mismatch
          (raise_if (is_bad_password new_password) invalid_password >> (check >>= rest)) env w r₁ in
      let (g₃, r₃) =
        guard-ok (is_bad_password new_password) invalid_password (check >>= rest) env w r₂ in
      let (u, w₁, p, r₄) = bind-ok check rest env w r₃ in
      let equal : str_eq new_password confirm_password ≡ true = ground arith in
      (
        check_code-IsStored mail keys env (trim_space code) 5 reset_window w w₁
            (longer-ne "auth:otp:password_reset:" email ":attempts" (omega arith)) p,
        (eq_iff new_password confirm_password).0 equal,
        g₃,
      )
