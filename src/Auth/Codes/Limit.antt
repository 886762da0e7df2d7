-- ===== src/Auth/Codes/Limit.antt =====
-- A code is compared only while its attempts are within the limit (VerifyRegistrationOTP in otp.go).
use moneymate_backend.Shared.{
  ℕ, zero, suc, ◌≤◌, ◌<◌, String, ◌≡◌, ◌⊎◌, inl, inr, refl, sym, ap, subst, ◌∙◌, arith, Bool, true,
  false, not, Bool-cases, Option, none, some, Option-cases, str_eq, leb, ◌==◌, if◌then◌else◌,
}
use moneymate_backend.Shared.Action.{
  Env, World, Result, ok, err, bind-err, tick, ◌>>=◌, ◌>>◌, pure, raise_if, or_raise, bind-runs,
  bind-stops,
}
use moneymate_backend.Errors.{DbError, Error, db_error, app_error, otp_expired}
use moneymate_backend.Auth.Pins.{Time}
use moneymate_backend.Auth.Redis.{
  Redis, RedisEntry, RedisAnswer, live, redis_incr, redis_expire, has_expired, text_of, redis_get,
  unchanged,
}
use moneymate_backend.Auth.Sessions.Store.{SessionDb, SessionCall}
use moneymate_backend.Auth.Codes.{
  Mail, CodeKeys, command, get_otp, increment_attempts, compare_code, otp_wrong,
}
use moneymate_backend.Auth.Codes.Guessing.{
  IsSteady, told, command-cases, IsCounter, IsGuarded, Guarded, IsOver, ticked-Guarded,
}

-- Actions whose errors answer no guess.
pub record IsUntold {A : Type 0} (m : SessionCall A) : Type 0 where
  pub untold :
      (env : Env DbError) (w : World SessionDb) (e : Error) (n : ℕ)
      → (m env w).0 ≡ err e
      → told {A = Unit {0}} (err e) n ≡ n

pub command-IsUntold : {A : Type 0} (f : Time → Redis → RedisAnswer A) → IsUntold (command f)
command-IsUntold f = record {
  untold = λ env w e n h. elim (command-cases f env w) [
    | inl (x, stops) ↦
        let same : db_error x ≡ e = ground arith in
        subst (λ (e : Error). told {A = Unit {0}} (err e) n ≡ n) same refl
    | inr (a, redis, ran, runs) ↦ absurd (ground arith)
  ];
}

pub pure-IsUntold : {A : Type 0} (a : A) → IsUntold (pure a)
pure-IsUntold a = record { untold = λ env w e n h. absurd (ground arith) }

pub bind-IsUntold :
    {A B : Type 0} {m : SessionCall A} {f : A → SessionCall B}
    → IsUntold m
    → ((a : A) → IsUntold (f a))
    → IsUntold (m >>= f)
bind-IsUntold {m = m} {f = f} g h = record {
  untold = λ env w e n r.
      elim (bind-err m f env w {e = e} {w' = ((m >>= f) env w).1} (ground arith)) [
        | inl p ↦ g.untold env w e n (ap (λ x. x.0) p)
        | inr (a, w₁, p, q) ↦ (h a).untold env w₁ e n (ap (λ x. x.0) q)
      ];
}

pub increment_attempts-IsUntold :
    (keys : CodeKeys) (ttl : Time) → IsUntold (increment_attempts keys ttl)
unfolding increment_attempts
increment_attempts-IsUntold keys ttl =
    bind-IsUntold (command-IsUntold (redis_incr keys.attempts_key)) rest
  where
    rest :
        (a : ℕ)
        → IsUntold
            (if a == 1 then command (redis_expire keys.attempts_key ttl) >> pure a else pure a)
    rest a = pick (a == 1)
      where
        pick :
            (b : Bool)
            → IsUntold
                (if b then command (redis_expire keys.attempts_key ttl) >> pure a else pure a)
        pick true =
            bind-IsUntold (command-IsUntold (redis_expire keys.attempts_key ttl))
              λ u. pure-IsUntold a
        pick false = pure-IsUntold a

pub told-le_suc : {A : Type 0} (r : Result Error A) (n : ℕ) → told r n ≤ suc n
told-le_suc (ok a) n = ground arith
told-le_suc (err (app_error s c m)) n = ground arith
told-le_suc (err e) n = ground arith

pub weaker-Guarded :
    (keys : CodeKeys) (E ttl n now : ℕ) (t : Redis)
    → IsGuarded keys E ttl (suc n) now t
    → IsGuarded keys E ttl n now t
weaker-Guarded keys E ttl n now t g = record {
  code_ends = g.code_ends;
  attempts = elim g.attempts [
    | inl over ↦ inl over
    | inr (inl (missing, first, ends)) ↦ absurd (ground arith)
    | inr (inr (m, below, c)) ↦ inr (inr (m, ground arith, c))
  ];
}

got-same :
    {A : Type 0} (t : Redis) (r : Result DbError A) (a : A) (redis : Redis)
    → unchanged t r ≡ ok (a, redis)
    → redis ≡ t
got-same t (ok x) a redis h = ground arith
got-same t (err e) a redis h = absurd (ground arith)

pub got-text :
    {A : Type 0} (t : Redis) (r : Result DbError A) (a : A) (redis : Redis)
    → unchanged t r ≡ ok (a, redis)
    → r ≡ ok a
got-text t (ok x) a redis h = ground arith
got-text t (err e) a redis h = absurd (ground arith)

module _ (mail : Mail) (keys : CodeKeys) (apart : str_eq keys.code_key keys.attempts_key ≡ false)
    (env : Env DbError) (steady : IsSteady env) (E ttl : Time) (max : ℕ) where
  -- An attempt after which the guesses answered are still within the limit.
  abbrev pub Bounded : ℕ → Result Error Unit × World SessionDb → Type 0
  Bounded n x = (told x.0 n ≤ max) × Guarded keys apart env steady E ttl (told x.0 n) x.1

  answered :
      (n a : ℕ) (w : World SessionDb) (stored_hash code : String)
      → Guarded keys apart env steady E ttl n w
      → n < a
      → a ≤ max
      → IsCounter E a (w.db.redis keys.attempts_key)
      → Bounded n (raise_if (not (str_eq stored_hash (mail.hash_otp code))) otp_wrong env w)
  answered n zero w stored_hash code g less within c = absurd (ground arith)
  answered n (suc m) w stored_hash code g less within c =
      let guarded : Guarded keys apart env steady E ttl (suc n) w = record {
        code_ends = g.code_ends;
        attempts = inr (inr (m, ground arith, c));
      } in
      let result : Bool → Result Error Unit × World SessionDb =
        λ b. (if b then err otp_wrong else ok tt, w) in
      elim (Bool-cases (not (str_eq stored_hash (mail.hash_otp code)))) [
        | inl y ↦ subst (λ (b : Bool). Bounded n (result b)) (sym y) (ground arith, guarded)
        | inr right ↦ subst (λ (b : Bool). Bounded n (result b)) (sym right) (ground arith, guarded)
      ]

  -- A code that is over is not found.
  over-live :
      (now : Time) (t : Redis)
      → (t keys.code_key ≡ none)
        ⊎ ((e : RedisEntry) × (t keys.code_key ≡ some e) × (e.expires_at ≡ some E))
      → (t keys.code_key ≡ none) ⊎ (E ≤ now)
      → live now (t keys.code_key) ≡ none
  over-live now t ends (inl missing) = rw missing refl
  over-live now t (inl missing) (inr over) = rw missing refl
  over-live now t (inr (e, found, at)) (inr over) =
      let late : leb E now ≡ true = ground arith in
      ap (live now) found
      ∙ (let expired : has_expired now e.expires_at ≡ true = rw at late in rw expired refl)

  pub compare_code-Bounded :
      (n : ℕ) (w : World SessionDb) (code : String)
      → n ≤ max
      → Guarded keys apart env steady E ttl n w
      → IsOver keys apart env steady E ttl w
        ⊎ ((a : ℕ) × (n < a) × (a ≤ max) × IsCounter E a (w.db.redis keys.attempts_key))
      → Bounded n (compare_code mail keys code env w)
  unfolding compare_code get_otp
  compare_code-Bounded n w code le g counted =
      let now : Time = env.now w.calls in
      let t = w.db.redis in
      let m : SessionCall (Option String) = command (redis_get keys.code_key) in
      let given : Option String → SessionCall Unit = λ stored.
        or_raise stored otp_expired >>= λ stored_hash.
        raise_if (not (str_eq stored_hash (mail.hash_otp code))) otp_wrong in
      let later = ticked-Guarded keys apart env steady E ttl n w g in
      elim (command-cases (redis_get keys.code_key) env w) [
        | inl (x, stops) ↦
            subst (Bounded n) (sym (bind-stops m given env w (db_error x) (tick w) stops))
              (le, later)
        | inr (stored, redis, ran, runs) ↦
            let w₁ : World SessionDb = record {
              db = record w.db { redis = redis };
              calls = suc w.calls;
            } in
            let same : redis ≡ t =
              got-same t (text_of (live now (t keys.code_key))) stored redis ran in
            let g₁ : Guarded keys apart env steady E ttl n w₁ =
              subst (λ (r : Redis). IsGuarded keys E ttl n (env.now (suc w.calls)) r) (sym same)
                later in
            let text : text_of (live now (t keys.code_key)) ≡ ok stored =
              got-text t (text_of (live now (t keys.code_key))) stored redis ran in
            subst (Bounded n) (sym (bind-runs m given env w stored w₁ runs))
              (elim (Option-cases stored) [
                | inl none_yet ↦
                    subst (λ (s : Option String). Bounded n (given s env w₁)) (sym none_yet)
                      (le, g₁)
                | inr (h, found) ↦
                    subst (λ (s : Option String). Bounded n (given s env w₁)) (sym found)
                      (elim counted [
                        | inl over ↦
                            let gone = over-live now t g.code_ends over in absurd (ground arith)
                        | inr (a, less, within, c) ↦ answered n a w₁ h code g₁ less within (
                            subst (λ (r : Redis). IsCounter E a (r keys.attempts_key)) (sym same) c)
                      ])
              ])
      ]
