-- ===== src/Auth/Codes/Guessing.antt =====
-- How often one code can be guessed (VerifyRegistrationOTP in otp.go).
use moneymate_backend.Shared.{
  ℕ, suc, ◌+◌, ◌≤◌, String, ◌≡◌, ◌⊎◌, inl, inr, refl, arith, false, Bool-cases, Option, none, some,
  Option-cases, str_eq, eq_iff, leb,
}
use moneymate_backend.Shared.Action.{Env, World, Result, ok, err, Result-cases, tick}
use moneymate_backend.Errors.{DbError, Error, db_error, app_error}
use moneymate_backend.Auth.Pins.{Time}
use moneymate_backend.Auth.Redis.{
  Redis, RedisEntry, RedisAnswer, redis_count, put_entry, redis_incr, has_expired,
}
use moneymate_backend.Auth.Sessions.Store.{SessionDb}
use moneymate_backend.Auth.Codes.{CodeKeys, command}

-- The clock does not go back.
pub record IsSteady (env : Env DbError) : Type 0 where
  pub later : (n : ℕ) → env.now n ≤ env.now (suc n)

-- Counts an attempt whose code was compared: it was right, or wrong.
abbrev pub told : {A : Type 0} → Result Error A → ℕ → ℕ
told (ok a) n = suc n
told (err (app_error status code message)) n = suc n
told (err e) n = n

-- What a command left.
abbrev pub left : {A : Type 0} → Redis → RedisAnswer A → Redis
left t (ok (a, redis)) = redis
left t (err e) = t

-- What a command to Redis leaves when it fails, and when it runs.
pub command-cases :
    {A : Type 0} (f : Time → Redis → RedisAnswer A) (env : Env DbError) (w : World SessionDb)
    → ((e : DbError) × (command f env w ≡ (err (db_error e), tick w)))
      ⊎ ((a : A) × (redis : Redis) × (f (env.now w.calls) w.db.redis ≡ ok (a, redis))
          × (command f env w
              ≡ (ok a, record { db = record w.db { redis = redis }; calls = suc w.calls })))
command-cases f env w = elim (Option-cases (env.fault w.calls)) [
  | inr (x, stops) ↦ inl (x, rw stops refl)
  | inl runs ↦ elim (Result-cases (f (env.now w.calls) w.db.redis)) [
    | inl ((a, redis), e) ↦ inr (a, redis, e, rw (runs, e) refl)
    | inr (x, e) ↦ inl (x, rw (runs, e) refl)
  ]
]

pub put_entry-same : (k : String) (e : Option RedisEntry) (t : Redis) → put_entry k e t k ≡ e
put_entry-same k e t = ground (arith, eq_iff k k)

pub put_entry-other :
    (k x : String) (e : Option RedisEntry) (t : Redis)
    → str_eq x k ≡ false
    → put_entry k e t x ≡ t x
put_entry-other k x e t n = rw n refl

-- A counter that lives as long as the code, which ends at `E`.
pub record IsCounter (E : Time) (a : ℕ) (entry : Option RedisEntry) : Type 0 where
  pub expires_at : Option Time
  pub counts : entry ≡ some (record { value = redis_count a; expires_at = expires_at })
  pub outlives : (expires_at ≡ none) ⊎ ((X : Time) × (expires_at ≡ some X) × (E ≤ X))

-- The count of attempts before the first, and later.
abbrev pub Counts : Time → Time → ℕ → Time → Option RedisEntry → Type 0
Counts E ttl n now entry =
    ((entry ≡ none) × (n ≡ 0) × (E ≤ now + ttl))
    ⊎ ((m : ℕ) × (n ≤ suc m) × IsCounter E (suc m) entry)

-- INCR of the counter at `att`, while the code is not over.
pub record IsIncremented (att : String) (E ttl n now : ℕ) (t : Redis) : Type 0 where
  pub a : ℕ
  pub redis : Redis
  pub runs : redis_incr att now t ≡ ok (suc a, redis)
  pub below : n ≤ a
  pub counter : IsCounter E (suc a) (redis att)
  pub first : (E ≤ now + ttl) ⊎ ((k : ℕ) × (a ≡ suc k))

live-IsIncremented :
    (att : String) (E ttl n now m : ℕ) (t : Redis) (x : Option Time)
    → t att ≡ some (record { value = redis_count (suc m); expires_at = x })
    → has_expired now x ≡ false
    → n ≤ suc m
    → (x ≡ none) ⊎ ((X : Time) × (x ≡ some X) × (E ≤ X))
    → IsIncremented att E ttl n now t
live-IsIncremented att E ttl n now m t x found lives below outlives =
    let next : Option RedisEntry =
      some (record { value = redis_count (suc (suc m)); expires_at = x }) in
    record {
      a = suc m;
      redis = put_entry att next t;
      runs = rw (found, lives) refl;
      below = below;
      counter = record { expires_at = x; counts = put_entry-same att next t; outlives = outlives };
      first = inr (m, refl);
    }

pub incr-Counts :
    (att : String) (E ttl n now : ℕ) (t : Redis)
    → Counts E ttl n now (t att)
    → (E ≤ now) ⊎ IsIncremented att E ttl n now t
incr-Counts att E ttl n now t (inl (missing, zero_yet, ends)) =
    let next : Option RedisEntry = some (record { value = redis_count 1; expires_at = none }) in
    inr (record {
      a = 0;
      redis = put_entry att next t;
      runs = rw missing refl;
      below = ground arith;
      counter = record {
        expires_at = none;
        counts = put_entry-same att next t;
        outlives = inl refl;
      };
      first = inl ends;
    })
incr-Counts att E ttl n now t (inr (m, below, c)) = elim c.outlives [
  | inl never ↦ inr (
      live-IsIncremented att E ttl n now m t c.expires_at c.counts (rw never refl) below c.outlives)
  | inr (X, at, le) ↦ elim (Bool-cases (leb X now)) [
    | inl over ↦ inl (ground arith)
    | inr lives ↦ inr (
        live-IsIncremented att E ttl n now m t c.expires_at c.counts (rw at lives) below c.outlives)
  ]
]

-- What is true of the keys of one code while it is guessed: `n` guesses were answered.
pub record IsGuarded (keys : CodeKeys) (E ttl n now : ℕ) (t : Redis) : Type 0 where
  pub code_ends :
      (t keys.code_key ≡ none)
      ⊎ ((e : RedisEntry) × (t keys.code_key ≡ some e) × (e.expires_at ≡ some E))
  pub attempts : ((t keys.code_key ≡ none) ⊎ (E ≤ now)) ⊎ Counts E ttl n now (t keys.attempts_key)

module _ (keys : CodeKeys) (apart : str_eq keys.code_key keys.attempts_key ≡ false)
    (env : Env DbError) (steady : IsSteady env) (E ttl : Time) where
  abbrev pub Guarded : ℕ → World SessionDb → Type 0
  Guarded n w = IsGuarded keys E ttl n (env.now w.calls) w.db.redis

  abbrev pub IsOver : World SessionDb → Type 0
  IsOver w = (w.db.redis keys.code_key ≡ none) ⊎ (E ≤ env.now w.calls)

  -- Time passes.
  pub ticked-Guarded : (n : ℕ) (w : World SessionDb) → Guarded n w → Guarded n (tick w)
  ticked-Guarded n w g = record {
    code_ends = g.code_ends;
    attempts = elim g.attempts [
      | inl (inl none_left) ↦ inl (inl none_left)
      | inl (inr over) ↦ inl (inr (ground (arith, steady.later w.calls)))
      | inr (inl (missing, first, ends)) ↦
          inr (inl (missing, first, ground (arith, steady.later w.calls)))
      | inr (inr (m, below, c)) ↦ inr (inr (m, below, c))
    ];
  }
