-- ===== src/Auth/Codes/Attempts.antt =====
-- An attempt at a code is counted before the code is compared (IncrementOTPAttempts in token_store.go).
use moneymate_backend.Shared.{
  ℕ, zero, suc, ◌+◌, ◌≤◌, ◌<◌, ◌≡◌, ◌⊎◌, inl, inr, refl, sym, ap, subst, ◌∙◌, arith, Bool, false,
  Bool-cases, Option, none, some, str_eq, ◌==◌, if◌then◌else◌,
}
use moneymate_backend.Shared.Action.{
  Env, World, Result, ok, err, bind-runs, bind-stops, tick, ◌>>=◌, ◌>>◌, pure,
}
use moneymate_backend.Errors.{DbError, Error, db_error}
use moneymate_backend.Auth.Pins.{Time}
use moneymate_backend.Auth.Redis.{
  Redis, RedisEntry, live, put_entry, redis_incr, redis_expire, expiring,
}
use moneymate_backend.Auth.Sessions.Store.{SessionDb, SessionCall}
use moneymate_backend.Auth.Codes.{CodeKeys, command, increment_attempts}
use moneymate_backend.Auth.Codes.Guessing.{
  left, IsSteady, command-cases, put_entry-other, IsCounter, incr-Counts, Guarded, IsOver,
  ticked-Guarded,
}
use moneymate_backend.Auth.Codes.Counter.{expire-IsCounter, count_left, incr-other}

-- What is true once an attempt was counted.
pub record IsCounted (keys : CodeKeys) (E n now : ℕ) (t : Redis) (r : Result Error ℕ) : Type 0 where
  pub over_or_counted :
      ((t keys.code_key ≡ none) ⊎ (E ≤ now))
      ⊎ ((a : ℕ) → r ≡ ok a → (n < a) × IsCounter E a (t keys.attempts_key))

module _ (keys : CodeKeys) (apart : str_eq keys.code_key keys.attempts_key ≡ false)
    (env : Env DbError) (steady : IsSteady env) (E ttl : Time) where
  abbrev Ends : ℕ → Result Error ℕ × World SessionDb → Type 0
  Ends n x =
      Guarded keys apart env steady E ttl n x.1
      × IsCounted keys E n (env.now x.1.calls) x.1.db.redis x.0

  -- The rest of an attempt whose code is over.
  over-Ends :
      (n : ℕ) (x : Result Error ℕ × World SessionDb) (t : Redis)
      → (t keys.code_key ≡ none)
        ⊎ ((e : RedisEntry) × (t keys.code_key ≡ some e) × (e.expires_at ≡ some E))
      → x.1.db.redis keys.code_key ≡ t keys.code_key
      → IsOver keys apart env steady E ttl x.1
      → Ends n x
  over-Ends n x t ends same over = (
    record {
      code_ends =
          subst
            (λ (y : Option RedisEntry).
              (y ≡ none) ⊎ ((e : RedisEntry) × (y ≡ some e) × (e.expires_at ≡ some E)))
            (sym same) ends;
      attempts = inl over;
    },
    record { over_or_counted = inl over },
  )

  abbrev CodeEnds : Redis → Type 0
  CodeEnds t =
      (t keys.code_key ≡ none)
      ⊎ ((e : RedisEntry) × (t keys.code_key ≡ some e) × (e.expires_at ≡ some E))

  -- The rest of an attempt that was counted.
  counted-Ends :
      (n a : ℕ) (r : Result Error ℕ) (w : World SessionDb)
      → CodeEnds w.db.redis
      → n ≤ a
      → IsCounter E (suc a) (w.db.redis keys.attempts_key)
      → (r ≡ ok (suc a)) ⊎ ((e : Error) × (r ≡ err e))
      → Ends n (r, w)
  counted-Ends n a r w ends below counter ended = (
    record { code_ends = ends; attempts = inr (inr (a, ground arith, counter)) },
    record {
      over_or_counted = inr λ b e. elim ended [
        | inl same ↦
            let b_is : suc a ≡ b = ground arith in
            (
              ground arith,
              subst (λ (k : ℕ). IsCounter E k (w.db.redis keys.attempts_key)) b_is counter,
            )
        | inr (x, failed) ↦ absurd (ground arith)
      ];
    },
  )

  expire_first-Ends :
      (n : ℕ) (w : World SessionDb)
      → CodeEnds w.db.redis
      → n ≤ 0
      → IsCounter E 1 (w.db.redis keys.attempts_key)
      → E ≤ env.now w.calls + ttl
      → Ends n ((command (redis_expire keys.attempts_key ttl) >> pure 1) env w)
  expire_first-Ends n w ends below counter soon =
      let m : SessionCall Unit = command (redis_expire keys.attempts_key ttl) in
      let after : Unit → SessionCall ℕ = λ u. pure 1 in
      elim (command-cases (redis_expire keys.attempts_key ttl) env w) [
        | inl (x, stops) ↦
            subst (Ends n) (sym (bind-stops m after env w (db_error x) (tick w) stops)) (
              counted-Ends n 0 (err (db_error x)) (tick w) ends below counter
                (inr (db_error x, refl)))
        | inr (u, redis, ran, runs) ↦
            let now : Time = env.now w.calls in
            let t = w.db.redis in
            let w₂ : World SessionDb = record {
              db = record w.db { redis = redis };
              calls = suc w.calls;
            } in
            let next : Option RedisEntry = expiring (now + ttl) (live now (t keys.attempts_key)) in
            let same : put_entry keys.attempts_key next t ≡ redis = ap (left t) ran in
            let code_same : redis keys.code_key ≡ t keys.code_key =
              ap (λ (r : Redis). r keys.code_key) (sym same)
              ∙ put_entry-other keys.attempts_key keys.code_key next t apart in
            elim (expire-IsCounter keys.attempts_key E ttl 1 now t counter soon) [
              | inl over ↦ subst (Ends n) (sym (bind-runs m after env w tt w₂ runs)) (
                  over-Ends n (ok 1, w₂) t ends code_same
                    (inr (ground (arith, steady.later w.calls))))
              | inr lasts ↦ subst (Ends n) (sym (bind-runs m after env w tt w₂ runs)) (
                  counted-Ends n 0 (ok 1) w₂
                    (subst
                      (λ (y : Option RedisEntry).
                        (y ≡ none) ⊎ ((e : RedisEntry) × (y ≡ some e) × (e.expires_at ≡ some E)))
                      (sym code_same) ends)
                    below (subst (λ (r : Redis). IsCounter E 1 (r keys.attempts_key)) same lasts)
                    (inl refl))
            ]
      ]

  rest-Ends :
      (n a : ℕ) (w : World SessionDb)
      → CodeEnds w.db.redis
      → n ≤ a
      → IsCounter E (suc a) (w.db.redis keys.attempts_key)
      → (E ≤ env.now w.calls + ttl) ⊎ ((k : ℕ) × (a ≡ suc k))
      → Ends n (
          (if suc a == 1
              then command (redis_expire keys.attempts_key ttl) >> pure (suc a)
              else pure (suc a))
            env w)
  rest-Ends n zero w ends below counter (inl soon) = expire_first-Ends n w ends below counter soon
  rest-Ends n zero w ends below counter (inr (k, e)) = absurd (ground arith)
  rest-Ends n (suc k) w ends below counter first =
      let later : (suc (suc k) == 1) ≡ false = ground arith in
      subst
        (λ (b : Bool). Ends n (
          (if b
              then command (redis_expire keys.attempts_key ttl) >> pure (suc (suc k))
              else pure (suc (suc k)))
            env w))
        (sym later) (counted-Ends n (suc k) (ok (suc (suc k))) w ends below counter (inl refl))

  later-IsOver :
      (w : World SessionDb) (redis : Redis)
      → redis keys.code_key ≡ w.db.redis keys.code_key
      → IsOver keys apart env steady E ttl w
      → (redis keys.code_key ≡ none) ⊎ (E ≤ env.now (suc w.calls))
  later-IsOver w redis same (inl none_left) = inl (same ∙ none_left)
  later-IsOver w redis same (inr over) = inr (ground (arith, steady.later w.calls))

  over_rest-Ends :
      (n a : ℕ) (w : World SessionDb)
      → CodeEnds w.db.redis
      → IsOver keys apart env steady E ttl w
      → Ends n (
          (if a == 1 then command (redis_expire keys.attempts_key ttl) >> pure a else pure a) env w)
  over_rest-Ends n a w ends over =
      let m : SessionCall Unit = command (redis_expire keys.attempts_key ttl) in
      let after : Unit → SessionCall ℕ = λ u. pure a in
      let run : Bool → SessionCall ℕ = λ b. if b then m >> pure a else pure a in
      let t = w.db.redis in
      elim (Bool-cases (a == 1)) [
        | inr n1 ↦
            subst (λ (b : Bool). Ends n (run b env w)) (sym n1)
              (over-Ends n (ok a, w) t ends refl over)
        | inl y ↦ elim (command-cases (redis_expire keys.attempts_key ttl) env w) [
          | inl (x, stops) ↦
              subst (λ (b : Bool). Ends n (run b env w)) (sym y)
                (subst (Ends n) (sym (bind-stops m after env w (db_error x) (tick w) stops))
                  (over-Ends n (err (db_error x), tick w) t ends refl (later-IsOver w t refl over)))
          | inr (u, redis, ran, runs) ↦
              let w₂ : World SessionDb = record {
                db = record w.db { redis = redis };
                calls = suc w.calls;
              } in
              let next : Option RedisEntry =
                expiring (env.now w.calls + ttl) (live (env.now w.calls) (t keys.attempts_key)) in
              let same : redis keys.code_key ≡ t keys.code_key =
                ap (λ (r : Redis). r keys.code_key) (sym (ap (left t) ran))
                ∙ put_entry-other keys.attempts_key keys.code_key next t apart in
              subst (λ (b : Bool). Ends n (run b env w)) (sym y)
                (subst (Ends n) (sym (bind-runs m after env w tt w₂ runs))
                  (over-Ends n (ok a, w₂) t ends same (later-IsOver w redis same over)))
        ]
      ]

  -- An attempt is counted, and the code's key is left alone.
  pub increment_attempts-Ends :
      (n : ℕ) (w : World SessionDb)
      → Guarded keys apart env steady E ttl n w
      → Ends n (increment_attempts keys ttl env w)
  unfolding increment_attempts
  increment_attempts-Ends n w g =
      let m : SessionCall ℕ = command (redis_incr keys.attempts_key) in
      let rest : ℕ → SessionCall ℕ =
        λ a. if a == 1 then command (redis_expire keys.attempts_key ttl) >> pure a else pure a in
      let now : Time = env.now w.calls in
      let t = w.db.redis in
      elim (command-cases (redis_incr keys.attempts_key) env w) [
        | inl (x, stops) ↦
            subst (Ends n) (sym (bind-stops m rest env w (db_error x) (tick w) stops)) (
              ticked-Guarded keys apart env steady E ttl n w g,
              record { over_or_counted = inr λ a e. absurd (ground arith) },
            )
        | inr (a, redis, ran, runs) ↦
            let w₁ : World SessionDb = record {
              db = record w.db { redis = redis };
              calls = suc w.calls;
            } in
            let same : redis keys.code_key ≡ t keys.code_key =
              incr-other keys.attempts_key keys.code_key now a t redis apart ran in
            let ends : CodeEnds redis =
              subst
                (λ (y : Option RedisEntry).
                  (y ≡ none) ⊎ ((e : RedisEntry) × (y ≡ some e) × (e.expires_at ≡ some E)))
                (sym same) g.code_ends in
            let if_over : IsOver keys apart env steady E ttl w → Ends n ((m >>= rest) env w) =
              λ over.
                subst (Ends n) (sym (bind-runs m rest env w a w₁ runs))
                  (over_rest-Ends n a w₁ ends (later-IsOver w redis same over)) in
            elim g.attempts [
              | inl over ↦ if_over over
              | inr counts ↦ elim (incr-Counts keys.attempts_key E ttl n now t counts) [
                | inl over ↦ if_over (inr over)
                | inr i ↦
                    let agree : ok (a, redis) ≡ ok (suc i.a, i.redis) = sym ran ∙ i.runs in
                    let a_is : a ≡ suc i.a = ap (count_left a) agree in
                    let redis_is : redis ≡ i.redis = ap (left redis) agree in
                    let counter : IsCounter E (suc i.a) (redis keys.attempts_key) =
                      subst (λ (r : Redis). IsCounter E (suc i.a) (r keys.attempts_key))
                        (sym redis_is) i.counter in
                    let soon : (E ≤ env.now (suc w.calls) + ttl) ⊎ ((k : ℕ) × (i.a ≡ suc k)) =
                      elim i.first [
                        | inl le ↦ inl (ground (arith, steady.later w.calls))
                        | inr more ↦ inr more
                      ] in
                    subst (Ends n) (sym (bind-runs m rest env w a w₁ runs)) (
                      subst (λ (k : ℕ). Ends n (rest k env w₁)) (sym a_is)
                        (rest-Ends n i.a w₁ ends i.below counter soon))
              ]
            ]
      ]
