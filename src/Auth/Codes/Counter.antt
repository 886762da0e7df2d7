-- ===== src/Auth/Codes/Counter.antt =====
-- The counter of attempts under EXPIRE, and other keys under INCR (token_store.go).
use moneymate_backend.Shared.{
  ℕ, ◌+◌, ◌≤◌, String, ◌≡◌, ◌⊎◌, inl, inr, refl, sym, ap, ◌∙◌, arith, false, Bool-cases, Option,
  none, some, Option-cases, str_eq, leb,
}
use moneymate_backend.Shared.Action.{ok, err}
use moneymate_backend.Auth.Pins.{Time}
use moneymate_backend.Auth.Redis.{
  Redis, RedisValue, RedisAnswer, redis_text, redis_count, live, put_entry, redis_incr, has_expired,
  next_count, expiring,
}
use moneymate_backend.Auth.Codes.Guessing.{left, put_entry-same, put_entry-other, IsCounter}

pub expire-IsCounter :
    (att : String) (E ttl a now : ℕ) (t : Redis)
    → IsCounter E a (t att)
    → E ≤ now + ttl
    → (E ≤ now) ⊎ IsCounter E a (put_entry att (expiring (now + ttl) (live now (t att))) t att)
expire-IsCounter att E ttl a now t c ends =
    let lasting : has_expired now c.expires_at ≡ false
        → IsCounter E a (put_entry att (expiring (now + ttl) (live now (t att))) t att) =
      λ lives. record {
        expires_at = some (now + ttl);
        counts = put_entry-same att _ t ∙ rw (c.counts, lives) refl;
        outlives = inr (now + ttl, refl, ends);
      } in
    elim c.outlives [
      | inl never ↦ inr (lasting (rw never refl))
      | inr (X, at, le) ↦ elim (Bool-cases (leb X now)) [
        | inl over ↦ inl (ground arith)
        | inr lives ↦ inr (lasting (rw at lives))
      ]
    ]

abbrev pub count_left : ℕ → RedisAnswer ℕ → ℕ
count_left b (ok (a, redis)) = a
count_left b (err e) = b

pub incr-other :
    (att x : String) (now a : ℕ) (t redis : Redis)
    → str_eq x att ≡ false
    → redis_incr att now t ≡ ok (a, redis)
    → redis x ≡ t x
incr-other att x now a t redis n run = elim (Option-cases (live now (t att))) [
  | inl none_yet ↦ go none (redis_count 0) (rw none_yet at run)
  | inr (e, found) ↦ go e.expires_at e.value (rw found at run)
]
  where
    go : (y : Option Time) (v : RedisValue) → next_count att t y v ≡ ok (a, redis) → redis x ≡ t x
    go y (redis_count k) run = sym (ap (λ r. left t r x) run) ∙ put_entry-other att x _ t n
    go y (redis_text v) run = absurd (ground arith)
