-- ===== src/Auth/Redis.antt =====
-- What the auth service asks of Redis: the commands that internal/adapter/redis/token_store.go sends,
-- on keys with a time of expiry. A number that INCR counts is not read as a text, since no key of a
-- text is the key of a counter.
use moneymate_backend.Shared.{
  ℕ, suc, ◌+◌, ◌-◌, String, Bool, true, false, Option, none, some, str_eq, leb, is_some,
  if◌then◌else◌,
}
use moneymate_backend.Shared.Action.{Result, ok, err}
use moneymate_backend.Errors.{DbError, driver_error}
use moneymate_backend.Auth.Pins.{Time}

pub data RedisValue : Type 0 where
  redis_text : String → RedisValue
  redis_count : ℕ → RedisValue

pub record RedisEntry : Type 0 where
  pub value : RedisValue
  pub expires_at : Option Time

abbrev pub Redis : Type 0
Redis = String → Option RedisEntry

abbrev pub has_expired : Time → Option Time → Bool
has_expired now none = false
has_expired now (some t) = leb t now

abbrev pub live : Time → Option RedisEntry → Option RedisEntry
live now none = none
live now (some e) = if has_expired now e.expires_at then none else some e

abbrev pub put_entry : String → Option RedisEntry → Redis → Redis
put_entry k e redis x = if str_eq x k then e else redis x

-- A command's answer, with what it leaves.
abbrev pub RedisAnswer : Type 0 → Type 0
RedisAnswer A = Result DbError (A × Redis)

-- `SET k v EX ttl`
abbrev pub redis_set : String → String → Time → Time → Redis → RedisAnswer Unit
redis_set k v ttl now redis =
    ok (
      tt,
      put_entry k (some (record { value = redis_text v; expires_at = some (now + ttl) })) redis,
    )

abbrev pub text_in : RedisValue → Result DbError (Option String)
text_in (redis_text v) = ok (some v)
text_in (redis_count n) = err (driver_error 1)

abbrev pub text_of : Option RedisEntry → Result DbError (Option String)
text_of none = ok none
text_of (some e) = text_in e.value

abbrev pub unchanged : {A : Type 0} → Redis → Result DbError A → RedisAnswer A
unchanged redis (ok a) = ok (a, redis)
unchanged redis (err e) = err e

-- `GET k`
abbrev pub redis_get : String → Time → Redis → RedisAnswer (Option String)
redis_get k now redis = unchanged redis (text_of (live now (redis k)))

-- `DEL k`
abbrev pub redis_del : String → Redis → RedisAnswer Unit
redis_del k redis = ok (tt, put_entry k none redis)

abbrev pub next_count : String → Redis → Option Time → RedisValue → RedisAnswer ℕ
next_count k redis t (redis_count n) =
    ok (suc n, put_entry k (some (record { value = redis_count (suc n); expires_at = t })) redis)
next_count k redis t (redis_text v) = err (driver_error 1)

abbrev pub counted_up : String → Redis → Option RedisEntry → RedisAnswer ℕ
counted_up k redis none = next_count k redis none (redis_count 0)
counted_up k redis (some e) = next_count k redis e.expires_at e.value

-- `INCR k`
abbrev pub redis_incr : String → Time → Redis → RedisAnswer ℕ
redis_incr k now redis = counted_up k redis (live now (redis k))

abbrev pub expiring : Time → Option RedisEntry → Option RedisEntry
expiring t none = none
expiring t (some e) = some (record e { expires_at = some t })

-- `EXPIRE k ttl`
abbrev pub redis_expire : String → Time → Time → Redis → RedisAnswer Unit
redis_expire k ttl now redis =
    ok (tt, put_entry k (expiring (now + ttl) (live now (redis k))) redis)

-- `SET k v NX EX ttl`
abbrev pub redis_set_nx : String → String → Time → Time → Redis → RedisAnswer Bool
redis_set_nx k v ttl now redis =
    if is_some (live now (redis k))
    then ok (false, redis)
    else ok (
      true,
      put_entry k (some (record { value = redis_text v; expires_at = some (now + ttl) })) redis,
    )

-- `GETDEL k`: whether there was a value.
abbrev pub redis_get_del : String → Time → Redis → RedisAnswer Bool
redis_get_del k now redis = ok (is_some (live now (redis k)), put_entry k none redis)

abbrev pub time_until : Time → Option Time → Option Time
time_until now none = none
time_until now (some t) = some (t - now)

abbrev pub time_left : Time → Option RedisEntry → Option Time
time_left now none = none
time_left now (some e) = time_until now e.expires_at

-- `TTL k`: nothing for a key that is not there or does not expire.
abbrev pub redis_ttl : String → Time → Redis → RedisAnswer (Option Time)
redis_ttl k now redis = ok (time_left now (live now (redis k)), redis)
