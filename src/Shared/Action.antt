-- ===== src/Shared/Action.antt =====
-- Calls that read and write a store, may fail, and depend on what the environment does: which of
-- the calls fail, what the clock shows and which identifiers are drawn. The environment answers
-- by the number of the call, so a theorem over every `Env` covers every pattern of failures.
use moneymate_backend.Shared.{
  ℕ, suc, ◌≡◌, refl, ◌∙◌, ap, arith, ◌⊎◌, inl, inr, Bool, true, false, Option, none, some,
  if◌then◌else◌,
}

pub data Result (E A : Type 0) : Type 0 where
  ok : A → Result E A
  err : E → Result E A

-- What an external call does at its number: `fault` is a failure of the connection or the server.
pub record Env (F : Type 0) : Type 0 where
  pub fault : ℕ → Option F
  pub now : ℕ → ℕ
  pub new_uuid : ℕ → ℕ

pub record World (S : Type 0) : Type 0 where
  pub db : S
  pub calls : ℕ

module _ {S : Type 0} where
  -- One more call has been made.
  abbrev pub tick : World S → World S
  tick w = record w { calls = suc w.calls }

  abbrev pub put : S → World S → World S
  put d w = record { db = d; calls = suc w.calls }

-- An action over the store `S`, faults `F`, errors `E` and a result of type `A`.
abbrev pub Action : Type 0 → Type 0 → Type 0 → Type 0 → Type 0
Action F S E A = Env F → World S → Result E A × World S

module _ {F S E A : Type 0} where
  abbrev pub pure : A → Action F S E A
  pure a env w = (ok a, w)

  abbrev pub raise : E → Action F S E A
  raise e env w = (err e, w)

  abbrev pub or_raise : Option A → E → Action F S E A
  or_raise none e = raise e
  or_raise (some a) e = pure a

module _ {F S E A B : Type 0} where
  abbrev pub continue : Result E A → (A → Action F S E B) → Action F S E B
  continue (ok a) f = f a
  continue (err e) f = raise e

  infixl 5 ◌>>=◌
  abbrev pub ◌>>=◌ : Action F S E A → (A → Action F S E B) → Action F S E B
  ◌>>=◌ m f env w = let (r, w') = m env w in continue r f env w'

  infixl 5 ◌>>◌
  abbrev pub ◌>>◌ : Action F S E A → Action F S E B → Action F S E B
  m >> k = m >>= λ _. k

module _ {F S D E A B : Type 0} where
  -- Goes on from the error too: `if err != nil { … }`.
  abbrev pub handle : Action F S D A → (Result D A → Action F S E B) → Action F S E B
  handle m f env w = let (r, w') = m env w in f r env w'

abbrev pub map_result : {D E A : Type 0} → (D → E) → Result D A → Result E A
map_result f (ok a) = ok a
map_result f (err d) = err (f d)

module _ {F S D E A : Type 0} where
  -- `if err != nil { return f(err) }`
  abbrev pub map_err : (D → E) → Action F S D A → Action F S E A
  map_err f m env w = let (r, w') = m env w in (map_result f r, w')

-- `if c { return e }`
abbrev pub raise_if : {F S E : Type 0} → Bool → E → Action F S E Unit
raise_if c e env w = (if c then err e else ok tt, w)

-- `time.Now` and `uuid.New`
module _ {F S E : Type 0} where
  abbrev pub get_now : Action F S E ℕ
  get_now env w = (ok (env.now w.calls), tick w)

  abbrev pub draw_uuid : Action F S E ℕ
  draw_uuid env w = (ok (env.new_uuid w.calls), tick w)

-- A call of another service, whose answers are given by the numbers of the calls.
module _ {F S E A : Type 0} where
  abbrev pub external : (ℕ → Result E A) → Action F S E A
  external answer env w = (answer w.calls, tick w)

-- A statement fails with the environment's fault, or runs. It is given what `NOW()` and
-- `gen_random_uuid()` return, in this order.
module _ {F S A : Type 0} where
  abbrev pub settle : World S → Result F (A × S) → Result F A × World S
  settle w (ok (a, d)) = (ok a, put d w)
  settle w (err e) = (err e, tick w)

  abbrev pub run_unless : Option F → Result F (A × S) → World S → Result F A × World S
  run_unless none r w = settle w r
  run_unless (some e) r w = (err e, tick w)

  abbrev pub statement : (ℕ → ℕ → S → Result F (A × S)) → Action F S F A
  statement f env w =
      run_unless (env.fault w.calls) (f (env.now w.calls) (env.new_uuid w.calls) w.db) w

  abbrev pub keep : S → Result F A → Result F (A × S)
  keep d (ok a) = ok (a, d)
  keep d (err e) = err e

  -- A statement that only reads.
  abbrev pub query : (S → Result F A) → Action F S F A
  query f = statement (λ _ _ d. keep d (f d))

-- `BEGIN`, a body, and `COMMIT` when the body returns: an error of the body, or of either
-- statement, leaves the store as it was (`defer tx.Rollback`).
module _ {F S E A : Type 0} (lift : F → E) where
  abbrev pub commit : S → Result E A → Env F → World S → Result E A × World S
  commit before (err e) env w = (err e, record w { db = before })
  commit before (ok a) env w = elim (env.fault w.calls) [
    | none ↦ (ok a, tick w)
    | some e ↦ (err (lift e), put before w)
  ]

  unfoldable pub transaction : Action F S E A → Action F S E A
  transaction body env w = elim (env.fault w.calls) [
    | none ↦ let (r, w') = body env (tick w) in commit w.db r env w'
    | some e ↦ (err (lift e), tick w)
  ]

-- Inversion of a block that returned.
module _ {F S E A B : Type 0} where
  continue-ok :
      (r : Result E A) (f : A → Action F S E B) (env : Env F) (w : World S) {b : B} {w' : World S}
      → continue r f env w ≡ (ok b, w')
      → (a : A) × (r ≡ ok a) × (f a env w ≡ (ok b, w'))
  continue-ok (ok a) f env w h = (a, refl, h)
  continue-ok (err e) f env w h = cc

  pub bind-ok :
      (m : Action F S E A) (f : A → Action F S E B) (env : Env F) (w : World S) {b : B}
      {w' : World S}
      → (m >>= f) env w ≡ (ok b, w')
      → (a : A) × (w₁ : World S) × (m env w ≡ (ok a, w₁)) × (f a env w₁ ≡ (ok b, w'))
  bind-ok m f env w h =
      let (a, p, q) = continue-ok (m env w).0 f env (m env w).1 h in
      (a, (m env w).1, ap (λ r. (r, (m env w).1)) p, q)

  -- A block whose first part returns goes on from there.
  pub bind-runs :
      (m : Action F S E A) (f : A → Action F S E B) (env : Env F) (w : World S) (a : A)
      (w₁ : World S)
      → m env w ≡ (ok a, w₁)
      → (m >>= f) env w ≡ f a env w₁
  bind-runs m f env w a w₁ h = ap (λ r. continue r.0 f env r.1) h

  -- A block whose first part raises stops there.
  pub bind-stops :
      (m : Action F S E A) (f : A → Action F S E B) (env : Env F) (w : World S) (e : E)
      (w₁ : World S)
      → m env w ≡ (err e, w₁)
      → (m >>= f) env w ≡ (err e, w₁)
  bind-stops m f env w e w₁ h = ap (λ r. continue r.0 f env r.1) h

  continue-err :
      (r : Result E A) (f : A → Action F S E B) (env : Env F) (w : World S) {e : E} {w' : World S}
      → continue r f env w ≡ (err e, w')
      → ((r ≡ err e) × (w' ≡ w)) ⊎ ((a : A) × (r ≡ ok a) × (f a env w ≡ (err e, w')))
  continue-err (ok a) f env w h = inr (a, refl, h)
  continue-err (err e) f env w h = inl (ground arith, ground arith)

  -- A block that raised did so in its first part, or in the rest.
  pub bind-err :
      (m : Action F S E A) (f : A → Action F S E B) (env : Env F) (w : World S) {e : E}
      {w' : World S}
      → (m >>= f) env w ≡ (err e, w')
      → (m env w ≡ (err e, w'))
        ⊎ ((a : A) × (w₁ : World S) × (m env w ≡ (ok a, w₁)) × (f a env w₁ ≡ (err e, w')))
  bind-err m f env w h = elim (continue-err (m env w).0 f env (m env w).1 h) [
    | inl (p, q) ↦ inl (ground arith)
    | inr (a, p, q) ↦ inr (a, (m env w).1, ap (λ r. (r, (m env w).1)) p, q)
  ]

-- A transaction that returned has committed what its body left.
module _ {F S E A : Type 0} where
  pub transaction-ok :
      (lift : F → E) (body : Action F S E A) (env : Env F) (w : World S) {a : A} {w' : World S}
      → transaction lift body env w ≡ (ok a, w')
      → (w₁ : World S) × (body env (tick w) ≡ (ok a, w₁)) × (w' ≡ tick w₁)
  unfolding transaction
  transaction-ok lift body env w h = ((body env (tick w)).1, ground arith, ground arith)

  -- One that raised has left the store alone.
  pub transaction-err :
      (lift : F → E) (body : Action F S E A) (env : Env F) (w : World S) {e : E} {w' : World S}
      → transaction lift body env w ≡ (err e, w')
      → w'.db ≡ w.db
  unfolding transaction
  transaction-err lift body env w h = ground arith

-- How an action ended.
pub outcome :
    {S E A : Type 0} (x : Result E A × World S)
    → ((a : A) × (x ≡ (ok a, x.1))) ⊎ ((e : E) × (x ≡ (err e, x.1)))
outcome (ok a, w) = inl (a, refl)
outcome (err e, w) = inr (e, refl)

-- A transaction whose body returns, with no fault at `BEGIN` and `COMMIT`, returns.
pub transaction-runs :
    {F S E A : Type 0} (lift : F → E) (body : Action F S E A) (env : Env F) (w : World S) (a : A)
    (w₁ : World S)
    → env.fault w.calls ≡ none
    → env.fault w₁.calls ≡ none
    → body env (tick w) ≡ (ok a, w₁)
    → transaction lift body env w ≡ (ok a, tick w₁)
unfolding transaction
transaction-runs lift body env w a w₁ p q h = ground arith

pub Result-cases :
    {E A : Type 0} (r : Result E A) → ((a : A) × (r ≡ ok a)) ⊎ ((e : E) × (r ≡ err e))
Result-cases (ok a) = inl (a, refl)
Result-cases (err e) = inr (e, refl)

-- Actions that leave the store alone, whatever they return.
pub record Reads {F S E A : Type 0} (m : Action F S E A) : Type 0 where
  pub keeps : (env : Env F) (w : World S) → (m env w).1.db ≡ w.db

pub query-Reads : {F S A : Type 0} (f : S → Result F A) → Reads (query f)
query-Reads f = record { keeps = λ env w. ground arith }

pub map_err-Reads :
    {F S D E A : Type 0} (f : D → E) {m : Action F S D A} → Reads m → Reads (map_err f m)
map_err-Reads f h = record { keeps = h.keeps }

module _ {F S E : Type 0} where
  pub pure-Reads : {A : Type 0} (a : A) → Reads {F = F} {S = S} {E = E} (pure a)
  pure-Reads a = record { keeps = λ env w. refl }

  pub raise-Reads : {A : Type 0} (e : E) → Reads {F = F} {S = S} {E = E} {A = A} (raise e)
  raise-Reads e = record { keeps = λ env w. refl }

  pub raise_if-Reads : (c : Bool) (e : E) → Reads {F = F} {S = S} (raise_if c e)
  raise_if-Reads c e = record { keeps = λ env w. refl }

  pub or_raise-Reads : {A : Type 0} (o : Option A) (e : E) → Reads {F = F} {S = S} (or_raise o e)
  or_raise-Reads none e = raise-Reads e
  or_raise-Reads (some a) e = pure-Reads a

  module _ {A B : Type 0} {m : Action F S E A} where
    pub bind-Reads : {f : A → Action F S E B} → Reads m → ((a : A) → Reads (f a)) → Reads (m >>= f)
    bind-Reads {f} g h = record {
      keeps = λ env w. elim (Result-cases (m env w).0) [
        | inl (a, e) ↦ rw e ((h a).keeps env (m env w).1 ∙ g.keeps env w)
        | inr (x, e) ↦ rw e (g.keeps env w)
      ];
    }

    pub handle-Reads :
        {D : Type 0} {f : Result E A → Action F S D B}
        → Reads m
        → ((r : Result E A) → Reads (f r))
        → Reads (handle m f)
    handle-Reads g h = record {
      keeps = λ env w. (h (m env w).0).keeps env (m env w).1 ∙ g.keeps env w;
    }

-- A test that was passed, and what came after it.
pub guard-ok :
    {F S E B : Type 0} (c : Bool) (e : E) (k : Action F S E B) (env : Env F) (w : World S) {b : B}
    {w' : World S}
    → (raise_if c e >> k) env w ≡ (ok b, w')
    → (c ≡ false) × (k env w ≡ (ok b, w'))
guard-ok true e k env w h = cc
guard-ok false e k env w h = (refl, h)
