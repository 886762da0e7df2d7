-- ===== src/Shared/Evolving.antt =====
-- What every run of an action makes of the store, as a relation between the store before and after
-- that can be chained.
use moneymate_backend.Shared.{
  ℕ, ◌≡◌, sym, subst, ap, ◌∙◌, inl, inr, Option-cases, Bool, true, false, if◌then◌else◌,
}
use moneymate_backend.Shared.Action.{
  Env, World, Action, Result, ok, Result-cases, Reads, raise_if, raise_if-Reads, ◌>>=◌, ◌>>◌,
  handle, transaction, tick, outcome, transaction-ok, transaction-err, map_err, statement,
}

-- A relation that holds of no change, and of two changes after one another.
pub record Chains {S : Type 0} (R : S → S → Type 0) : Type 0 where
  pub stays : (d : S) → R d d
  pub chained : (d d' d'' : S) → R d d' → R d' d'' → R d d''

pub record Evolves {F S E A : Type 0} (R : S → S → Type 0) (m : Action F S E A) : Type 0 where
  pub evolves : (env : Env F) (w : World S) → R w.db (m env w).1.db

module _ {F S E : Type 0} {R : S → S → Type 0} (c : Chains R) where
  pub Reads-Evolves : {A : Type 0} {m : Action F S E A} → Reads m → Evolves R m
  Reads-Evolves r = record {
    evolves = λ env w. subst (R w.db) (sym (r.keeps env w)) (c.stays w.db);
  }

  module _ {A B : Type 0} {m : Action F S E A} where
    pub bind-Evolves :
        {f : A → Action F S E B} → Evolves R m → ((a : A) → Evolves R (f a)) → Evolves R (m >>= f)
    bind-Evolves {f} g h = record {
      evolves = λ env w. elim (Result-cases (m env w).0) [
        | inl (a, e) ↦ rw e (c.chained _ _ _ (g.evolves env w) ((h a).evolves env (m env w).1))
        | inr (x, e) ↦ rw e (g.evolves env w)
      ];
    }

    pub handle-Evolves :
        {D : Type 0} {f : Result E A → Action F S D B}
        → Evolves R m
        → ((r : Result E A) → Evolves R (f r))
        → Evolves R (handle m f)
    handle-Evolves g h = record {
      evolves =
          λ env w. c.chained _ _ _ (g.evolves env w) ((h (m env w).0).evolves env (m env w).1);
    }

  pub guard-Evolves :
      {A : Type 0} (b : Bool) (e : E) {m : Action F S E A}
      → Evolves R m
      → Evolves R (raise_if b e >> m)
  guard-Evolves b e g = bind-Evolves (Reads-Evolves (raise_if-Reads b e)) λ u. g

  pub if-Evolves :
      {A : Type 0} (b : Bool) {m n : Action F S E A}
      → Evolves R m
      → Evolves R n
      → Evolves R (if b then m else n)
  if-Evolves true g h = g
  if-Evolves false g h = h

  pub transaction-Evolves :
      {A : Type 0} (lift : F → E) {body : Action F S E A}
      → Evolves R body
      → Evolves R (transaction lift body)
  transaction-Evolves lift {body} g = record {
    evolves = λ env w. elim (outcome (transaction lift body env w)) [
      | inl (a, ran) ↦
          let (w₁, inside, e) = transaction-ok lift body env w ran in
          subst (R w.db) (ap (λ x. World.db x.1) inside ∙ ap World.db (sym e))
            (g.evolves env (tick w))
      | inr (x, raised) ↦
          subst (R w.db) (sym (transaction-err lift body env w raised)) (c.stays w.db)
    ];
  }

  pub map_err-Evolves :
      {A D : Type 0} (lift : D → E) {m : Action F S D A} → Evolves R m → Evolves R (map_err lift m)
  map_err-Evolves lift g = record { evolves = g.evolves }

module _ {F S : Type 0} {R : S → S → Type 0} (c : Chains R) where
  -- A statement is judged by the rows that it writes when it returns.
  pub statement-Evolves :
      {A : Type 0} (f : ℕ → ℕ → S → Result F (A × S))
      → ((now fresh : ℕ) (d d' : S) (a : A) → f now fresh d ≡ ok (a, d') → R d d')
      → Evolves R (statement f)
  statement-Evolves f g = record {
    evolves = λ env w. elim (Option-cases (env.fault w.calls)) [
      | inr (x, stops) ↦ rw stops (c.stays w.db)
      | inl runs ↦ elim (Result-cases (f (env.now w.calls) (env.new_uuid w.calls) w.db)) [
        | inl ((a, d'), done) ↦ rw (runs, done) (g _ _ w.db d' a done)
        | inr (x, failed) ↦ rw (runs, failed) (c.stays w.db)
      ]
    ];
  }
