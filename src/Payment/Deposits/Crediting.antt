-- ===== src/Payment/Deposits/Crediting.antt =====
-- ConfirmPayment (deposits_repo.go): the store after a call that returned.
use moneymate_backend.Shared.{
  ap, sym, subst, ◌∙◌, ℕ, suc, ◌+◌, String, ◌≡◌, ◌≢◌, ◌⊎◌, inl, inr, arith, Bool, true, false,
  Bool-cases, Option-cases, none, some, find?, find_by, update_by, ◌==◌, if◌then◌else◌,
}
use moneymate_backend.Shared.Int.{◌+ℤ◌, in_int64}
use moneymate_backend.Shared.Action.{Env, World, ok, ◌>>=◌, tick, get_now, bind-ok}
use moneymate_backend.Payment.Ledger.{repo}
use moneymate_backend.Errors.{DbError}
use moneymate_backend.Payment.Domain.{
  Uuid, Time, Account, Transaction, debit, credit, JournalEntry, Deposit, paid, Db,
}
use moneymate_backend.Payment.Constraints.{credited, add_balance_row}
use moneymate_backend.Payment.Constraints.Passing.{
  TransactionPasses, with_transaction, with_entry, with_credit, insert_transaction_row-cases,
  insert_entry_row-cases, add_balance_row-cases,
}
use moneymate_backend.Payment.Queries.{
  Call, add_balance, insert_transaction, insert_journal_entry, get_deposit_by_order_id,
  mark_deposit_paid_if_created, has_order, is_created, pay,
}
use moneymate_backend.Payment.Deposits.{
  deposit_transaction, credit_deposit, credit_if_marked, confirm_body,
}

module _ (env : Env DbError) (c : ℕ) (settlement : Uuid) (order : String) (now : Time)
    (p : Deposit) where
  -- The rows that a credit from the call numbered `c` on writes.
  abbrev pub posted_deposit : Transaction
  posted_deposit = record (deposit_transaction settlement order now p (env.new_uuid (c + 1))) {
    created_at = env.now (c + 2);
  }

  abbrev pub entry_of : Uuid → ℕ → Uuid → JournalEntry
  entry_of account n k = record {
    id = k;
    transaction_id = env.new_uuid (c + 1);
    account_id = account;
    amount = p.amount;
    direction = if n == 4 then debit else credit;
    created_at = env.now (c + n);
  }

  abbrev pub debit_row : JournalEntry
  debit_row = entry_of settlement 4 (env.new_uuid (c + 3))

  abbrev pub credit_row : JournalEntry
  credit_row = entry_of p.account_id 6 (env.new_uuid (c + 5))

  abbrev pub in_wallet : Db → Db
  in_wallet d = with_credit p.account_id p.amount (env.now c) d

  unfoldable pub deposited : Db → Db
  deposited d =
      with_entry credit_row (with_entry debit_row (with_transaction posted_deposit (in_wallet d)))

  -- What the wallet's row and the constraints of the transaction's row have passed.
  pub record Deposits (d d' : Db) : Type 0 where
    pub payee : Account
    pub payee_found : find_by Account.id p.account_id d.accounts ≡ some payee
    pub fits : in_int64 (payee.balance +ℤ p.amount) ≡ true
    pub passes : TransactionPasses posted_deposit (in_wallet d)
    pub stored : d' ≡ deposited d

module _ (env : Env DbError) (settlement : Uuid) (order : String) (now : Time) (p : Deposit)
    (w : World Db) where
  credit_deposit-missing :
      {r : Deposit × Bool} {w' : World Db}
      → find_by Account.id p.account_id w.db.accounts ≡ none
      → credit_deposit settlement order now p env w ≢ (ok r, w')
  unfolding credit_deposit add_balance insert_transaction insert_journal_entry add_balance_row
  credit_deposit-missing m h = ground (
    arith,
    m,
    insert_transaction_row-cases (posted_deposit env w.calls settlement order now p) w.db,
  )

  credit_deposit-found :
      (a : Account) {r : Deposit × Bool} {w' : World Db}
      → find_by Account.id p.account_id w.db.accounts ≡ some a
      → credit_deposit settlement order now p env w ≡ (ok r, w')
      → (w'.db ≡ deposited env w.calls settlement order now p w.db)
        × (r ≡ (record p { status = paid }, true))
        × (in_int64 (a.balance +ℤ p.amount) ≡ true)
        × TransactionPasses
            (posted_deposit env w.calls settlement order now p)
            (in_wallet env w.calls settlement order now p w.db)
  unfolding credit_deposit add_balance insert_transaction insert_journal_entry deposited
  credit_deposit-found a q h = ground (
    arith,
    add_balance_row-cases p.account_id p.amount (env.now w.calls) w.db a q,
    insert_transaction_row-cases (posted_deposit env w.calls settlement order now p)
        (in_wallet env w.calls settlement order now p w.db),
    insert_entry_row-cases (debit_row env w.calls settlement order now p) (
        with_transaction (posted_deposit env w.calls settlement order now p)
          (in_wallet env w.calls settlement order now p w.db)),
    insert_entry_row-cases (credit_row env w.calls settlement order now p) (
        with_entry (debit_row env w.calls settlement order now p) (
          with_transaction (posted_deposit env w.calls settlement order now p)
            (in_wallet env w.calls settlement order now p w.db))),
  )

-- The store with the order's deposit marked as paid.
abbrev pub marked : Uuid → String → Time → Db → Db
marked k payment now d = record d { deposits = update_by Deposit.id k (pay payment now) d.deposits }

-- A marking that returned has changed nothing, or the row of this key, which was created.
abbrev Marks : Uuid → String → Time → World Db → ℕ → World Db → Type 0
Marks k payment now w n w' =
    ((n ≡ 0) × (w' ≡ tick w))
    ⊎ ((q : Deposit) × (n ≡ 1)
        × (find_by Deposit.id k w.db.deposits ≡ some q)
        × (is_created q.status ≡ true)
        × (w' ≡ record { db = marked k payment now w.db; calls = suc w.calls }))

mark-Marks :
    (k : Uuid) (payment : String) (now : Time) (env : Env DbError) (w : World Db) {n : ℕ}
    {w' : World Db}
    → repo (mark_deposit_paid_if_created k payment now) env w ≡ (ok n, w')
    → Marks k payment now w n w'
unfolding mark_deposit_paid_if_created
mark-Marks k payment now env w h = elim (Option-cases (find_by Deposit.id k w.db.deposits)) [
  | inl m ↦ inl (ground arith)
  | inr (q, f) ↦ elim (Bool-cases (is_created q.status)) [
    | inl y ↦ inr (q, ground arith, f, y, ground arith)
    | inr n ↦ inl (ground arith)
  ]
]

module _ (env : Env DbError) (order payment : String) (settlement : Uuid) (w : World Db) where
  -- What a call that credited has found and left.
  pub record Confirms (answer : Deposit) (d' : Db) : Type 0 where
    pub row : Deposit
    pub row_found : find? (has_order order) w.db.deposits ≡ some row
    pub at_key : Deposit
    pub at_key_found : find_by Deposit.id row.id w.db.deposits ≡ some at_key
    pub was_created : is_created at_key.status ≡ true
    pub now : Time
    pub call : ℕ
    pub answered : answer ≡ record row { status = paid }
    pub credits : Deposits env call settlement order now row (marked row.id payment now w.db) d'

  -- A duplicate has changed nothing; a call that credited has done all of `Confirms`.
  abbrev pub Outcome : Deposit → Bool → Db → Type 0
  Outcome answer b d' = ((b ≡ false) × (d' ≡ w.db)) ⊎ ((b ≡ true) × Confirms answer d')

  credit-Deposits :
      (now : Time) (p : Deposit) (w₂ : World Db) {r : Deposit × Bool} {w' : World Db}
      → credit_deposit settlement order now p env w₂ ≡ (ok r, w')
      → (r ≡ (record p { status = paid }, true))
        × Deposits env w₂.calls settlement order now p w₂.db w'.db
  credit-Deposits now p w₂ h =
      elim (Option-cases (find_by Account.id p.account_id w₂.db.accounts)) [
        | inl m ↦ absurd (credit_deposit-missing env settlement order now p w₂ m h)
        | inr (a, f) ↦
            let (stored, e, fits, passes) =
              credit_deposit-found env settlement order now p w₂ a f h in
            (
              e,
              record { payee = a; payee_found = f; fits = fits; passes = passes; stored = stored },
            )
      ]

  credit_if_marked-Outcome :
      (now : Time) (p : Deposit) (w₁ : World Db) (n : ℕ) (w₂ : World Db) {answer : Deposit}
      {b : Bool} {w' : World Db}
      → find? (has_order order) w.db.deposits ≡ some p
      → w₁.db ≡ w.db
      → Marks p.id payment now w₁ n w₂
      → credit_if_marked settlement order now p n env w₂ ≡ (ok (answer, b), w')
      → Outcome answer b w'.db
  unfolding credit_if_marked
  credit_if_marked-Outcome now p w₁ n w₂ f same (inl (z, e)) h = inl (ground arith, ground arith)
  credit_if_marked-Outcome now p w₁ n w₂ {w' = w'} f same (inr (q, one, g, y, e)) h =
      let (r, credited) = credit-Deposits now p w₂ (rw one at h) in
      inr (
        ap (λ x. x.1) r,
        record {
          row = p;
          row_found = f;
          at_key = q;
          at_key_found = ap (λ d. find_by Deposit.id p.id (Db.deposits d)) (sym same) ∙ g;
          was_created = y;
          now = now;
          call = w₂.calls;
          answered = ap (λ x. x.0) r;
          credits =
              subst (λ d. Deposits env w₂.calls settlement order now p d w'.db)
                (ground (arith, e, same)) credited;
        },
      )

  got-row :
      {p : Deposit} {w' : World Db}
      → repo (get_deposit_by_order_id order) env w ≡ (ok p, w')
      → (find? (has_order order) w.db.deposits ≡ some p) × (w'.db ≡ w.db)
  unfolding get_deposit_by_order_id
  got-row h = ground arith

  abbrev after_get : Deposit → Call (Deposit × Bool)
  after_get p = do
    now ← get_now
    affected ← repo (mark_deposit_paid_if_created p.id payment now)
    credit_if_marked settlement order now p affected

  pub confirm_body-Outcome :
      {answer : Deposit} {b : Bool} {w' : World Db}
      → confirm_body order payment settlement env w ≡ (ok (answer, b), w')
      → Outcome answer b w'.db
  unfolding confirm_body
  confirm_body-Outcome h =
      let (p, w₁, got, rest) = bind-ok (repo (get_deposit_by_order_id order)) after_get env w h in
      let (found, same) = got-row got in
      let now = env.now w₁.calls in
      let (n, w₂, counted, rest₂) =
        bind-ok (repo (mark_deposit_paid_if_created p.id payment now))
          (credit_if_marked settlement order now p) env (tick w₁) rest in
      credit_if_marked-Outcome now p (tick w₁) n w₂ found same
        (mark-Marks p.id payment now env (tick w₁) counted) rest₂
