-- ===== src/Payment/Ledger/Executing.antt =====
-- What ExecuteTransfer (ledger_repo.go) has done when it returns, and when it does not.
use moneymate_backend.Shared.{
  subst, ap, ◌∙◌, suc, ◌+◌, ◌≡◌, inl, inr, refl, arith, true, Option-cases, none, some, find_by,
}
use moneymate_backend.Shared.Int.{ltb_ℤ, in_int64, ◌+ℤ◌, ◌≤ℤ◌}
use moneymate_backend.Shared.Action.{
  Env, World, Result, ok, err, ◌>>=◌, ◌>>◌, pure, raise_if, bind-ok, tick, transaction-ok,
  transaction-err, bind-err, transaction,
}
use moneymate_backend.Errors.{db_error, DbError, Error, insufficient_funds}
use moneymate_backend.Payment.Domain.{LedgerResult, Account, Transaction, Db}
use moneymate_backend.Payment.Constraints.Passing.{TransactionPasses}
use moneymate_backend.Payment.Queries.{get_account_by_id, Call}
use moneymate_backend.Payment.Ledger.{
  read_balance, execute_transfer, lock_accounts, record_transfer, move_balances, transfer_body,
}
use moneymate_backend.Payment.Ledger.Posting.{posted_transaction, recorded, posted, Posts}
use moneymate_backend.Payment.Ledger.Steps.{lock_accounts-ok, record_transfer-ok, move_balances-ok}

-- The rest of the body after the lock, in the order of the code.
module _ (t : Transaction) where
  abbrev pub finish : Transaction → Call Transaction
  finish inserted = move_balances t >> pure inserted

  abbrev pub write : Call Transaction
  write = record_transfer t >>= finish

  abbrev pub check : Account → Call Transaction
  check from = raise_if (ltb_ℤ from.balance t.amount) insufficient_funds >> write

raise_if-ok :
    (env : Env DbError) (t : Transaction) (a : Account) {w w' : World Db}
    → raise_if (ltb_ℤ a.balance t.amount) insufficient_funds env w ≡ (ok tt, w')
    → (t.amount ≤ℤ a.balance) × (w' ≡ w)
raise_if-ok env t a h = ground arith

module _ (env : Env DbError) (t : Transaction) (w : World Db) (a b : Account)
    (p : find_by Account.id t.from_account_id w.db.accounts ≡ some a)
    (q : find_by Account.id t.to_account_id w.db.accounts ≡ some b) where
  record Written (r : Transaction) (w' : World Db) : Type 0 where
    stored : w'.db ≡ posted env w.calls t w.db
    returned : r ≡ posted_transaction env w.calls t
    passes : TransactionPasses (posted_transaction env w.calls t) w.db
    fits : in_int64 (b.balance +ℤ t.amount) ≡ true

  finish-ok :
      (x : Transaction) {r : Transaction} {w' : World Db}
      → x ≡ posted_transaction env w.calls t
      → TransactionPasses (posted_transaction env w.calls t) w.db
      → finish t x env (record { db = recorded env w.calls t w.db; calls = w.calls + 7 })
        ≡ (ok r, w')
      → Written r w'
  unfolding posted posted_transaction
  finish-ok x e passes h =
      let w₁ : World Db = record { db = recorded env w.calls t w.db; calls = w.calls + 7 } in
      let (u, w₂, moved, done) = bind-ok (move_balances t) (λ _. pure x) env w₁ h in
      let (stored, fits) = move_balances-ok env t w₁ a b p q passes.distinct moved in
      record { stored = ground arith; returned = ground arith; passes = passes; fits = fits }

  write-ok : {r : Transaction} {w' : World Db} → write t env w ≡ (ok r, w') → Written r w'
  write-ok h =
      let (x, w₁, recorded, rest) = bind-ok (record_transfer t) (finish t) env w h in
      let (e, after, passes) = record_transfer-ok env t w recorded in
      finish-ok x e passes (rw after at rest)

  check-ok :
      {r : Transaction} {w' : World Db}
      → check t a env w ≡ (ok r, w')
      → (t.amount ≤ℤ a.balance) × Written r w'
  check-ok h =
      let (u, w₁, tested, rest) =
        bind-ok (raise_if (ltb_ℤ a.balance t.amount) insufficient_funds) (λ _. write t) env w h in
      let (covered, same) = raise_if-ok env t a tested in (covered, write-ok (rw same at rest))

transfer_body-Posts :
    (env : Env DbError) (t : Transaction) (w : World Db) {r : Transaction} {w' : World Db}
    → transfer_body t env w ≡ (ok r, w')
    → Posts env (w.calls + 2) t w.db w'.db × (r ≡ posted_transaction env (w.calls + 2) t)
unfolding transfer_body
transfer_body-Posts env t w h =
    let (a, w₁, locked, rest) = bind-ok (lock_accounts t) (check t) env w h in
    let l = lock_accounts-ok env t w a w₁ locked in
    elim (Option-cases (find_by Account.id t.to_account_id w.db.accounts)) [
      | inl m ↦ absurd (ground (arith, l.receiver_found))
      | inr (b, q) ↦
          let w₂ : World Db = record w { calls = w.calls + 2 } in
          let (covered, done) = check-ok env t w₂ a b l.sender_found q (rw l.after at rest) in
          (
            record {
              sender_row = a;
              receiver_row = b;
              sender_found = l.sender_found;
              receiver_found = q;
              covered = covered;
              fits = done.fits;
              passes = done.passes;
              stored = done.stored;
            },
            done.returned,
          )
    ]

-- The answer after the commit: two reads, whose errors are dropped.
abbrev pub report : Transaction → Transaction → Call LedgerResult
report t inserted = do
  from_balance ← read_balance t.from_account_id
  to_balance ← read_balance t.to_account_id
  pure (record {
    transaction = inserted;
    debit_entry = none;
    credit_entry = none;
    from_balance = from_balance;
    to_balance = to_balance;
  })

pub report_reads :
    (t x : Transaction) (env : Env DbError) (w : World Db)
    → (r : LedgerResult) × (w' : World Db) × (report t x env w ≡ (ok r, w'))
      × (w'.db ≡ w.db)
      × (r.transaction ≡ x)
unfolding read_balance get_account_by_id
report_reads t x env w = (_, _, refl, ground arith, refl)

ok-injective :
    {r r' : LedgerResult} {x : Result Error LedgerResult × World Db} {w w' : World Db}
    → x ≡ (ok r, w)
    → x ≡ (ok r', w')
    → r ≡ r'
ok-injective p q = ground arith

module _ (env : Env DbError) (t : Transaction) (w : World Db) where
  -- A transfer that returns has posted exactly the transaction, the two entries and the two
  -- balances of `Posts`, and its answer shows that transaction.
  pub execute_transfer-Posts :
      {r : LedgerResult} {w' : World Db}
      → execute_transfer t env w ≡ (ok r, w')
      → Posts env (w.calls + 3) t w.db w'.db
        × (r.transaction ≡ posted_transaction env (w.calls + 3) t)
  unfolding execute_transfer
  execute_transfer-Posts {r} {w'} h =
      let (x, w₁, ran, told) =
        bind-ok (transaction db_error (transfer_body t)) (report t) env w h in
      let (w₂, body, committed) = transaction-ok db_error (transfer_body t) env w ran in
      let (posts, e) = transfer_body-Posts env t (tick w) body in
      let (r', w₃, again, same, shown) = report_reads t x env w₁ in
      let n : suc w.calls + 2 ≡ w.calls + 3 = omega arith in
      let kept : w₂.db ≡ w'.db = ground (arith, told, again, same, committed) in
      let at_end = subst (λ d. Posts env (suc w.calls + 2) t w.db d) kept posts in
      (
        subst (λ k. Posts env k t w.db w'.db) n at_end,
        ap LedgerResult.transaction (ok-injective told again)
            ∙ shown
            ∙ e
            ∙ ap (λ k. posted_transaction env k t) n,
      )

  -- A transfer that raises, wherever it fails, leaves the store as it was.
  pub execute_transfer_refused :
      {e : Error} {w' : World Db} → execute_transfer t env w ≡ (err e, w') → w'.db ≡ w.db
  unfolding execute_transfer
  execute_transfer_refused h =
      elim (bind-err (transaction db_error (transfer_body t)) (report t) env w h) [
        | inl raised ↦ transaction-err db_error (transfer_body t) env w raised
        | inr (x, w₁, ran, told) ↦
            let (r', w₃, again, same, shown) = report_reads t x env w₁ in absurd (cc (again, told))
      ]
