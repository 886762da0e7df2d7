-- ===== src/Payment/Ledger/Success.antt =====
-- A transfer with nothing against it (ledger_repo.go, ExecuteTransfer).
use moneymate_backend.Shared.{
  subst, ap, ◌∙◌, ℕ, suc, ◌+◌, ◌≡◌, ◌≢◌, arith, none, some, true, find?, find_by, refl,
  find_by-update_ne,
}
use moneymate_backend.Shared.Int.{pos, ◌+ℤ◌, ◌≤ℤ◌, ◌<ℤ◌, ltb_ℤ}
use moneymate_backend.Shared.Action.{
  Env, World, ok, pure, raise_if, tick, transaction, bind-runs, transaction-runs,
}
use moneymate_backend.Errors.{DbError, db_error, insufficient_funds}
use moneymate_backend.Payment.Domain.{Account, Transaction, JournalEntry, LedgerResult, Db}
use moneymate_backend.Payment.Constraints.{
  has_key, has_transaction, has_category, credited, insert_transaction_row, insert_entry_row,
}
use moneymate_backend.Payment.Constraints.Passing.{TransactionPasses, with_transaction, with_entry}
use moneymate_backend.Payment.Constraints.Accepting.{
  insert_transaction_row-accepts, insert_entry_row-accepts, add_balance_row-accepts,
}
use moneymate_backend.Payment.Queries.{
  get_account_by_id_for_update, insert_transaction, insert_journal_entry, add_balance,
}
use moneymate_backend.Payment.Ledger.{
  neg64, lock_accounts, record_transfer, move_balances, transfer_body, execute_transfer,
}
use moneymate_backend.Payment.Ledger.Posting.{
  posted_transaction, debit_entry, credit_entry, recorded, debited, posted,
}
use moneymate_backend.Payment.Ledger.Steps.{sender_lem}
use moneymate_backend.Payment.Ledger.Executing.{finish, write, check, report, report_reads}
use moneymate_backend.Payment.Ledger.Soundness.{InRange, debit-InRange}
use moneymate_backend.Payment.Ledger.Conservation.{neg64_positive}

-- What a transfer needs of its arguments, of the rows that are there, and of the identifiers that
-- are drawn from the call numbered `c` on.
pub record IsReady (env : Env DbError) (c : ℕ) (t : Transaction) (d : Db) : Type 0 where
  pub payer : Account
  pub payee : Account
  pub payer_found : find_by Account.id t.from_account_id d.accounts ≡ some payer
  pub payee_found : find_by Account.id t.to_account_id d.accounts ≡ some payee
  pub payer_in_range : InRange payer.balance
  pub distinct : t.from_account_id ≢ t.to_account_id
  pub positive : pos 0 <ℤ t.amount
  pub covered : t.amount ≤ℤ payer.balance
  pub fits : InRange (payee.balance +ℤ t.amount)
  pub unused : find? (has_key t.idempotency_key t.from_account_id) d.transactions ≡ none
  pub category_known : has_category d t.category_id ≡ true
  pub id_unused : find_by Transaction.id (env.new_uuid (c + 1)) d.transactions ≡ none
  pub new_debit : find_by JournalEntry.id (env.new_uuid (c + 3)) d.entries ≡ none
  pub new_credit : find_by JournalEntry.id (env.new_uuid (c + 5)) d.entries ≡ none
  pub new_apart : env.new_uuid (c + 3) ≢ env.new_uuid (c + 5)

module _ (env : Env DbError) (quiet : (n : ℕ) → env.fault n ≡ none) (t : Transaction) where
  lock_accounts-runs :
      (w : World Db) (a b : Account)
      → find_by Account.id t.from_account_id w.db.accounts ≡ some a
      → find_by Account.id t.to_account_id w.db.accounts ≡ some b
      → lock_accounts t env w ≡ (ok a, record w { calls = w.calls + 2 })
  unfolding lock_accounts get_account_by_id_for_update
  lock_accounts-runs w a b p q = ground (
    arith,
    quiet w.calls,
    quiet (suc w.calls),
    sender_lem t.from_account_id t.to_account_id w.db a b p q,
  )

  module _ (w : World Db) (r : IsReady env w.calls t w.db) where
    abbrev x : Transaction
    x = posted_transaction env w.calls t

    abbrev with_x : Db
    with_x = with_transaction x w.db

    abbrev with_debit : Db
    with_debit = with_entry (debit_entry env w.calls t) with_x

    x-passes : TransactionPasses x w.db
    unfolding posted_transaction
    x-passes = record {
      distinct = r.distinct;
      positive = r.positive;
      new_id = r.id_unused;
      new_key = r.unused;
      from_known = rw r.payer_found;
      to_known = rw r.payee_found;
    }

    insert_runs : insert_transaction_row x w.db ≡ ok with_x
    unfolding posted_transaction
    insert_runs = insert_transaction_row-accepts x w.db x-passes r.category_known

    has_x : has_transaction with_x x.id ≡ true
    unfolding find_by
    has_x = ground arith

    debit_runs : insert_entry_row (debit_entry env w.calls t) with_x ≡ ok with_debit
    unfolding debit_entry posted_transaction
    debit_runs =
        insert_entry_row-accepts (debit_entry env w.calls t) with_x r.positive r.new_debit has_x
          (rw r.payer_found)

    new_credit_after :
        find_by JournalEntry.id (env.new_uuid (w.calls + 5)) with_debit.entries ≡ none
    unfolding find_by debit_entry
    new_credit_after = ground (arith, r.new_apart, r.new_credit)

    credit_runs :
        insert_entry_row (credit_entry env w.calls t) with_debit ≡ ok (recorded env w.calls t w.db)
    unfolding credit_entry debit_entry posted_transaction
    credit_runs =
        insert_entry_row-accepts (credit_entry env w.calls t) with_debit r.positive new_credit_after
          has_x (rw r.payee_found)

    record_transfer-runs :
        record_transfer t env w
        ≡ (ok x, record { db = recorded env w.calls t w.db; calls = w.calls + 7 })
    unfolding record_transfer insert_transaction insert_journal_entry posted_transaction debit_entry
        credit_entry
    record_transfer-runs = ground (
      arith,
      quiet (w.calls + 2),
      quiet (w.calls + 4),
      quiet (w.calls + 6),
      insert_runs,
      debit_runs,
      credit_runs,
    )

    debited-InRange : InRange (r.payer.balance +ℤ neg64 t.amount)
    debited-InRange =
        rw (neg64_positive t.amount r.positive)
          (debit-InRange r.payer.balance t.amount r.payer_in_range r.positive r.covered)

    move_balances-runs :
        move_balances t env (record { db = recorded env w.calls t w.db; calls = w.calls + 7 })
        ≡ (ok tt, record { db = posted env w.calls t w.db; calls = w.calls + 9 })
    unfolding move_balances add_balance posted
    move_balances-runs = ground (
      arith,
      quiet (w.calls + 7),
      quiet (w.calls + 8),
      add_balance_row-accepts t.from_account_id (neg64 t.amount) (env.now (w.calls + 7))
          (recorded env w.calls t w.db) r.payer r.payer_found debited-InRange.0 debited-InRange.1,
      add_balance_row-accepts t.to_account_id t.amount (env.now (w.calls + 8))
          (debited env w.calls t w.db) r.payee
          (find_by-update_ne Account.id (credited (neg64 t.amount) (env.now (w.calls + 7)))
              (λ _. refl) t.from_account_id t.to_account_id w.db.accounts
              (ground (arith, r.distinct))
            ∙ r.payee_found)
          r.fits.0 r.fits.1,
    )

    raise_if-runs : raise_if (ltb_ℤ r.payer.balance t.amount) insufficient_funds env w ≡ (ok tt, w)
    raise_if-runs = ground (arith, r.covered)

    write_runs :
        write t env w ≡ (ok x, record { db = posted env w.calls t w.db; calls = w.calls + 9 })
    write_runs =
        bind-runs (record_transfer t) (finish t) env w x _ record_transfer-runs
        ∙ bind-runs (move_balances t) (λ _. pure x) env _ tt _ move_balances-runs

  transfer_body-runs :
      (w : World Db) (r : IsReady env (w.calls + 2) t w.db)
      → transfer_body t env w ≡ (
        ok (posted_transaction env (w.calls + 2) t),
        record { db = posted env (w.calls + 2) t w.db; calls = w.calls + 2 + 9 },
      )
  unfolding transfer_body
  transfer_body-runs w r =
      let w₁ : World Db = record w { calls = w.calls + 2 } in
      bind-runs (lock_accounts t) (check t) env w r.payer w₁
        (lock_accounts-runs w r.payer r.payee r.payer_found r.payee_found)
      ∙ bind-runs (raise_if (ltb_ℤ r.payer.balance t.amount) insufficient_funds) (λ _. write t) env
          w₁ tt w₁ (raise_if-runs w₁ r)
      ∙ write_runs w₁ r

-- A transfer returns if no call fails and `IsReady` holds: the two accounts are there and differ,
-- the amount is positive, the payer's balance covers it and the payee's stays in range, the key is
-- unused, the category known, and the identifiers that are drawn are new.
pub execute_transfer_succeeds :
    (env : Env DbError) (t : Transaction) (w : World Db)
    → ((n : ℕ) → env.fault n ≡ none)
    → IsReady env (w.calls + 3) t w.db
    → (r : LedgerResult) × ((execute_transfer t env w).0 ≡ ok r)
unfolding execute_transfer
execute_transfer_succeeds env t w quiet ready =
    let e : w.calls + 3 ≡ suc w.calls + 2 = omega arith in
    let ready' : IsReady env (suc w.calls + 2) t w.db = subst (λ c. IsReady env c t w.db) e ready in
    let ran =
      transaction-runs db_error (transfer_body t) env w _ _ (quiet w.calls) (quiet _)
        (transfer_body-runs env quiet t (tick w) ready') in
    let (r, w', reported, same, shown) = report_reads t _ env _ in
    (
      r,
      ap (λ x. x.0)
          (bind-runs (transaction db_error (transfer_body t)) (report t) env w _ _ ran ∙ reported),
    )
