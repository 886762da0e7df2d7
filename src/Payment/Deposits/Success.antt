-- ===== src/Payment/Deposits/Success.antt =====
-- A capture with nothing against it (deposits_repo.go, ConfirmPayment).
use moneymate_backend.Shared.{
  ap, subst, ◌∙◌, ℕ, suc, ◌+◌, String, ◌≡◌, ◌≢◌, refl, arith, true, none, some, find?, find_by,
  IsKeyed, find_by-find?, find_by-update_ne, find_by-update_self, is_some,
}
use moneymate_backend.Shared.Int.{pos, ◌+ℤ◌, ◌<ℤ◌}
use moneymate_backend.Shared.Action.{Env, World, ok, tick, transaction-runs}
use moneymate_backend.Errors.{DbError, db_error}
use moneymate_backend.Payment.Domain.{
  Uuid, Time, Account, Transaction, JournalEntry, Deposit, created, paid, Db,
}
use moneymate_backend.Payment.Constraints.{
  has_key, has_account, has_transaction, credited, add_balance_row, insert_transaction_row,
  insert_entry_row,
}
use moneymate_backend.Payment.Constraints.Passing.{TransactionPasses, with_transaction, with_entry}
use moneymate_backend.Payment.Constraints.Accepting.{
  insert_transaction_row-accepts, insert_entry_row-accepts, add_balance_row-accepts,
}
use moneymate_backend.Payment.Queries.{
  has_order, add_balance, insert_transaction, insert_journal_entry, get_deposit_by_order_id,
  mark_deposit_paid_if_created,
}
use moneymate_backend.Payment.Ledger.Soundness.{InRange}
use moneymate_backend.Payment.Deposits.{
  credit_deposit, credit_if_marked, confirm_body, confirm_payment,
}
use moneymate_backend.Payment.Deposits.Crediting.{
  posted_deposit, in_wallet, debit_row, credit_row, deposited, marked,
}

-- What a capture needs of the rows that are there, and of the identifiers that are drawn from the
-- call numbered `c` on.
pub record IsCapturable (env : Env DbError) (c : ℕ) (order : String) (settlement : Uuid) (d : Db)
    : Type 0 where
  pub row : Deposit
  pub payee : Account
  pub keyed : IsKeyed Deposit.id d.deposits
  pub row_found : find? (has_order order) d.deposits ≡ some row
  pub was_new : row.status ≡ created
  pub payee_found : find_by Account.id row.account_id d.accounts ≡ some payee
  pub settlement_known : has_account d settlement ≡ true
  pub distinct : settlement ≢ row.account_id
  pub positive : pos 0 <ℤ row.amount
  pub fits : InRange (payee.balance +ℤ row.amount)
  pub unused : find? (has_key order settlement) d.transactions ≡ none
  pub id_unused : find_by Transaction.id (env.new_uuid (c + 1)) d.transactions ≡ none
  pub new_debit : find_by JournalEntry.id (env.new_uuid (c + 3)) d.entries ≡ none
  pub new_credit : find_by JournalEntry.id (env.new_uuid (c + 5)) d.entries ≡ none
  pub new_apart : env.new_uuid (c + 3) ≢ env.new_uuid (c + 5)

module _ (env : Env DbError) (quiet : (n : ℕ) → env.fault n ≡ none) (order payment : String)
    (settlement : Uuid) where
  module _ (c : ℕ) (d : Db) (r : IsCapturable env c order settlement d) (now : Time) where
    abbrev d₀ : Db
    d₀ = marked r.row.id payment now d

    abbrev x : Transaction
    x = posted_deposit env c settlement order now r.row

    abbrev d₁ : Db
    d₁ = in_wallet env c settlement order now r.row d₀

    abbrev e₁ : JournalEntry
    e₁ = debit_row env c settlement order now r.row

    abbrev e₂ : JournalEntry
    e₂ = credit_row env c settlement order now r.row

    balance_runs : add_balance_row r.row.account_id r.row.amount (env.now c) d₀ ≡ ok d₁
    balance_runs =
        add_balance_row-accepts r.row.account_id r.row.amount (env.now c) d₀ r.payee r.payee_found
          r.fits.0 r.fits.1

    payee_after :
        find_by Account.id r.row.account_id d₁.accounts
        ≡ some (credited r.row.amount (env.now c) r.payee)
    payee_after =
        find_by-update_self Account.id (credited r.row.amount (env.now c)) (λ _. refl)
          r.row.account_id d.accounts r.payee r.payee_found

    settlement_after : has_account d₁ settlement ≡ true
    settlement_after =
        ap is_some (
          find_by-update_ne Account.id (credited r.row.amount (env.now c)) (λ _. refl)
            r.row.account_id settlement d.accounts (ground (arith, r.distinct)))
        ∙ r.settlement_known

    x-passes : TransactionPasses x d₁
    x-passes = record {
      distinct = r.distinct;
      positive = r.positive;
      new_id = r.id_unused;
      new_key = r.unused;
      from_known = settlement_after;
      to_known = rw payee_after;
    }

    insert_runs : insert_transaction_row x d₁ ≡ ok (with_transaction x d₁)
    insert_runs = insert_transaction_row-accepts x d₁ x-passes refl

    has_x : has_transaction (with_transaction x d₁) x.id ≡ true
    unfolding find_by
    has_x = ground arith

    debit_runs :
        insert_entry_row e₁ (with_transaction x d₁) ≡ ok (with_entry e₁ (with_transaction x d₁))
    debit_runs =
        insert_entry_row-accepts e₁ (with_transaction x d₁) r.positive r.new_debit has_x
          settlement_after

    new_credit_after :
        find_by JournalEntry.id
          (env.new_uuid (c + 5))
          (with_entry e₁ (with_transaction x d₁)).entries
        ≡ none
    unfolding find_by
    new_credit_after = ground (arith, r.new_apart, r.new_credit)

    credit_runs :
        insert_entry_row e₂ (with_entry e₁ (with_transaction x d₁))
        ≡ ok (deposited env c settlement order now r.row d₀)
    unfolding deposited
    credit_runs =
        insert_entry_row-accepts e₂ (with_entry e₁ (with_transaction x d₁)) r.positive
          new_credit_after has_x (rw payee_after)

    credit_deposit-runs :
        credit_deposit settlement order now r.row env (record { db = d₀; calls = c }) ≡ (
          ok (record r.row { status = paid }, true),
          record { db = deposited env c settlement order now r.row d₀; calls = c + 7 },
        )
    unfolding credit_deposit add_balance insert_transaction insert_journal_entry
    credit_deposit-runs = ground (
      arith,
      quiet c,
      quiet (c + 2),
      quiet (c + 4),
      quiet (c + 6),
      balance_runs,
      insert_runs,
      debit_runs,
      credit_runs,
    )

  module _ (w : World Db) (r : IsCapturable env (w.calls + 3) order settlement w.db) where
    abbrev now : Time
    now = env.now (w.calls + 1)

    row_of_key : find_by Deposit.id r.row.id w.db.deposits ≡ some r.row
    row_of_key = find_by-find? Deposit.id (has_order order) w.db.deposits r.row r.keyed r.row_found

    confirm_body-runs : confirm_body order payment settlement env w ≡ (
      ok (record r.row { status = paid }, true),
      record {
        db =
            deposited env
              (w.calls + 3)
              settlement
              order
              now
              r.row
              (marked r.row.id payment now w.db);
        calls = w.calls + 3 + 7;
      },
    )
    unfolding confirm_body get_deposit_by_order_id mark_deposit_paid_if_created credit_if_marked
    confirm_body-runs = ground (
      arith,
      quiet w.calls,
      quiet (w.calls + 2),
      r.row_found,
      row_of_key,
      r.was_new,
      credit_deposit-runs (w.calls + 3) w.db r now,
    )

-- A capture is credited if no call fails and `IsCapturable` holds: the order's deposit is there and
-- was only created, its wallet and the settlement account are there and differ, the amount is
-- positive and the balance stays in range, the order has no transaction, and the identifiers that
-- are drawn are new.
pub confirm_payment_succeeds :
    (env : Env DbError) (order payment : String) (settlement : Uuid) (w : World Db)
    → ((n : ℕ) → env.fault n ≡ none)
    → IsCapturable env (w.calls + 4) order settlement w.db
    → (p : Deposit) × (find? (has_order order) w.db.deposits ≡ some p)
      × ((confirm_payment order payment settlement env w).0 ≡ ok (record p { status = paid }, true))
unfolding confirm_payment
confirm_payment_succeeds env order payment settlement w quiet r =
    let n : w.calls + 4 ≡ suc w.calls + 3 = omega arith in
    let r' : IsCapturable env (suc w.calls + 3) order settlement w.db =
      subst (λ c. IsCapturable env c order settlement w.db) n r in
    let ran =
      transaction-runs db_error (confirm_body order payment settlement) env w _ _ (quiet w.calls)
        (quiet _) (confirm_body-runs env quiet order payment settlement (tick w) r') in
    (r'.row, r'.row_found, ap (λ x. x.0) ran)
