-- ===== src/Payment/Ledger/Posting.antt =====
-- What a transfer that returns has written (ledger_repo.go, ExecuteTransfer), stated without the
-- statements: one completed transaction, a debit and a credit entry, and two balances.
use moneymate_backend.Shared.{ℕ, ◌+◌, ◌≡◌, true, some, find_by}
use moneymate_backend.Shared.Int.{in_int64, ◌+ℤ◌, ◌≤ℤ◌}
use moneymate_backend.Shared.Action.{Env}
use moneymate_backend.Errors.{DbError}
use moneymate_backend.Payment.Domain.{
  Account, completed, Transaction, debit, credit, JournalEntry, Db,
}
use moneymate_backend.Payment.Constraints.Passing.{
  TransactionPasses, with_transaction, with_entry, with_credit,
}
use moneymate_backend.Payment.Ledger.{neg64}

-- The rows that the call numbered `c` writes, in the environment `env`.
module _ (env : Env DbError) (c : ℕ) (t : Transaction) where
  unfoldable pub posted_transaction : Transaction
  posted_transaction = record t {
    id = env.new_uuid (c + 1);
    status = completed;
    completed_at = some (env.now c);
    created_at = env.now (c + 2);
  }

  unfoldable pub debit_entry : JournalEntry
  debit_entry = record {
    id = env.new_uuid (c + 3);
    transaction_id = env.new_uuid (c + 1);
    account_id = t.from_account_id;
    amount = t.amount;
    direction = debit;
    created_at = env.now (c + 4);
  }

  unfoldable pub credit_entry : JournalEntry
  credit_entry = record {
    id = env.new_uuid (c + 5);
    transaction_id = env.new_uuid (c + 1);
    account_id = t.to_account_id;
    amount = t.amount;
    direction = credit;
    created_at = env.now (c + 6);
  }

  -- The store with these rows.
  abbrev pub recorded : Db → Db
  recorded d =
      with_entry credit_entry (with_entry debit_entry (with_transaction posted_transaction d))

  abbrev pub debited : Db → Db
  debited d = with_credit t.from_account_id (neg64 t.amount) (env.now (c + 7)) (recorded d)

  unfoldable pub posted : Db → Db
  posted d = with_credit t.to_account_id t.amount (env.now (c + 8)) (debited d)

-- What is known of a transfer that was posted: the rows that it found, and what it left.
pub record Posts (env : Env DbError) (c : ℕ) (t : Transaction) (d d' : Db) : Type 0 where
  pub sender_row : Account
  pub receiver_row : Account
  pub sender_found : find_by Account.id t.from_account_id d.accounts ≡ some sender_row
  pub receiver_found : find_by Account.id t.to_account_id d.accounts ≡ some receiver_row
  pub covered : t.amount ≤ℤ sender_row.balance
  pub fits : in_int64 (receiver_row.balance +ℤ t.amount) ≡ true
  pub passes : TransactionPasses (posted_transaction env c t) d
  pub stored : d' ≡ posted env c t d
