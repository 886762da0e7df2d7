-- ===== src/Payment/Ledger.antt =====
-- services/payment/internal/adapter/postgres/repo/ledger_repo.go: the one place that moves money
-- between accounts, in one database transaction.
pub mod Posting
mod Steps
pub mod Executing
pub mod Conservation
pub mod Journal
pub mod Soundness
pub mod Transfers
pub mod Success
pub mod Tests
use moneymate_backend.Shared.{none, some, ltb, ◌==◌, if◌then◌else◌}
use moneymate_backend.Shared.Int.{ℤ, pos, ◌-ℤ◌, ltb_ℤ, eqb_ℤ, min_int64}
use moneymate_backend.Shared.Action.{
  Result, ok, err, ◌>>=◌, ◌>>◌, pure, raise_if, handle, map_err, get_now, draw_uuid, transaction,
}
use moneymate_backend.Errors.{Error, db_error, insufficient_funds, map_db_errors}
use moneymate_backend.Payment.Domain.{
  Uuid, Account, completed, Transaction, debit, credit, LedgerResult,
}
use moneymate_backend.Payment.Queries.{
  Query, Call, get_account_by_id, get_account_by_id_for_update, insert_transaction,
  insert_journal_entry, add_balance,
}

-- `mapDBErr` of account_repo.go. A driver's error is never `ErrNotFound` itself, and the
-- translation of an error is never nil, so the other cases do not arise.
abbrev pub repo : {A : Type 0} → Query A → Call A
repo q = map_err map_db_errors q

-- `-x` on int64: the least value is its own negative.
abbrev pub neg64 : ℤ → ℤ
neg64 x = if eqb_ℤ x min_int64 then x else pos 0 -ℤ x

-- Both accounts are locked in the order of their identifiers.
abbrev pub lock_order : Uuid → Uuid → Uuid × Uuid
lock_order from to = if ltb to from then (to, from) else (from, to)

-- Of the two locked rows, the sender's.
abbrev pub sender : Uuid → Account → Account → Account
sender from first second = if first.id == from then first else second

-- The two `SELECT … FOR UPDATE`, and the sender's row of the two.
unfoldable pub lock_accounts : Transaction → Call Account
lock_accounts t = do
  let (lock1, lock2) = lock_order t.from_account_id t.to_account_id
  first ← repo (get_account_by_id_for_update lock1)
  second ← repo (get_account_by_id_for_update lock2)
  pure (sender t.from_account_id first second)

-- The transaction's row, and its two journal entries.
unfoldable pub record_transfer : Transaction → Call Transaction
record_transfer t = do
  now ← get_now
  tx_id ← draw_uuid
  inserted ←
      repo
        (insert_transaction (record t { id = tx_id; status = completed; completed_at = some now }))
  debit_id ← draw_uuid
  repo (insert_journal_entry debit_id tx_id t.from_account_id t.amount debit)
  credit_id ← draw_uuid
  repo (insert_journal_entry credit_id tx_id t.to_account_id t.amount credit)
  pure inserted

-- The two updates of balances.
unfoldable pub move_balances : Transaction → Call Unit
move_balances t = do
  repo (add_balance t.from_account_id (neg64 t.amount))
  repo (add_balance t.to_account_id t.amount)

-- What stands between `Begin` and `Commit`.
unfoldable pub transfer_body : Transaction → Call Transaction
transfer_body t = do
  from ← lock_accounts t
  raise_if (ltb_ℤ from.balance t.amount) insufficient_funds
  inserted ← record_transfer t
  move_balances t
  pure inserted

-- `if acc, err := …; err == nil { balance = acc.Balance }`
abbrev pub balance_or_zero : Result Error Account → ℤ
balance_or_zero (ok a) = a.balance
balance_or_zero (err e) = pos 0

unfoldable pub read_balance : Uuid → Call ℤ
read_balance k = handle (repo (get_account_by_id k)) λ r. pure (balance_or_zero r)

-- `ExecuteTransfer`
unfoldable pub execute_transfer : Transaction → Call LedgerResult
execute_transfer t = do
  inserted ← transaction db_error (transfer_body t)
  from_balance ← read_balance t.from_account_id
  to_balance ← read_balance t.to_account_id
  pure (record {
    transaction = inserted;
    debit_entry = none;
    credit_entry = none;
    from_balance = from_balance;
    to_balance = to_balance;
  })
