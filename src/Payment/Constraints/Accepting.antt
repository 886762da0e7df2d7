-- ===== src/Payment/Constraints/Accepting.antt =====
-- When a row is accepted (services/payment/migrations).
use moneymate_backend.Shared.{◌≡◌, arith, none, some, true, find_by}
use moneymate_backend.Shared.Int.{ℤ, pos, ◌+ℤ◌, ◌<ℤ◌, ◌≤ℤ◌, in_int64}
use moneymate_backend.Shared.Action.{ok}
use moneymate_backend.Payment.Domain.{Uuid, Time, Account, Transaction, JournalEntry, Db}
use moneymate_backend.Payment.Constraints.{
  has_account, has_transaction, has_category, add_balance_to, insert_transaction_row,
  insert_entry_row, add_balance_row,
}
use moneymate_backend.Payment.Constraints.Passing.{
  TransactionPasses, with_transaction, with_entry, with_credit,
}

pub insert_transaction_row-accepts :
    (t : Transaction) (d : Db)
    → TransactionPasses t d
    → has_category d t.category_id ≡ true
    → insert_transaction_row t d ≡ ok (with_transaction t d)
unfolding insert_transaction_row
insert_transaction_row-accepts t d p q = ground arith

pub insert_entry_row-accepts :
    (e : JournalEntry) (d : Db)
    → pos 0 <ℤ e.amount
    → find_by JournalEntry.id e.id d.entries ≡ none
    → has_transaction d e.transaction_id ≡ true
    → has_account d e.account_id ≡ true
    → insert_entry_row e d ≡ ok (with_entry e d)
unfolding insert_entry_row
insert_entry_row-accepts e d p q r s = ground arith

pub add_balance_row-accepts :
    (k : Uuid) (amount : ℤ) (now : Time) (d : Db) (a : Account)
    → find_by Account.id k d.accounts ≡ some a
    → pos 0 ≤ℤ a.balance +ℤ amount
    → in_int64 (a.balance +ℤ amount) ≡ true
    → add_balance_row k amount now d ≡ ok (with_credit k amount now d)
unfolding add_balance_row
add_balance_row-accepts k amount now d a f p q = rw (f, add_balance_to) (ground arith)
