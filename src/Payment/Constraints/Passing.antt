-- ===== src/Payment/Constraints/Passing.antt =====
-- What a row that was written has passed (services/payment/migrations), and the store after it.
use moneymate_backend.Shared.{
  String, str_eq, eq_iff, true, none, some, ◌∷◌, ◌≡◌, ◌≢◌, ◌⊎◌, arith, find?, find_by, update_by,
}
use moneymate_backend.Shared.Int.{ℤ, pos, ◌+ℤ◌, ◌<ℤ◌, ◌≤ℤ◌, in_int64}
use moneymate_backend.Shared.Action.{ok, err}
use moneymate_backend.Errors.{DbError}
use moneymate_backend.Payment.Domain.{
  Uuid, Time, Account, Transaction, JournalEntry, Deposit, Pod, Db,
}
use moneymate_backend.Payment.Constraints.{
  has_account, has_transaction, has_key, credited, add_balance_to, insert_transaction_row,
  insert_entry_row, add_balance_row, insert_deposit_row, insert_pod_row, insert_account_row,
}

pub record TransactionPasses (t : Transaction) (d : Db) : Type 0 where
  pub distinct : t.from_account_id ≢ t.to_account_id
  pub positive : pos 0 <ℤ t.amount
  pub new_id : find_by Transaction.id t.id d.transactions ≡ none
  pub new_key : find? (has_key t.idempotency_key t.from_account_id) d.transactions ≡ none
  pub from_known : has_account d t.from_account_id ≡ true
  pub to_known : has_account d t.to_account_id ≡ true

abbrev pub with_transaction : Transaction → Db → Db
with_transaction t d = record d { transactions = t ∷ d.transactions }

pub insert_transaction_row-cases :
    (t : Transaction) (d : Db)
    → ((insert_transaction_row t d ≡ ok (with_transaction t d)) × TransactionPasses t d)
      ⊎ ((e : DbError) × (insert_transaction_row t d ≡ err e))
unfolding insert_transaction_row
insert_transaction_row-cases t d = ground arith

abbrev pub with_entry : JournalEntry → Db → Db
with_entry e d = record d { entries = e ∷ d.entries }

pub insert_entry_row-cases :
    (e : JournalEntry) (d : Db)
    → ((insert_entry_row e d ≡ ok (with_entry e d))
        × (find_by JournalEntry.id e.id d.entries ≡ none)
        × (has_transaction d e.transaction_id ≡ true))
      ⊎ ((x : DbError) × (insert_entry_row e d ≡ err x))
unfolding insert_entry_row
insert_entry_row-cases e d = ground arith

abbrev pub with_credit : Uuid → ℤ → Time → Db → Db
with_credit k amount now d = record d {
  accounts = update_by Account.id k (credited amount now) d.accounts;
}

-- On a row that is there.
pub add_balance_row-cases :
    (k : Uuid) (amount : ℤ) (now : Time) (d : Db) (a : Account)
    → find_by Account.id k d.accounts ≡ some a
    → ((add_balance_row k amount now d ≡ ok (with_credit k amount now d))
        × (pos 0 ≤ℤ a.balance +ℤ amount)
        × (in_int64 (a.balance +ℤ amount) ≡ true))
      ⊎ ((x : DbError) × (add_balance_row k amount now d ≡ err x))
unfolding add_balance_row
add_balance_row-cases k amount now d a e = rw (e, add_balance_to) (ground arith)

pub has_key_self :
    (key : String) (from : Uuid) (t : Transaction)
    → t.idempotency_key ≡ key
    → t.from_account_id ≡ from
    → has_key key from t ≡ true
has_key_self key from t p q = ground (arith, eq_iff t.idempotency_key key)

abbrev pub with_deposit : Deposit → Db → Db
with_deposit p d = record d { deposits = p ∷ d.deposits }

pub insert_deposit_row-cases :
    (p : Deposit) (d : Db)
    → ((insert_deposit_row p d ≡ ok (with_deposit p d))
        × (find_by Deposit.id p.id d.deposits ≡ none)
        × (find? (λ q. str_eq (Deposit.razorpay_order_id q) p.razorpay_order_id) d.deposits ≡ none))
      ⊎ ((e : DbError) × (insert_deposit_row p d ≡ err e))
unfolding insert_deposit_row
insert_deposit_row-cases p d = ground arith

abbrev pub with_pod : Pod → Db → Db
with_pod p d = record d { pods = p ∷ d.pods }

pub insert_pod_row-cases :
    (p : Pod) (d : Db)
    → ((insert_pod_row p d ≡ ok (with_pod p d))
        × (find_by Pod.id p.id d.pods ≡ none)
        × (find_by Pod.account_id p.account_id d.pods ≡ none))
      ⊎ ((e : DbError) × (insert_pod_row p d ≡ err e))
unfolding insert_pod_row
insert_pod_row-cases p d = ground arith

abbrev pub with_account : Account → Db → Db
with_account a d = record d { accounts = a ∷ d.accounts }

pub insert_account_row-cases :
    (a : Account) (d : Db)
    → ((insert_account_row a d ≡ ok (with_account a d))
        × (find_by Account.id a.id d.accounts ≡ none))
      ⊎ ((e : DbError) × (insert_account_row a d ≡ err e))
unfolding insert_account_row
insert_account_row-cases a d = ground arith
