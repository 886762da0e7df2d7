-- ===== src/Payment/Queries.antt =====
-- services/payment/sqlc/generated: each query is one statement on the store.
use moneymate_backend.Shared.{
  ℕ, String, Bool, true, false, ◌&&◌, Option, none, some, List, [], ◌∷◌, find?, keep_if, find_by,
  update_by, delete_by, str_eq, ◌==◌, if◌then◌else◌,
}
use moneymate_backend.Shared.Int.{ℤ, pos, ◌+ℤ◌, in_int64}
use moneymate_backend.Shared.Action.{Result, ok, err, Action, statement, query}
use moneymate_backend.Errors.{DbError, no_rows, pg_error, Error}
use moneymate_backend.Payment.Domain.{
  Uuid, Time, AccountType, wallet, is_wallet, Account, Transaction, Direction, JournalEntry,
  DepositStatus, created, paid, failed, Deposit, Pod, Category, Db,
}
use moneymate_backend.Payment.Constraints.{
  has_key, same_uuid, same_text, insert_transaction_row, insert_entry_row, add_balance_row,
  insert_deposit_row, insert_pod_row, insert_account_row,
}

abbrev pub Query : Type 0 → Type 0
Query A = Action DbError Db DbError A

-- A method of a repository or of a use case.
abbrev pub Call : Type 0 → Type 0
Call A = Action DbError Db Error A

-- `:one`
abbrev pub one : {A : Type 0} → Option A → Result DbError A
one none = err no_rows
one (some a) = ok a

-- A row that is written and returned.
abbrev pub returning : {A : Type 0} → A → Result DbError Db → Result DbError (A × Db)
returning a (ok d) = ok (a, d)
returning a (err e) = err e

abbrev account_by_id : Uuid → Db → Result DbError Account
account_by_id k d = one (find_by Account.id k d.accounts)

unfoldable pub get_account_by_id : Uuid → Query Account
get_account_by_id k = query (account_by_id k)

-- The row lock of `FOR UPDATE` is not part of the store: transactions are run one after another.
unfoldable pub get_account_by_id_for_update : Uuid → Query Account
get_account_by_id_for_update k = query (account_by_id k)

unfoldable pub get_account_by_handle : String → Query Account
get_account_by_handle handle =
    query λ d. one (find? (λ a. same_text (Account.handle a) (some handle)) d.accounts)

abbrev pub is_wallet_of : Uuid → Account → Bool
is_wallet_of user a = same_uuid a.user_id (some user) && is_wallet a.type

unfoldable pub get_wallet_by_user_id : Uuid → Query Account
get_wallet_by_user_id user = query λ d. one (find? (is_wallet_of user) d.accounts)

unfoldable pub list_accounts_by_user : Uuid → Query (List Account)
list_accounts_by_user user =
    query λ d. ok (keep_if (λ a. same_uuid (Account.user_id a) (some user)) d.accounts)

abbrev pub sum_balances : List Account → ℤ
sum_balances [] = pos 0
sum_balances (a ∷ rest) = a.balance +ℤ sum_balances rest

-- The cast of a sum that leaves BIGINT is an error.
abbrev pub to_bigint : ℤ → Result DbError ℤ
to_bigint x = if in_int64 x then ok x else err (pg_error "22003" "")

unfoldable pub get_total_balance_by_user : Uuid → Query ℤ
get_total_balance_by_user user = query λ d.
    to_bigint (sum_balances (keep_if (λ a. same_uuid (Account.user_id a) (some user)) d.accounts))

unfoldable pub add_balance : Uuid → ℤ → Query Unit
add_balance k amount = statement λ now _ d. returning tt (add_balance_row k amount now d)

abbrev pub new_account :
    Option Uuid → Option Uuid → AccountType → String → Option String → Time → Uuid → Account
new_account user merchant type currency handle now fresh = record {
  id = fresh;
  user_id = user;
  merchant_id = merchant;
  type = type;
  currency = currency;
  balance = pos 0;
  handle = handle;
  version = 0;
  created_at = now;
  updated_at = now;
}

unfoldable pub create_account : Option Uuid → Option Uuid → AccountType → String → Query Account
create_account user merchant type currency = statement λ now fresh d.
    let a = new_account user merchant type currency none now fresh in
    returning a (insert_account_row a d)

unfoldable pub create_wallet_row : Option Uuid → String → Option String → Query Account
create_wallet_row user currency handle = statement λ now fresh d.
    let a = new_account user none wallet currency handle now fresh in
    returning a (insert_account_row a d)

unfoldable pub insert_transaction : Transaction → Query Transaction
insert_transaction t =
    statement λ now _ d.
      let t' = record t { created_at = now } in returning t' (insert_transaction_row t' d)

unfoldable pub get_transaction_by_id : Uuid → Query Transaction
get_transaction_by_id k = query λ d. one (find_by Transaction.id k d.transactions)

unfoldable pub get_transaction_by_idempotency_key : String → Uuid → Query Transaction
get_transaction_by_idempotency_key key from =
    query λ d. one (find? (has_key key from) d.transactions)

unfoldable pub insert_journal_entry : Uuid → Uuid → Uuid → ℤ → Direction → Query Unit
insert_journal_entry id transaction account amount direction = statement λ now _ d.
    let e : JournalEntry = record {
      id = id;
      transaction_id = transaction;
      account_id = account;
      amount = amount;
      direction = direction;
      created_at = now;
    } in
    returning tt (insert_entry_row e d)

-- `ORDER BY created_at`: the entries of one transaction carry the one `NOW()` of their transaction, so
-- the statement leaves their order open; here it is the table's.
unfoldable pub get_entries_by_transaction_id : Uuid → Query (List JournalEntry)
get_entries_by_transaction_id k =
    query λ d. ok (keep_if (λ e. JournalEntry.transaction_id e == k) d.entries)

unfoldable pub create_deposit : Uuid → Uuid → Uuid → String → ℤ → Query Deposit
create_deposit id user account order amount = statement λ now _ d.
    let p : Deposit = record {
      id = id;
      user_id = user;
      account_id = account;
      razorpay_order_id = order;
      razorpay_payment_id = "";
      amount = amount;
      status = created;
      created_at = now;
      completed_at = none;
    } in
    returning p (insert_deposit_row p d)

abbrev pub has_order : String → Deposit → Bool
has_order order p = str_eq p.razorpay_order_id order

unfoldable pub get_deposit_by_order_id : String → Query Deposit
get_deposit_by_order_id order = query λ d. one (find? (has_order order) d.deposits)

abbrev pub is_created : DepositStatus → Bool
is_created created = true
is_created _ = false

abbrev pub pay : String → Time → Deposit → Deposit
pay payment now p = record p {
  status = paid;
  razorpay_payment_id = payment;
  completed_at = some now;
}

abbrev pay_if_created : Uuid → String → Time → Db → Option Deposit → ℕ × Db
pay_if_created k payment now d none = (0, d)
pay_if_created k payment now d (some p) =
    if is_created p.status
    then (1, record d { deposits = update_by Deposit.id k (pay payment now) d.deposits })
    else (0, d)

-- `… WHERE id = $1 AND status = 'created'`, with the number of rows; `id` is the primary key.
unfoldable pub mark_deposit_paid_if_created : Uuid → String → Time → Query ℕ
mark_deposit_paid_if_created k payment now =
    statement λ _ _ d. ok (pay_if_created k payment now d (find_by Deposit.id k d.deposits))

abbrev pub fail : String → Deposit → Deposit
fail payment p = record p { status = failed; razorpay_payment_id = payment }

unfoldable pub mark_deposit_failed : Uuid → String → Query Unit
mark_deposit_failed k payment =
    statement
      λ _ _ d. ok (tt, record d { deposits = update_by Deposit.id k (fail payment) d.deposits })

unfoldable pub create_pod : Pod → Query Pod
create_pod p = statement λ now _ d.
    let p' = record p { created_at = now; updated_at = now } in returning p' (insert_pod_row p' d)

unfoldable pub get_pod_by_id : Uuid → Query Pod
get_pod_by_id k = query λ d. one (find_by Pod.id k d.pods)

unfoldable pub list_pods_by_user : Uuid → Query (List Pod)
list_pods_by_user user = query λ d. ok (keep_if (λ p. Pod.user_id p == user) d.pods)

abbrev pub updated_pod : Pod → Time → Pod → Pod
updated_pod p now row = record row {
  name = p.name;
  target_amount = p.target_amount;
  target_date = p.target_date;
  icon = p.icon;
  status = p.status;
  updated_at = now;
}

abbrev pub update_pod_row : Pod → Time → Db → Option Pod → Result DbError (Pod × Db)
update_pod_row p now d none = err no_rows
update_pod_row p now d (some row) =
    ok (updated_pod p now row, record d { pods = update_by Pod.id p.id (updated_pod p now) d.pods })

unfoldable pub update_pod : Pod → Query Pod
update_pod p = statement λ now _ d. update_pod_row p now d (find_by Pod.id p.id d.pods)

unfoldable pub delete_pod : Uuid → Query Unit
delete_pod k = statement λ _ _ d. ok (tt, record d { pods = delete_by Pod.id k d.pods })

unfoldable pub get_category_by_id : Uuid → Query Category
get_category_by_id k = query λ d. one (find_by Category.id k d.categories)
