-- ===== src/Payment/Constraints.antt =====
-- The constraints of services/payment/migrations, as the tests that PostgreSQL makes when a row is
-- written. A violation is reported with its SQLSTATE and the constraint's name.
pub mod Passing
pub mod Accepting
use moneymate_backend.Shared.{
  ◌+◌, String, Bool, true, false, not, ◌&&◌, ◌||◌, Option, none, some, ◌∷◌, is_some, find?, find_by,
  update_by, str_eq, ◌==◌, if◌then◌else◌,
}
use moneymate_backend.Shared.Int.{ℤ, pos, ◌+ℤ◌, ltb_ℤ, in_int64}
use moneymate_backend.Shared.Action.{Result, ok, err}
use moneymate_backend.Errors.{DbError, pg_error}
use moneymate_backend.Payment.Domain.{
  Uuid, Time, AccountType, platform_commission, external_settlement, is_wallet, Account,
  Transaction, JournalEntry, Deposit, Pod, Category, Db,
}

-- One test of a constraint.
abbrev pub violates : {A : Type 0} → Bool → String → String → Result DbError A → Result DbError A
violates c code name rest = if c then err (pg_error code name) else rest

abbrev pub has_account : Db → Uuid → Bool
has_account d k = is_some (find_by Account.id k d.accounts)

abbrev pub has_transaction : Db → Uuid → Bool
has_transaction d k = is_some (find_by Transaction.id k d.transactions)

abbrev pub is_positive : ℤ → Bool
is_positive x = ltb_ℤ (pos 0) x

-- The row of a unique index on (idempotency_key, from_account_id).
abbrev pub has_key : String → Uuid → Transaction → Bool
has_key key from t = str_eq t.idempotency_key key && t.from_account_id == from

abbrev pub has_category : Db → Option Uuid → Bool
has_category d none = true
has_category d (some c) = is_some (find? (λ r. Category.id r == c) d.categories)

-- `INSERT INTO payment.transactions`
unfoldable pub insert_transaction_row : Transaction → Db → Result DbError Db
insert_transaction_row t d =
    violates (t.from_account_id == t.to_account_id) "23514" "chk_distinct_accounts" (
      violates (not (is_positive t.amount)) "23514" "transactions_amount_check" (
        violates (has_transaction d t.id) "23505" "transactions_pkey" (
          violates (is_some (find? (has_key t.idempotency_key t.from_account_id) d.transactions))
            "23505" "transactions_idempotency_key"
            (violates (not (has_account d t.from_account_id)) "23503"
              "transactions_from_account_id_fkey"
              (violates (not (has_account d t.to_account_id)) "23503"
                "transactions_to_account_id_fkey"
                (violates (not (has_category d t.category_id)) "23503"
                  "transactions_category_id_fkey"
                  (ok (record d { transactions = t ∷ d.transactions }))))))))

-- `INSERT INTO payment.journal_entries`
unfoldable pub insert_entry_row : JournalEntry → Db → Result DbError Db
insert_entry_row e d =
    violates (not (is_positive e.amount)) "23514" "journal_entries_amount_check" (
      violates (is_some (find_by JournalEntry.id e.id d.entries)) "23505" "journal_entries_pkey" (
        violates (not (has_transaction d e.transaction_id)) "23503"
          "journal_entries_transaction_id_fkey"
          (violates (not (has_account d e.account_id)) "23503" "journal_entries_account_id_fkey"
            (ok (record d { entries = e ∷ d.entries })))))

-- `SET balance = balance + $2, version = version + 1, updated_at = NOW()`
abbrev pub credited : ℤ → Time → Account → Account
credited amount now a = record a {
  balance = a.balance +ℤ amount;
  version = a.version + 1;
  updated_at = now;
}

-- `UPDATE payment.accounts … WHERE id = $1`: no row is no error, a sum outside BIGINT is error 22003.
abbrev pub add_balance_to : Uuid → ℤ → Time → Db → Option Account → Result DbError Db
add_balance_to k amount now d none = ok d
add_balance_to k amount now d (some a) =
    violates (not (in_int64 (a.balance +ℤ amount))) "22003" "" (
      violates (ltb_ℤ (a.balance +ℤ amount) (pos 0)) "23514" "wallets_balance_check"
        (ok (record d { accounts = update_by Account.id k (credited amount now) d.accounts })))

unfoldable pub add_balance_row : Uuid → ℤ → Time → Db → Result DbError Db
add_balance_row k amount now d = add_balance_to k amount now d (find_by Account.id k d.accounts)

-- `INSERT INTO payment.deposits`
unfoldable pub insert_deposit_row : Deposit → Db → Result DbError Db
insert_deposit_row p d = violates (not (is_positive p.amount)) "23514" "deposits_amount_check" (
    violates (is_some (find_by Deposit.id p.id d.deposits)) "23505" "deposits_pkey" (
      violates
        (is_some (find? (λ q. str_eq (Deposit.razorpay_order_id q) p.razorpay_order_id) d.deposits))
        "23505" "deposits_razorpay_order_id_key"
        (violates (not (has_account d p.account_id)) "23503" "deposits_account_id_fkey"
          (ok (record d { deposits = p ∷ d.deposits })))))

-- `INSERT INTO payment.pods`
unfoldable pub insert_pod_row : Pod → Db → Result DbError Db
insert_pod_row p d = violates (is_some (find_by Pod.id p.id d.pods)) "23505" "pods_pkey" (
    violates (is_some (find_by Pod.account_id p.account_id d.pods)) "23505" "pods_account_id_key" (
      violates (not (has_account d p.account_id)) "23503" "pods_account_id_fkey"
        (ok (record d { pods = p ∷ d.pods }))))

-- Two values of a nullable column that are equal: NULL equals nothing.
abbrev pub same_uuid : Option Uuid → Option Uuid → Bool
same_uuid (some a) (some b) = a == b
same_uuid _ _ = false

abbrev pub same_text : Option String → Option String → Bool
same_text (some a) (some b) = str_eq a b
same_text _ _ = false

abbrev pub is_external_settlement : AccountType → Bool
is_external_settlement external_settlement = true
is_external_settlement _ = false

-- `chk_account_owner` of migration 000004
abbrev pub has_owner : Account → Bool
has_owner a = is_some a.user_id || is_some a.merchant_id || may_be_ownerless a.type
  where
    may_be_ownerless : AccountType → Bool
    may_be_ownerless platform_commission = true
    may_be_ownerless external_settlement = true
    may_be_ownerless _ = false

-- `INSERT INTO payment.accounts`, with the partial unique indexes of migrations 000001, 000006 and
-- 000007.
unfoldable pub insert_account_row : Account → Db → Result DbError Db
insert_account_row a d = violates (not (has_owner a)) "23514" "chk_account_owner" (
    violates (has_account d a.id) "23505" "accounts_pkey" (
      violates
        (is_wallet a.type
          && is_some (
              find? (λ b. is_wallet (Account.type b) && same_uuid (Account.user_id b) a.user_id)
                d.accounts))
        "23505" "idx_accounts_wallet_per_user"
        (violates (is_some (find? (λ b. same_text (Account.handle b) a.handle) d.accounts)) "23505"
          "idx_accounts_handle"
          (violates
            (is_external_settlement a.type
              && is_some (find? (λ b. is_external_settlement (Account.type b)) d.accounts))
            "23505" "idx_accounts_external_settlement_singleton"
            (ok (record d { accounts = a ∷ d.accounts }))))))
