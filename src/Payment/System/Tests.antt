-- ===== src/Payment/System/Tests.antt =====
-- A run of calls of services/payment (routes.go), and the theorems on all runs at it.
use moneymate_backend.Shared.{
  ◌≡◌, refl, arith, none, some, List, [], ◌∷◌, find_by, update_by, if◌then◌else◌, str_eq, String,
  Option,
}
use moneymate_backend.Shared.Int.{pos, ◌+ℤ◌, ◌-ℤ◌}
use moneymate_backend.Shared.Text.{trim_space}
use moneymate_backend.Payment.Transfers.{replay}
use moneymate_backend.Shared.Action.{World, err, transaction}
use moneymate_backend.Errors.{dependency_failure, map_db_errors}
use moneymate_backend.Payment.Domain.{Uuid, Db}
use moneymate_backend.Payment.Constraints.{
  insert_transaction_row, insert_entry_row, add_balance_row, insert_account_row,
}
use moneymate_backend.Payment.Queries.{
  get_account_by_id, get_account_by_id_for_update, insert_transaction, insert_journal_entry,
  add_balance, get_wallet_by_user_id, create_wallet_row, get_deposit_by_order_id,
  mark_deposit_paid_if_created, get_transaction_by_idempotency_key, get_entries_by_transaction_id,
}
use moneymate_backend.Payment.Ledger.{
  read_balance, lock_accounts, record_transfer, move_balances, transfer_body, execute_transfer,
}
use moneymate_backend.Payment.Deposits.{
  confirm_deposit, confirm_payment, confirm_body, credit_if_marked, credit_deposit,
}
use moneymate_backend.Payment.Withdrawals.{
  system_transfer, request_withdrawal, find_wallet, withdraw_from, withdraw_unless,
}
use moneymate_backend.Payment.Wallets.{create_wallet, create_unless, settle_creation}
use moneymate_backend.Payment.Ledger.Tests.{ledger, ledger-IsSound, calm}
use moneymate_backend.Payment.Deposits.Tests.{deposit}
use moneymate_backend.Payment.Withdrawals.Tests.{payout}
use moneymate_backend.Payment.System.{
  PaymentCall, confirm_order, post_system_transfer, post_wallet, post_withdrawal, serve, serve_all,
}
use moneymate_backend.Payment.System.Soundness.{IsWhole, serve_all-IsWhole}
use moneymate_backend.Payment.System.Bookkeeping.{BookRun, book, serve_all-BookRun}

abbrev open_order : Db
open_order = record ledger { deposits = deposit ∷ [] }

abbrev start : World Db
start = record { db = open_order; calls = 0 }

abbrev parse : String → Option Uuid
parse s = if str_eq s "u-11" then some 11 else if str_eq s "u-13" then some 13 else none

-- A deposit that is confirmed twice, a reward, a withdrawal that is sent twice, and a new user.
abbrev calls : List PaymentCall
calls =
    confirm_order "order-1" "pay-1"
    ∷ post_system_transfer payout
    ∷ confirm_order "order-1" "pay-1"
    ∷ post_withdrawal "u-11" (pos 100) "w-1"
    ∷ post_wallet "u-13" "carl@moneymate"
    ∷ post_withdrawal "u-11" (pos 100) "w-1"
    ∷ []

abbrev served : World Db
served = serve_all parse (λ k. "") (λ amount id n. err dependency_failure) "key" 9 calls calm start

open_order-IsWhole : IsWhole 9 open_order
unfolding find_by ◌+ℤ◌ ◌-ℤ◌
open_order-IsWhole = record {
  sound = record {
    keyed = ledger-IsSound.keyed;
    in_range = ledger-IsSound.in_range;
    reconciled = record { at_account = ledger-IsSound.reconciled.at_account };
    balanced = ledger-IsSound.balanced;
    unique_keys = tt;
  };
  no_strays = λ k m. ground arith;
}

serve_all-IsWhole_example : IsWhole 9 served.db
serve_all-IsWhole_example =
    serve_all-IsWhole parse (λ k. "") (λ amount id n. err dependency_failure) "key" 9 calm calls
      start open_order-IsWhole

serve_all-BookRun_example : BookRun (book open_order) (book served.db)
serve_all-BookRun_example =
    serve_all-BookRun parse (λ k. "") (λ amount id n. err dependency_failure) "key" 9 calm calls
      start

-- The balances after these calls.
served_payer : book served.db 1 ≡ some (pos 25350)
unfolding serve serve_all confirm_deposit confirm_payment confirm_body credit_if_marked
    credit_deposit system_transfer request_withdrawal find_wallet withdraw_from withdraw_unless
    create_wallet create_unless settle_creation get_wallet_by_user_id create_wallet_row
    insert_account_row get_deposit_by_order_id mark_deposit_paid_if_created
    get_transaction_by_idempotency_key map_db_errors execute_transfer transaction transfer_body
    lock_accounts record_transfer move_balances read_balance get_account_by_id
    get_account_by_id_for_update insert_transaction insert_journal_entry add_balance
    insert_transaction_row insert_entry_row add_balance_row find_by update_by ◌+ℤ◌ ◌-ℤ◌ trim_space
    replay get_entries_by_transaction_id
served_payer = refl
