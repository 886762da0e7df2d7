-- ===== src/Payment/Withdrawals/Tests.antt =====
-- Withdrawals and system transfers at single inputs, and the theorems at them.
use moneymate_backend.Shared.{
  String, ◌≡◌, ◌≢◌, ◌⊎◌, refl, Option, none, some, find_by, update_by, str_eq, if◌then◌else◌, ◌==◌,
}
use moneymate_backend.Shared.Int.{pos, ◌+ℤ◌, ◌-ℤ◌, ◌<ℤ◌}
use moneymate_backend.Shared.Action.{Env, World, Result, ok, err, transaction}
use moneymate_backend.Errors.{DbError, Error, driver_error, db_error, map_db_errors}
use moneymate_backend.Payment.Domain.{completed, Db, Uuid, LedgerResult}
use moneymate_backend.Payment.Constraints.{
  insert_transaction_row, insert_entry_row, add_balance_row,
}
use moneymate_backend.Payment.Queries.{
  get_wallet_by_user_id, get_transaction_by_idempotency_key, get_account_by_id,
  get_account_by_id_for_update, insert_transaction, insert_journal_entry, add_balance,
}
use moneymate_backend.Payment.Ledger.{
  read_balance, lock_accounts, record_transfer, move_balances, transfer_body, execute_transfer,
}
use moneymate_backend.Payment.Ledger.Transfers.{Moved, Recorded}
use moneymate_backend.Payment.Ledger.Tests.{calm, start}
use moneymate_backend.Payment.Transfers.Outcomes.{Settles}
use moneymate_backend.Payment.Withdrawals.{
  withdrawal, withdraw_unless, withdraw_from, find_wallet, request_withdrawal, SystemTransferInput,
  system_transfer,
}
use moneymate_backend.Payment.Withdrawals.Outcomes.{
  Withdraws, request_withdrawal-Settles, system_transfer_outcomes,
}

abbrev parse : String → Option Uuid
parse s = if str_eq s "u-11" then some 11 else none

abbrev withdrawn : Result Error LedgerResult × World Db
withdrawn = request_withdrawal parse 9 "u-11" (pos 300) "w-1" calm start

abbrev withdrawn_answer : LedgerResult
withdrawn_answer = record {
  transaction = record (withdrawal 9 1 (pos 300) "w-1") {
    id = 1006;
    status = completed;
    created_at = 7;
    completed_at = some 5;
  };
  debit_entry = none;
  credit_entry = none;
  from_balance = pos 200;
  to_balance = pos 300;
}

withdraws : withdrawn ≡ (ok withdrawn_answer, withdrawn.1)
unfolding request_withdrawal find_wallet withdraw_from withdraw_unless get_wallet_by_user_id
    get_transaction_by_idempotency_key map_db_errors execute_transfer transaction transfer_body
    lock_accounts record_transfer move_balances read_balance get_account_by_id
    get_account_by_id_for_update insert_transaction insert_journal_entry add_balance
    insert_transaction_row insert_entry_row add_balance_row find_by update_by ◌+ℤ◌ ◌-ℤ◌
withdraws = refl

request_withdrawal-Settles_example :
    (from : Uuid) × Withdraws 9 (pos 300) "w-1" calm parse "u-11" start from
    × Settles "w-1" from 9 (pos 300) start.db withdrawn.1.db withdrawn_answer
request_withdrawal-Settles_example =
    request_withdrawal-Settles 9 (pos 300) "w-1" calm parse "u-11" start withdrawn_answer
      withdrawn.1 withdraws

-- The database goes away at the third call.
abbrev failing : Env DbError
failing = record calm { fault = λ n. if n == 2 then some (driver_error 0) else none }

abbrev stopped : Result Error LedgerResult × World Db
stopped = request_withdrawal parse 9 "u-11" (pos 300) "w-1" failing start

stops : stopped ≡ (err (db_error (driver_error 0)), stopped.1)
unfolding request_withdrawal find_wallet withdraw_from withdraw_unless get_wallet_by_user_id
    get_transaction_by_idempotency_key map_db_errors execute_transfer transaction
stops = refl

abbrev pub payout : SystemTransferInput
payout = record {
  from_account_id = 1;
  to_account_id = 2;
  amount_paise = pos 50;
  idempotency_key = "reward-1";
  description = "reward";
}

system_transfer_outcomes_example :
    ((e : Error) × ((system_transfer payout calm start).0 ≡ err e)
      × ((system_transfer payout calm start).1.db ≡ start.db))
    ⊎ ((r : LedgerResult) × ((system_transfer payout calm start).0 ≡ ok r)
        × (pos 0 <ℤ payout.amount_paise)
        × (payout.from_account_id ≢ payout.to_account_id)
        × Moved payout.from_account_id payout.to_account_id payout.amount_paise start.db
            (system_transfer payout calm start).1.db
        × Recorded payout.idempotency_key payout.from_account_id payout.to_account_id
            payout.amount_paise
            (system_transfer payout calm start).1.db
            r.transaction)
system_transfer_outcomes_example = system_transfer_outcomes payout calm start
