-- ===== src/Payment/Ledger/Tests.antt =====
-- A small ledger, runs of ExecuteTransfer (ledger_repo.go) on it, and the theorems at these inputs.
use moneymate_backend.Shared.{
  ◌+◌, ◌==◌, if◌then◌else◌, ◌≡◌, refl, arith, none, some, [], ◌∷◌, find_by, update_by, find?,
}
use moneymate_backend.Shared.Int.{ℤ, pos, ◌+ℤ◌, ◌-ℤ◌}
use moneymate_backend.Shared.Action.{Env, World, ok, err, transaction}
use moneymate_backend.Errors.{DbError, driver_error, db_error, map_db_errors}
use moneymate_backend.Payment.Queries.{
  get_account_by_id, get_account_by_id_for_update, insert_transaction, insert_journal_entry,
  add_balance, sum_balances,
}
use moneymate_backend.Payment.Ledger.{
  read_balance, lock_accounts, record_transfer, move_balances, transfer_body, execute_transfer,
}
use moneymate_backend.Payment.Constraints.{
  has_key, insert_transaction_row, insert_entry_row, add_balance_row,
}
use moneymate_backend.Payment.Ledger.Soundness.{
  IsSound, execute_transfer-IsSound, execute_transfer_conserves,
}
use moneymate_backend.Payment.Ledger.Transfers.{Moved, Recorded, execute_transfer_moves}
use moneymate_backend.Payment.Ledger.Success.{IsReady, execute_transfer_succeeds}
use moneymate_backend.Payment.Domain.{
  Account, wallet, external_settlement, AccountType, Transaction, completed, pending, JournalEntry,
  debit, credit, Direction, Db, empty_db, Uuid, LedgerResult,
}

abbrev pub account : Uuid → AccountType → ℤ → Account
account k type balance = record {
  id = k;
  user_id = some (k + 10);
  merchant_id = none;
  type = type;
  currency = "INR";
  balance = balance;
  handle = none;
  version = 0;
  created_at = 0;
  updated_at = 0;
}

abbrev pub entry : Uuid → Uuid → Uuid → ℤ → Direction → JournalEntry
entry k transaction account amount direction = record {
  id = k;
  transaction_id = transaction;
  account_id = account;
  amount = amount;
  direction = direction;
  created_at = 0;
}

-- Two wallets with money that came from outside, account 9.
abbrev pub ledger : Db
ledger = record empty_db {
  accounts =
      account 1 wallet (pos 500)
      ∷ account 2 wallet (pos 100)
      ∷ account 9 external_settlement (pos 0)
      ∷ [];
  entries =
      entry 21 11 1 (pos 500) credit
      ∷ entry 22 11 9 (pos 500) debit
      ∷ entry 23 12 2 (pos 100) credit
      ∷ entry 24 12 9 (pos 100) debit
      ∷ [];
}

abbrev pub calm : Env DbError
calm = record { fault = λ n. none; now = λ n. n; new_uuid = λ n. 1000 + n }

abbrev pub start : World Db
start = record { db = ledger; calls = 0 }

abbrev pub payment : Transaction
payment = record {
  id = 0;
  from_account_id = 1;
  to_account_id = 2;
  amount = pos 120;
  status = pending;
  idempotency_key = "k-1";
  description = "lunch";
  category_id = none;
  created_at = 0;
  completed_at = none;
}

pub ledger-IsSound : IsSound 9 ledger
unfolding find_by ◌+ℤ◌ ◌-ℤ◌
ledger-IsSound = record {
  keyed = ground arith;
  in_range = λ k a f. ground arith;
  reconciled = record { at_account = λ k a n f. ground arith };
  balanced = refl;
  unique_keys = tt;
}

payment-IsReady : IsReady calm 3 payment ledger
unfolding find_by ◌+ℤ◌
payment-IsReady = record {
  payer = account 1 wallet (pos 500);
  payee = account 2 wallet (pos 100);
  payer_found = refl;
  payee_found = refl;
  payer_in_range = ground arith;
  distinct = omega arith;
  positive = omega arith;
  covered = omega arith;
  fits = ground arith;
  unused = refl;
  category_known = refl;
  id_unused = refl;
  new_debit = refl;
  new_credit = refl;
  new_apart = omega arith;
}

execute_transfer-IsSound_example : IsSound 9 (execute_transfer payment calm start).1.db
execute_transfer-IsSound_example = execute_transfer-IsSound calm payment start 9 ledger-IsSound

execute_transfer_conserves_example :
    sum_balances (execute_transfer payment calm start).1.db.accounts ≡ sum_balances ledger.accounts
execute_transfer_conserves_example =
    execute_transfer_conserves calm payment start ledger-IsSound.keyed

execute_transfer_succeeds_example :
    (r : LedgerResult) × ((execute_transfer payment calm start).0 ≡ ok r)
execute_transfer_succeeds_example =
    execute_transfer_succeeds calm payment start (λ n. refl) payment-IsReady

abbrev pub after : World Db
after = (execute_transfer payment calm start).1

-- A second request with the key of the first.
abbrev pub used : World Db
used = record { db = after.db; calls = 0 }

-- The database goes away before the second update of a balance.
abbrev pub failing : Env DbError
failing = record calm { fault = λ n. if n == 11 then some (driver_error 0) else none }

transferred : execute_transfer payment calm start ≡ (
  ok (record {
    transaction = record payment {
      id = 1004;
      status = completed;
      created_at = 5;
      completed_at = some 3;
    };
    debit_entry = none;
    credit_entry = none;
    from_balance = pos 380;
    to_balance = pos 220;
  }),
  after,
)
unfolding execute_transfer transaction transfer_body lock_accounts record_transfer move_balances
    read_balance get_account_by_id get_account_by_id_for_update insert_transaction
    insert_journal_entry add_balance insert_transaction_row insert_entry_row add_balance_row find_by
    update_by ◌+ℤ◌ ◌-ℤ◌
transferred = refl

execute_transfer_moves_example :
    Moved payment.from_account_id payment.to_account_id payment.amount ledger after.db
    × Recorded payment.idempotency_key payment.from_account_id payment.to_account_id payment.amount
        after.db
        (record payment { id = 1004; status = completed; created_at = 5; completed_at = some 3 })
execute_transfer_moves_example = execute_transfer_moves calm payment start _ after transferred

by_key :
    find? (has_key "k-1" 1) used.db.transactions
    ≡ some (record payment { id = 1004; status = completed; created_at = 5; completed_at = some 3 })
unfolding execute_transfer transaction transfer_body lock_accounts record_transfer move_balances
    read_balance get_account_by_id get_account_by_id_for_update insert_transaction
    insert_journal_entry add_balance insert_transaction_row insert_entry_row add_balance_row find_by
    update_by ◌+ℤ◌ ◌-ℤ◌
by_key = refl

failed :
    execute_transfer payment failing start
    ≡ (err (db_error (driver_error 0)), (execute_transfer payment failing start).1)
unfolding map_db_errors execute_transfer transaction transfer_body lock_accounts record_transfer
    move_balances read_balance get_account_by_id get_account_by_id_for_update insert_transaction
    insert_journal_entry add_balance insert_transaction_row insert_entry_row add_balance_row find_by
    update_by ◌+ℤ◌ ◌-ℤ◌
failed = refl
