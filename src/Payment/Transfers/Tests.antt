-- ===== src/Payment/Transfers/Tests.antt =====
-- Transfers at single inputs (transfer_usecase.go), and the theorems at them.
use moneymate_backend.Shared.{
  String, ◌≡◌, refl, Option, none, some, [], ◌∷◌, find_by, update_by, str_eq, if◌then◌else◌,
}
use moneymate_backend.Shared.Int.{pos, ◌+ℤ◌, ◌-ℤ◌}
use moneymate_backend.Shared.Text.{trim_space, trim_left, trim_right}
use moneymate_backend.Shared.Action.{Env, World, Result, ok, err, transaction}
use moneymate_backend.Errors.{DbError, Error, invalid_input, driver_error, map_db_errors}
use moneymate_backend.Payment.Domain.{wallet, completed, Db, empty_db, Uuid, LedgerResult}
use moneymate_backend.Payment.Constraints.{
  insert_transaction_row, insert_entry_row, add_balance_row,
}
use moneymate_backend.Payment.Queries.{
  get_wallet_by_user_id, get_account_by_handle, get_transaction_by_idempotency_key,
  get_account_by_id, get_account_by_id_for_update, insert_transaction, insert_journal_entry,
  add_balance,
}
use moneymate_backend.Payment.Ledger.{
  read_balance, lock_accounts, record_transfer, move_balances, transfer_body, execute_transfer,
}
use moneymate_backend.Payment.Ledger.Tests.{account, calm}
use moneymate_backend.Payment.Transfers.{
  TransferInput, Parties, find_parties, find_category, new_transaction, start_transfer,
  after_lookup, transfer_between, transfer,
}
use moneymate_backend.Payment.Transfers.Replaying.{Finds}
use moneymate_backend.Payment.Transfers.Outcomes.{Settles, transfer-Settles}
use moneymate_backend.Payment.Transfers.Again.{transfer_again}

abbrev parse : String → Option Uuid
parse s = if str_eq s "u-11" then some 11 else none

abbrev start : World Db
start = record {
  db = record empty_db {
    accounts =
        account 1 wallet (pos 500)
        ∷ record (account 2 wallet (pos 100)) { handle = some "asha@mm" }
        ∷ [];
  };
  calls = 0;
}

abbrev request : TransferInput
request = record {
  authenticated_user_id = "u-11";
  to_handle = " asha@mm ";
  amount_paise = pos 120;
  idempotency_key = "k-1 ";
  description = "lunch";
  category_id = none;
}

abbrev sent : Result Error LedgerResult × World Db
sent = transfer parse request calm start

abbrev answer : LedgerResult
answer = record {
  transaction =
      record (new_transaction parse request (record { user_id = 11; from_id = 1; to_id = 2 })
        none) {
          id = 1007;
          status = completed;
          idempotency_key = "k-1";
          created_at = 8;
          completed_at = some 6;
        };
  debit_entry = none;
  credit_entry = none;
  from_balance = pos 380;
  to_balance = pos 220;
}

sends : sent ≡ (ok answer, sent.1)
unfolding transfer find_parties transfer_between after_lookup start_transfer find_category
    trim_space trim_left trim_right get_wallet_by_user_id get_account_by_handle
    get_transaction_by_idempotency_key map_db_errors execute_transfer transaction transfer_body
    lock_accounts record_transfer move_balances read_balance get_account_by_id
    get_account_by_id_for_update insert_transaction insert_journal_entry add_balance
    insert_transaction_row insert_entry_row add_balance_row find_by update_by ◌+ℤ◌ ◌-ℤ◌
sends = refl

transfer-Settles_example :
    (p : Parties) × Finds parse request start.db p
    × Settles
        (trim_space request.idempotency_key)
        p.from_id
        p.to_id
        (pos 120)
        start.db
        sent.1.db
        answer
transfer-Settles_example = transfer-Settles parse request calm start answer sent.1 sends

-- The network is down for the second attempt.
abbrev failing : Env DbError
failing = record calm { fault = λ n. some (driver_error n) }

transfer_again_example :
    (transfer parse request failing (record { db = sent.1.db; calls = 40 })).1.db ≡ sent.1.db
transfer_again_example = transfer_again parse request calm start answer sent.1 sends failing 40

abbrev refused : Result Error LedgerResult × World Db
refused = transfer parse (record request { amount_paise = pos 0 }) calm start

refuses : refused ≡ (err invalid_input, refused.1)
unfolding transfer find_parties
refuses = refl
