-- ===== src/Payment/Withdrawals.antt =====
-- services/payment/internal/usecases: withdrawal_usecase.go, and system_tranfer_usecase.go, by which
-- other services move money between accounts that they name.
pub mod Outcomes
pub mod Tests
use moneymate_backend.Shared.{ℕ, String, Bool, true, false, ◌||◌, Option, none, some, ◌==◌}
use moneymate_backend.Shared.Int.{ℤ, pos, ltb_ℤ, leb_ℤ}
use moneymate_backend.Shared.Text.{trim_space, is_empty}
use moneymate_backend.Shared.Action.{Result, ok, err, ◌>>=◌, ◌>>◌, pure, or_raise, raise_if, handle}
use moneymate_backend.Errors.{Error, invalid_input}
use moneymate_backend.Payment.Domain.{Uuid, pending, Transaction, LedgerResult}
use moneymate_backend.Payment.Queries.{
  Call, get_wallet_by_user_id, get_transaction_by_idempotency_key,
}
use moneymate_backend.Payment.Ledger.{repo, execute_transfer}
use moneymate_backend.Payment.Transfers.{replay}

-- `minWithdrawalPaise` and `maxWithdrawalPaise`
abbrev pub min_withdrawal_paise : ℤ
min_withdrawal_paise = pos 100

abbrev pub max_withdrawal_paise : ℤ
max_withdrawal_paise = pos 20000000

abbrev pub withdrawal : Uuid → Uuid → ℤ → String → Transaction
withdrawal settlement from amount key = record {
  id = 0;
  from_account_id = from;
  to_account_id = settlement;
  amount = amount;
  status = pending;
  idempotency_key = key;
  description = "wallet withdrawal";
  category_id = none;
  created_at = 0;
  completed_at = none;
}

-- `if err == nil && existing != nil`: any error of the lookup starts the withdrawal.
unfoldable pub withdraw_unless :
    Uuid → Uuid → ℤ → String → Result Error Transaction → Call LedgerResult
withdraw_unless settlement from amount key (ok existing) = replay existing
withdraw_unless settlement from amount key (err e) =
    execute_transfer (withdrawal settlement from amount key)

unfoldable pub withdraw_from : Uuid → ℤ → String → Uuid → Call LedgerResult
withdraw_from settlement amount key from =
    handle (repo (get_transaction_by_idempotency_key key from))
      (withdraw_unless settlement from amount key)

module _ (parse_uuid : String → Option Uuid) where
  -- The tests of `RequestWithdrawal` up to the wallet.
  unfoldable pub find_wallet : String → ℤ → String → Call Uuid
  find_wallet user_id amount key = do
    raise_if (ltb_ℤ amount min_withdrawal_paise || ltb_ℤ max_withdrawal_paise amount) invalid_input
    raise_if (is_empty key) invalid_input
    uid ← or_raise (parse_uuid user_id) invalid_input
    wallet ← repo (get_wallet_by_user_id uid)
    pure wallet.id

  -- `RequestWithdrawal`
  unfoldable pub request_withdrawal : Uuid → String → ℤ → String → Call LedgerResult
  request_withdrawal settlement user_id amount key =
      find_wallet user_id amount key >>= withdraw_from settlement amount key

pub record SystemTransferInput : Type 0 where
  pub from_account_id : Uuid
  pub to_account_id : Uuid
  pub amount_paise : ℤ
  pub idempotency_key : String
  pub description : String

abbrev pub system_transaction : SystemTransferInput → Transaction
system_transaction input = record {
  id = 0;
  from_account_id = input.from_account_id;
  to_account_id = input.to_account_id;
  amount = input.amount_paise;
  status = pending;
  idempotency_key = input.idempotency_key;
  description = input.description;
  category_id = none;
  created_at = 0;
  completed_at = none;
}

-- `systemTransferUsecase.Transfer`
unfoldable pub system_transfer : SystemTransferInput → Call LedgerResult
system_transfer input = do
  raise_if (leb_ℤ input.amount_paise (pos 0)) invalid_input
  raise_if (is_empty (trim_space input.idempotency_key)) invalid_input
  raise_if (input.from_account_id == input.to_account_id) invalid_input
  execute_transfer (system_transaction input)
