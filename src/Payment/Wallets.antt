-- ===== src/Payment/Wallets.antt =====
-- services/payment/internal/usecases/wallet_usecase.go, and the methods of account_repo.go under it.
pub mod Opening
pub mod Tests
use moneymate_backend.Shared.{String, Bool, true, false, Option, none, some, List, if◌then◌else◌}
use moneymate_backend.Shared.Int.{ℤ}
use moneymate_backend.Shared.Text.{is_empty}
use moneymate_backend.Shared.Action.{
  Result, ok, err, ◌>>=◌, ◌>>◌, pure, raise, or_raise, raise_if, handle,
}
use moneymate_backend.Errors.{Error, not_found, already_exists, invalid_input}
use moneymate_backend.Payment.Domain.{Uuid, Account}
use moneymate_backend.Payment.Queries.{
  Call, get_account_by_id, get_account_by_handle, get_wallet_by_user_id, get_total_balance_by_user,
  list_accounts_by_user, create_wallet_row,
}
use moneymate_backend.Payment.Ledger.{repo}
use moneymate_backend.Payment.Transfers.{is_not_found}

abbrev pub is_already_exists : Error → Bool
is_already_exists already_exists = true
is_already_exists _ = false

-- `WalletBalanceResponse`
pub record WalletBalanceResponse : Type 0 where
  pub wallet : Account
  pub total_balance : ℤ

-- A wallet that could not be created because it is there, or because its handle is, is looked up.
unfoldable pub settle_creation : Uuid → Result Error Account → Call Account
settle_creation uid (ok created) = pure created
settle_creation uid (err e) =
    if is_already_exists e then repo (get_wallet_by_user_id uid) else raise e

-- After the lookup of the user's wallet.
unfoldable pub create_unless : Uuid → String → Result Error Account → Call Account
create_unless uid name (ok existing) = pure existing
create_unless uid name (err e) =
    if is_not_found e
    then handle (repo (create_wallet_row (some uid) "INR" (some name))) (settle_creation uid)
    else raise e

-- `ListAccounts`
unfoldable pub list_accounts : Uuid → Call (List Account)
list_accounts user = repo (list_accounts_by_user user)

-- `GetByHandle`
unfoldable pub get_by_handle : String → Call Account
get_by_handle name = raise_if (is_empty name) invalid_input >> repo (get_account_by_handle name)

module _ (parse_uuid : String → Option Uuid) where
  -- `CreateWallet`
  unfoldable pub create_wallet : String → String → Call Account
  create_wallet user_id name = do
    uid ← or_raise (parse_uuid user_id) invalid_input
    raise_if (is_empty name) invalid_input
    handle (repo (get_wallet_by_user_id uid)) (create_unless uid name)

  -- `GetWallet`
  unfoldable pub get_wallet : String → Call Account
  get_wallet user_id = do
    uid ← or_raise (parse_uuid user_id) invalid_input
    repo (get_wallet_by_user_id uid)

  -- `GetWalletWithTotal`
  unfoldable pub get_wallet_with_total : String → Call WalletBalanceResponse
  get_wallet_with_total user_id = do
    uid ← or_raise (parse_uuid user_id) invalid_input
    wallet ← repo (get_wallet_by_user_id uid)
    total ← repo (get_total_balance_by_user uid)
    pure (record { wallet = wallet; total_balance = total })

  -- `GetByID`
  unfoldable pub get_account : String → Call Account
  get_account text = do id ← or_raise (parse_uuid text) invalid_input; repo (get_account_by_id id)

  -- `GetTotalBalance`
  unfoldable pub get_total_balance : String → Call ℤ
  get_total_balance user_id = do
    uid ← or_raise (parse_uuid user_id) invalid_input
    repo (get_total_balance_by_user uid)
