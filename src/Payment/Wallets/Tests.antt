-- ===== src/Payment/Wallets/Tests.antt =====
-- Wallets at single inputs (wallet_usecase.go), and the theorems at them.
use moneymate_backend.Shared.{
  String, ◌≡◌, refl, false, Option, none, some, [], ◌∷◌, find_by, str_eq, if◌then◌else◌,
}
use moneymate_backend.Shared.Int.{pos, ◌+ℤ◌}
use moneymate_backend.Shared.Text.{is_empty}
use moneymate_backend.Shared.Action.{World, Result, ok, err}
use moneymate_backend.Errors.{Error, map_db_errors, not_found, invalid_input}
use moneymate_backend.Payment.Domain.{Uuid, Account, wallet, Db, empty_db}
use moneymate_backend.Payment.Constraints.{insert_account_row}
use moneymate_backend.Payment.Queries.{
  get_account_by_handle, get_wallet_by_user_id, get_total_balance_by_user, list_accounts_by_user,
  create_wallet_row,
}
use moneymate_backend.Payment.Ledger.Tests.{calm}
use moneymate_backend.Payment.Wallets.{
  settle_creation, create_unless, list_accounts, get_by_handle, create_wallet, get_wallet,
  get_wallet_with_total, get_account, get_total_balance,
}
use moneymate_backend.Payment.Wallets.Opening.{Opens, create_wallet-Opens}

abbrev parse : String → Option Uuid
parse s = if str_eq s "u-1" then some 1 else if str_eq s "u-2" then some 2 else none

abbrev ann : Account
ann = record {
  id = 7;
  user_id = some 1;
  merchant_id = none;
  type = wallet;
  currency = "INR";
  balance = pos 500;
  handle = some "ann@moneymate";
  version = 0;
  created_at = 0;
  updated_at = 0;
}

abbrev start : World Db
start = record { db = record empty_db { accounts = ann ∷ [] }; calls = 0 }

abbrev opening : Result Error Account × World Db
opening = create_wallet parse "u-2" "bob@moneymate" calm start

abbrev bob : Account
bob = record ann {
  id = 1001;
  user_id = some 2;
  balance = pos 0;
  handle = some "bob@moneymate";
  created_at = 1;
  updated_at = 1;
}

opens : opening ≡ (ok bob, opening.1)
unfolding create_wallet create_unless settle_creation get_wallet_by_user_id create_wallet_row
    insert_account_row map_db_errors find_by
opens = refl

create_wallet-Opens_example :
    (uid : Uuid) × (parse "u-2" ≡ some uid)
    × (is_empty "bob@moneymate" ≡ false)
    × Opens uid "bob@moneymate" start.db opening.1.db bob
create_wallet-Opens_example =
    create_wallet-Opens parse "u-2" "bob@moneymate" calm start bob opening.1 opens

-- A handle that another user has.
abbrev clash : Result Error Account × World Db
clash = create_wallet parse "u-2" "ann@moneymate" calm start

clashes : clash ≡ (err not_found, clash.1)
unfolding create_wallet create_unless settle_creation get_wallet_by_user_id create_wallet_row
    insert_account_row map_db_errors find_by
clashes = refl

own_wallet : (get_wallet parse "u-1" calm start).0 ≡ ok ann
unfolding get_wallet get_wallet_by_user_id
own_wallet = refl

by_handle : (get_by_handle "ann@moneymate" calm start).0 ≡ ok ann
unfolding get_by_handle get_account_by_handle
by_handle = refl

total : (get_total_balance parse "u-1" calm start).0 ≡ ok (pos 500)
unfolding get_total_balance get_total_balance_by_user ◌+ℤ◌
total = refl

no_wallet : (get_wallet_with_total parse "u-2" calm start).0 ≡ err not_found
unfolding get_wallet_with_total get_wallet_by_user_id map_db_errors
no_wallet = refl

bad_text : (get_account parse "x" calm start).0 ≡ err invalid_input
unfolding get_account
bad_text = refl

all_own : (list_accounts 1 calm start).0 ≡ ok (ann ∷ [])
unfolding list_accounts list_accounts_by_user
all_own = refl
