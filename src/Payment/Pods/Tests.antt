-- ===== src/Payment/Pods/Tests.antt =====
-- Pods at single inputs (pod_usecase.go), and the theorems at them.
use moneymate_backend.Shared.{
  String, ◌≡◌, ◌≢◌, refl, true, false, Option, none, some, [], ◌∷◌, find_by, update_by, str_eq,
  if◌then◌else◌, ◌==◌,
}
use moneymate_backend.Shared.Int.{pos, ◌+ℤ◌, ◌-ℤ◌}
use moneymate_backend.Shared.Text.{trim_space, trim_left, trim_right, lowers_to, is_empty}
use moneymate_backend.Shared.Action.{Env, World, Result, ok, err, transaction}
use moneymate_backend.Errors.{DbError, Error, driver_error, db_error, invalid_input, map_db_errors}
use moneymate_backend.Payment.Domain.{Account, wallet, pod, completed, Pod, Db, empty_db, Uuid}
use moneymate_backend.Payment.Constraints.{
  insert_transaction_row, insert_entry_row, add_balance_row, insert_account_row, insert_pod_row,
}
use moneymate_backend.Payment.Queries.{
  get_wallet_by_user_id, get_account_by_id, get_account_by_id_for_update, insert_transaction,
  insert_journal_entry, add_balance, get_pod_by_id, create_account, create_pod, update_pod,
  delete_pod,
}
use moneymate_backend.Payment.Ledger.{
  read_balance, lock_accounts, record_transfer, move_balances, transfer_body, execute_transfer,
}
use moneymate_backend.Payment.Ledger.Tests.{account, calm}
use moneymate_backend.Payment.Pods.{
  CreatePodInput, PodTransferInput, PodTransferResult, UpdatePodInput, PodDetail, PodParties,
  create_in_repo, create_body, create_user_pod, find_own_pod, choose_key, find_pod_parties,
  move_to_pod, transfer_to_pod, set_fields, update_user_pod, delete_user_pod,
}
use moneymate_backend.Payment.Pods.Owning.{Owns, Edits, delete_user_pod-Owns, update_user_pod-Edits}
use moneymate_backend.Payment.Pods.Moving.{PodFinds, MovesAsAsked, transfer_to_pod_moves}
use moneymate_backend.Payment.Pods.Creating.{Creates, create_user_pod-Creates}

abbrev parse : String → Option Uuid
parse s = if str_eq s "u-11" then some 11 else if str_eq s "p-5" then some 5 else none

abbrev text : Uuid → String
text k = "new-key"

abbrev trip : Pod
trip = record {
  id = 5;
  account_id = 3;
  user_id = 11;
  name = "trip";
  target_amount = none;
  target_date = none;
  icon = "";
  status = "active";
  created_at = 0;
  updated_at = 0;
}

abbrev start : World Db
start = record {
  db = record empty_db {
    accounts = account 1 wallet (pos 500) ∷ account 3 pod (pos 0) ∷ [];
    pods = trip ∷ [];
  };
  calls = 0;
}

abbrev deletion : Result Error Unit × World Db
deletion = delete_user_pod parse "u-11" "p-5" calm start

deletes : deletion ≡ (ok tt, deletion.1)
unfolding delete_user_pod find_own_pod get_pod_by_id get_account_by_id delete_pod find_by
deletes = refl

delete_user_pod-Owns_example :
    (p : Pod) × Owns parse "u-11" "p-5" start.db p
    × ((a : Account) × (find_by Account.id p.account_id start.db.accounts ≡ some a)
        × (a.balance ≡ pos 0))
    × (find_by Pod.id p.id deletion.1.db.pods ≡ none)
    × ((k : Uuid) → k ≢ p.id → find_by Pod.id k deletion.1.db.pods ≡ find_by Pod.id k start.db.pods)
    × (deletion.1.db.accounts ≡ start.db.accounts)
delete_user_pod-Owns_example = delete_user_pod-Owns parse "u-11" "p-5" calm start deletion.1 deletes

abbrev renaming : UpdatePodInput
renaming = record {
  authenticated_user_id = "u-11";
  pod_id = "p-5";
  name = some " long trip ";
  target_amount_paise = some (pos 90000);
  target_date = none;
  icon = none;
}

abbrev renamed : Result Error PodDetail × World Db
renamed = update_user_pod parse renaming calm start

abbrev renamed_detail : PodDetail
renamed_detail = record {
  pod = record trip { name = "long trip"; target_amount = some (pos 90000); updated_at = 1 };
  balance_paise = pos 0;
}

renames : renamed ≡ (ok renamed_detail, renamed.1)
unfolding update_user_pod find_own_pod set_fields get_pod_by_id get_account_by_id update_pod
    trim_space trim_left trim_right find_by update_by
renames = refl

update_user_pod-Edits_example :
    (p : Pod) × Owns parse "u-11" "p-5" start.db p × Edits renaming calm start.db renamed.1.db p
update_user_pod-Edits_example =
    update_user_pod-Edits parse renaming calm start renamed_detail renamed.1 renames

abbrev saving : PodTransferInput
saving = record {
  authenticated_user_id = "u-11";
  pod_id = "p-5";
  amount_paise = pos 200;
  direction = "Deposit";
  idempotency_key = "";
}

abbrev saved : Result Error PodTransferResult × World Db
saved = transfer_to_pod parse text saving calm start

abbrev saved_result : PodTransferResult
saved_result = record {
  transaction_id = 1007;
  pod_id = 5;
  is_deposit = true;
  amount_paise = pos 200;
  wallet_balance_paise = pos 300;
  pod_balance_paise = pos 200;
  status = completed;
  created_at = 8;
}

saves : saved ≡ (ok saved_result, saved.1)
unfolding transfer_to_pod find_pod_parties move_to_pod choose_key trim_space trim_left trim_right
    lowers_to get_pod_by_id get_wallet_by_user_id execute_transfer transaction transfer_body
    lock_accounts record_transfer move_balances read_balance get_account_by_id
    get_account_by_id_for_update insert_transaction insert_journal_entry add_balance
    insert_transaction_row insert_entry_row add_balance_row find_by update_by ◌+ℤ◌ ◌-ℤ◌
saves = refl

transfer_to_pod_moves_example :
    (x : PodParties) × PodFinds parse text saving start.db x
    × MovesAsAsked parse text saving x start.db saved.1.db
transfer_to_pod_moves_example =
    transfer_to_pod_moves parse text saving calm start saved_result saved.1 saves

abbrev astray : PodTransferInput
astray = record saving { direction = "sideways" }

abbrev refused : Result Error PodTransferResult × World Db
refused = transfer_to_pod parse text astray calm start

refuses : refused ≡ (err invalid_input, refused.1)
unfolding transfer_to_pod find_pod_parties trim_space trim_left trim_right lowers_to
refuses = refl

abbrev holiday : CreatePodInput
holiday = record {
  authenticated_user_id = "u-11";
  name = " holiday";
  target_amount_paise = none;
  target_date = none;
  icon = "";
}

abbrev opened : Result Error PodDetail × World Db
opened = create_user_pod parse holiday calm start

abbrev opened_detail : PodDetail
opened_detail = record {
  pod = record trip {
    id = 1002;
    account_id = 1001;
    name = "holiday";
    created_at = 3;
    updated_at = 3;
  };
  balance_paise = pos 0;
}

opens : opened ≡ (ok opened_detail, opened.1)
unfolding create_user_pod create_body create_in_repo create_account create_pod insert_account_row
    insert_pod_row transaction trim_space trim_left trim_right find_by
opens = refl

create_user_pod-Creates_example :
    (user : Uuid) × (parse "u-11" ≡ some user)
    × (is_empty (trim_space " holiday") ≡ false)
    × Creates holiday user start.db opened.1.db opened_detail
create_user_pod-Creates_example =
    create_user_pod-Creates parse holiday calm start opened_detail opened.1 opens

-- The database goes away after the account was written.
abbrev failing : Env DbError
failing = record calm { fault = λ n. if n == 3 then some (driver_error 0) else none }

abbrev stopped : Result Error PodDetail × World Db
stopped = create_user_pod parse holiday failing start

stops : stopped ≡ (err (db_error (driver_error 0)), stopped.1)
unfolding map_db_errors create_user_pod create_body create_in_repo create_account create_pod
    insert_account_row insert_pod_row transaction trim_space trim_left trim_right find_by
stops = refl
