-- ===== src/Payment/Pods.antt =====
-- services/payment/internal/usecases/pod_usecase.go and internal/adapter/postgres/repo/pod_repo.go:
-- pods, savings pots with an account of their own. A target date is the number of its day. The
-- texts that answers show for their amounts are left out.
pub mod Owning
pub mod Moving
pub mod Creating
pub mod Tests
use Prim.Native.String.{◌++◌}
use moneymate_backend.Shared.{
  ℕ, String, Bool, true, false, not, ◌&&◌, ◌||◌, Option, none, some, List, [], ◌∷◌, map, find_by,
  str_eq, ◌==◌, if◌then◌else◌,
}
use moneymate_backend.Shared.Int.{ℤ, pos, leb_ℤ, eqb_ℤ}
use moneymate_backend.Shared.Text.{trim_space, is_empty, lowers_to}
use moneymate_backend.Shared.Action.{
  Result, ok, err, ◌>>=◌, ◌>>◌, pure, raise, or_raise, raise_if, draw_uuid, transaction,
}
use moneymate_backend.Errors.{
  Error, db_error, not_found, invalid_input, unauthorized, forbidden, pod_non_zero_balance,
}
use moneymate_backend.Payment.Domain.{
  Uuid, Time, pod, Account, pending, TxStatus, Transaction, Pod, LedgerResult,
}
use moneymate_backend.Payment.Queries.{
  Call, get_account_by_id, get_wallet_by_user_id, list_accounts_by_user, create_account, create_pod,
  get_pod_by_id, list_pods_by_user, update_pod, delete_pod,
}
use moneymate_backend.Payment.Ledger.{repo, execute_transfer}

pub record CreatePodInput : Type 0 where
  pub authenticated_user_id : String
  pub name : String
  pub target_amount_paise : Option ℤ
  pub target_date : Option Time
  pub icon : String

pub record PodTransferInput : Type 0 where
  pub authenticated_user_id : String
  pub pod_id : String
  pub amount_paise : ℤ
  pub direction : String
  pub idempotency_key : String

pub record PodTransferResult : Type 0 where
  pub transaction_id : Uuid
  pub pod_id : Uuid
  pub is_deposit : Bool
  pub amount_paise : ℤ
  pub wallet_balance_paise : ℤ
  pub pod_balance_paise : ℤ
  pub status : TxStatus
  pub created_at : Time

pub record UpdatePodInput : Type 0 where
  pub authenticated_user_id : String
  pub pod_id : String
  pub name : Option String
  pub target_amount_paise : Option ℤ
  pub target_date : Option Time
  pub icon : Option String

pub record PodDetail : Type 0 where
  pub pod : Pod
  pub balance_paise : ℤ

abbrev pub to_pod_detail : Pod → ℤ → PodDetail
to_pod_detail p balance = record { pod = p; balance_paise = balance }

-- `if in.TargetAmountPaise != nil && *in.TargetAmountPaise <= 0`
abbrev pub is_bad_target : Option ℤ → Bool
is_bad_target none = false
is_bad_target (some x) = leb_ℤ x (pos 0)

-- `PodRepo.Create`: the identifier and the status that the use case leaves empty are filled in.
unfoldable pub create_in_repo : Pod → Call Pod
create_in_repo p = do
  id ← draw_uuid
  repo
      (create_pod (record p { id = id; status = if is_empty p.status then "active" else p.status }))

abbrev pub new_pod : CreatePodInput → Uuid → Uuid → Pod
new_pod input user account = record {
  id = 0;
  account_id = account;
  user_id = user;
  name = trim_space input.name;
  target_amount = input.target_amount_paise;
  target_date = input.target_date;
  icon = trim_space input.icon;
  status = "active";
  created_at = 0;
  updated_at = 0;
}

-- What `CreatePod` runs in one transaction: the pod's account, and the pod.
unfoldable pub create_body : CreatePodInput → Uuid → Call PodDetail
create_body input user = do
  acc ← repo (create_account (some user) none pod "INR")
  created ← create_in_repo (new_pod input user acc.id)
  pure (to_pod_detail created acc.balance)

-- The balance of the pod's account, or 0 for one that is not among the user's.
abbrev pub detail_of : List Account → Pod → PodDetail
detail_of accounts p = to_pod_detail p (balance_of (find_by Account.id p.account_id accounts))
  where
    balance_of : Option Account → ℤ
    balance_of none = pos 0
    balance_of (some a) = a.balance

-- The assignments of `UpdatePod`, up to the first that is refused.
abbrev pub set_name : Option String → Pod → Result Error Pod
set_name none p = ok p
set_name (some text) p =
    if is_empty (trim_space text)
    then err invalid_input
    else ok (record p { name = trim_space text })

abbrev pub set_target : Option ℤ → Pod → Result Error Pod
set_target none p = ok p
set_target (some x) p =
    if leb_ℤ x (pos 0) then err invalid_input else ok (record p { target_amount = some x })

abbrev pub set_date : Option Time → Pod → Pod
set_date none p = p
set_date (some day) p = record p { target_date = some day }

abbrev pub set_icon : Option String → Pod → Pod
set_icon none p = p
set_icon (some text) p = record p { icon = trim_space text }

abbrev pub or_stop : Result Error Pod → (Pod → Result Error Pod) → Result Error Pod
or_stop (ok p) f = f p
or_stop (err e) f = err e

unfoldable pub set_fields : UpdatePodInput → Pod → Result Error Pod
set_fields input p = or_stop (set_name input.name p) λ named.
    or_stop (set_target input.target_amount_paise named)
      λ targeted. ok (set_icon input.icon (set_date input.target_date targeted))

abbrev pub settle_fields : Result Error Pod → Call Pod
settle_fields (ok p) = pure p
settle_fields (err e) = raise e

abbrev pub pod_transaction : PodTransferInput → Bool → String → Pod → Account → Transaction
pod_transaction input is_deposit key p wallet = record {
  id = 0;
  from_account_id = if is_deposit then wallet.id else p.account_id;
  to_account_id = if is_deposit then p.account_id else wallet.id;
  amount = input.amount_paise;
  status = pending;
  idempotency_key = key;
  description =
      if is_deposit then "Deposit to pod: " ++ p.name else "Withdraw from pod: " ++ p.name;
  category_id = none;
  created_at = 0;
  completed_at = none;
}

abbrev pub pod_transfer_result : PodTransferInput → Bool → Pod → LedgerResult → PodTransferResult
pod_transfer_result input is_deposit p res = record {
  transaction_id = Transaction.id res.transaction;
  pod_id = p.id;
  is_deposit = is_deposit;
  amount_paise = input.amount_paise;
  wallet_balance_paise = if is_deposit then res.from_balance else res.to_balance;
  pod_balance_paise = if is_deposit then res.to_balance else res.from_balance;
  status = Transaction.status res.transaction;
  created_at = Transaction.created_at res.transaction;
}

abbrev pub is_deposit_to : PodTransferInput → Bool
is_deposit_to input = lowers_to (trim_space input.direction) "deposit"

abbrev pub is_withdrawal_from : PodTransferInput → Bool
is_withdrawal_from input = lowers_to (trim_space input.direction) "withdraw"

pub record PodParties : Type 0 where
  pub key : String
  pub from_pod : Pod
  pub wallet : Account

-- `uuid.Parse`
module _ (parse_uuid : String → Option Uuid) where
  -- `CreatePod`
  unfoldable pub create_user_pod : CreatePodInput → Call PodDetail
  create_user_pod input = do
    user ← or_raise (parse_uuid input.authenticated_user_id) unauthorized
    raise_if (is_empty (trim_space input.name)) invalid_input
    raise_if (is_bad_target input.target_amount_paise) invalid_input
    transaction db_error (create_body input user)

  -- `ListPods`
  unfoldable pub list_pods : String → Call (List PodDetail)
  list_pods user_id = do
    user ← or_raise (parse_uuid user_id) unauthorized
    pods ← repo (list_pods_by_user user)
    accounts ← repo (list_accounts_by_user user)
    pure (map (detail_of accounts) pods)

  -- The pod of the caller: another user's pod is not found.
  unfoldable pub find_own_pod : String → String → Call Pod
  find_own_pod user_id pod_id = do
    user ← or_raise (parse_uuid user_id) unauthorized
    k ← or_raise (parse_uuid pod_id) not_found
    p ← repo (get_pod_by_id k)
    raise_if (not (p.user_id == user)) not_found
    pure p

  -- `GetPodByID`
  unfoldable pub get_user_pod : String → String → Call PodDetail
  get_user_pod user_id pod_id = do
    p ← find_own_pod user_id pod_id
    acc ← repo (get_account_by_id p.account_id)
    pure (to_pod_detail p acc.balance)

  -- `UpdatePod`
  unfoldable pub update_user_pod : UpdatePodInput → Call PodDetail
  update_user_pod input = do
    p ← find_own_pod input.authenticated_user_id input.pod_id
    changed ← settle_fields (set_fields input p)
    stored ← repo (update_pod changed)
    acc ← repo (get_account_by_id stored.account_id)
    pure (to_pod_detail stored acc.balance)

  -- `DeletePod`; its `pid` is the identifier of the row that was found by it.
  unfoldable pub delete_user_pod : String → String → Call Unit
  delete_user_pod user_id pod_id = do
    p ← find_own_pod user_id pod_id
    acc ← repo (get_account_by_id p.account_id)
    raise_if (not (eqb_ℤ acc.balance (pos 0))) pod_non_zero_balance
    repo (delete_pod p.id)

-- `uuid.Parse`, and the text of a new identifier.
module _ (parse_uuid : String → Option Uuid) (uuid_text : Uuid → String) where
  -- `if key == "" { key = uuid.New().String() }`
  unfoldable pub choose_key : String → Call String
  choose_key key = if is_empty key then (draw_uuid >>= λ k. pure (uuid_text k)) else pure key

  -- The tests of `TransferToPod` up to the two accounts.
  unfoldable pub find_pod_parties : PodTransferInput → Call PodParties
  find_pod_parties input = do
    user ← or_raise (parse_uuid input.authenticated_user_id) unauthorized
    k ← or_raise (parse_uuid input.pod_id) not_found
    raise_if (leb_ℤ input.amount_paise (pos 0)) invalid_input
    raise_if (not (is_deposit_to input) && not (is_withdrawal_from input)) invalid_input
    key ← choose_key (trim_space input.idempotency_key)
    p ← repo (get_pod_by_id k)
    raise_if (not (p.user_id == user)) forbidden
    wallet ← repo (get_wallet_by_user_id user)
    pure (record { key = key; from_pod = p; wallet = wallet })

  unfoldable pub move_to_pod : PodTransferInput → PodParties → Call PodTransferResult
  move_to_pod input x = do
    res ← execute_transfer (pod_transaction input (is_deposit_to input) x.key x.from_pod x.wallet)
    pure (pod_transfer_result input (is_deposit_to input) x.from_pod res)

  -- `TransferToPod`
  unfoldable pub transfer_to_pod : PodTransferInput → Call PodTransferResult
  transfer_to_pod input = find_pod_parties input >>= move_to_pod input
