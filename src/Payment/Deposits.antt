-- ===== src/Payment/Deposits.antt =====
-- Deposits through Razorpay: services/payment/internal/adapter/postgres/repo/deposits_repo.go and
-- internal/usecases/deposite_usecases.go.
pub mod Crediting
pub mod Outcomes
pub mod Events
pub mod Initiating
pub mod Success
pub mod Tests
use moneymate_backend.Shared.{
  ℕ, suc, str_eq, String, Bool, true, false, ◌&&◌, ◌||◌, Option, none, some, List, [], ◌∷◌, ◌==◌,
  if◌then◌else◌,
}
use moneymate_backend.Shared.Int.{ℤ, pos, ltb_ℤ}
use moneymate_backend.Shared.Action.{
  Result, ok, err, Env, World, ◌>>=◌, ◌>>◌, pure, raise, or_raise, raise_if, get_now, draw_uuid,
  external, transaction,
}
use moneymate_backend.Errors.{DbError, Error, db_error, invalid_input}
use moneymate_backend.Payment.Domain.{
  Uuid, Time, Transaction, completed, debit, credit, Deposit, paid, Db,
}
use moneymate_backend.Payment.Queries.{
  Call, add_balance, get_wallet_by_user_id, insert_transaction, insert_journal_entry,
  create_deposit, get_deposit_by_order_id, mark_deposit_paid_if_created, mark_deposit_failed,
}
use moneymate_backend.Payment.Ledger.{repo}

-- The transaction of a deposit: from outside to the wallet, under the order's identifier.
abbrev pub deposit_transaction : Uuid → String → Time → Deposit → Uuid → Transaction
deposit_transaction settlement order now p tx_id = record {
  id = tx_id;
  from_account_id = settlement;
  to_account_id = p.account_id;
  amount = p.amount;
  status = completed;
  idempotency_key = order;
  description = "wallet deposit via Razorpay";
  category_id = none;
  created_at = 0;
  completed_at = some now;
}

-- What `ConfirmPayment` does to a deposit that it has just marked.
unfoldable pub credit_deposit : Uuid → String → Time → Deposit → Call (Deposit × Bool)
credit_deposit settlement order now p = do
  repo (add_balance p.account_id p.amount)
  tx_id ← draw_uuid
  repo (insert_transaction (deposit_transaction settlement order now p tx_id))
  debit_id ← draw_uuid
  repo (insert_journal_entry debit_id tx_id settlement p.amount debit)
  credit_id ← draw_uuid
  repo (insert_journal_entry credit_id tx_id p.account_id p.amount credit)
  pure (record p { status = paid }, true)

-- `if affected == 0`: nothing more for a deposit that was processed before.
unfoldable pub credit_if_marked : Uuid → String → Time → Deposit → ℕ → Call (Deposit × Bool)
credit_if_marked settlement order now p affected =
    if affected == 0 then pure (p, false) else credit_deposit settlement order now p

unfoldable pub confirm_body : String → String → Uuid → Call (Deposit × Bool)
confirm_body order payment settlement = do
  p ← repo (get_deposit_by_order_id order)
  now ← get_now
  affected ← repo (mark_deposit_paid_if_created p.id payment now)
  credit_if_marked settlement order now p affected

-- `ConfirmPayment`: the deposit, and whether it was credited by this call.
unfoldable pub confirm_payment : String → String → Uuid → Call (Deposit × Bool)
confirm_payment order payment settlement =
    transaction db_error (confirm_body order payment settlement)

-- `MarkFailed`
unfoldable pub mark_failed : String → String → Call Unit
mark_failed order payment = do
  p ← repo (get_deposit_by_order_id order)
  repo (mark_deposit_failed p.id payment)

-- `minDepositPaise` and `maxDepositPaise`
abbrev pub min_deposit_paise : ℤ
min_deposit_paise = pos 100

abbrev pub max_deposit_paise : ℤ
max_deposit_paise = pos 50000000

pub record InitiateDepositResponse : Type 0 where
  pub order_id : String
  pub amount : ℤ
  pub key_id : String

-- `uuid.Parse`, and Razorpay's `CreateOrder`, given the amount in paise, the receipt and the number
-- of the call.
module _ (parse_uuid : String → Option Uuid) (create_order : ℤ → Uuid → ℕ → Result Error String)
    (razorpay_key_id : String) where
  -- `InitiateDeposit`
  unfoldable pub initiate_deposit : String → ℤ → Call InitiateDepositResponse
  initiate_deposit user_id amount = do
    raise_if (ltb_ℤ amount min_deposit_paise || ltb_ℤ max_deposit_paise amount) invalid_input
    uid ← or_raise (parse_uuid user_id) invalid_input
    wallet ← repo (get_wallet_by_user_id uid)
    deposit_id ← draw_uuid
    order ← external (create_order amount deposit_id)
    repo (create_deposit deposit_id uid wallet.id order amount)
    pure (record { order_id = order; amount = amount; key_id = razorpay_key_id })

-- `ConfirmDeposit`: the webhook is answered in the same way whether it was a duplicate or not.
unfoldable pub confirm_deposit : Uuid → String → String → Call Unit
confirm_deposit settlement order payment = do
  confirmed ← confirm_payment order payment settlement
  pure tt

-- `FailDeposit`
unfoldable pub fail_deposit : String → String → Call Unit
fail_deposit order payment = mark_failed order payment

-- One call of the repository on deposits.
pub data DepositEvent : Type 0 where
  initiated : (id user account : Uuid) (order : String) (amount : ℤ) → DepositEvent
  captured : (order payment : String) → DepositEvent
  payment_failed : (order payment : String) → DepositEvent

abbrev forget : {A : Type 0} → Result Error A × World Db → Bool × World Db
forget (r, w) = (false, w)

-- Whether the answer says that the wallet was credited by this call.
abbrev pub was_credited : Result Error (Deposit × Bool) → Bool
was_credited (ok (p, b)) = b
was_credited (err e) = false

-- Whether the event has credited a wallet, and the world after it.
unfoldable pub deposit_event : Uuid → DepositEvent → Env DbError → World Db → Bool × World Db
deposit_event settlement (initiated id user account order amount) env w =
    forget (repo (create_deposit id user account order amount) env w)
deposit_event settlement (captured order payment) env w =
    let (r, w') = confirm_payment order payment settlement env w in (was_credited r, w')
deposit_event settlement (payment_failed order payment) env w =
    forget (mark_failed order payment env w)

abbrev pub is_for : String → DepositEvent → Bool
is_for order (captured o payment) = str_eq o order
is_for order _ = false

-- How many of the events have credited for this order.
abbrev pub count_credits : Uuid → String → List DepositEvent → Env DbError → World Db → ℕ
count_credits settlement order [] env w = 0
count_credits settlement order (e ∷ es) env w =
    let (credited, w') = deposit_event settlement e env w in
    let rest = count_credits settlement order es env w' in
    if is_for order e && credited then suc rest else rest
