-- ===== src/Payment/Deposits/Tests.antt =====
-- Deposits at single inputs (deposits_repo.go, deposite_usecases.go), and the theorems at them.
use moneymate_backend.Shared.{
  ℕ, ◌≤◌, String, ◌≡◌, ◌⊎◌, refl, arith, true, false, Option, none, some, List, [], ◌∷◌, find_by,
  IsKeyed, find?, str_eq, if◌then◌else◌,
}
use moneymate_backend.Shared.Int.{ℤ, pos, ◌+ℤ◌, ◌≤ℤ◌}
use moneymate_backend.Shared.Action.{World, Result, ok, err}
use moneymate_backend.Errors.{Error, dependency_failure}
use moneymate_backend.Payment.Domain.{
  failed, wallet, external_settlement, Deposit, created, paid, Db, empty_db, Uuid,
}
use moneymate_backend.Payment.Constraints.{insert_deposit_row}
use moneymate_backend.Payment.Queries.{
  has_order, get_wallet_by_user_id, create_deposit, get_deposit_by_order_id, mark_deposit_failed,
}
use moneymate_backend.Payment.Ledger.Tests.{account, calm}
use moneymate_backend.Payment.Deposits.{
  was_credited, confirm_payment, mark_failed, initiate_deposit, InitiateDepositResponse,
  DepositEvent, initiated, captured, payment_failed, count_credits,
}
use moneymate_backend.Payment.Deposits.Outcomes.{Credited, confirm_payment_outcomes}
use moneymate_backend.Payment.Deposits.Events.{count_credits_le_one}
use moneymate_backend.Payment.Deposits.Initiating.{
  Initiated, initiate_deposit-Initiated, mark_failed_ignores_status,
}
use moneymate_backend.Payment.Deposits.Success.{IsCapturable, confirm_payment_succeeds}

abbrev pub deposit : Deposit
deposit = record {
  id = 30;
  user_id = 11;
  account_id = 1;
  razorpay_order_id = "order-1";
  razorpay_payment_id = "";
  amount = pos 25000;
  status = created;
  created_at = 0;
  completed_at = none;
}

abbrev ordered : Db
ordered = record empty_db {
  accounts = account 1 wallet (pos 500) ∷ account 9 external_settlement (pos 0) ∷ [];
  deposits = deposit ∷ [];
}

abbrev start : World Db
start = record { db = ordered; calls = 0 }

ordered-IsKeyed : IsKeyed Deposit.id ordered.deposits
unfolding find_by
ordered-IsKeyed = (refl, tt)

confirm_payment_outcomes_example :
    ((was_credited (confirm_payment "order-1" "pay-1" 9 calm start).0 ≡ true)
      × Credited "order-1" "pay-1" 9 ordered (confirm_payment "order-1" "pay-1" 9 calm start).1.db)
    ⊎ ((was_credited (confirm_payment "order-1" "pay-1" 9 calm start).0 ≡ false)
        × ((confirm_payment "order-1" "pay-1" 9 calm start).1.db ≡ ordered))
confirm_payment_outcomes_example =
    confirm_payment_outcomes calm "order-1" "pay-1" 9 start ordered-IsKeyed

-- The webhook is delivered twice, and a failure in between.
abbrev deliveries : List DepositEvent
deliveries =
    captured "order-1" "pay-1"
    ∷ payment_failed "order-1" "pay-1"
    ∷ captured "order-1" "pay-1"
    ∷ initiated 31 11 1 "order-1" (pos 900)
    ∷ captured "order-1" "pay-2"
    ∷ []

count_credits_le_one_example : count_credits 9 "order-1" deliveries calm start ≤ 1
count_credits_le_one_example =
    count_credits_le_one 9 "order-1" deliveries calm start ordered-IsKeyed

deposit-IsCapturable : IsCapturable calm 4 "order-1" 9 ordered
unfolding find_by ◌+ℤ◌
deposit-IsCapturable = record {
  row = deposit;
  payee = account 1 wallet (pos 500);
  keyed = (refl, tt);
  row_found = refl;
  was_new = refl;
  payee_found = refl;
  settlement_known = refl;
  distinct = omega arith;
  positive = omega arith;
  fits = ground arith;
  unused = refl;
  id_unused = refl;
  new_debit = refl;
  new_credit = refl;
  new_apart = omega arith;
}

confirm_payment_succeeds_example :
    (p : Deposit) × (find? (has_order "order-1") ordered.deposits ≡ some p)
    × ((confirm_payment "order-1" "pay-1" 9 calm start).0 ≡ ok (record p { status = paid }, true))
confirm_payment_succeeds_example =
    confirm_payment_succeeds calm "order-1" "pay-1" 9 start (λ n. refl) deposit-IsCapturable

abbrev parse : String → Option Uuid
parse s = if str_eq s "u-11" then some 11 else none

abbrev order_of : ℤ → Uuid → ℕ → Result Error String
order_of amount receipt call = if str_eq "up" "up" then ok "order-2" else err dependency_failure

abbrev answer : InitiateDepositResponse
answer = record { order_id = "order-2"; amount = pos 900; key_id = "key" }

initiates :
    initiate_deposit parse order_of "key" "u-11" (pos 900) calm start
    ≡ (ok answer, (initiate_deposit parse order_of "key" "u-11" (pos 900) calm start).1)
unfolding initiate_deposit get_wallet_by_user_id create_deposit insert_deposit_row find_by
initiates = refl

initiate_deposit-Initiated_example :
    (pos 100 ≤ℤ pos 900)
    × (pos 900 ≤ℤ pos 50000000)
    × ((uid : Uuid) × (parse "u-11" ≡ some uid)
        × Initiated uid
            (pos 900)
            "order-2"
            ordered
            (initiate_deposit parse order_of "key" "u-11" (pos 900) calm start).1.db)
initiate_deposit-Initiated_example =
    initiate_deposit-Initiated parse order_of "key" calm "u-11" (pos 900) start answer _ initiates

-- The order is paid already.
abbrev settled : World Db
settled = record start { db = record ordered { deposits = record deposit { status = paid } ∷ [] } }

fails :
    mark_failed "order-1" "pay-1" calm settled
    ≡ (ok tt, (mark_failed "order-1" "pay-1" calm settled).1)
unfolding mark_failed get_deposit_by_order_id mark_deposit_failed
fails = refl

mark_failed_ignores_status_example :
    (p : Deposit) × (find? (has_order "order-1") settled.db.deposits ≡ some p)
    × (find? (has_order "order-1") (mark_failed "order-1" "pay-1" calm settled).1.db.deposits
        ≡ some (record p { status = failed; razorpay_payment_id = "pay-1" }))
    × ((mark_failed "order-1" "pay-1" calm settled).1.db.accounts ≡ ordered.accounts)
    × ((mark_failed "order-1" "pay-1" calm settled).1.db.transactions ≡ ordered.transactions)
    × ((mark_failed "order-1" "pay-1" calm settled).1.db.entries ≡ ordered.entries)
mark_failed_ignores_status_example =
    mark_failed_ignores_status "order-1" "pay-1" calm settled _ fails
