-- ===== src/Rewards/Payouts.antt =====
-- Payouts of rewards: reward_usecase.go (services/rewards/internal/usecases).
pub mod Counting
pub mod Paying
pub mod Repeating
pub mod Tests
use moneymate_backend.Shared.{
  ℕ, suc, ◌+◌, String, Bool, true, false, ◌&&◌, not, Option, none, some, List, [], ◌∷◌, str_eq,
  if◌then◌else◌,
}
use moneymate_backend.Shared.Int.{ℤ, pos, ◌+ℤ◌, ◌-ℤ◌, leb_ℤ, to_int32}
use moneymate_backend.Shared.Action.{
  Action, Env, World, Result, ok, err, ◌>>=◌, ◌>>◌, pure, raise, raise_if, or_raise, handle,
  map_err, external,
}
use moneymate_backend.Errors.{DbError, no_rows, pg_error, driver_error}
use moneymate_backend.Rewards.Domain.{
  Uuid, RecipientType, recipient_user, recipient_merchant, PayoutStatus, payout_pending, RewardRule,
  RewardPayout, PaymentCompletedEvent, Payment, RewardDb, RewardCall, RewardError, bad_event,
  store_failed, payment_failed, roll_panics,
}
use moneymate_backend.Rewards.Calculation.{RewardCalculation, calculate_reward, rolls_for}
use moneymate_backend.Rewards.Repo.{
  get_active_rule, insert_payout, select_payout, select_payouts_by_recipient,
  select_payouts_by_transaction, mark_payout_completed, mark_payout_failed, list_failed_payouts,
}
use moneymate_backend.Rewards.Rules.{or_fifty}

-- `isUniqueViolation`
unfoldable pub is_unique_violation : DbError → Bool
is_unique_violation (pg_error code name) = str_eq code "23505"
is_unique_violation no_rows = false
is_unique_violation (driver_error n) = false

abbrev pub recipient_type_of : String → RecipientType
recipient_type_of s = if str_eq s "merchant" then recipient_merchant else recipient_user

-- The row that an event asks for, before the table fills in the rest.
abbrev pub new_payout :
    String → PaymentCompletedEvent → RewardRule → RewardCalculation → RewardPayout
new_payout payload event rule calc = record {
  id = 0;
  transaction_id = event.transaction_id;
  recipient_id = event.recipient_id;
  recipient_account_id = event.recipient_account_id;
  recipient_type = recipient_type_of event.recipient_type;
  rule_id = some rule.id;
  original_amount_paise = event.amount_paise;
  reward_percentage_bps = calc.percentage_bps;
  reward_amount_paise = calc.reward_amount_paise;
  status = payout_pending;
  payment_transaction_id = none;
  failure_reason = none;
  event_payload = payload;
  created_at = 0;
  updated_at = 0;
  completed_at = none;
}

-- `maxBPS-minBPS+1` in int32
abbrev pub roll_bound : ℤ → ℤ → ℤ
roll_bound lo hi = to_int32 (to_int32 (hi -ℤ lo) +ℤ pos 1)

-- `json.Unmarshal`; the number that `rand.Int31n` gives below a bound; what the payment service answers
-- to `ExecuteRewardPayout` for an account and an amount, and whether it has paid, which it may have
-- done though the answer is an error. The last three are asked with the number of the call.
module _ (parse_event : String → Option PaymentCompletedEvent) (int31n : ℤ → ℕ → ℤ)
    (answers : Uuid → ℤ → ℕ → Result String Uuid) (has_paid : Uuid → ℤ → ℕ → Bool) where
  -- The payment service's own record of what it paid.
  abbrev pub record_if : Bool → Payment → RewardDb → RewardDb
  record_if paid p d = if paid then record d { payments = p ∷ d.payments } else d

  -- `ExecuteRewardPayout`, called for a payout.
  unfoldable pub execute_reward_payout :
      RewardPayout → Uuid → ℤ → Action DbError RewardDb String Uuid
  execute_reward_payout payout account amount env w = (
    answers account amount w.calls,
    record {
      db =
          record_if (has_paid account amount w.calls)
            (record { payout = payout; account_id = account; amount_paise = amount }) w.db;
      calls = suc w.calls;
    },
  )

  -- `_, _ = uc.repo.MarkFailed(…)` and the error; or `MarkCompleted` and its error.
  unfoldable pub settle_payment : RewardPayout → Result String Uuid → RewardCall Unit
  settle_payment p (err reason) =
      handle (mark_payout_failed p.id reason) λ _. raise (payment_failed reason)
  settle_payment p (ok payment) =
      map_err store_failed (mark_payout_completed p.id payment) >>= λ _. pure tt

  unfoldable pub pay_inserted :
      PaymentCompletedEvent → RewardCalculation → Result DbError RewardPayout → RewardCall Unit
  pay_inserted event calc (err e) =
      if is_unique_violation e then pure tt else raise (store_failed e)
  pay_inserted event calc (ok p) =
      handle (execute_reward_payout p event.recipient_account_id calc.reward_amount_paise)
        (settle_payment p)

  unfoldable pub pay_if_eligible :
      String → PaymentCompletedEvent → RewardRule → RewardCalculation → RewardCall Unit
  pay_if_eligible payload event rule calc =
      if not calc.eligible
      then pure tt
      else handle (insert_payout (new_payout payload event rule calc)) (pay_inserted event calc)

  -- `CalculateReward` with a number of `rand.Int31n`, which panics unless its bound is positive.
  unfoldable pub roll_reward : ℤ → RewardRule → RewardCall RewardCalculation
  roll_reward amount rule = do
    raise_if
        (rolls_for amount rule
          && leb_ℤ (roll_bound rule.min_percentage_bps rule.max_percentage_bps) (pos 0))
        roll_panics
    external
        λ n. ok (calculate_reward amount rule λ lo hi. to_int32 (lo +ℤ int31n (roll_bound lo hi) n))

  unfoldable pub with_rule :
      String → PaymentCompletedEvent → Result DbError RewardRule → RewardCall Unit
  with_rule payload event (err e) = pure tt
  with_rule payload event (ok rule) = do
    calc ← roll_reward event.amount_paise rule
    pay_if_eligible payload event rule calc

  -- `ProcessPaymentCompletedEvent`
  unfoldable pub process_payment_completed_event : String → RewardCall Unit
  process_payment_completed_event payload = do
    event ← or_raise (parse_event payload) bad_event
    handle get_active_rule (with_rule payload event)

  unfoldable pub mark_replayed : RewardPayout → Result String Uuid → RewardCall Unit
  mark_replayed p (err reason) = pure tt
  mark_replayed p (ok payment) = handle (mark_payout_completed p.id payment) λ _. pure tt

  -- The loop of `ReplayFailed`
  unfoldable pub replay_all : List RewardPayout → RewardCall Unit
  replay_all [] = pure tt
  replay_all (p ∷ rest) = do
    handle (execute_reward_payout p p.recipient_account_id p.reward_amount_paise) (mark_replayed p)
    replay_all rest

  -- `ReplayFailed`
  unfoldable pub replay_failed : RewardCall Unit
  replay_failed = do payouts ← map_err store_failed (list_failed_payouts 10); replay_all payouts

-- `ListMyPayouts`
unfoldable pub list_my_payouts : Uuid → Option PayoutStatus → ℤ → ℤ → RewardCall (List RewardPayout)
list_my_payouts user status limit offset =
    map_err store_failed (select_payouts_by_recipient user status (or_fifty limit) offset)

-- `ListPayoutsByTransaction`
unfoldable pub list_payouts_by_transaction : Uuid → RewardCall (List RewardPayout)
list_payouts_by_transaction k = map_err store_failed (select_payouts_by_transaction k)

-- `GetPayoutByID`
unfoldable pub get_payout_by_id : Uuid → RewardCall RewardPayout
get_payout_by_id k = map_err store_failed (select_payout k)
