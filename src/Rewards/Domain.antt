-- ===== src/Rewards/Domain.antt =====
-- services/rewards/internal/domain: rules and payouts, and the store that holds them.
use moneymate_backend.Shared.{ℕ, String, Bool, true, false, Option, List}
use moneymate_backend.Shared.Int.{ℤ}
use moneymate_backend.Shared.Action.{Action}
use moneymate_backend.Errors.{DbError}

abbrev pub Uuid : Type 0
Uuid = ℕ

abbrev pub Time : Type 0
Time = ℕ

pub data RecipientType : Type 0 where
  recipient_user recipient_merchant : RecipientType

abbrev pub same_type : RecipientType → RecipientType → Bool
same_type recipient_user recipient_user = true
same_type recipient_merchant recipient_merchant = true
same_type recipient_user recipient_merchant = false
same_type recipient_merchant recipient_user = false

pub data PayoutStatus : Type 0 where
  payout_pending payout_completed payout_failed : PayoutStatus

abbrev pub is_failed : PayoutStatus → Bool
is_failed payout_failed = true
is_failed payout_pending = false
is_failed payout_completed = false

pub record RewardRule : Type 0 where
  pub id : Uuid
  pub name : String
  pub min_percentage_bps : ℤ
  pub max_percentage_bps : ℤ
  pub min_transaction_amount_paise : ℤ
  pub max_payout_amount_paise : ℤ
  pub active : Bool
  pub created_by : Option Uuid
  pub created_at : Time
  pub updated_at : Time

pub record RewardPayout : Type 0 where
  pub id : Uuid
  pub transaction_id : Uuid
  pub recipient_id : Uuid
  pub recipient_account_id : Uuid
  pub recipient_type : RecipientType
  pub rule_id : Option Uuid
  pub original_amount_paise : ℤ
  pub reward_percentage_bps : ℤ
  pub reward_amount_paise : ℤ
  pub status : PayoutStatus
  pub payment_transaction_id : Option Uuid
  pub failure_reason : Option String
  pub event_payload : String
  pub created_at : Time
  pub updated_at : Time
  pub completed_at : Option Time

-- The event that the payment service publishes.
pub record PaymentCompletedEvent : Type 0 where
  pub event_id : String
  pub event_type : String
  pub transaction_id : Uuid
  pub recipient_id : Uuid
  pub recipient_account_id : Uuid
  pub recipient_type : String
  pub amount_paise : ℤ
  pub occurred_at : Time

-- What the payment service has paid out, and the payout that it was asked for.
pub record Payment : Type 0 where
  pub payout : RewardPayout
  pub account_id : Uuid
  pub amount_paise : ℤ

-- The two tables, each with its newest row first, and beside them the payments that were made.
pub record RewardDb : Type 0 where
  pub rules : List RewardRule
  pub payouts : List RewardPayout
  pub payments : List Payment

-- A text of `fmt.Errorf`, an error of the database, what the payment service answered, and the panic
-- of `rand.Int31n`.
pub data RewardError : Type 0 where
  bad_event : RewardError
  bad_rule : String → RewardError
  store_failed : DbError → RewardError
  payment_failed : String → RewardError
  roll_panics : RewardError

abbrev pub RewardCall : Type 0 → Type 0
RewardCall A = Action DbError RewardDb RewardError A

abbrev pub RewardQuery : Type 0 → Type 0
RewardQuery A = Action DbError RewardDb DbError A
