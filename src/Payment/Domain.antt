-- ===== src/Payment/Domain.antt =====
-- services/payment/internal/domain: the rows of the payment schema, and the schema as one store.
-- A UUID is the 128-bit number that it writes in hexadecimal, so the order of the canonical texts
-- is the order of the numbers; a time is the number of its instant. Amounts are paise.
use moneymate_backend.Shared.{ℕ, String, Bool, true, false, Option, List, []}
use moneymate_backend.Shared.Int.{ℤ}

abbrev pub Uuid : Type 0
Uuid = ℕ

abbrev pub Time : Type 0
Time = ℕ

pub data AccountType : Type 0 where
  wallet pod merchant_settlement merchant_payout platform_commission external_settlement :
      AccountType

pub record Account : Type 0 where
  pub id : Uuid
  pub user_id : Option Uuid
  pub merchant_id : Option Uuid
  pub type : AccountType
  pub currency : String
  pub balance : ℤ
  pub handle : Option String
  pub version : ℕ
  pub created_at : Time
  pub updated_at : Time

pub data TxStatus : Type 0 where
  pending completed failed reversed : TxStatus

pub record Transaction : Type 0 where
  pub id : Uuid
  pub from_account_id : Uuid
  pub to_account_id : Uuid
  pub amount : ℤ
  pub status : TxStatus
  pub idempotency_key : String
  pub description : String
  pub category_id : Option Uuid
  pub created_at : Time
  pub completed_at : Option Time

pub data Direction : Type 0 where
  debit credit : Direction

pub record JournalEntry : Type 0 where
  pub id : Uuid
  pub transaction_id : Uuid
  pub account_id : Uuid
  pub amount : ℤ
  pub direction : Direction
  pub created_at : Time

pub data DepositStatus : Type 0 where
  created paid failed : DepositStatus

pub record Deposit : Type 0 where
  pub id : Uuid
  pub user_id : Uuid
  pub account_id : Uuid
  pub razorpay_order_id : String
  pub razorpay_payment_id : String
  pub amount : ℤ
  pub status : DepositStatus
  pub created_at : Time
  pub completed_at : Option Time

pub record Pod : Type 0 where
  pub id : Uuid
  pub account_id : Uuid
  pub user_id : Uuid
  pub name : String
  pub target_amount : Option ℤ
  pub target_date : Option Time
  pub icon : String
  pub status : String
  pub created_at : Time
  pub updated_at : Time

pub record Category : Type 0 where
  pub id : Uuid
  pub user_id : Uuid
  pub name : String
  pub created_at : Time
  pub updated_at : Time

-- The tables of the schema `payment`, each with its newest row first.
pub record Db : Type 0 where
  pub accounts : List Account
  pub transactions : List Transaction
  pub entries : List JournalEntry
  pub deposits : List Deposit
  pub pods : List Pod
  pub categories : List Category

abbrev pub empty_db : Db
empty_db = record {
  accounts = [];
  transactions = [];
  entries = [];
  deposits = [];
  pods = [];
  categories = [];
}

pub record LedgerResult : Type 0 where
  pub transaction : Transaction
  pub debit_entry : Option JournalEntry
  pub credit_entry : Option JournalEntry
  pub from_balance : ℤ
  pub to_balance : ℤ

abbrev pub is_wallet : AccountType → Bool
is_wallet wallet = true
is_wallet _ = false

abbrev pub is_merchant_settlement : AccountType → Bool
is_merchant_settlement merchant_settlement = true
is_merchant_settlement _ = false
