-- ===== src/Payment/System.antt =====
-- The calls of services/payment that write, as its routes (internal/transport/http/routes.go) give
-- them to the use cases, one after another in any order.
pub mod Evolution
pub mod Calls
pub mod Soundness
pub mod Bookkeeping
pub mod Tests
use moneymate_backend.Shared.{ℕ, String, Option, List, [], ◌∷◌}
use moneymate_backend.Shared.Int.{ℤ}
use moneymate_backend.Shared.Action.{Env, World, Result}
use moneymate_backend.Errors.{DbError, Error}
use moneymate_backend.Payment.Domain.{Uuid, Db}
use moneymate_backend.Payment.Queries.{Call}
use moneymate_backend.Payment.Deposits.{initiate_deposit, confirm_deposit, fail_deposit}
use moneymate_backend.Payment.Transfers.{TransferInput, transfer}
use moneymate_backend.Payment.Withdrawals.{request_withdrawal, SystemTransferInput, system_transfer}
use moneymate_backend.Payment.Wallets.{create_wallet}
use moneymate_backend.Payment.Pods.{
  CreatePodInput, PodTransferInput, UpdatePodInput, create_user_pod, update_user_pod,
  delete_user_pod, transfer_to_pod,
}

pub data PaymentCall : Type 0 where
  post_transfer : TransferInput → PaymentCall
  post_deposit : (user_id : String) (amount : ℤ) → PaymentCall
  confirm_order : (order payment : String) → PaymentCall
  fail_order : (order payment : String) → PaymentCall
  post_withdrawal : (user_id : String) (amount : ℤ) (key : String) → PaymentCall
  post_pod : CreatePodInput → PaymentCall
  patch_pod : UpdatePodInput → PaymentCall
  remove_pod : (user_id pod_id : String) → PaymentCall
  post_pod_transfer : PodTransferInput → PaymentCall
  post_wallet : (user_id handle : String) → PaymentCall
  post_system_transfer : SystemTransferInput → PaymentCall

-- Of a call's answer nothing is kept.
abbrev pub silent : {A : Type 0} → Call A → Env DbError → World Db → World Db
silent m env w = (m env w).1

-- `uuid.Parse`, the text of a new identifier, Razorpay's `CreateOrder`, and the external settlement
-- account, which is read once when the service starts.
module _ (parse_uuid : String → Option Uuid) (uuid_text : Uuid → String)
    (create_order : ℤ → Uuid → ℕ → Result Error String) (razorpay_key_id : String)
    (settlement : Uuid) where
  unfoldable pub serve : PaymentCall → Env DbError → World Db → World Db
  serve (post_transfer input) = silent (transfer parse_uuid input)
  serve (post_deposit user_id amount) =
      silent (initiate_deposit parse_uuid create_order razorpay_key_id user_id amount)
  serve (confirm_order order payment) = silent (confirm_deposit settlement order payment)
  serve (fail_order order payment) = silent (fail_deposit order payment)
  serve (post_withdrawal user_id amount key) =
      silent (request_withdrawal parse_uuid settlement user_id amount key)
  serve (post_pod input) = silent (create_user_pod parse_uuid input)
  serve (patch_pod input) = silent (update_user_pod parse_uuid input)
  serve (remove_pod user_id pod_id) = silent (delete_user_pod parse_uuid user_id pod_id)
  serve (post_pod_transfer input) = silent (transfer_to_pod parse_uuid uuid_text input)
  serve (post_wallet user_id handle) = silent (create_wallet parse_uuid user_id handle)
  serve (post_system_transfer input) = silent (system_transfer input)

  unfoldable pub serve_all : List PaymentCall → Env DbError → World Db → World Db
  serve_all [] env w = w
  serve_all (call ∷ calls) env w = serve_all calls env (serve call env w)
