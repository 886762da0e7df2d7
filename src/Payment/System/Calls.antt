-- ===== src/Payment/System/Calls.antt =====
-- Every call of the service (routes.go), put together from the changes of Evolution.
use moneymate_backend.Shared.{ℕ, String, refl, Option, some, List, [], ◌∷◌, not, ◌||◌, ◌==◌}
use moneymate_backend.Shared.Int.{ℤ, pos, eqb_ℤ, ltb_ℤ, leb_ℤ}
use moneymate_backend.Shared.Text.{is_empty, trim_space}
use moneymate_backend.Shared.Action.{
  Env, World, Result, ok, err, pure-Reads, raise-Reads, raise_if-Reads, or_raise-Reads, external,
  draw_uuid,
}
use moneymate_backend.Shared.Evolving.{
  Evolves, bind-Evolves, handle-Evolves, if-Evolves, transaction-Evolves,
}
use moneymate_backend.Errors.{
  DbError, Error, db_error, invalid_input, unauthorized, pod_non_zero_balance,
}
use moneymate_backend.Payment.Domain.{Uuid, Account, pod, Transaction, Pod, LedgerResult, Db}
use moneymate_backend.Payment.Deposits.{
  confirm_deposit, fail_deposit, initiate_deposit, min_deposit_paise, max_deposit_paise,
}
use moneymate_backend.Payment.Transfers.{
  TransferInput, Parties, new_transaction, is_not_found, is_idempotency_key_used, transfer,
  transfer_between, after_lookup, start_transfer, replay_winner,
}
use moneymate_backend.Payment.Transfers.Replaying.{
  find_parties-Reads, find_category-Reads, lookup-Reads, replay-Reads, wallet-Reads,
}
use moneymate_backend.Payment.Withdrawals.{
  withdrawal, system_transaction, request_withdrawal, withdraw_from, withdraw_unless,
  SystemTransferInput, system_transfer,
}
use moneymate_backend.Payment.Withdrawals.Outcomes.{find_wallet-Reads}
use moneymate_backend.Payment.Wallets.{
  is_already_exists, settle_creation, create_unless, create_wallet,
}
use moneymate_backend.Payment.Pods.{
  pod_transaction, is_deposit_to, new_pod, CreatePodInput, PodTransferInput, UpdatePodInput,
  create_body, create_user_pod, update_user_pod, set_fields, settle_fields, delete_user_pod,
  transfer_to_pod, move_to_pod, is_bad_target,
}
use moneymate_backend.Payment.Pods.Owning.{find_own_pod-Reads, account-Reads}
use moneymate_backend.Payment.Pods.Moving.{find_pod_parties-Reads}
use moneymate_backend.Payment.System.{
  PaymentCall, post_transfer, post_deposit, confirm_order, fail_order, post_withdrawal, post_pod,
  patch_pod, remove_pod, post_pod_transfer, post_wallet, post_system_transfer, serve, serve_all,
}
use moneymate_backend.Payment.System.Evolution.{
  FollowsLedger, reads, execute_transfer-Evolves, confirm_payment-Evolves, create_account-Evolves,
  create_wallet_row-Evolves, create_deposit-Evolves, mark_failed-Evolves, create_in_repo-Evolves,
  update_pod-Evolves, delete_pod-Evolves,
}

module _ {settlement : Uuid} {R : Db → Db → Type 0} (f : FollowsLedger settlement R)
    (parse_uuid : String → Option Uuid) where
  replay_winner-Evolves :
      (input : TransferInput) (p : Parties) (r : Result Error LedgerResult)
      → Evolves R (replay_winner parse_uuid input p r)
  replay_winner-Evolves input p (ok r) = reads f (pure-Reads r)
  replay_winner-Evolves input p (err e) =
      if-Evolves f.chains (is_idempotency_key_used e)
        (bind-Evolves f.chains (reads f (lookup-Reads (trim_space input.idempotency_key) p.from_id))
          λ t. reads f (replay-Reads t))
        (reads f (raise-Reads e))

  start_transfer-Evolves :
      (input : TransferInput) (p : Parties) → Evolves R (start_transfer parse_uuid input p)
  unfolding start_transfer
  start_transfer-Evolves input p =
      bind-Evolves f.chains (reads f (find_category-Reads parse_uuid p.user_id input.category_id))
        λ category.
          handle-Evolves f.chains
            (execute_transfer-Evolves f (new_transaction parse_uuid input p category))
            (replay_winner-Evolves input p)

  after_lookup-Evolves :
      (input : TransferInput) (p : Parties) (r : Result Error Transaction)
      → Evolves R (after_lookup parse_uuid input p r)
  unfolding after_lookup
  after_lookup-Evolves input p (ok t) = reads f (replay-Reads t)
  after_lookup-Evolves input p (err e) =
      if-Evolves f.chains (is_not_found e) (start_transfer-Evolves input p)
        (reads f (raise-Reads e))

  transfer-Evolves : (input : TransferInput) → Evolves R (transfer parse_uuid input)
  unfolding transfer transfer_between
  transfer-Evolves input =
      bind-Evolves f.chains (reads f (find_parties-Reads parse_uuid input)) λ p.
        handle-Evolves f.chains
          (reads f (lookup-Reads (trim_space input.idempotency_key) p.from_id))
          (after_lookup-Evolves input p)

  withdraw_unless-Evolves :
      (from : Uuid) (amount : ℤ) (key : String) (r : Result Error Transaction)
      → Evolves R (withdraw_unless settlement from amount key r)
  unfolding withdraw_unless
  withdraw_unless-Evolves from amount key (ok t) = reads f (replay-Reads t)
  withdraw_unless-Evolves from amount key (err e) =
      execute_transfer-Evolves f (withdrawal settlement from amount key)

  request_withdrawal-Evolves :
      (user_id : String) (amount : ℤ) (key : String)
      → Evolves R (request_withdrawal parse_uuid settlement user_id amount key)
  unfolding request_withdrawal withdraw_from
  request_withdrawal-Evolves user_id amount key = record {
    evolves = λ env w.
        (bind-Evolves f.chains
            (reads f (find_wallet-Reads settlement amount key env parse_uuid user_id w))
            λ from.
              handle-Evolves f.chains (reads f (lookup-Reads key from))
                (withdraw_unless-Evolves from amount key)).evolves
          env w;
  }

  system_transfer-Evolves : (input : SystemTransferInput) → Evolves R (system_transfer input)
  unfolding system_transfer
  system_transfer-Evolves input =
      bind-Evolves f.chains
        (reads f (raise_if-Reads (leb_ℤ input.amount_paise (pos 0)) invalid_input))
        λ _.
          bind-Evolves f.chains
            (reads f (raise_if-Reads (is_empty (trim_space input.idempotency_key)) invalid_input))
            λ _.
              bind-Evolves f.chains
                (reads f
                  (raise_if-Reads (input.from_account_id == input.to_account_id) invalid_input))
                λ _. execute_transfer-Evolves f (system_transaction input)

  transfer_to_pod-Evolves :
      (uuid_text : Uuid → String) (input : PodTransferInput)
      → Evolves R (transfer_to_pod parse_uuid uuid_text input)
  unfolding transfer_to_pod move_to_pod
  transfer_to_pod-Evolves uuid_text input =
      bind-Evolves f.chains (reads f (find_pod_parties-Reads parse_uuid uuid_text input)) λ x.
        bind-Evolves f.chains
          (execute_transfer-Evolves f
            (pod_transaction input (is_deposit_to input) x.key x.from_pod x.wallet))
          λ res. reads f (pure-Reads _)

  create_user_pod-Evolves : (input : CreatePodInput) → Evolves R (create_user_pod parse_uuid input)
  unfolding create_user_pod create_body
  create_user_pod-Evolves input =
      bind-Evolves f.chains
        (reads f (or_raise-Reads (parse_uuid input.authenticated_user_id) unauthorized))
        λ user.
          bind-Evolves f.chains
            (reads f (raise_if-Reads (is_empty (trim_space input.name)) invalid_input))
            λ _.
              bind-Evolves f.chains
                (reads f (raise_if-Reads (is_bad_target input.target_amount_paise) invalid_input))
                λ _. transaction-Evolves f.chains db_error (
                  bind-Evolves f.chains (create_account-Evolves f (some user) pod) λ acc.
                    bind-Evolves f.chains (create_in_repo-Evolves f (new_pod input user acc.id))
                      λ made. reads f (pure-Reads _))

  settle_fields-Evolves : (r : Result Error Pod) → Evolves R (settle_fields r)
  settle_fields-Evolves (ok p) = reads f (pure-Reads p)
  settle_fields-Evolves (err e) = reads f (raise-Reads e)

  update_user_pod-Evolves : (input : UpdatePodInput) → Evolves R (update_user_pod parse_uuid input)
  unfolding update_user_pod
  update_user_pod-Evolves input =
      bind-Evolves f.chains
        (reads f (find_own_pod-Reads parse_uuid input.authenticated_user_id input.pod_id))
        λ p. bind-Evolves f.chains (settle_fields-Evolves (set_fields input p)) λ changed.
          bind-Evolves f.chains (update_pod-Evolves f changed) λ stored.
            bind-Evolves f.chains
              (reads f (
                account-Reads parse_uuid input.authenticated_user_id input.pod_id
                  stored.account_id))
              λ acc. reads f (pure-Reads _)

  delete_user_pod-Evolves :
      (user_id pod_id : String) → Evolves R (delete_user_pod parse_uuid user_id pod_id)
  unfolding delete_user_pod
  delete_user_pod-Evolves user_id pod_id =
      bind-Evolves f.chains (reads f (find_own_pod-Reads parse_uuid user_id pod_id)) λ p.
        bind-Evolves f.chains (reads f (account-Reads parse_uuid user_id pod_id p.account_id))
          λ acc.
            bind-Evolves f.chains
              (reads f (raise_if-Reads (not (eqb_ℤ acc.balance (pos 0))) pod_non_zero_balance))
              λ _. delete_pod-Evolves f p.id

  settle_creation-Evolves :
      (uid : Uuid) (r : Result Error Account) → Evolves R (settle_creation uid r)
  unfolding settle_creation
  settle_creation-Evolves uid (ok a) = reads f (pure-Reads a)
  settle_creation-Evolves uid (err e) =
      if-Evolves f.chains (is_already_exists e) (reads f (wallet-Reads uid))
        (reads f (raise-Reads e))

  create_unless-Evolves :
      (uid : Uuid) (name : String) (r : Result Error Account) → Evolves R (create_unless uid name r)
  unfolding create_unless
  create_unless-Evolves uid name (ok a) = reads f (pure-Reads a)
  create_unless-Evolves uid name (err e) =
      if-Evolves f.chains (is_not_found e)
        (handle-Evolves f.chains (create_wallet_row-Evolves f (some uid) (some name))
          (settle_creation-Evolves uid))
        (reads f (raise-Reads e))

  create_wallet-Evolves :
      (user_id name : String) → Evolves R (create_wallet parse_uuid user_id name)
  unfolding create_wallet
  create_wallet-Evolves user_id name =
      bind-Evolves f.chains (reads f (or_raise-Reads (parse_uuid user_id) invalid_input)) λ uid.
        bind-Evolves f.chains (reads f (raise_if-Reads (is_empty name) invalid_input))
          λ _. handle-Evolves f.chains (reads f (wallet-Reads uid)) (create_unless-Evolves uid name)

  module _ (create_order : ℤ → Uuid → ℕ → Result Error String) (razorpay_key_id : String) where
    initiate_deposit-Evolves :
        (user_id : String) (amount : ℤ)
        → Evolves R (initiate_deposit parse_uuid create_order razorpay_key_id user_id amount)
    unfolding initiate_deposit
    initiate_deposit-Evolves user_id amount =
        bind-Evolves f.chains
          (reads f (
            raise_if-Reads (ltb_ℤ amount min_deposit_paise || ltb_ℤ max_deposit_paise amount)
              invalid_input))
          λ _.
            bind-Evolves f.chains (reads f (or_raise-Reads (parse_uuid user_id) invalid_input))
              λ uid. bind-Evolves f.chains (reads f (wallet-Reads uid)) λ own.
                bind-Evolves f.chains (reads f {m = draw_uuid} (record { keeps = λ env w. refl }))
                  λ id.
                    bind-Evolves f.chains
                      (reads f {m = external (create_order amount id)}
                        (record { keeps = λ env w. refl }))
                      λ order.
                        bind-Evolves f.chains (create_deposit-Evolves f id uid own.id order amount)
                          λ made. reads f (
                            pure-Reads (record {
                              order_id = order;
                              amount = amount;
                              key_id = razorpay_key_id;
                            }))

    confirm_deposit-Evolves :
        (order payment : String) → Evolves R (confirm_deposit settlement order payment)
    unfolding confirm_deposit
    confirm_deposit-Evolves order payment =
        bind-Evolves f.chains (confirm_payment-Evolves f order payment) λ c. reads f (pure-Reads tt)

    module _ (uuid_text : Uuid → String) (env : Env DbError) where
      pub serve-evolves :
          (call : PaymentCall) (w : World Db)
          → R w.db
              (serve parse_uuid uuid_text create_order razorpay_key_id settlement call env w).db
      unfolding serve fail_deposit
      serve-evolves (post_transfer input) w = (transfer-Evolves input).evolves env w
      serve-evolves (post_deposit user_id amount) w =
          (initiate_deposit-Evolves user_id amount).evolves env w
      serve-evolves (confirm_order order payment) w =
          (confirm_deposit-Evolves order payment).evolves env w
      serve-evolves (fail_order order payment) w =
          (mark_failed-Evolves f order payment).evolves env w
      serve-evolves (post_withdrawal user_id amount key) w =
          (request_withdrawal-Evolves user_id amount key).evolves env w
      serve-evolves (post_pod input) w = (create_user_pod-Evolves input).evolves env w
      serve-evolves (patch_pod input) w = (update_user_pod-Evolves input).evolves env w
      serve-evolves (remove_pod user_id pod_id) w =
          (delete_user_pod-Evolves user_id pod_id).evolves env w
      serve-evolves (post_pod_transfer input) w =
          (transfer_to_pod-Evolves uuid_text input).evolves env w
      serve-evolves (post_wallet user_id name) w =
          (create_wallet-Evolves user_id name).evolves env w
      serve-evolves (post_system_transfer input) w = (system_transfer-Evolves input).evolves env w

      -- By a relation that follows the ledger, any calls lead from the first store to the last.
      pub serve_all-evolves :
          (calls : List PaymentCall) (w : World Db)
          → R w.db
              (serve_all parse_uuid uuid_text create_order razorpay_key_id settlement calls env
                w).db
      unfolding serve_all
      serve_all-evolves [] w = f.chains.stays w.db
      serve_all-evolves (call ∷ calls) w =
          f.chains.chained _ _ _ (serve-evolves call w) (serve_all-evolves calls _)
