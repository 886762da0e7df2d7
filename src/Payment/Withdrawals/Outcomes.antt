-- ===== src/Payment/Withdrawals/Outcomes.antt =====
-- The outcomes of RequestWithdrawal (withdrawal_usecase.go) and of the transfers that other services
-- ask for (system_tranfer_usecase.go).
use moneymate_backend.Shared.{
  ap, sym, subst, ◌∙◌, String, ◌≡◌, ◌≢◌, ◌⊎◌, inl, inr, refl, arith, ◌||◌, Option, Option-cases,
  Bool-cases, some, ◌==◌, find?,
}
use moneymate_backend.Shared.Int.{ℤ, pos, ◌≤ℤ◌, ◌<ℤ◌, ltb_ℤ, leb_ℤ}
use moneymate_backend.Shared.Text.{trim_space, is_empty}
use moneymate_backend.Shared.Action.{
  Env, World, Result, ok, err, ◌>>=◌, ◌>>◌, pure, or_raise, raise_if, guard-ok, bind-ok, bind-err,
  outcome, Reads, bind-Reads, raise_if-Reads, or_raise-Reads, pure-Reads,
}
use moneymate_backend.Errors.{DbError, Error, invalid_input}
use moneymate_backend.Payment.Domain.{Uuid, Account, wallet, Transaction, LedgerResult, Db}
use moneymate_backend.Payment.Constraints.{has_key}
use moneymate_backend.Payment.Queries.{
  Call, is_wallet_of, get_wallet_by_user_id, get_transaction_by_idempotency_key,
}
use moneymate_backend.Payment.Ledger.{repo, execute_transfer}
use moneymate_backend.Payment.Ledger.Executing.{execute_transfer_refused}
use moneymate_backend.Payment.Ledger.Transfers.{Moved, Recorded, execute_transfer_moves}
use moneymate_backend.Payment.Transfers.Replaying.{
  lookup_lem, lookup-Reads, wallet-Reads, wallet_lem,
}
use moneymate_backend.Payment.Transfers.Outcomes.{
  Ends, replay-Ends, execute_transfer-Ends, Settles, Answers-Settles,
}
use moneymate_backend.Payment.Withdrawals.{
  min_withdrawal_paise, max_withdrawal_paise, withdrawal, withdraw_unless, withdraw_from,
  find_wallet, request_withdrawal, SystemTransferInput, system_transaction, system_transfer,
}

module _ (settlement : Uuid) (amount : ℤ) (key : String) (env : Env DbError) where
  withdraw_from-Ends :
      (from : Uuid) (d : Db) (w : World Db)
      → w.db ≡ d
      → Ends
          (withdrawal settlement from amount key)
          env
          d
          (withdraw_from settlement amount key from env w)
  unfolding withdraw_from withdraw_unless
  withdraw_from-Ends from d w same =
      unless_lem (repo (get_transaction_by_idempotency_key key from) env w).0
        (repo (get_transaction_by_idempotency_key key from) env w).1
        ((lookup-Reads key from).keeps env w ∙ same)
        (λ t e.
          ap (λ y. find? (has_key key from) (Db.transactions y)) (sym same)
          ∙ lookup_lem key from env w e)
    where
      unless_lem :
          (x : Result Error Transaction) (w₁ : World Db)
          → w₁.db ≡ d
          → ((t : Transaction) → x ≡ ok t → find? (has_key key from) d.transactions ≡ some t)
          → Ends
              (withdrawal settlement from amount key)
              env
              d
              (withdraw_unless settlement from amount key x env w₁)
      unless_lem (ok t) w₁ kept f =
          replay-Ends (withdrawal settlement from amount key) env d t w₁ kept (f t refl)
      unless_lem (err e) w₁ kept f =
          execute_transfer-Ends (withdrawal settlement from amount key) env d w₁ kept

  module _ (parse_uuid : String → Option Uuid) (user_id : String) (w : World Db) where
    pub find_wallet-Reads : Reads (find_wallet parse_uuid user_id amount key)
    unfolding find_wallet
    find_wallet-Reads =
        bind-Reads
          (raise_if-Reads (ltb_ℤ amount min_withdrawal_paise || ltb_ℤ max_withdrawal_paise amount)
            invalid_input)
          λ _. bind-Reads (raise_if-Reads (is_empty key) invalid_input) λ _.
            bind-Reads (or_raise-Reads (parse_uuid user_id) invalid_input)
              λ uid. bind-Reads (wallet-Reads uid) λ own. pure-Reads (Account.id own)

    -- The bounds, and the caller's wallet.
    pub record Withdraws (from : Uuid) : Type 0 where
      pub at_least : pos 100 ≤ℤ amount
      pub at_most : amount ≤ℤ pos 20000000
      pub user : Uuid
      pub caller : parse_uuid user_id ≡ some user
      pub own : Account
      pub own_found : find? (is_wallet_of user) w.db.accounts ≡ some own
      pub of_caller : (own.user_id ≡ some user) × (own.type ≡ wallet)
      pub own_is : own.id ≡ from

    abbrev of_user : Call Uuid
    of_user = do
      uid ← or_raise (parse_uuid user_id) invalid_input
      own ← repo (get_wallet_by_user_id uid)
      pure own.id

    find_wallet-Withdraws :
        {from : Uuid} {w' : World Db}
        → find_wallet parse_uuid user_id amount key env w ≡ (ok from, w')
        → Withdraws from
    unfolding find_wallet get_wallet_by_user_id
    find_wallet-Withdraws h =
        let (bounded, h₁) =
          guard-ok (ltb_ℤ amount min_withdrawal_paise || ltb_ℤ max_withdrawal_paise amount)
            invalid_input (raise_if (is_empty key) invalid_input >> of_user) env w h in
        let (keyed, h₂) = guard-ok (is_empty key) invalid_input of_user env w h₁ in
        elim (Option-cases (parse_uuid user_id)) [
          | inl m ↦ absurd (ground arith)
          | inr (user, u) ↦ elim (Option-cases (find? (is_wallet_of user) w.db.accounts)) [
            | inl m ↦ absurd (ground arith)
            | inr (a, f) ↦ record {
              at_least = ground arith;
              at_most = ground arith;
              user = user;
              caller = u;
              own = a;
              own_found = f;
              of_caller = wallet_lem user w.db.accounts a f;
              own_is = ground arith;
            }
          ]
        ]

    -- A withdrawal that returns is between one rupee and two hundred thousand, from the caller's
    -- wallet: its key was used before by this wallet, the answer is that transaction and nothing has
    -- changed, or the key was new, exactly the amount has gone from the wallet to the settlement
    -- account, no other account has changed, and the withdrawal is recorded under the key.
    pub request_withdrawal-Settles :
        (r : LedgerResult) (w' : World Db)
        → request_withdrawal parse_uuid settlement user_id amount key env w ≡ (ok r, w')
        → (from : Uuid) × Withdraws from × Settles key from settlement amount w.db w'.db r
    unfolding request_withdrawal
    request_withdrawal-Settles r w' h =
        let (from, w₁, found, rest) =
          bind-ok (find_wallet parse_uuid user_id amount key) (withdraw_from settlement amount key)
            env w h in
        let same = ap (λ x. World.db x.1) (sym found) ∙ find_wallet-Reads.keeps env w in
        (
          from,
          find_wallet-Withdraws found,
          Answers-Settles (withdrawal settlement from amount key) env w.db w'.db r (
              subst (Ends (withdrawal settlement from amount key) env w.db) rest
                (withdraw_from-Ends from w.db w₁ same)),
        )

    -- A withdrawal that raises has changed nothing.
    pub request_withdrawal_refused :
        {e : Error} {w' : World Db}
        → request_withdrawal parse_uuid settlement user_id amount key env w ≡ (err e, w')
        → w'.db ≡ w.db
    unfolding request_withdrawal
    request_withdrawal_refused h =
        elim (bind-err (find_wallet parse_uuid user_id amount key)
          (withdraw_from settlement amount key) env w h) [
            | inl raised ↦ ap (λ x. World.db x.1) (sym raised) ∙ find_wallet-Reads.keeps env w
            | inr (from, w₁, found, rest) ↦
                let same = ap (λ x. World.db x.1) (sym found) ∙ find_wallet-Reads.keeps env w in
                subst (Ends (withdrawal settlement from amount key) env w.db) rest
                  (withdraw_from-Ends from w.db w₁ same)
          ]

-- A transfer that another service asks for, on every branch: it raises and has changed nothing, or
-- its amount is above zero, its accounts differ, exactly the amount has gone from the first account
-- named to the second, no other account has changed, and the transfer is recorded under its key.
pub system_transfer_outcomes :
    (input : SystemTransferInput) (env : Env DbError) (w : World Db)
    → ((e : Error) × ((system_transfer input env w).0 ≡ err e)
        × ((system_transfer input env w).1.db ≡ w.db))
      ⊎ ((r : LedgerResult) × ((system_transfer input env w).0 ≡ ok r)
          × (pos 0 <ℤ input.amount_paise)
          × (input.from_account_id ≢ input.to_account_id)
          × Moved input.from_account_id input.to_account_id input.amount_paise w.db
              (system_transfer input env w).1.db
          × Recorded input.idempotency_key input.from_account_id input.to_account_id
              input.amount_paise
              (system_transfer input env w).1.db
              r.transaction)
unfolding system_transfer
system_transfer_outcomes input env w = elim (Bool-cases (leb_ℤ input.amount_paise (pos 0))) [
  | inl y ↦ inl (invalid_input, rw y refl, rw y refl)
  | inr positive ↦ elim (Bool-cases (is_empty (trim_space input.idempotency_key))) [
    | inl y ↦ inl (invalid_input, rw (positive, y) refl, rw (positive, y) refl)
    | inr keyed ↦ elim (Bool-cases (input.from_account_id == input.to_account_id)) [
      | inl y ↦ inl (invalid_input, rw (positive, keyed, y) refl, rw (positive, keyed, y) refl)
      | inr distinct ↦
          rw (positive, keyed, distinct)
            (elim (outcome (execute_transfer (system_transaction input) env w)) [
              | inl (r, done) ↦
                  let (moved, recorded) =
                    execute_transfer_moves env (system_transaction input) w r _ done in
                  inr (r, ap (λ x. x.0) done, ground arith, ground arith, moved, recorded)
              | inr (e, raised) ↦ inl (
                e,
                ap (λ x. x.0) raised,
                execute_transfer_refused env (system_transaction input) w raised,
              )
            ])
    ]
  ]
]
