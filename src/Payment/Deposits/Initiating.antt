-- ===== src/Payment/Deposits/Initiating.antt =====
-- InitiateDeposit (deposite_usecases.go) and MarkFailed (deposits_repo.go).
use moneymate_backend.Shared.{
  ap, ℕ, suc, String, ◌≡◌, inl, inr, refl, arith, Option, Option-cases, none, some, find?,
  find?-update_by, eq_iff,
}
use moneymate_backend.Shared.Int.{ℤ, pos, ◌≤ℤ◌}
use moneymate_backend.Shared.Action.{Env, World, Result, ok, Result-cases}
use moneymate_backend.Errors.{DbError, Error}
use moneymate_backend.Payment.Domain.{Uuid, Account, Deposit, created, failed, Db}
use moneymate_backend.Payment.Constraints.Passing.{with_deposit, insert_deposit_row-cases}
use moneymate_backend.Payment.Queries.{
  is_wallet_of, has_order, fail, get_wallet_by_user_id, create_deposit, get_deposit_by_order_id,
  mark_deposit_failed,
}
use moneymate_backend.Payment.Deposits.{
  mark_failed, min_deposit_paise, max_deposit_paise, InitiateDepositResponse, initiate_deposit,
}

-- The deposit that a call of InitiateDeposit has left for its user's wallet.
pub record Initiated (user_id : Uuid) (amount : ℤ) (order : String) (d d' : Db) : Type 0 where
  pub wallet : Account
  pub wallet_found : find? (is_wallet_of user_id) d.accounts ≡ some wallet
  pub row : Deposit
  pub row_found : find? (has_order order) d'.deposits ≡ some row
  pub as_created : row.status ≡ created
  pub same_amount : row.amount ≡ amount
  pub same_account : row.account_id ≡ wallet.id
  pub was_new : find? (has_order order) d.deposits ≡ none
  pub same_accounts : d'.accounts ≡ d.accounts

module _ (parse_uuid : String → Option Uuid) (create_order : ℤ → Uuid → ℕ → Result Error String)
    (razorpay_key_id : String) (env : Env DbError) (user_id : String) (amount : ℤ)
    (w : World Db) where
  abbrev new_deposit : Uuid → Account → String → Deposit
  new_deposit uid a order = record {
    id = env.new_uuid (suc w.calls);
    user_id = uid;
    account_id = a.id;
    razorpay_order_id = order;
    razorpay_payment_id = "";
    amount = amount;
    status = created;
    created_at = env.now (suc (suc (suc w.calls)));
    completed_at = none;
  }

  created_lem :
      (uid : Uuid) (a : Account) (order : String) {r : InitiateDepositResponse} {w' : World Db}
      → parse_uuid user_id ≡ some uid
      → find? (is_wallet_of uid) w.db.accounts ≡ some a
      → create_order amount (env.new_uuid (suc w.calls)) (suc (suc w.calls)) ≡ ok order
      → initiate_deposit parse_uuid create_order razorpay_key_id user_id amount env w ≡ (ok r, w')
      → (min_deposit_paise ≤ℤ amount)
        × (amount ≤ℤ max_deposit_paise)
        × (r.order_id ≡ order)
        × (w'.db ≡ with_deposit (new_deposit uid a order) w.db)
        × (find? (has_order order) w.db.deposits ≡ none)
  unfolding initiate_deposit get_wallet_by_user_id create_deposit
  created_lem uid a order u f o h =
      ground (arith, insert_deposit_row-cases (new_deposit uid a order) w.db)

  -- A deposit that was initiated is between one rupee and five hundred thousand; its user's wallet
  -- was found, and the answer's order, which no deposit had before, has a created deposit of that
  -- amount for that wallet. No account has changed.
  pub initiate_deposit-Initiated :
      (r : InitiateDepositResponse) (w' : World Db)
      → initiate_deposit parse_uuid create_order razorpay_key_id user_id amount env w ≡ (ok r, w')
      → (pos 100 ≤ℤ amount)
        × (amount ≤ℤ pos 50000000)
        × ((uid : Uuid) × (parse_uuid user_id ≡ some uid)
            × Initiated uid amount r.order_id w.db w'.db)
  unfolding initiate_deposit get_wallet_by_user_id create_deposit
  initiate_deposit-Initiated r w' h = elim (Option-cases (parse_uuid user_id)) [
    | inl m ↦ absurd (ground arith)
    | inr (uid, u) ↦ elim (Option-cases (find? (is_wallet_of uid) w.db.accounts)) [
      | inl m ↦ absurd (ground arith)
      | inr (a, f) ↦
          elim (Result-cases
            (create_order amount (env.new_uuid (suc w.calls)) (suc (suc w.calls)))) [
              | inr (e, refused) ↦ absurd (ground arith)
              | inl (order, o) ↦
                  let (low, high, answer, stored, fresh) = created_lem uid a order u f o h in
                  (
                    low,
                    high,
                    (
                      uid,
                      u,
                      record {
                        wallet = a;
                        wallet_found = f;
                        row = new_deposit uid a order;
                        row_found = ground (arith, stored, answer, eq_iff order order);
                        as_created = refl;
                        same_amount = refl;
                        same_account = refl;
                        was_new = ground (arith, answer, fresh);
                        same_accounts = ap Db.accounts stored;
                      },
                    ),
                  )
            ]
    ]
  ]

module _ (order payment : String) (env : Env DbError) (w : World Db) where
  -- MarkFailed, when it returns, has turned the order's deposit to failed, whatever its status was,
  -- and has written the payment's identifier to it; the rest of its row is as before, and no account,
  -- no transaction and no journal entry has changed.
  pub mark_failed_ignores_status :
      (w' : World Db)
      → mark_failed order payment env w ≡ (ok tt, w')
      → (p : Deposit) × (find? (has_order order) w.db.deposits ≡ some p)
        × (find? (has_order order) w'.db.deposits
            ≡ some (record p { status = failed; razorpay_payment_id = payment }))
        × (w'.db.accounts ≡ w.db.accounts)
        × (w'.db.transactions ≡ w.db.transactions)
        × (w'.db.entries ≡ w.db.entries)
  unfolding mark_failed get_deposit_by_order_id mark_deposit_failed
  mark_failed_ignores_status w' h = elim (Option-cases (find? (has_order order) w.db.deposits)) [
    | inl m ↦ absurd (ground arith)
    | inr (p, f) ↦ (
      p,
      f,
      ground (
        arith,
        find?-update_by Deposit.id (has_order order) (fail payment) (λ _. refl) p.id w.db.deposits p
            f,
      ),
      ground arith,
      ground arith,
      ground arith,
    )
  ]
