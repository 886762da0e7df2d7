-- ===== src/Payment/System/Evolution.antt =====
-- What each call makes of the store, by the few changes that it is put together from.
use moneymate_backend.Shared.{
  ap, sym, subst, ℕ, String, ◌≡◌, inl, inr, refl, arith, Option, none, Option-cases, find_by,
  update_by, delete_by, if◌then◌else◌,
}
use moneymate_backend.Shared.Int.{ℤ, pos}
use moneymate_backend.Shared.Text.{is_empty}
use moneymate_backend.Shared.Action.{
  Action, Env, World, ok, outcome, tick, transaction-ok, transaction-err, map_err-Reads,
  query-Reads, Reads, draw_uuid,
}
use moneymate_backend.Shared.Evolving.{
  Chains, Evolves, Reads-Evolves, bind-Evolves, map_err-Evolves, statement-Evolves,
}
use moneymate_backend.Errors.{DbError, db_error, map_db_errors}
use moneymate_backend.Payment.Domain.{
  Uuid, Time, Account, AccountType, wallet, Transaction, Deposit, created, Pod, Db,
}
use moneymate_backend.Payment.Constraints.{insert_account_row, insert_deposit_row, insert_pod_row}
use moneymate_backend.Payment.Constraints.Passing.{with_account, insert_account_row-cases}
use moneymate_backend.Payment.Queries.{
  Call, returning, fail, update_pod_row, new_account, create_account, create_wallet_row,
  create_deposit, create_pod, update_pod, delete_pod, get_deposit_by_order_id, mark_deposit_failed,
}
use moneymate_backend.Payment.Ledger.{repo, execute_transfer}
use moneymate_backend.Payment.Ledger.Posting.{Posts}
use moneymate_backend.Payment.Ledger.Executing.{execute_transfer-Posts, execute_transfer_refused}
use moneymate_backend.Payment.Deposits.{confirm_payment, confirm_body, mark_failed}
use moneymate_backend.Payment.Deposits.Crediting.{Deposits, confirm_body-Outcome, marked}
use moneymate_backend.Payment.Pods.{create_in_repo}

-- A relation between stores that holds of a posted transfer, of a credited deposit, of a new and
-- empty account, and of whatever leaves accounts, entries and transactions alone.
pub record FollowsLedger (settlement : Uuid) (R : Db → Db → Type 0) : Type 0 where
  pub chains : Chains R
  pub unmoved :
      (d d' : Db)
      → d'.accounts ≡ d.accounts
      → d'.entries ≡ d.entries
      → d'.transactions ≡ d.transactions
      → R d d'
  pub posted :
      (env : Env DbError) (c : ℕ) (t : Transaction) (d d' : Db) → Posts env c t d d' → R d d'
  pub credited :
      (env : Env DbError) (c : ℕ) (order : String) (now : Time) (p : Deposit) (d d' : Db)
      → Deposits env c settlement order now p d d'
      → R d d'
  pub opened :
      (a : Account) (d : Db)
      → a.balance ≡ pos 0
      → find_by Account.id a.id d.accounts ≡ none
      → R d (with_account a d)

module _ {settlement : Uuid} {R : Db → Db → Type 0} (f : FollowsLedger settlement R) where
  pub reads : {A : Type 0} {m : Call A} → Reads m → Evolves R m
  reads r = Reads-Evolves f.chains r

  pub execute_transfer-Evolves : (t : Transaction) → Evolves R (execute_transfer t)
  execute_transfer-Evolves t = record {
    evolves = λ env w. elim (outcome (execute_transfer t env w)) [
      | inl (r, done) ↦ f.posted env _ t w.db _ (execute_transfer-Posts env t w done).0
      | inr (e, raised) ↦
          subst (R w.db) (sym (execute_transfer_refused env t w raised)) (f.chains.stays w.db)
    ];
  }

  pub confirm_payment-Evolves :
      (order payment : String) → Evolves R (confirm_payment order payment settlement)
  unfolding confirm_payment
  confirm_payment-Evolves order payment = record {
    evolves = λ env w. elim (outcome (confirm_payment order payment settlement env w)) [
      | inr (e, raised) ↦
          subst (R w.db)
            (sym (transaction-err db_error (confirm_body order payment settlement) env w raised))
            (f.chains.stays w.db)
      | inl ((p, b), done) ↦
          let (w₁, body, e) =
            transaction-ok db_error (confirm_body order payment settlement) env w done in
          subst (R w.db) (ap World.db (sym e))
            (elim (confirm_body-Outcome env order payment settlement (tick w) body) [
              | inl (duplicate, same) ↦ subst (R w.db) (sym same) (f.chains.stays w.db)
              | inr (told, c) ↦
                  f.chains.chained _ _ _
                    (f.unmoved w.db (marked (Deposit.id c.row) payment c.now w.db) refl refl refl)
                    (f.credited env c.call order c.now c.row _ w₁.db c.credits)
            ])
    ];
  }

  abbrev writes : {A : Type 0} {m : Action DbError Db DbError A} → Evolves R m → Evolves R (repo m)
  writes g = map_err-Evolves f.chains map_db_errors g

  -- An account that is new and empty.
  insert_account-opened :
      (a r : Account) (d d' : Db)
      → a.balance ≡ pos 0
      → returning a (insert_account_row a d) ≡ ok (r, d')
      → R d d'
  insert_account-opened a r d d' zero h = elim (insert_account_row-cases a d) [
    | inl (stored, free) ↦ subst (R d) (ground arith) (f.opened a d zero free)
    | inr (e, refused) ↦ absurd (ground arith)
  ]

  pub create_account-Evolves :
      (user : Option Uuid) (type : AccountType)
      → Evolves R (repo (create_account user none type "INR"))
  unfolding create_account
  create_account-Evolves user type = writes (
      statement-Evolves f.chains
        (λ now fresh d.
          returning (new_account user none type "INR" none now fresh)
            (insert_account_row (new_account user none type "INR" none now fresh) d))
        λ now fresh d d' r h.
          insert_account-opened (new_account user none type "INR" none now fresh) r d d' refl h)

  pub create_wallet_row-Evolves :
      (user : Option Uuid) (name : Option String)
      → Evolves R (repo (create_wallet_row user "INR" name))
  unfolding create_wallet_row
  create_wallet_row-Evolves user name = writes (
      statement-Evolves f.chains
        (λ now fresh d.
          returning (new_account user none wallet "INR" name now fresh)
            (insert_account_row (new_account user none wallet "INR" name now fresh) d))
        λ now fresh d d' r h.
          insert_account-opened (new_account user none wallet "INR" name now fresh) r d d' refl h)

  pub create_deposit-Evolves :
      (id user account : Uuid) (order : String) (amount : ℤ)
      → Evolves R (repo (create_deposit id user account order amount))
  unfolding create_deposit insert_deposit_row
  create_deposit-Evolves id user account order amount =
      let fresh_deposit : Time → Deposit = λ now. record {
        id = id;
        user_id = user;
        account_id = account;
        razorpay_order_id = order;
        razorpay_payment_id = "";
        amount = amount;
        status = created;
        created_at = now;
        completed_at = none;
      } in
      writes (
        statement-Evolves f.chains
          (λ now fresh d. returning (fresh_deposit now) (insert_deposit_row (fresh_deposit now) d))
          λ now fresh d d' r h. f.unmoved d d' (ground arith) (ground arith) (ground arith))

  pub mark_failed-Evolves : (order payment : String) → Evolves R (mark_failed order payment)
  unfolding mark_failed get_deposit_by_order_id mark_deposit_failed
  mark_failed-Evolves order payment =
      bind-Evolves f.chains (reads (map_err-Reads map_db_errors (query-Reads _))) λ p. writes (
        statement-Evolves f.chains
          (λ _ _ d. ok (
            tt,
            record d { deposits = update_by Deposit.id (Deposit.id p) (fail payment) d.deposits },
          ))
          λ now fresh d d' r h. f.unmoved d d' (ground arith) (ground arith) (ground arith))

  pub create_in_repo-Evolves : (p : Pod) → Evolves R (create_in_repo p)
  unfolding create_in_repo create_pod insert_pod_row
  create_in_repo-Evolves p =
      let stamped : Time → Uuid → Pod = λ now id. record p {
        id = id;
        status = if is_empty p.status then "active" else p.status;
        created_at = now;
        updated_at = now;
      } in
      bind-Evolves f.chains (reads {m = draw_uuid} (record { keeps = λ env w. refl })) λ id.
        writes (
          statement-Evolves f.chains
            (λ now _ d. returning (stamped now id) (insert_pod_row (stamped now id) d))
            λ now fresh d d' r h. f.unmoved d d' (ground arith) (ground arith) (ground arith))

  pub update_pod-Evolves : (p : Pod) → Evolves R (repo (update_pod p))
  unfolding update_pod
  update_pod-Evolves p = writes (
      statement-Evolves f.chains (λ now _ d. update_pod_row p now d (find_by Pod.id p.id d.pods))
        λ now fresh d d' r h. elim (Option-cases (find_by Pod.id p.id d.pods)) [
          | inl m ↦ absurd (ground arith)
          | inr (q, found) ↦ f.unmoved d d' (ground arith) (ground arith) (ground arith)
        ])

  pub delete_pod-Evolves : (k : Uuid) → Evolves R (repo (delete_pod k))
  unfolding delete_pod
  delete_pod-Evolves k = writes (
      statement-Evolves f.chains (λ _ _ d. ok (tt, record d { pods = delete_by Pod.id k d.pods }))
        λ now fresh d d' r h. f.unmoved d d' (ground arith) (ground arith) (ground arith))
