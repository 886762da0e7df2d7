-- ===== src/Payment/Deposits/Outcomes.antt =====
-- The outcomes of ConfirmPayment (deposits_repo.go), read off the tables alone.
use moneymate_backend.Shared.{
  ap, sym, subst, ◌∙◌, ℕ, String, ◌≡◌, ◌≢◌, ◌⊎◌, inl, inr, refl, arith, true, false, some, find?,
  find_by, update_by, IsKeyed, find_by-find?, find?-update_by, find_by-update_ne,
  find_by-update_self, ◌==◌, if◌then◌else◌,
}
use moneymate_backend.Shared.Int.{◌+ℤ◌}
use moneymate_backend.Shared.Action.{Env, World, tick, outcome, transaction-ok, transaction-err}
use moneymate_backend.Errors.{DbError, db_error}
use moneymate_backend.Payment.Domain.{
  Uuid, Time, Account, Transaction, completed, Deposit, DepositStatus, created, paid, failed, Db,
}
use moneymate_backend.Payment.Constraints.{has_key, credited}
use moneymate_backend.Payment.Constraints.Passing.{has_key_self}
use moneymate_backend.Payment.Queries.{has_order, is_created, pay}
use moneymate_backend.Payment.Deposits.{confirm_body, confirm_payment, was_credited}
use moneymate_backend.Payment.Deposits.Crediting.{
  posted_deposit, deposited, Confirms, confirm_body-Outcome,
}

pub record Credited (order payment : String) (settlement : Uuid) (d d' : Db) : Type 0 where
  pub row : Deposit
  pub now : Time
  pub payee : Account
  pub payee' : Account
  pub posting : Transaction
  pub row_found : find? (has_order order) d.deposits ≡ some row
  pub was_created : row.status ≡ created
  pub row_paid :
      find? (has_order order) d'.deposits
      ≡ some (record row { status = paid; razorpay_payment_id = payment; completed_at = some now })
  pub deposits_left : d'.deposits ≡ update_by Deposit.id row.id (pay payment now) d.deposits
  pub payee_found : find_by Account.id row.account_id d.accounts ≡ some payee
  pub payee_left : find_by Account.id row.account_id d'.accounts ≡ some payee'
  pub received : payee'.balance ≡ payee.balance +ℤ row.amount
  pub untouched :
      (k : Uuid)
      → k ≢ row.account_id
      → find_by Account.id k d'.accounts ≡ find_by Account.id k d.accounts
  pub recorded : find? (has_key order settlement) d'.transactions ≡ some posting
  pub as_recorded :
      (posting.status ≡ completed)
      × (posting.amount ≡ row.amount)
      × (posting.to_account_id ≡ row.account_id)
      × (posting.from_account_id ≡ settlement)

is_created_lem : (s : DepositStatus) → is_created s ≡ true → s ≡ created
is_created_lem created h = refl
is_created_lem paid h = ground arith
is_created_lem failed h = ground arith

has_order-pay :
    (order payment : String) (now : Time) (p : Deposit)
    → has_order order (pay payment now p) ≡ has_order order p
has_order-pay order payment now p = refl

same_row : {p q : Deposit} → some p ≡ some q → p ≡ q
same_row h = ground arith

same_id : (k : ℕ) → (k == k) ≡ true
same_id k = ground arith

module _ (env : Env DbError) (order payment : String) (settlement : Uuid) (w : World Db)
    (keyed : IsKeyed Deposit.id w.db.deposits) where
  Confirms-Credited :
      {answer : Deposit} {d' : Db}
      → Confirms env order payment settlement w answer d'
      → Credited order payment settlement w.db d'
  unfolding deposited
  Confirms-Credited c =
      let p = c.row in
      let e = same_row (
        sym c.at_key_found
        ∙ find_by-find? Deposit.id (has_order order) w.db.deposits p keyed c.row_found) in
      let stored = c.credits.stored in
      record {
        row = p;
        now = c.now;
        payee = c.credits.payee;
        payee' = credited p.amount (env.now c.call) c.credits.payee;
        posting = posted_deposit env c.call settlement order c.now p;
        row_found = c.row_found;
        was_created =
            is_created_lem p.status
              (ap (λ q. is_created (Deposit.status q)) (sym e) ∙ c.was_created);
        row_paid =
            ap (λ d. find? (has_order order) (Db.deposits d)) stored
            ∙ find?-update_by Deposit.id (has_order order) (pay payment c.now)
                (has_order-pay order payment c.now) p.id w.db.deposits p c.row_found
            ∙ ap (λ b. some (if b then pay payment c.now p else p)) (same_id p.id);
        deposits_left = ap Db.deposits stored;
        payee_found = c.credits.payee_found;
        payee_left =
            ap (λ d. find_by Account.id p.account_id (Db.accounts d)) stored
            ∙ find_by-update_self Account.id (credited p.amount (env.now c.call)) (λ _. refl)
                p.account_id w.db.accounts c.credits.payee c.credits.payee_found;
        received = refl;
        untouched = λ k n.
            ap (λ d. find_by Account.id k (Db.accounts d)) stored
            ∙ find_by-update_ne Account.id (credited p.amount (env.now c.call)) (λ _. refl)
                p.account_id k w.db.accounts (ground (arith, n));
        recorded =
            ap (λ d. find? (has_key order settlement) (Db.transactions d)) stored
            ∙ rw (
                has_key_self order settlement (posted_deposit env c.call settlement order c.now p)
                  refl refl);
        as_recorded = (refl, refl, refl, refl);
      }

module _ (env : Env DbError) (order payment : String) (settlement : Uuid) (w : World Db)
    (keyed : IsKeyed Deposit.id w.db.deposits) where
  -- `ConfirmPayment` on deposits of which each has its own identifier either says that it has
  -- credited, and then the order's deposit was created and is now paid, its wallet has received the
  -- amount and no other account has changed, and the order's transaction of that amount is recorded
  -- as completed; or it does not say so, by an error or as a duplicate, and has changed nothing.
  pub confirm_payment_outcomes :
      ((was_credited (confirm_payment order payment settlement env w).0 ≡ true)
        × Credited order payment settlement w.db
            (confirm_payment order payment settlement env w).1.db)
      ⊎ ((was_credited (confirm_payment order payment settlement env w).0 ≡ false)
          × ((confirm_payment order payment settlement env w).1.db ≡ w.db))
  unfolding confirm_payment
  confirm_payment_outcomes = elim (outcome (confirm_payment order payment settlement env w)) [
    | inl ((p, b), done) ↦
        let (w₁, body, e) =
          transaction-ok db_error (confirm_body order payment settlement) env w done in
        elim (confirm_body-Outcome env order payment settlement (tick w) body) [
          | inl (duplicate, same) ↦
              inr (ap (λ x. was_credited x.0) done ∙ duplicate, ap World.db e ∙ same)
          | inr (told, c) ↦ inl (
            ap (λ x. was_credited x.0) done ∙ told,
            subst (Credited order payment settlement w.db) (ap World.db (sym e))
                (Confirms-Credited env order payment settlement (tick w) keyed c),
          )
        ]
    | inr (e, raised) ↦ inr (
      ap (λ x. was_credited x.0) raised,
      transaction-err db_error (confirm_body order payment settlement) env w raised,
    )
  ]
