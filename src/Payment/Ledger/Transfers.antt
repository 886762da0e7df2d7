-- ===== src/Payment/Ledger/Transfers.antt =====
-- The accounts and the transactions before and after ExecuteTransfer (ledger_repo.go).
use moneymate_backend.Shared.{
  ap, sym, subst, ◌∙◌, ℕ, String, ◌+◌, ◌≡◌, ◌≢◌, inl, inr, arith, some, find?, find_by, refl,
}
use moneymate_backend.Shared.Int.{ℤ, pos, ◌+ℤ◌, ◌-ℤ◌, ◌≤ℤ◌, int_laws}
use moneymate_backend.Shared.Action.{Env, World, ok, err, outcome}
use moneymate_backend.Errors.{DbError, Error}
use moneymate_backend.Payment.Domain.{Uuid, Account, completed, Transaction, LedgerResult, Db}
use moneymate_backend.Payment.Constraints.{has_key}
use moneymate_backend.Payment.Constraints.Passing.{has_key_self}
use moneymate_backend.Payment.Ledger.{execute_transfer}
use moneymate_backend.Payment.Ledger.Posting.{posted_transaction, posted, Posts}
use moneymate_backend.Payment.Ledger.Executing.{execute_transfer-Posts, execute_transfer_refused}
use moneymate_backend.Payment.Ledger.Conservation.{
  sender-posted, receiver-posted, others-posted, neg64-amount,
}

-- The amount has gone from one account to the other, and no other account has changed.
pub record Moved (from to : Uuid) (amount : ℤ) (d d' : Db) : Type 0 where
  pub payer : Account
  pub payer' : Account
  pub payee : Account
  pub payee' : Account
  pub payer_found : find_by Account.id from d.accounts ≡ some payer
  pub payee_found : find_by Account.id to d.accounts ≡ some payee
  pub covered : (pos 0 ≤ℤ amount) × (amount ≤ℤ payer.balance)
  pub payer_left : find_by Account.id from d'.accounts ≡ some payer'
  pub payee_left : find_by Account.id to d'.accounts ≡ some payee'
  pub paid : payer'.balance ≡ payer.balance -ℤ amount
  pub received : payee'.balance ≡ payee.balance +ℤ amount
  pub untouched :
      (k : Uuid)
      → k ≢ from
      → k ≢ to
      → find_by Account.id k d'.accounts ≡ find_by Account.id k d.accounts

-- The row that the sender's key now finds.
pub record Recorded (key : String) (from to : Uuid) (amount : ℤ) (d' : Db) (r : Transaction)
    : Type 0 where
  pub by_key : find? (has_key key from) d'.transactions ≡ some r
  pub same_key : r.idempotency_key ≡ key
  pub as_completed : r.status ≡ completed
  pub same_amount : r.amount ≡ amount
  pub same_parties : (r.from_account_id ≡ from) × (r.to_account_id ≡ to)

module _ (env : Env DbError) (c : ℕ) (t : Transaction) (d d' : Db) (h : Posts env c t d d') where
  pub Posts-Moved : Moved t.from_account_id t.to_account_id t.amount d d'
  unfolding posted_transaction
  Posts-Moved = record {
    payer = h.sender_row;
    payer' = _;
    payee = h.receiver_row;
    payee' = _;
    payer_found = h.sender_found;
    payee_found = h.receiver_found;
    covered = (omega (arith, h.passes.positive), h.covered);
    payer_left = sender-posted env c t d d' h;
    payee_left = receiver-posted env c t d d' h;
    paid = ap (λ x. h.sender_row.balance +ℤ x) (neg64-amount env c t d d' h) ∙ omega int_laws;
    received = refl;
    untouched = others-posted env c t d d' h;
  }

  pub Posts-Recorded :
      Recorded t.idempotency_key t.from_account_id t.to_account_id t.amount d'
        (posted_transaction env c t)
  unfolding posted posted_transaction
  Posts-Recorded = record {
    by_key = rw (
      ap Db.transactions h.stored,
      has_key_self t.idempotency_key t.from_account_id (posted_transaction env c t) refl refl,
    );
    same_key = refl;
    as_completed = refl;
    same_amount = refl;
    same_parties = (refl, refl);
  }

module _ (env : Env DbError) (t : Transaction) (w : World Db) where
  -- A transfer that returns has taken the amount, which is not negative, from the payer's balance,
  -- which covered it, has added it to the payee's, and has changed no other account; the sender's
  -- key now finds its transaction, completed, with that amount and those parties.
  pub execute_transfer_moves :
      (r : LedgerResult) (w' : World Db)
      → execute_transfer t env w ≡ (ok r, w')
      → Moved t.from_account_id t.to_account_id t.amount w.db w'.db
        × Recorded t.idempotency_key t.from_account_id t.to_account_id t.amount w'.db r.transaction
  execute_transfer_moves r w' h =
      let (posts, e) = execute_transfer-Posts env t w h in
      (
        Posts-Moved env (w.calls + 3) t w.db w'.db posts,
        subst (Recorded t.idempotency_key t.from_account_id t.to_account_id t.amount w'.db) (sym e)
            (Posts-Recorded env (w.calls + 3) t w.db w'.db posts),
      )

  -- A key that the sender has used before is refused: the call raises, and changes nothing.
  pub execute_transfer_once :
      (old : Transaction)
      → find? (has_key t.idempotency_key t.from_account_id) w.db.transactions ≡ some old
      → (e : Error) × ((execute_transfer t env w).0 ≡ err e)
        × ((execute_transfer t env w).1.db ≡ w.db)
  unfolding posted_transaction
  execute_transfer_once old used = elim (outcome (execute_transfer t env w)) [
    | inl (r, done) ↦
        absurd (ground (arith, (execute_transfer-Posts env t w done).0.passes.new_key))
    | inr (e, raised) ↦ (e, ap (λ x. x.0) raised, execute_transfer_refused env t w raised)
  ]
