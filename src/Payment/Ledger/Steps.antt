-- ===== src/Payment/Ledger/Steps.antt =====
-- What the parts of ExecuteTransfer (ledger_repo.go) have done when they return.
use moneymate_backend.Shared.{
  ap, sym, ◌∙◌, ◌+◌, ◌≡◌, ◌≢◌, ◌⊎◌, inl, inr, refl, arith, true, Option-cases, none, some, find_by,
  is_some, key-find_by, find_by-update_ne,
}
use moneymate_backend.Shared.Int.{in_int64, ◌+ℤ◌}
use moneymate_backend.Shared.Action.{Env, World, ok}
use moneymate_backend.Errors.{DbError}
use moneymate_backend.Payment.Domain.{Uuid, Account, Transaction, Db}
use moneymate_backend.Payment.Constraints.{credited}
use moneymate_backend.Payment.Constraints.Passing.{
  TransactionPasses, with_transaction, with_entry, with_credit, insert_transaction_row-cases,
  insert_entry_row-cases, add_balance_row-cases,
}
use moneymate_backend.Payment.Queries.{
  get_account_by_id_for_update, insert_transaction, insert_journal_entry, add_balance,
}
use moneymate_backend.Payment.Ledger.{neg64, sender, lock_accounts, record_transfer, move_balances}
use moneymate_backend.Payment.Ledger.Posting.{
  posted_transaction, debit_entry, credit_entry, recorded,
}

-- The row that is taken for the sender's is the sender's.
pub sender_lem :
    (from to : Uuid) (d : Db) (a b : Account)
    → find_by Account.id from d.accounts ≡ some a
    → find_by Account.id to d.accounts ≡ some b
    → (sender from a b ≡ a) × (sender from b a ≡ a)
sender_lem from to d a b p q =
    ground
      (arith, key-find_by Account.id from d.accounts a p, key-find_by Account.id to d.accounts b q)

lock_accounts-found :
    (env : Env DbError) (t : Transaction) (w : World Db) (a b r : Account) (w' : World Db)
    → find_by Account.id t.from_account_id w.db.accounts ≡ some a
    → find_by Account.id t.to_account_id w.db.accounts ≡ some b
    → lock_accounts t env w ≡ (ok r, w')
    → (r ≡ a) × (w' ≡ record w { calls = w.calls + 2 })
unfolding lock_accounts get_account_by_id_for_update
lock_accounts-found env t w a b r w' p q h =
    ground (arith, sender_lem t.from_account_id t.to_account_id w.db a b p q)

-- With a row missing the locks are not taken.
lock_accounts-missing :
    (env : Env DbError) (t : Transaction) (w : World Db) (r : Account) (w' : World Db)
    → (find_by Account.id t.from_account_id w.db.accounts ≡ none)
      ⊎ (find_by Account.id t.to_account_id w.db.accounts ≡ none)
    → lock_accounts t env w ≢ (ok r, w')
unfolding lock_accounts get_account_by_id_for_update
lock_accounts-missing env t w r w' m h = ground arith

-- The sender's row is the one that is returned, and both rows are there.
pub record Locks (t : Transaction) (w w' : World Db) (a : Account) : Type 0 where
  pub sender_found : find_by Account.id t.from_account_id w.db.accounts ≡ some a
  pub receiver_found : is_some (find_by Account.id t.to_account_id w.db.accounts) ≡ true
  pub after : w' ≡ record w { calls = w.calls + 2 }

pub lock_accounts-ok :
    (env : Env DbError) (t : Transaction) (w : World Db) (r : Account) (w' : World Db)
    → lock_accounts t env w ≡ (ok r, w')
    → Locks t w w' r
lock_accounts-ok env t w r w' h =
    elim (Option-cases (find_by Account.id t.from_account_id w.db.accounts)) [
      | inl m ↦ absurd (lock_accounts-missing env t w r w' (inl m) h)
      | inr (a, p) ↦ elim (Option-cases (find_by Account.id t.to_account_id w.db.accounts)) [
        | inl m ↦ absurd (lock_accounts-missing env t w r w' (inr m) h)
        | inr (b, q) ↦
            let (e, after) = lock_accounts-found env t w a b r w' p q h in
            record { sender_found = p ∙ ap some (sym e); receiver_found = rw q; after = after }
      ]
    ]

-- The store with the rows of the transfer `t`, recorded from the call numbered `c` on.
pub record_transfer-ok :
    (env : Env DbError) (t : Transaction) (w : World Db) {r : Transaction} {w' : World Db}
    → record_transfer t env w ≡ (ok r, w')
    → (r ≡ posted_transaction env w.calls t)
      × (w' ≡ record { db = recorded env w.calls t w.db; calls = w.calls + 7 })
      × TransactionPasses (posted_transaction env w.calls t) w.db
unfolding record_transfer insert_transaction insert_journal_entry posted_transaction debit_entry
    credit_entry
record_transfer-ok env t w h = ground (
  arith,
  insert_transaction_row-cases (posted_transaction env w.calls t) w.db,
  insert_entry_row-cases (debit_entry env w.calls t)
      (with_transaction (posted_transaction env w.calls t) w.db),
  insert_entry_row-cases (credit_entry env w.calls t) (
      with_entry (debit_entry env w.calls t)
        (with_transaction (posted_transaction env w.calls t) w.db)),
)

-- Both updates find their rows: the sender's balance covers the amount, the receiver's still fits.
pub move_balances-ok :
    (env : Env DbError) (t : Transaction) (w : World Db) (a b : Account) {w' : World Db}
    → find_by Account.id t.from_account_id w.db.accounts ≡ some a
    → find_by Account.id t.to_account_id w.db.accounts ≡ some b
    → t.from_account_id ≢ t.to_account_id
    → move_balances t env w ≡ (ok tt, w')
    → (w' ≡ record {
      db =
          with_credit t.to_account_id t.amount
            (env.now (w.calls + 1))
            (with_credit t.from_account_id (neg64 t.amount) (env.now w.calls) w.db);
      calls = w.calls + 2;
    })
      × (in_int64 (b.balance +ℤ t.amount) ≡ true)
unfolding move_balances add_balance
move_balances-ok env t w a b p q ne h = ground (
  arith,
  add_balance_row-cases t.from_account_id (neg64 t.amount) (env.now w.calls) w.db a p,
  add_balance_row-cases t.to_account_id t.amount (env.now (w.calls + 1))
      (with_credit t.from_account_id (neg64 t.amount) (env.now w.calls) w.db) b,
  find_by-update_ne Account.id (credited (neg64 t.amount) (env.now w.calls)) (λ _. refl)
      t.from_account_id t.to_account_id w.db.accounts,
)
