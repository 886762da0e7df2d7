-- ===== src/Payment/Ledger/Conservation.antt =====
-- No money is made or lost, and only two balances change (ledger_repo.go, ExecuteTransfer).
use moneymate_backend.Shared.{
  ℕ, ◌+◌, ◌≡◌, ◌≢◌, inl, inr, refl, arith, Bool-cases, some, List, [], ◌∷◌, find_by, update_by,
  IsKeyed, find_by-update_ne, find_by-update_self, update_by-missing, update_by-IsKeyed, ◌==◌,
  ==_iff, ap, sym, ◌∙◌,
}
use moneymate_backend.Shared.Int.{ℤ, pos, ◌+ℤ◌, ◌-ℤ◌, ◌<ℤ◌, int_laws}
use moneymate_backend.Shared.Action.{Env}
use moneymate_backend.Errors.{DbError}
use moneymate_backend.Payment.Domain.{Uuid, Time, Account, Transaction, Db}
use moneymate_backend.Payment.Constraints.{credited}
use moneymate_backend.Payment.Queries.{sum_balances}
use moneymate_backend.Payment.Ledger.{neg64}
use moneymate_backend.Payment.Ledger.Posting.{posted, posted_transaction, Posts}

pub sum_balances-update :
    (k : Uuid) (x : ℤ) (now : Time) (rows : List Account) (a : Account)
    → IsKeyed Account.id rows
    → find_by Account.id k rows ≡ some a
    → sum_balances (update_by Account.id k (credited x now) rows) ≡ sum_balances rows +ℤ x
unfolding find_by update_by
sum_balances-update k x now [] a keyed h = ground arith
sum_balances-update k x now (b ∷ rows) a keyed h = elim (Bool-cases (b.id == k)) [
  | inl e ↦
      let same : b.id ≡ k = (==_iff b.id k).0 e in
      rw
        (
          e,
          update_by-missing Account.id k (credited x now) rows
              (ap (λ j. find_by Account.id j rows) (sym same) ∙ keyed.0),
        )
        (omega int_laws)
  | inr e ↦ rw (e, sum_balances-update k x now rows a keyed.1 (rw e at h)) (omega int_laws)
]

pub neg64_positive : (x : ℤ) → pos 0 <ℤ x → neg64 x ≡ pos 0 -ℤ x
neg64_positive x h = ground arith

module _ (env : Env DbError) (c : ℕ) (t : Transaction) (d d' : Db) (h : Posts env c t d d') where
  -- The accounts between the two updates.
  abbrev halfway : List Account
  halfway =
      update_by Account.id t.from_account_id (credited (neg64 t.amount) (env.now (c + 7)))
        d.accounts

  receiver_halfway : find_by Account.id t.to_account_id halfway ≡ some h.receiver_row
  unfolding posted_transaction
  receiver_halfway =
      find_by-update_ne Account.id (credited (neg64 t.amount) (env.now (c + 7))) (λ _. refl)
        t.from_account_id t.to_account_id d.accounts (ground (arith, h.passes.distinct))
      ∙ h.receiver_found

  -- The accounts that a transfer leaves.
  pub accounts-posted :
      d'.accounts
      ≡ update_by Account.id t.to_account_id (credited t.amount (env.now (c + 8))) halfway
  unfolding posted
  accounts-posted = ap Db.accounts h.stored

  pub neg64-amount : neg64 t.amount ≡ pos 0 -ℤ t.amount
  unfolding posted_transaction
  neg64-amount = neg64_positive t.amount h.passes.positive

  pub Posts-conserves :
      IsKeyed Account.id d.accounts → sum_balances d'.accounts ≡ sum_balances d.accounts
  Posts-conserves keyed =
      let down =
        sum_balances-update t.from_account_id (neg64 t.amount) (env.now (c + 7)) d.accounts
          h.sender_row keyed h.sender_found in
      let keyed' =
        update_by-IsKeyed Account.id (credited (neg64 t.amount) (env.now (c + 7))) (λ _. refl)
          t.from_account_id d.accounts keyed in
      let up =
        sum_balances-update t.to_account_id t.amount (env.now (c + 8)) halfway h.receiver_row keyed'
          receiver_halfway in
      ap sum_balances accounts-posted
      ∙ up
      ∙ ap (λ s. s +ℤ t.amount) (down ∙ ap (λ x. sum_balances d.accounts +ℤ x) neg64-amount)
      ∙ omega int_laws

  -- The sender's row and the receiver's, and any other.
  pub sender-posted :
      find_by Account.id t.from_account_id d'.accounts
      ≡ some (credited (neg64 t.amount) (env.now (c + 7)) h.sender_row)
  unfolding posted_transaction
  sender-posted = rw accounts-posted (
      find_by-update_ne Account.id (credited t.amount (env.now (c + 8))) (λ _. refl) t.to_account_id
        t.from_account_id halfway (ground (arith, h.passes.distinct))
      ∙ find_by-update_self Account.id (credited (neg64 t.amount) (env.now (c + 7))) (λ _. refl)
          t.from_account_id d.accounts h.sender_row h.sender_found)

  pub receiver-posted :
      find_by Account.id t.to_account_id d'.accounts
      ≡ some (credited t.amount (env.now (c + 8)) h.receiver_row)
  receiver-posted = rw accounts-posted (
      find_by-update_self Account.id (credited t.amount (env.now (c + 8))) (λ _. refl)
        t.to_account_id halfway h.receiver_row receiver_halfway)

  pub others-posted :
      (k : Uuid)
      → k ≢ t.from_account_id
      → k ≢ t.to_account_id
      → find_by Account.id k d'.accounts ≡ find_by Account.id k d.accounts
  others-posted k ne ne' = rw accounts-posted (
      find_by-update_ne Account.id (credited t.amount (env.now (c + 8))) (λ _. refl) t.to_account_id
        k halfway (ground arith)
      ∙ find_by-update_ne Account.id (credited (neg64 t.amount) (env.now (c + 7))) (λ _. refl)
          t.from_account_id k d.accounts (ground arith))
