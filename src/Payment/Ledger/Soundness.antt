-- ===== src/Payment/Ledger/Soundness.antt =====
-- The invariant of the ledger (ledger_repo.go) under ExecuteTransfer.
use native.Mathlib.Decide.{ℕ_discrete}
use moneymate_backend.Shared.{
  ap, sym, subst, ◌∙◌, ℕ, ◌+◌, ◌≡◌, inl, inr, arith, none, some, true, List, [], ◌∷◌, find?,
  find_by, IsKeyed, update_by-IsKeyed, some-injective, refl,
}
use moneymate_backend.Shared.Int.{ℤ, pos, ◌+ℤ◌, ◌<ℤ◌, ◌-ℤ◌, ◌≤ℤ◌, in_int64, int_laws}
use moneymate_backend.Shared.Action.{Env, World, outcome}
use moneymate_backend.Errors.{DbError}
use moneymate_backend.Payment.Domain.{Uuid, Account, Transaction, Db}
use moneymate_backend.Payment.Constraints.{has_key, credited}
use moneymate_backend.Payment.Queries.{sum_balances}
use moneymate_backend.Payment.Ledger.{neg64, execute_transfer}
use moneymate_backend.Payment.Ledger.Posting.{posted_transaction, posted, Posts}
use moneymate_backend.Payment.Ledger.Executing.{execute_transfer-Posts, execute_transfer_refused}
use moneymate_backend.Payment.Ledger.Conservation.{
  accounts-posted, Posts-conserves, sender-posted, receiver-posted, others-posted, neg64-amount,
}
use moneymate_backend.Payment.Ledger.Journal.{
  journal_net, IsReconciled, Posts-net, Posts-IsReconciled,
}

-- A balance that the column and its check constraint allow.
abbrev pub InRange : ℤ → Type 0
InRange x = (pos 0 ≤ℤ x) × (in_int64 x ≡ true)

-- No sender has used an idempotency key twice.
abbrev pub HasUniqueKeys : List Transaction → Type 0
HasUniqueKeys [] = Unit
HasUniqueKeys (t ∷ ts) =
    (find? (has_key t.idempotency_key t.from_account_id) ts ≡ none) × HasUniqueKeys ts

-- A covered amount can be taken away, and added where the sum fits.
pub debit-InRange : (x y : ℤ) → InRange x → pos 0 <ℤ y → y ≤ℤ x → InRange (x +ℤ (pos 0 -ℤ y))
unfolding ◌+ℤ◌ ◌-ℤ◌
debit-InRange x y h p q = ground arith

pub credit-InRange :
    (x y : ℤ) → InRange x → pos 0 <ℤ y → in_int64 (x +ℤ y) ≡ true → InRange (x +ℤ y)
credit-InRange x y h p fits = (omega int_laws, fits)

pub record IsSound (ext : Uuid) (d : Db) : Type 0 where
  pub keyed : IsKeyed Account.id d.accounts
  pub in_range :
      (k : Uuid) (a : Account) → find_by Account.id k d.accounts ≡ some a → InRange a.balance
  pub reconciled : IsReconciled ext d
  pub balanced : journal_net d.entries ≡ pos 0
  pub unique_keys : HasUniqueKeys d.transactions

module _ (env : Env DbError) (c : ℕ) (t : Transaction) (d d' : Db) (h : Posts env c t d d') where
  Posts-IsKeyed : IsKeyed Account.id d.accounts → IsKeyed Account.id d'.accounts
  Posts-IsKeyed keyed = subst (IsKeyed Account.id) (sym (accounts-posted env c t d d' h)) (
      update_by-IsKeyed Account.id (credited t.amount (env.now (c + 8))) (λ _. refl) t.to_account_id
        _
        (update_by-IsKeyed Account.id (credited (neg64 t.amount) (env.now (c + 7))) (λ _. refl)
          t.from_account_id d.accounts keyed))

  Posts-unique : HasUniqueKeys d.transactions → HasUniqueKeys d'.transactions
  unfolding posted
  Posts-unique u = subst HasUniqueKeys (sym (ap Db.transactions h.stored)) (h.passes.new_key, u)

  module _
      (old : (k : Uuid) (a : Account)
        → find_by Account.id k d.accounts ≡ some a
        → InRange a.balance) where
    sender-InRange : InRange (h.sender_row.balance +ℤ neg64 t.amount)
    unfolding posted_transaction
    sender-InRange = rw (neg64-amount env c t d d' h) (
        debit-InRange h.sender_row.balance t.amount
          (old t.from_account_id h.sender_row h.sender_found) h.passes.positive h.covered)

    receiver-InRange : InRange (h.receiver_row.balance +ℤ t.amount)
    unfolding posted_transaction
    receiver-InRange =
        credit-InRange h.receiver_row.balance t.amount
          (old t.to_account_id h.receiver_row h.receiver_found) h.passes.positive h.fits

    any-InRange :
        (k : Uuid) (a : Account) → find_by Account.id k d'.accounts ≡ some a → InRange a.balance
    any-InRange k a f = elim (ℕ_discrete k t.from_account_id) [
      | yes e ↦
          subst (λ b. InRange (Account.balance b))
            (sym (
              some-injective a _ (
                sym f
                ∙ ap (λ j. find_by Account.id j d'.accounts) e
                ∙ sender-posted env c t d d' h)))
            sender-InRange
      | no ne ↦ elim (ℕ_discrete k t.to_account_id) [
        | yes e ↦
            subst (λ b. InRange (Account.balance b))
              (sym (
                some-injective a _ (
                  sym f
                  ∙ ap (λ j. find_by Account.id j d'.accounts) e
                  ∙ receiver-posted env c t d d' h)))
              receiver-InRange
        | no ne' ↦ old k a (sym (others-posted env c t d d' h k ne ne') ∙ f)
      ]
    ]

  pub Posts-IsSound : (ext : Uuid) → IsSound ext d → IsSound ext d'
  Posts-IsSound ext s = record {
    keyed = Posts-IsKeyed s.keyed;
    in_range = any-InRange s.in_range;
    reconciled = Posts-IsReconciled env c t d d' h ext s.reconciled;
    balanced = Posts-net env c t d d' h ∙ s.balanced;
    unique_keys = Posts-unique s.unique_keys;
  }

-- What every posted transfer keeps, `execute_transfer` keeps however it ends.
pub execute_transfer_keeps :
    (P : Db → Type 0) (env : Env DbError) (t : Transaction) (w : World Db)
    → ((c : ℕ) (d' : Db) → Posts env c t w.db d' → P d')
    → P w.db
    → P (execute_transfer t env w).1.db
execute_transfer_keeps P env t w keep now = elim (outcome (execute_transfer t env w)) [
  | inl (r, done) ↦ keep (w.calls + 3) _ (execute_transfer-Posts env t w done).0
  | inr (e, raised) ↦ subst P (sym (execute_transfer_refused env t w raised)) now
]

-- A transfer keeps the invariant, whatever its arguments, whichever call fails, and also if it
-- raises: identifiers stay unique, no balance leaves its range, every balance but that of the account
-- `ext` is the sum of its account's journal entries, debits and credits cancel, and no sender's key
-- is used twice.
pub execute_transfer-IsSound :
    (env : Env DbError) (t : Transaction) (w : World Db) (ext : Uuid)
    → IsSound ext w.db
    → IsSound ext (execute_transfer t env w).1.db
execute_transfer-IsSound env t w ext s =
    execute_transfer_keeps (IsSound ext) env t w (λ c d' h. Posts-IsSound env c t w.db d' h ext s) s

-- A transfer leaves the sum of all balances as it was, whatever its arguments and its outcome, if
-- no two accounts have one identifier.
pub execute_transfer_conserves :
    (env : Env DbError) (t : Transaction) (w : World Db)
    → IsKeyed Account.id w.db.accounts
    → sum_balances (execute_transfer t env w).1.db.accounts ≡ sum_balances w.db.accounts
execute_transfer_conserves env t w keyed =
    execute_transfer_keeps (λ d. sum_balances d.accounts ≡ sum_balances w.db.accounts) env t w
      (λ c d' h. Posts-conserves env c t w.db d' h keyed) refl
