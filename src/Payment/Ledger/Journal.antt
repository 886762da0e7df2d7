-- ===== src/Payment/Ledger/Journal.antt =====
-- The journal against the balances: what services/payment/internal/domain/ledger.go asks of the
-- double-entry write, read off the journal's entries alone.
use native.Mathlib.Decide.{ℕ_discrete}
use moneymate_backend.Shared.{
  subst, ℕ, ◌≡◌, ◌≢◌, arith, some, List, [], ◌∷◌, find_by, ◌==◌, if◌then◌else◌, ap, sym, ◌∙◌,
  some-injective,
}
use moneymate_backend.Shared.Int.{ℤ, pos, ◌+ℤ◌, ◌-ℤ◌, int_laws}
use moneymate_backend.Errors.{DbError}
use moneymate_backend.Shared.Action.{Env}
use moneymate_backend.Payment.Domain.{
  Uuid, Account, Direction, debit, credit, JournalEntry, Transaction, Db,
}
use moneymate_backend.Payment.Ledger.Posting.{
  posted_transaction, debit_entry, credit_entry, posted, Posts,
}
use moneymate_backend.Payment.Ledger.Conservation.{
  sender-posted, receiver-posted, others-posted, neg64-amount,
}

-- An entry's effect on its account.
abbrev pub signed : JournalEntry → ℤ
signed e = by_direction e.direction e.amount
  where
    by_direction : Direction → ℤ → ℤ
    by_direction credit x = x
    by_direction debit x = pos 0 -ℤ x

-- Credits less debits of one account, and of all.
abbrev pub journal_balance : Uuid → List JournalEntry → ℤ
journal_balance k [] = pos 0
journal_balance k (e ∷ es) =
    if e.account_id == k then journal_balance k es +ℤ signed e else journal_balance k es

abbrev pub journal_net : List JournalEntry → ℤ
journal_net [] = pos 0
journal_net (e ∷ es) = journal_net es +ℤ signed e

-- Every balance is the sum of its account's entries, but for one account: `ext` stands for the
-- external settlement account, which a deposit debits in the journal alone.
pub record IsReconciled (ext : Uuid) (d : Db) : Type 0 where
  pub at_account :
      (k : Uuid) (a : Account)
      → k ≢ ext
      → find_by Account.id k d.accounts ≡ some a
      → a.balance ≡ journal_balance k d.entries

module _ (env : Env DbError) (c : ℕ) (t : Transaction) (d d' : Db) (h : Posts env c t d d') where
  pub entries-posted : d'.entries ≡ credit_entry env c t ∷ debit_entry env c t ∷ d.entries
  unfolding posted
  entries-posted = ap Db.entries h.stored

  pub Posts-net : journal_net d'.entries ≡ journal_net d.entries
  unfolding debit_entry credit_entry
  Posts-net = rw entries-posted (omega int_laws)

  journal_balance-sender :
      journal_balance t.from_account_id d'.entries
      ≡ journal_balance t.from_account_id d.entries +ℤ (pos 0 -ℤ t.amount)
  unfolding debit_entry credit_entry posted_transaction
  journal_balance-sender = rw entries-posted (ground (arith, h.passes.distinct))

  journal_balance-receiver :
      journal_balance t.to_account_id d'.entries
      ≡ journal_balance t.to_account_id d.entries +ℤ t.amount
  unfolding debit_entry credit_entry posted_transaction
  journal_balance-receiver = rw entries-posted (ground (arith, h.passes.distinct))

  pub journal_balance-others :
      (k : Uuid)
      → k ≢ t.from_account_id
      → k ≢ t.to_account_id
      → journal_balance k d'.entries ≡ journal_balance k d.entries
  unfolding debit_entry credit_entry
  journal_balance-others k ne ne' = rw entries-posted (ground arith)

  module _ (ext : Uuid) (r : IsReconciled ext d) where
    at_sender :
        (a : Account)
        → t.from_account_id ≢ ext
        → find_by Account.id t.from_account_id d'.accounts ≡ some a
        → a.balance ≡ journal_balance t.from_account_id d'.entries
    at_sender a n f =
        let e = some-injective a _ (sym f ∙ sender-posted env c t d d' h) in
        let old = r.at_account t.from_account_id h.sender_row n h.sender_found in
        ap Account.balance e
        ∙ ap (λ x. h.sender_row.balance +ℤ x) (neg64-amount env c t d d' h)
        ∙ ap (λ x. x +ℤ (pos 0 -ℤ t.amount)) old
        ∙ sym journal_balance-sender

    at_receiver :
        (a : Account)
        → t.to_account_id ≢ ext
        → find_by Account.id t.to_account_id d'.accounts ≡ some a
        → a.balance ≡ journal_balance t.to_account_id d'.entries
    at_receiver a n f =
        let e = some-injective a _ (sym f ∙ receiver-posted env c t d d' h) in
        let old = r.at_account t.to_account_id h.receiver_row n h.receiver_found in
        ap Account.balance e ∙ ap (λ x. x +ℤ t.amount) old ∙ sym journal_balance-receiver

    at_any :
        (k : Uuid) (a : Account)
        → k ≢ ext
        → find_by Account.id k d'.accounts ≡ some a
        → a.balance ≡ journal_balance k d'.entries
    at_any k a n f = elim (ℕ_discrete k t.from_account_id) [
      | yes e ↦
          subst (λ j. a.balance ≡ journal_balance j d'.entries) (sym e)
            (at_sender a (λ q. n (e ∙ q)) (ap (λ j. find_by Account.id j d'.accounts) (sym e) ∙ f))
      | no ne ↦ elim (ℕ_discrete k t.to_account_id) [
        | yes e ↦
            subst (λ j. a.balance ≡ journal_balance j d'.entries) (sym e)
              (at_receiver a (λ q. n (e ∙ q))
                (ap (λ j. find_by Account.id j d'.accounts) (sym e) ∙ f))
        | no ne' ↦
            r.at_account k a n (sym (others-posted env c t d d' h k ne ne') ∙ f)
            ∙ sym (journal_balance-others k ne ne')
      ]
    ]

  pub Posts-IsReconciled : (ext : Uuid) → IsReconciled ext d → IsReconciled ext d'
  Posts-IsReconciled ext r = record { at_account = at_any ext r }
