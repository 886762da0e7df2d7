-- ===== src/Payment/System/Bookkeeping.antt =====
-- The service as a book of balances: what a client of it may rely on, without transactions, journal,
-- deposits, pods or failures, and that every run of calls is a run of such a book.
use moneymate_backend.Shared.{
  ap, sym, subst, ◌∙◌, ℕ, String, ◌≡◌, ◌≢◌, refl, arith, Option, none, some, List, find_by,
}
use moneymate_backend.Shared.Int.{ℤ, pos, ◌+ℤ◌, ◌-ℤ◌, ◌<ℤ◌, ◌≤ℤ◌}
use moneymate_backend.Shared.Action.{Env, World, Result}
use moneymate_backend.Errors.{DbError, Error}
use moneymate_backend.Payment.Domain.{Uuid, Time, Account, Transaction, Deposit, Db}
use moneymate_backend.Payment.Constraints.Passing.{with_account}
use moneymate_backend.Payment.Ledger.Posting.{Posts, posted_transaction}
use moneymate_backend.Payment.Ledger.Conservation.{
  sender-posted, receiver-posted, others-posted, neg64-amount,
}
use moneymate_backend.Payment.Deposits.Crediting.{Deposits}
use moneymate_backend.Payment.System.{PaymentCall, serve_all}
use moneymate_backend.Payment.System.Evolution.{FollowsLedger}
use moneymate_backend.Payment.System.Calls.{serve_all-evolves}
use moneymate_backend.Payment.System.Soundness.{payee-credited, others-credited}

-- The three things that can happen to a book.
pub data BookStep : (Uuid → Option ℤ) → (Uuid → Option ℤ) → Type 0 where
  opens :
      {b b' : Uuid → Option ℤ} (k : Uuid)
      → b k ≡ none
      → b' k ≡ some (pos 0)
      → ((j : Uuid) → j ≢ k → b' j ≡ b j)
      → BookStep b b'
  moves :
      {b b' : Uuid → Option ℤ} (from to : Uuid) (x y amount : ℤ)
      → from ≢ to
      → pos 0 <ℤ amount
      → amount ≤ℤ x
      → b from ≡ some x
      → b to ≡ some y
      → b' from ≡ some (x +ℤ (pos 0 -ℤ amount))
      → b' to ≡ some (y +ℤ amount)
      → ((j : Uuid) → j ≢ from → j ≢ to → b' j ≡ b j)
      → BookStep b b'
  pays_in :
      {b b' : Uuid → Option ℤ} (k : Uuid) (x amount : ℤ)
      → pos 0 <ℤ amount
      → b k ≡ some x
      → b' k ≡ some (x +ℤ amount)
      → ((j : Uuid) → j ≢ k → b' j ≡ b j)
      → BookStep b b'

-- Any number of steps.
pub data BookRun : (Uuid → Option ℤ) → (Uuid → Option ℤ) → Type 0 where
  stop : {b b' : Uuid → Option ℤ} → b ≡ b' → BookRun b b'
  next : {b m b' : Uuid → Option ℤ} → BookStep b m → BookRun m b' → BookRun b b'

run_on : {b m b' : Uuid → Option ℤ} → BookRun b m → BookRun m b' → BookRun b b'
run_on {b' = b'} (stop e) r = subst (λ x. BookRun x b') (sym e) r
run_on (next s q) r = next s (run_on q r)

abbrev once : {b b' : Uuid → Option ℤ} → BookStep b b' → BookRun b b'
once s = next s (stop refl)

abbrev balance_of : Option Account → Option ℤ
balance_of none = none
balance_of (some a) = some a.balance

-- The book that a store keeps.
abbrev pub book : Db → Uuid → Option ℤ
book d k = balance_of (find_by Account.id k d.accounts)

posted-BookRun :
    (env : Env DbError) (c : ℕ) (t : Transaction) (d d' : Db)
    → Posts env c t d d'
    → BookRun (book d) (book d')
unfolding posted_transaction
posted-BookRun env c t d d' h = once (
    moves t.from_account_id t.to_account_id h.sender_row.balance h.receiver_row.balance t.amount
      h.passes.distinct h.passes.positive h.covered (ap balance_of h.sender_found)
      (ap balance_of h.receiver_found)
      (ap balance_of (sender-posted env c t d d' h)
        ∙ ap (λ x. some (h.sender_row.balance +ℤ x)) (neg64-amount env c t d d' h))
      (ap balance_of (receiver-posted env c t d d' h))
      λ j ne ne'. ap balance_of (others-posted env c t d d' h j ne ne'))

credited-BookRun :
    (ext : Uuid) (env : Env DbError) (c : ℕ) (order : String) (now : Time) (p : Deposit) (d d' : Db)
    → Deposits env c ext order now p d d'
    → BookRun (book d) (book d')
credited-BookRun ext env c order now p d d' h = once (
    pays_in p.account_id h.payee.balance p.amount h.passes.positive (ap balance_of h.payee_found)
      (ap balance_of (payee-credited ext env c order now p d d' h))
      λ j ne. ap balance_of (others-credited ext env c order now p d d' h j ne))

opened-BookRun :
    (a : Account) (d : Db)
    → a.balance ≡ pos 0
    → find_by Account.id a.id d.accounts ≡ none
    → BookRun (book d) (book (with_account a d))
unfolding find_by
opened-BookRun a d zero free =
    once (opens a.id (ap balance_of free) (ground (arith, zero)) λ j ne. ground arith)

BookRun-FollowsLedger : (ext : Uuid) → FollowsLedger ext (λ d d'. BookRun (book d) (book d'))
BookRun-FollowsLedger ext = record {
  chains = record { stays = λ d. stop refl; chained = λ d d' d'' p q. run_on p q };
  unmoved = λ d d' a e t. stop (ap (λ rows k. balance_of (find_by Account.id k rows)) (sym a));
  posted = posted-BookRun;
  credited = credited-BookRun ext;
  opened = opened-BookRun;
}

-- Whatever calls the service is sent, those on categories left out, and whichever of their statements fail, the balances go through
-- steps of the book alone: an account is opened empty, a positive amount that the payer's balance
-- covers moves between two accounts, or a positive amount is paid in; nothing else touches a balance.
pub serve_all-BookRun :
    (parse_uuid : String → Option Uuid) (uuid_text : Uuid → String)
    (create_order : ℤ → Uuid → ℕ → Result Error String) (razorpay_key_id : String)
    (settlement : Uuid) (env : Env DbError) (calls : List PaymentCall) (w : World Db)
    → BookRun (book w.db) (
        book
          (serve_all parse_uuid uuid_text create_order razorpay_key_id settlement calls env w).db)
serve_all-BookRun parse_uuid uuid_text create_order razorpay_key_id settlement env calls w =
    serve_all-evolves (BookRun-FollowsLedger settlement) parse_uuid create_order razorpay_key_id
      uuid_text env calls w
