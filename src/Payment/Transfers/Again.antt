-- ===== src/Payment/Transfers/Again.antt =====
-- The same request sent again (transfer_usecase.go, Transfer).
use moneymate_backend.Shared.{
  ap, sym, ◌∙◌, ℕ, ◌+◌, String, ◌≡◌, inl, inr, refl, arith, Option, some, find?, find?-update_by,
}
use moneymate_backend.Shared.Text.{trim_space}
use moneymate_backend.Shared.Action.{Env, World, ok, outcome}
use moneymate_backend.Errors.{DbError}
use moneymate_backend.Payment.Domain.{Uuid, Account, Transaction, LedgerResult, Db}
use moneymate_backend.Payment.Constraints.{has_key, credited}
use moneymate_backend.Payment.Queries.{is_wallet_of}
use moneymate_backend.Payment.Ledger.{neg64}
use moneymate_backend.Payment.Ledger.Posting.{posted, posted_transaction, Posts}
use moneymate_backend.Payment.Ledger.Transfers.{Posts-Recorded}
use moneymate_backend.Payment.Transfers.{TransferInput, Parties, new_transaction, transfer}
use moneymate_backend.Payment.Transfers.Replaying.{Finds}
use moneymate_backend.Payment.Transfers.Outcomes.{
  Answers, replays, posts, transfer-Answers, transfer_refused,
}

-- Posting leaves every wallet where its owner finds it.
wallet_after :
    (user : Uuid) (t : Transaction) (env : Env DbError) (c : ℕ) (d d' : Db) (a : Account)
    → Posts env c t d d'
    → find? (is_wallet_of user) d.accounts ≡ some a
    → (b : Account) × (find? (is_wallet_of user) d'.accounts ≡ some b) × (b.id ≡ a.id)
unfolding posted
wallet_after user t env c d d' a h f =
    let g =
      find?-update_by Account.id (is_wallet_of user) (credited (neg64 t.amount) (env.now (c + 7)))
        (λ _. refl) t.from_account_id d.accounts a f in
    let k =
      find?-update_by Account.id (is_wallet_of user) (credited t.amount (env.now (c + 8)))
        (λ _. refl) t.to_account_id _ _ g in
    (_, ap (λ x. find? (is_wallet_of user) (Db.accounts x)) h.stored ∙ k, ground arith)

same_wallet : {a b : Account} {o : Option Account} → o ≡ some a → o ≡ some b → a.id ≡ b.id
same_wallet p q = ground arith

same_user : {a b : Uuid} {o : Option Uuid} → o ≡ some a → o ≡ some b → a ≡ b
same_user p q = ground arith

module _ (parse_uuid : String → Option Uuid) (input : TransferInput) (env : Env DbError)
    (w : World Db) where
  -- What the first answer leaves for the next request: the caller's wallet, and its key in use.
  record IsDone (d' : Db) : Type 0 where
    user : Uuid
    own : Account
    old : Transaction
    caller : parse_uuid input.authenticated_user_id ≡ some user
    own_found : find? (is_wallet_of user) d'.accounts ≡ some own
    used : find? (has_key (trim_space input.idempotency_key) own.id) d'.transactions ≡ some old

  Answers-IsDone :
      (p : Parties) (category : Option Uuid) (d' : Db) (r : LedgerResult)
      → Finds parse_uuid input w.db p
      → Answers (new_transaction parse_uuid input p category) env w.db d' r
      → IsDone d'
  Answers-IsDone p category d' r f (replays same found) = record {
    user = p.user_id;
    own = f.from;
    old = r.transaction;
    caller = f.caller;
    own_found = ap (λ d. find? (is_wallet_of p.user_id) (Db.accounts d)) same ∙ f.from_found;
    used =
        ap (λ d. find? (has_key (trim_space input.idempotency_key) f.from.id) (Db.transactions d))
          same
        ∙ ap (λ k. find? (has_key (trim_space input.idempotency_key) k) w.db.transactions) f.from_is
        ∙ found;
  }
  Answers-IsDone p category d' r f (posts c h e) =
      let t = new_transaction parse_uuid input p category in
      let (b, own_found, same) = wallet_after p.user_id t env c w.db d' f.from h f.from_found in
      record {
        user = p.user_id;
        own = b;
        old = posted_transaction env c t;
        caller = f.caller;
        own_found = own_found;
        used =
            ap (λ k. find? (has_key (trim_space input.idempotency_key) k) d'.transactions)
              (same ∙ f.from_is)
            ∙ (Posts-Recorded env c t w.db d' h).by_key;
      }

  again_lem :
      (d' : Db) (w₂ : World Db) (env₂ : Env DbError)
      → w₂.db ≡ d'
      → IsDone d'
      → (transfer parse_uuid input env₂ w₂).1.db ≡ d'
  unfolding posted_transaction
  again_lem d' w₂ env₂ same z = elim (outcome (transfer parse_uuid input env₂ w₂)) [
    | inr (e, raised) ↦ transfer_refused parse_uuid input env₂ w₂ raised ∙ same
    | inl (r, done) ↦
        let (p, f, (category, a)) = transfer-Answers parse_uuid input env₂ w₂ done in
        elim a [
          | replays kept found ↦ kept ∙ same
          | posts c h e ↦
              let u = same_user z.caller f.caller in
              let k =
                same_wallet z.own_found (
                  ap (λ x. find? (is_wallet_of x) (Db.accounts d')) u
                  ∙ ap (λ d. find? (is_wallet_of p.user_id) (Db.accounts d)) (sym same)
                  ∙ f.from_found)
                ∙ f.from_is in
              let used =
                ap
                  (λ d.
                    find? (has_key (trim_space input.idempotency_key) p.from_id)
                      (Db.transactions d))
                  same
                ∙ ap
                    (λ x. find? (has_key (trim_space input.idempotency_key) x) (Db.transactions d'))
                    (sym k)
                ∙ z.used in
              absurd (ground (arith, used, h.passes.new_key))
        ]
  ]

  -- Once a transfer has returned, the same request sent again to the store that it left changes
  -- nothing, whichever calls fail, and whether it returns or raises.
  pub transfer_again :
      (r : LedgerResult) (w' : World Db)
      → transfer parse_uuid input env w ≡ (ok r, w')
      → (env₂ : Env DbError) (n : ℕ)
      → (transfer parse_uuid input env₂ (record { db = w'.db; calls = n })).1.db ≡ w'.db
  transfer_again r w' h env₂ n =
      let (p, f, (category, a)) = transfer-Answers parse_uuid input env w h in
      again_lem w'.db (record { db = w'.db; calls = n }) env₂ refl
        (Answers-IsDone p category w'.db r f a)
