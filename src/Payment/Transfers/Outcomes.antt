-- ===== src/Payment/Transfers/Outcomes.antt =====
-- The outcomes of Transfer (transfer_usecase.go), and of the same request sent again.
use moneymate_backend.Shared.{
  ap, sym, subst, ◌∙◌, ℕ, ◌+◌, String, ◌≡◌, ◌⊎◌, inl, inr, refl, Option, Bool-cases, none, some,
  find?, find?_passes, eq_iff, arith, true,
}
use moneymate_backend.Shared.Int.{ℤ}
use moneymate_backend.Shared.Text.{trim_space}
use moneymate_backend.Shared.Action.{
  Env, World, Result, ok, err, ◌>>=◌, bind-ok, bind-err, outcome, Result-cases,
}
use moneymate_backend.Errors.{DbError, Error}
use moneymate_backend.Payment.Domain.{Uuid, Transaction, LedgerResult, Db}
use moneymate_backend.Payment.Constraints.{has_key}
use moneymate_backend.Payment.Queries.{get_transaction_by_idempotency_key}
use moneymate_backend.Payment.Ledger.{repo, execute_transfer}
use moneymate_backend.Payment.Ledger.Posting.{posted_transaction, Posts}
use moneymate_backend.Payment.Ledger.Executing.{execute_transfer-Posts, execute_transfer_refused}
use moneymate_backend.Payment.Ledger.Transfers.{Moved, Recorded, Posts-Moved, Posts-Recorded}
use moneymate_backend.Payment.Transfers.{
  TransferInput, replay, is_not_found, is_idempotency_key_used, Parties, find_parties,
  find_category, new_transaction, replay_winner, start_transfer, after_lookup, transfer_between,
  transfer,
}
use moneymate_backend.Payment.Transfers.Replaying.{
  Finds, find_parties-Reads, find_parties-Finds, find_category-Reads, replay-Reads,
  replay-transaction, lookup_lem, lookup-Reads,
}

-- How a call that runs at most one transfer `t` has ended on the store `d`.
module _ (t : Transaction) (env : Env DbError) (d : Db) where
  -- The key was used, and nothing has changed, or the transfer was posted.
  pub data Answers (d' : Db) (r : LedgerResult) : Type 0 where
    replays :
        d' ≡ d
        → find? (has_key t.idempotency_key t.from_account_id) d.transactions ≡ some r.transaction
        → Answers d' r
    posts : (c : ℕ) → Posts env c t d d' → r.transaction ≡ posted_transaction env c t → Answers d' r

  abbrev pub Ends : Result Error LedgerResult × World Db → Type 0
  Ends (ok r, w) = Answers w.db r
  Ends (err e, w) = w.db ≡ d

  pub replay-Ends :
      (x : Transaction) (w : World Db)
      → w.db ≡ d
      → find? (has_key t.idempotency_key t.from_account_id) d.transactions ≡ some x
      → Ends (replay x env w)
  replay-Ends x w same f = elim (outcome (replay x env w)) [
    | inl (r, done) ↦ subst Ends (sym done) (
        replays ((replay-Reads x).keeps env w ∙ same)
          (f ∙ ap some (sym (replay-transaction x env w done))))
    | inr (e, raised) ↦ subst Ends (sym raised) ((replay-Reads x).keeps env w ∙ same)
  ]

  pub execute_transfer-Ends : (w : World Db) → w.db ≡ d → Ends (execute_transfer t env w)
  execute_transfer-Ends w same = elim (outcome (execute_transfer t env w)) [
    | inl (r, done) ↦
        let (p, e) = execute_transfer-Posts env t w done in
        subst Ends (sym done) (
          posts (w.calls + 3)
            (subst (λ x. Posts env (w.calls + 3) t x (execute_transfer t env w).1.db) same p) e)
    | inr (e, raised) ↦ subst Ends (sym raised) (execute_transfer_refused env t w raised ∙ same)
  ]

  -- The lookup of the key, and the replay of what it has found.
  pub lookup_replay-Ends :
      (w : World Db)
      → w.db ≡ d
      → Ends (
          (repo (get_transaction_by_idempotency_key t.idempotency_key t.from_account_id) >>= replay)
            env w)
  lookup_replay-Ends w same =
      elim (Result-cases
        (repo (get_transaction_by_idempotency_key t.idempotency_key t.from_account_id) env w).0) [
          | inl (x, e) ↦ rw e (
              replay-Ends x
                (repo (get_transaction_by_idempotency_key t.idempotency_key t.from_account_id) env
                  w).1
                ((lookup-Reads t.idempotency_key t.from_account_id).keeps env w ∙ same)
                (ap (λ y. find? (has_key t.idempotency_key t.from_account_id) (Db.transactions y))
                    (sym same)
                  ∙ lookup_lem t.idempotency_key t.from_account_id env w e))
          | inr (x, e) ↦
              rw e ((lookup-Reads t.idempotency_key t.from_account_id).keeps env w ∙ same)
        ]

module _ (parse_uuid : String → Option Uuid) (input : TransferInput) (env : Env DbError) where
  module _ (p : Parties) (d : Db) where
    -- Whatever category it has.
    abbrev pub TransferEnds : Result Error LedgerResult × World Db → Type 0
    TransferEnds x =
        (category : Option Uuid) × Ends (new_transaction parse_uuid input p category) env d x

    -- A lost race is answered by the winner's transaction.
    winner-Ends :
        (category : Option Uuid) (x : Result Error LedgerResult × World Db)
        → Ends (new_transaction parse_uuid input p category) env d x
        → Ends
            (new_transaction parse_uuid input p category)
            env
            d
            (replay_winner parse_uuid input p x.0 env x.1)
    winner-Ends category (ok r, w) h = h
    winner-Ends category (err e, w) h = elim (Bool-cases (is_idempotency_key_used e)) [
      | inl y ↦ rw y (lookup_replay-Ends (new_transaction parse_uuid input p category) env d w h)
      | inr n ↦ rw n h
    ]

    start_transfer-Ends :
        (w : World Db) → w.db ≡ d → TransferEnds (start_transfer parse_uuid input p env w)
    unfolding start_transfer
    start_transfer-Ends w same =
        let kept =
          (find_category-Reads parse_uuid p.user_id input.category_id).keeps env w ∙ same in
        elim (Result-cases (find_category parse_uuid p.user_id input.category_id env w).0) [
          | inl (category, e) ↦ rw e (
            category,
            winner-Ends category _ (
                execute_transfer-Ends (new_transaction parse_uuid input p category) env d
                  (find_category parse_uuid p.user_id input.category_id env w).1 kept),
          )
          | inr (x, e) ↦ rw e (none, kept)
        ]

    after_lookup-Ends :
        (x : Result Error Transaction) (w : World Db)
        → w.db ≡ d
        → ((t : Transaction)
            → x ≡ ok t
            → find? (has_key (trim_space input.idempotency_key) p.from_id) d.transactions ≡ some t)
        → TransferEnds (after_lookup parse_uuid input p x env w)
    unfolding after_lookup
    after_lookup-Ends (ok t) w same f =
        (none, replay-Ends (new_transaction parse_uuid input p none) env d t w same (f t refl))
    after_lookup-Ends (err e) w same f = elim (Bool-cases (is_not_found e)) [
      | inl y ↦ rw y (start_transfer-Ends w same)
      | inr n ↦ rw n (none, same)
    ]

    transfer_between-Ends :
        (w : World Db) → w.db ≡ d → TransferEnds (transfer_between parse_uuid input p env w)
    unfolding transfer_between
    transfer_between-Ends w same =
        after_lookup-Ends
          (repo (get_transaction_by_idempotency_key (trim_space input.idempotency_key) p.from_id)
            env w).0
          (repo (get_transaction_by_idempotency_key (trim_space input.idempotency_key) p.from_id)
            env w).1
          ((lookup-Reads (trim_space input.idempotency_key) p.from_id).keeps env w ∙ same)
          (λ t e.
            ap
              (λ y.
                find? (has_key (trim_space input.idempotency_key) p.from_id) (Db.transactions y))
              (sym same)
            ∙ lookup_lem (trim_space input.idempotency_key) p.from_id env w e)

  pub transfer-Answers :
      (w : World Db) {r : LedgerResult} {w' : World Db}
      → transfer parse_uuid input env w ≡ (ok r, w')
      → (p : Parties) × Finds parse_uuid input w.db p
        × ((category : Option Uuid) × Answers
              (new_transaction parse_uuid input p category)
              env
              w.db
              w'.db
              r)
  unfolding transfer
  transfer-Answers w h =
      let (p, w₁, found, rest) =
        bind-ok (find_parties parse_uuid input) (transfer_between parse_uuid input) env w h in
      let same =
        ap (λ x. World.db x.1) (sym found) ∙ (find_parties-Reads parse_uuid input).keeps env w in
      let (category, ends) = transfer_between-Ends p w.db w₁ same in
      (
        p,
        find_parties-Finds parse_uuid input env w found,
        (category, subst (Ends (new_transaction parse_uuid input p category) env w.db) rest ends),
      )

  -- A transfer that raises has changed nothing, wherever it has failed.
  pub transfer_refused :
      (w : World Db) {e : Error} {w' : World Db}
      → transfer parse_uuid input env w ≡ (err e, w')
      → w'.db ≡ w.db
  unfolding transfer
  transfer_refused w h =
      elim (bind-err (find_parties parse_uuid input) (transfer_between parse_uuid input) env w h) [
        | inl raised ↦
            ap (λ x. World.db x.1) (sym raised) ∙ (find_parties-Reads parse_uuid input).keeps env w
        | inr (p, w₁, found, rest) ↦
            let same =
              ap (λ x. World.db x.1) (sym found)
              ∙ (find_parties-Reads parse_uuid input).keeps env w in
            let (category, ends) = transfer_between-Ends p w.db w₁ same in
            subst (Ends (new_transaction parse_uuid input p category) env w.db) rest ends
      ]

-- What an answer says for an amount that was to go from one account to another under a key: it was
-- done before, the answer is the transaction of that key and sender, and nothing has changed; or the
-- key was new, and the money has moved and the transfer is recorded.
abbrev pub Settles : String → Uuid → Uuid → ℤ → Db → Db → LedgerResult → Type 0
Settles key from to amount d d' r =
    ((d' ≡ d)
      × (find? (has_key key from) d.transactions ≡ some r.transaction)
      × (r.transaction.idempotency_key ≡ key)
      × (r.transaction.from_account_id ≡ from))
    ⊎ ((find? (has_key key from) d.transactions ≡ none)
        × Moved from to amount d d'
        × Recorded key from to amount d' r.transaction)

keyed_lem :
    (key : String) (from : Uuid) (t : Transaction)
    → has_key key from t ≡ true
    → (t.idempotency_key ≡ key) × (t.from_account_id ≡ from)
keyed_lem key from t h = (ground (arith, eq_iff t.idempotency_key key), ground arith)

pub Answers-Settles :
    (t : Transaction) (env : Env DbError) (d d' : Db) (r : LedgerResult)
    → Answers t env d d' r
    → Settles t.idempotency_key t.from_account_id t.to_account_id t.amount d d' r
unfolding posted_transaction
Answers-Settles t env d d' r (replays same found) =
    let (key, from) =
      keyed_lem t.idempotency_key t.from_account_id r.transaction
        (find?_passes (has_key t.idempotency_key t.from_account_id) d.transactions found) in
    inl (same, found, key, from)
Answers-Settles t env d d' r (posts c h e) = inr (
  h.passes.new_key,
  Posts-Moved env c t d d' h,
  subst (Recorded t.idempotency_key t.from_account_id t.to_account_id t.amount d') (sym e)
      (Posts-Recorded env c t d d' h),
)

-- A transfer that returns has found the caller's wallet and, by its handle, another account, a
-- wallet or a merchant's settlement account, for an amount above zero. Either the key, without spaces
-- around it, was used before by this wallet, and the answer is that transaction and nothing has
-- changed; or the key was new, and exactly the amount asked for has gone from the caller's wallet to
-- that account, no other account has changed, and the transfer is recorded under the key.
pub transfer-Settles :
    (parse_uuid : String → Option Uuid) (input : TransferInput) (env : Env DbError) (w : World Db)
    (r : LedgerResult) (w' : World Db)
    → transfer parse_uuid input env w ≡ (ok r, w')
    → (p : Parties) × Finds parse_uuid input w.db p
      × Settles (trim_space input.idempotency_key) p.from_id p.to_id input.amount_paise w.db w'.db r
transfer-Settles parse_uuid input env w r w' h =
    let (p, finds, (category, a)) = transfer-Answers parse_uuid input env w h in
    (p, finds, Answers-Settles (new_transaction parse_uuid input p category) env w.db w'.db r a)
