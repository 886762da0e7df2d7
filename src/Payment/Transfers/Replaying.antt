-- ===== src/Payment/Transfers/Replaying.antt =====
-- What the parts of Transfer (transfer_usecase.go) that only read have found.
use moneymate_backend.Shared.{
  ap, sym, ◌∙◌, String, ◌≡◌, ◌≢◌, inl, inr, refl, arith, true, not, Option, Option-cases,
  Bool-cases, none, some, List, [], ◌∷◌, ◌==◌, find?, find?_passes, eq_iff, ◌⊎◌, ◌||◌,
}
use moneymate_backend.Shared.Int.{ℤ, pos, ◌<ℤ◌, leb_ℤ}
use moneymate_backend.Shared.Text.{trim_space, is_empty}
use moneymate_backend.Shared.Action.{
  Env, World, Result, ok, err, ◌>>=◌, ◌>>◌, pure, or_raise, raise_if, map_err, bind-ok, guard-ok,
  Reads, pure-Reads, raise-Reads, raise_if-Reads, or_raise-Reads, query-Reads, map_err-Reads,
  bind-Reads, handle-Reads,
}
use moneymate_backend.Errors.{DbError, Error, invalid_input, unauthorized, map_db_errors}
use moneymate_backend.Payment.Domain.{
  Uuid, Account, AccountType, wallet, pod, merchant_settlement, merchant_payout,
  platform_commission, external_settlement, is_wallet, is_merchant_settlement, Transaction,
  JournalEntry, Direction, debit, credit, Category, LedgerResult, Db,
}
use moneymate_backend.Payment.Constraints.{has_key, same_text}
use moneymate_backend.Payment.Queries.{
  Call, is_wallet_of, get_account_by_id, get_account_by_handle, get_wallet_by_user_id,
  get_transaction_by_idempotency_key, get_entries_by_transaction_id, get_category_by_id,
}
use moneymate_backend.Payment.Ledger.{repo, balance_or_zero, read_balance}
use moneymate_backend.Payment.Transfers.{
  TransferInput, with_entries, replay, unknown_handle, owned_category, is_payable, Parties,
  find_parties, find_category,
}

with_entries-transaction :
    (es : List JournalEntry) (r : LedgerResult) → (with_entries es r).transaction ≡ r.transaction
with_entries-transaction [] r = refl
with_entries-transaction (e ∷ es) r = with_entries-transaction es _ ∙ direction_lem e.direction
  where
    direction_lem :
        (x : Direction)
        → LedgerResult.transaction (elim x [
          | debit ↦ record r { debit_entry = some e }
          | credit ↦ record r { credit_entry = some e }
        ])
          ≡ r.transaction
    direction_lem debit = refl
    direction_lem credit = refl

read_balance-Reads : (k : Uuid) → Reads (read_balance k)
unfolding read_balance get_account_by_id
read_balance-Reads k =
    handle-Reads (map_err-Reads map_db_errors (query-Reads _)) (λ r. pure-Reads (balance_or_zero r))

-- The answer of a replay, of the entries and the two balances.
abbrev replayed : Transaction → List JournalEntry → ℤ → ℤ → LedgerResult
replayed t entries from_balance to_balance = with_entries entries (record {
  transaction = t;
  debit_entry = none;
  credit_entry = none;
  from_balance = from_balance;
  to_balance = to_balance;
})

entries-Reads : (k : Uuid) → Reads (repo (get_entries_by_transaction_id k))
unfolding get_entries_by_transaction_id
entries-Reads k = record { keeps = λ env w. ground arith }

pub wallet-Reads : (user : Uuid) → Reads (repo (get_wallet_by_user_id user))
unfolding get_wallet_by_user_id
wallet-Reads user = map_err-Reads map_db_errors (query-Reads _)

account_of_handle-Reads :
    (text : String) → Reads (map_err unknown_handle (repo (get_account_by_handle text)))
unfolding get_account_by_handle
account_of_handle-Reads text =
    map_err-Reads unknown_handle (map_err-Reads map_db_errors (query-Reads _))

pub replay-Reads : (t : Transaction) → Reads (replay t)
unfolding replay
replay-Reads t = bind-Reads (entries-Reads t.id) λ entries.
    bind-Reads (read_balance-Reads t.from_account_id) λ from_balance.
      bind-Reads (read_balance-Reads t.to_account_id)
        λ to_balance. pure-Reads (replayed t entries from_balance to_balance)

same_answer :
    {v : Result Error LedgerResult × World Db} {x y : LedgerResult} {w : World Db}
    → v ≡ (ok y, w)
    → v.0 ≡ ok x
    → x ≡ y
same_answer h e = ground arith

module _ (t : Transaction) (env : Env DbError) (w : World Db) where
  pub replay-transaction :
      {r : LedgerResult} {w' : World Db} → replay t env w ≡ (ok r, w') → r.transaction ≡ t
  unfolding replay
  replay-transaction h =
      let (entries, w₁, p, h₁) =
        bind-ok (repo (get_entries_by_transaction_id t.id))
          (λ es. read_balance t.from_account_id >>= λ x.
            read_balance t.to_account_id >>= λ y. pure (replayed t es x y))
          env w h in
      let (x, w₂, q, h₂) =
        bind-ok (read_balance t.from_account_id)
          (λ x. read_balance t.to_account_id >>= λ y. pure (replayed t entries x y)) env w₁ h₁ in
      let (y, w₃, r, h₃) =
        bind-ok (read_balance t.to_account_id) (λ y. pure (replayed t entries x y)) env w₂ h₂ in
      ap LedgerResult.transaction (sym (same_answer h₃ refl)) ∙ with_entries-transaction entries _

-- The rows that the two lookups of accounts return.
own_wallet_lem :
    (user : Uuid) (a : Account)
    → is_wallet_of user a ≡ true
    → (a.user_id ≡ some user) × (a.type ≡ wallet)
own_wallet_lem user a h = (ground arith, ground arith)

pub wallet_lem :
    (user : Uuid) (rows : List Account) (a : Account)
    → find? (is_wallet_of user) rows ≡ some a
    → (a.user_id ≡ some user) × (a.type ≡ wallet)
wallet_lem user rows a f = own_wallet_lem user a (find?_passes (is_wallet_of user) rows f)

same_text_lem : (o : Option String) (text : String) → same_text o (some text) ≡ true → o ≡ some text
same_text_lem none text h = absurd (ground arith)
same_text_lem (some x) text h = ap some ((eq_iff x text).0 (ground arith))

handle_lem :
    (text : String) (rows : List Account) (a : Account)
    → find? (λ x. same_text (Account.handle x) (some text)) rows ≡ some a
    → a.handle ≡ some text
handle_lem text rows a f =
    same_text_lem a.handle text
      (find?_passes (λ x. same_text (Account.handle x) (some text)) rows f)

payable_type_lem :
    (x : AccountType)
    → (is_wallet x || is_merchant_settlement x) ≡ true
    → (x ≡ wallet) ⊎ (x ≡ merchant_settlement)
payable_type_lem wallet h = inl refl
payable_type_lem merchant_settlement h = inr refl
payable_type_lem pod h = absurd (ground arith)
payable_type_lem merchant_payout h = absurd (ground arith)
payable_type_lem platform_commission h = absurd (ground arith)
payable_type_lem external_settlement h = absurd (ground arith)

payable_lem :
    (a : Account) → is_payable a ≡ true → (a.type ≡ wallet) ⊎ (a.type ≡ merchant_settlement)
payable_lem a h = payable_type_lem a.type h

-- The wallet of the caller, and the account of the handle.
pub record Finds (parse_uuid : String → Option Uuid) (input : TransferInput) (d : Db) (p : Parties)
    : Type 0 where
  pub from : Account
  pub to : Account
  pub caller : parse_uuid input.authenticated_user_id ≡ some p.user_id
  pub from_found : find? (is_wallet_of p.user_id) d.accounts ≡ some from
  pub to_found :
      find? (λ a. same_text (Account.handle a) (some (trim_space input.to_handle))) d.accounts
      ≡ some to
  pub from_is : from.id ≡ p.from_id
  pub to_is : to.id ≡ p.to_id
  pub distinct : p.from_id ≢ p.to_id
  pub of_caller : (from.user_id ≡ some p.user_id) × (from.type ≡ wallet)
  pub of_handle : to.handle ≡ some (trim_space input.to_handle)
  pub payable : (to.type ≡ wallet) ⊎ (to.type ≡ merchant_settlement)
  pub positive : pos 0 <ℤ input.amount_paise

module _ (parse_uuid : String → Option Uuid) (input : TransferInput) where
  pub find_parties-Reads : Reads (find_parties parse_uuid input)
  unfolding find_parties
  find_parties-Reads =
      bind-Reads (raise_if-Reads (leb_ℤ input.amount_paise (pos 0)) invalid_input) λ _.
        bind-Reads (raise_if-Reads (is_empty (trim_space input.idempotency_key)) invalid_input) λ _.
          bind-Reads (or_raise-Reads (parse_uuid input.authenticated_user_id) unauthorized) λ user.
            bind-Reads (wallet-Reads user) λ from.
              bind-Reads (raise_if-Reads (is_empty (trim_space input.to_handle)) invalid_input) λ _.
                bind-Reads (account_of_handle-Reads (trim_space input.to_handle)) λ to.
                  bind-Reads (raise_if-Reads (not (is_payable to)) invalid_input) λ _.
                    bind-Reads (raise_if-Reads (from.id == to.id) invalid_input)
                      λ _. pure-Reads (record { user_id = user; from_id = from.id; to_id = to.id })

  module _ (env : Env DbError) (w : World Db) where
    abbrev keyed_part : Call Parties
    keyed_part = do
      user ← or_raise (parse_uuid input.authenticated_user_id) unauthorized
      from ← repo (get_wallet_by_user_id user)
      raise_if (is_empty (trim_space input.to_handle)) invalid_input
      to ← map_err unknown_handle (repo (get_account_by_handle (trim_space input.to_handle)))
      raise_if (not (is_payable to)) invalid_input
      raise_if (from.id == to.id) invalid_input
      pure (record { user_id = user; from_id = from.id; to_id = to.id })

    pub find_parties-Finds :
        {p : Parties} {w' : World Db}
        → find_parties parse_uuid input env w ≡ (ok p, w')
        → Finds parse_uuid input w.db p
    unfolding find_parties get_wallet_by_user_id get_account_by_handle
    find_parties-Finds {p} h =
        let (positive, h₁) =
          guard-ok (leb_ℤ input.amount_paise (pos 0)) invalid_input
            (raise_if (is_empty (trim_space input.idempotency_key)) invalid_input >> keyed_part) env
            w h in
        let (keyed, h₂) =
          guard-ok (is_empty (trim_space input.idempotency_key)) invalid_input keyed_part env w
            h₁ in
        elim (Option-cases (parse_uuid input.authenticated_user_id)) [
          | inl m ↦ absurd (ground arith)
          | inr (user, u) ↦ elim (Option-cases (find? (is_wallet_of user) w.db.accounts)) [
            | inl m ↦ absurd (ground arith)
            | inr (a, f) ↦
                elim (Option-cases (
                  find? (λ x. same_text (Account.handle x) (some (trim_space input.to_handle)))
                    w.db.accounts)) [
                      | inl m ↦ absurd (ground arith)
                      | inr (b, g) ↦ record {
                        from = a;
                        to = b;
                        caller = ground arith;
                        from_found = ground arith;
                        to_found = g;
                        from_is = ground arith;
                        to_is = ground arith;
                        distinct = ground arith;
                        of_caller = wallet_lem p.user_id w.db.accounts a (ground arith);
                        of_handle = handle_lem (trim_space input.to_handle) w.db.accounts b g;
                        payable = payable_lem b (ground arith);
                        positive = ground arith;
                      }
                    ]
          ]
        ]

owned_category-Reads :
    (parse_uuid : String → Option Uuid) (user cid : Uuid) (r : Result Error Category)
    → Reads (owned_category parse_uuid user cid r)
owned_category-Reads parse_uuid user cid (err e) = raise-Reads invalid_input
owned_category-Reads parse_uuid user cid (ok c) = record { keeps = λ env w. ground arith }

pub find_category-Reads :
    (parse_uuid : String → Option Uuid) (user : Uuid) (text : Option String)
    → Reads (find_category parse_uuid user text)
unfolding find_category get_category_by_id
find_category-Reads parse_uuid user none = pure-Reads none
find_category-Reads parse_uuid user (some text) = elim (Bool-cases (is_empty text)) [
  | inl y ↦ rw y (pure-Reads none)
  | inr n ↦ rw n (elim (Option-cases (parse_uuid text)) [
    | inl m ↦ rw m (raise-Reads invalid_input)
    | inr (cid, f) ↦ rw f (
        handle-Reads (map_err-Reads map_db_errors (query-Reads _))
          (owned_category-Reads parse_uuid user cid))
  ])
]

pub lookup_lem :
    (key : String) (from : Uuid) (env : Env DbError) (w : World Db) {t : Transaction}
    → (repo (get_transaction_by_idempotency_key key from) env w).0 ≡ ok t
    → find? (has_key key from) w.db.transactions ≡ some t
unfolding get_transaction_by_idempotency_key
lookup_lem key from env w h = ground arith

pub lookup-Reads :
    (key : String) (from : Uuid) → Reads (repo (get_transaction_by_idempotency_key key from))
unfolding get_transaction_by_idempotency_key
lookup-Reads key from = map_err-Reads map_db_errors (query-Reads _)
