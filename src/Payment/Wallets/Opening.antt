-- ===== src/Payment/Wallets/Opening.antt =====
-- What CreateWallet has done when it returns (wallet_usecase.go).
use moneymate_backend.Shared.{
  sym, subst, ◌∙◌, String, false, ◌≡◌, ◌⊎◌, inl, inr, refl, arith, Option, none, some, List, [],
  ◌∷◌, ◌&&◌, is_some, Option-cases, Bool-cases, find?,
}
use moneymate_backend.Shared.Int.{pos}
use moneymate_backend.Shared.Text.{is_empty}
use moneymate_backend.Shared.Action.{
  Env, World, Result, ok, err, Result-cases, bind-ok, guard-ok, handle, ◌>>◌, raise_if, or_raise,
}
use moneymate_backend.Errors.{DbError, Error, map_db_errors, invalid_input}
use moneymate_backend.Payment.Domain.{Uuid, Account, is_wallet, wallet, Db}
use moneymate_backend.Payment.Constraints.{same_uuid, insert_account_row}
use moneymate_backend.Payment.Constraints.Passing.{with_account}
use moneymate_backend.Payment.Queries.{
  Call, is_wallet_of, new_account, get_wallet_by_user_id, create_wallet_row,
}
use moneymate_backend.Payment.Ledger.{repo}
use moneymate_backend.Payment.Transfers.{is_not_found}
use moneymate_backend.Payment.Transfers.Replaying.{wallet-Reads}
use moneymate_backend.Payment.Wallets.{
  is_already_exists, settle_creation, create_unless, create_wallet,
}

-- The user's wallet is `a` after the call, and is the one that was there, or a new one.
pub record Opens (uid : Uuid) (name : String) (d d' : Db) (a : Account) : Type 0 where
  pub is_found : find? (is_wallet_of uid) d'.accounts ≡ some a
  pub how :
      (d' ≡ d)
      ⊎ ((find? (is_wallet_of uid) d.accounts ≡ none)
          × (d' ≡ with_account a d)
          × (a.balance ≡ pos 0)
          × (a.handle ≡ some name))

-- The index `idx_accounts_wallet_per_user` tests the two in the other order.
find?-is_wallet_of :
    (uid : Uuid) (rows : List Account)
    → is_some
        (find? (λ b. is_wallet (Account.type b) && same_uuid (Account.user_id b) (some uid)) rows)
      ≡ false
    → find? (is_wallet_of uid) rows ≡ none
find?-is_wallet_of uid [] h = refl
find?-is_wallet_of uid (b ∷ rows) h = ground (arith, find?-is_wallet_of uid rows)

-- What a row for a new wallet has passed.
insert_wallet-cases :
    (uid : Uuid) (a : Account) (d : Db)
    → a.type ≡ wallet
    → a.user_id ≡ some uid
    → ((insert_account_row a d ≡ ok (with_account a d))
        × (find? (is_wallet_of uid) d.accounts ≡ none))
      ⊎ ((e : DbError) × (insert_account_row a d ≡ err e))
unfolding insert_account_row
insert_wallet-cases uid a d t u = ground (arith, find?-is_wallet_of uid d.accounts)

module _ (uid : Uuid) (name : String) (env : Env DbError) where
  get_wallet-ok :
      (w w' : World Db) (a : Account)
      → repo (get_wallet_by_user_id uid) env w ≡ (ok a, w')
      → (find? (is_wallet_of uid) w.db.accounts ≡ some a) × (w'.db ≡ w.db)
  unfolding get_wallet_by_user_id
  get_wallet-ok w w' a h = elim (Option-cases (find? (is_wallet_of uid) w.db.accounts)) [
    | inl m ↦ absurd (ground arith)
    | inr (b, f) ↦ ground arith
  ]

  abbrev created : World Db → Account
  created w =
      new_account (some uid) none wallet "INR" (some name) (env.now w.calls) (env.new_uuid w.calls)

  create_row-cases :
      (w : World Db)
      → ((repo (create_wallet_row (some uid) "INR" (some name)) env w).0 ≡ ok (created w)
          × ((repo (create_wallet_row (some uid) "INR" (some name)) env w).1.db
              ≡ with_account (created w) w.db)
          × (find? (is_wallet_of uid) w.db.accounts ≡ none))
        ⊎ ((e : Error) × ((repo (create_wallet_row (some uid) "INR" (some name)) env w).0 ≡ err e)
            × ((repo (create_wallet_row (some uid) "INR" (some name)) env w).1.db ≡ w.db))
  unfolding create_wallet_row
  create_row-cases w = elim (Option-cases (env.fault w.calls)) [
    | inr (f, stops) ↦ inr (map_db_errors f, ground arith, ground arith)
    | inl runs ↦ elim (insert_wallet-cases uid (created w) w.db refl refl) [
      | inl (stored, free) ↦ inl (ground arith)
      | inr (e, raised) ↦ inr (map_db_errors e, ground arith, ground arith)
    ]
  ]

  -- How a call that began with the store `d` ends.
  abbrev Ends : Db → Result Error Account → Db → Type 0
  Ends d (ok a) d' = Opens uid name d d' a
  Ends d (err e) d' = d' ≡ d

  lookup-Ends :
      (w : World Db)
      → Ends w.db
          (repo (get_wallet_by_user_id uid) env w).0
          (repo (get_wallet_by_user_id uid) env w).1.db
  lookup-Ends w = elim (Result-cases (repo (get_wallet_by_user_id uid) env w).0) [
    | inl (a, e) ↦
        let (f, kept) =
          get_wallet-ok w (repo (get_wallet_by_user_id uid) env w).1 a (ground (arith, e)) in
        rw e (record { is_found = ground (arith, f, kept); how = inl kept })
    | inr (x, e) ↦ rw e ((wallet-Reads uid).keeps env w)
  ]

  abbrev creation : Call Account
  creation = handle (repo (create_wallet_row (some uid) "INR" (some name))) (settle_creation uid)

  settled_err-Ends :
      (e : Error) (w : World Db)
      → Ends w.db (settle_creation uid (err e) env w).0 (settle_creation uid (err e) env w).1.db
  unfolding settle_creation
  settled_err-Ends e w = elim (Bool-cases (is_already_exists e)) [
    | inl y ↦ rw y (lookup-Ends w)
    | inr n ↦ rw n refl
  ]

  creation-Ends : (w : World Db) → Ends w.db (creation env w).0 (creation env w).1.db
  unfolding settle_creation
  creation-Ends w = elim (create_row-cases w) [
    | inl (made, stored, free) ↦
        rw made
          (record { is_found = rw stored (ground arith); how = inr (free, stored, refl, refl) })
    | inr (e, raised, kept) ↦ rw raised (
        subst
          (λ d.
            Ends d
              (settle_creation uid (err e) env
                (repo (create_wallet_row (some uid) "INR" (some name)) env w).1).0
              (settle_creation uid (err e) env
                (repo (create_wallet_row (some uid) "INR" (some name)) env w).1).1.db)
          kept (settled_err-Ends e (repo (create_wallet_row (some uid) "INR" (some name)) env w).1))
  ]

  abbrev looked_up : Call Account
  looked_up = handle (repo (get_wallet_by_user_id uid)) (create_unless uid name)

  looked_up-Ends : (w : World Db) → Ends w.db (looked_up env w).0 (looked_up env w).1.db
  unfolding create_unless
  looked_up-Ends w = elim (Result-cases (repo (get_wallet_by_user_id uid) env w).0) [
    | inl (a, e) ↦
        let (f, kept) =
          get_wallet-ok w (repo (get_wallet_by_user_id uid) env w).1 a (ground (arith, e)) in
        rw e (record { is_found = ground (arith, f, kept); how = inl kept })
    | inr (x, e) ↦
        let w₁ = (repo (get_wallet_by_user_id uid) env w).1 in
        let kept = (wallet-Reads uid).keeps env w in
        elim (Bool-cases (is_not_found x)) [
          | inl y ↦
              rw (e, y)
                (subst (λ d. Ends d (creation env w₁).0 (creation env w₁).1.db) kept
                  (creation-Ends w₁))
          | inr n ↦ rw (e, n) kept
        ]
  ]

or_raise-ok :
    {A : Type 0} (o : Option A) (e : Error) (env : Env DbError) (w w' : World Db) (a : A)
    → or_raise o e env w ≡ (ok a, w')
    → (o ≡ some a) × (w' ≡ w)
or_raise-ok none e env w w' a h = absurd (ground arith)
or_raise-ok (some b) e env w w' a h = (ground arith, ground arith)

module _ (parse_uuid : String → Option Uuid) (user_id name : String) (env : Env DbError)
    (w : World Db) where
  abbrev of_user : Uuid → Call Account
  of_user uid = raise_if (is_empty name) invalid_input >> looked_up uid name env

  -- CreateWallet returns only the wallet of the user who is named: the first that the store then
  -- holds. Either the store is as it was, or the user had none and the wallet is one new row, with
  -- the handle that was given and nothing on it.
  pub create_wallet-Opens :
      (a : Account) (w' : World Db)
      → create_wallet parse_uuid user_id name env w ≡ (ok a, w')
      → (uid : Uuid) × (parse_uuid user_id ≡ some uid)
        × (is_empty name ≡ false)
        × Opens uid name w.db w'.db a
  unfolding create_wallet
  create_wallet-Opens a w' h =
      let (uid, w₁, parsed, rest) =
        bind-ok (or_raise (parse_uuid user_id) invalid_input) of_user env w h in
      let (u, same) = or_raise-ok (parse_uuid user_id) invalid_input env w w₁ uid parsed in
      let (named, run) =
        guard-ok (is_empty name) invalid_input (looked_up uid name env) env w₁ rest in
      let ends =
        subst (λ x. Ends uid name env w₁.db x.0 (World.db x.1)) run
          (looked_up-Ends uid name env w₁) in
      (uid, u, named, subst (λ v. Opens uid name (World.db v) w'.db a) same ends)

  -- A call of CreateWallet that raises has left the store as it was.
  pub create_wallet_refused :
      (e : Error) (w' : World Db)
      → create_wallet parse_uuid user_id name env w ≡ (err e, w')
      → w'.db ≡ w.db
  unfolding create_wallet
  create_wallet_refused e w' h = elim (Option-cases (parse_uuid user_id)) [
    | inl m ↦ ground arith
    | inr (uid, u) ↦ elim (Bool-cases (is_empty name)) [
      | inl y ↦ ground arith
      | inr n ↦
          let runs : create_wallet parse_uuid user_id name env w ≡ looked_up uid name env env w =
            rw (u, n) refl in
          subst (λ x. Ends uid name env w.db x.0 (World.db x.1)) (sym runs ∙ h)
            (looked_up-Ends uid name env w)
    ]
  ]

  -- A user who has a wallet gets that wallet from CreateWallet, whatever the handle, and nothing
  -- changes, if the lookup goes well.
  pub create_wallet_again :
      (uid : Uuid) (a : Account)
      → parse_uuid user_id ≡ some uid
      → is_empty name ≡ false
      → find? (is_wallet_of uid) w.db.accounts ≡ some a
      → env.fault w.calls ≡ none
      → ((create_wallet parse_uuid user_id name env w).0 ≡ ok a)
        × ((create_wallet parse_uuid user_id name env w).1.db ≡ w.db)
  unfolding create_wallet create_unless get_wallet_by_user_id
  create_wallet_again uid a u named f quiet = ground (arith, u, named, f, quiet)
