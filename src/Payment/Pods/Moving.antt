-- ===== src/Payment/Pods/Moving.antt =====
-- Money between a wallet and a pod (pod_usecase.go, TransferToPod), and new pods (CreatePod).
use moneymate_backend.Shared.{
  ap, sym, subst, ◌∙◌, String, ◌≡◌, inl, inr, refl, arith, Bool, true, false, not, ◌&&◌, ◌||◌,
  Option, Option-cases, Bool-cases, if◌then◌else◌, some, ◌==◌, find?, find_by, key-find_by,
}
use moneymate_backend.Shared.Int.{pos, leb_ℤ, ◌<ℤ◌}
use moneymate_backend.Shared.Text.{trim_space, lowers_to}
use moneymate_backend.Shared.Action.{
  Env, World, ok, err, ◌>>=◌, ◌>>◌, pure, raise_if, guard-ok, bind-ok, bind-err, Reads, bind-Reads,
  raise_if-Reads, or_raise-Reads, pure-Reads, map_err-Reads, query-Reads,
}
use moneymate_backend.Errors.{
  DbError, Error, not_found, invalid_input, unauthorized, forbidden, map_db_errors,
}
use moneymate_backend.Payment.Domain.{Uuid, wallet, Pod, Db}
use moneymate_backend.Payment.Queries.{Call, is_wallet_of, get_pod_by_id, get_wallet_by_user_id}
use moneymate_backend.Payment.Ledger.{repo, execute_transfer}
use moneymate_backend.Payment.Ledger.Executing.{execute_transfer_refused}
use moneymate_backend.Payment.Ledger.Transfers.{Moved, execute_transfer_moves}
use moneymate_backend.Payment.Transfers.Replaying.{wallet-Reads, wallet_lem}
use moneymate_backend.Payment.Pods.{
  PodTransferInput, PodTransferResult, PodParties, pod_transaction, pod_transfer_result,
  is_deposit_to, is_withdrawal_from, choose_key, find_pod_parties, move_to_pod, transfer_to_pod,
}

either : (a b : Bool) → (not a && not b) ≡ false → (a || b) ≡ true
either true b h = refl
either false true h = refl
either false false h = absurd (ground arith)

module _ (parse_uuid : String → Option Uuid) (uuid_text : Uuid → String)
    (input : PodTransferInput) where
  choose_key-Reads : (key : String) → Reads (choose_key parse_uuid uuid_text key)
  unfolding choose_key
  choose_key-Reads key = record { keeps = λ env w. ground arith }

  pod_row-Reads : (k : Uuid) → Reads (repo (get_pod_by_id k))
  unfolding get_pod_by_id
  pod_row-Reads k = map_err-Reads map_db_errors (query-Reads _)

  abbrev locate : Uuid → Uuid → Call PodParties
  locate user k = do
    key ← choose_key parse_uuid uuid_text (trim_space input.idempotency_key)
    p ← repo (get_pod_by_id k)
    raise_if (not (p.user_id == user)) forbidden
    own ← repo (get_wallet_by_user_id user)
    pure (record { key = key; from_pod = p; wallet = own })

  locate-Reads : (user k : Uuid) → Reads (locate user k)
  locate-Reads user k = bind-Reads (choose_key-Reads (trim_space input.idempotency_key)) λ key.
      bind-Reads (pod_row-Reads k) λ p.
        bind-Reads (raise_if-Reads (not (Pod.user_id p == user)) forbidden) λ _.
          bind-Reads (wallet-Reads user)
            λ own. pure-Reads (record { key = key; from_pod = p; wallet = own })

  pub find_pod_parties-Reads : Reads (find_pod_parties parse_uuid uuid_text input)
  unfolding find_pod_parties
  find_pod_parties-Reads =
      bind-Reads (or_raise-Reads (parse_uuid input.authenticated_user_id) unauthorized) λ user.
        bind-Reads (or_raise-Reads (parse_uuid input.pod_id) not_found) λ k.
          bind-Reads (raise_if-Reads (leb_ℤ input.amount_paise (pos 0)) invalid_input) λ _.
            bind-Reads
              (raise_if-Reads (not (is_deposit_to input) && not (is_withdrawal_from input))
                invalid_input)
              λ _. locate-Reads user k

  -- The caller's pod and the caller's wallet.
  pub record PodFinds (d : Db) (x : PodParties) : Type 0 where
    pub user : Uuid
    pub caller : parse_uuid input.authenticated_user_id ≡ some user
    pub owner : x.from_pod.user_id ≡ user
    pub named : parse_uuid input.pod_id ≡ some x.from_pod.id
    pub pod_found : find_by Pod.id x.from_pod.id d.pods ≡ some x.from_pod
    pub wallet_found : find? (is_wallet_of user) d.accounts ≡ some x.wallet
    pub wallet_of_caller : (x.wallet.user_id ≡ some user) × (x.wallet.type ≡ wallet)
    pub positive : pos 0 <ℤ input.amount_paise
    pub has_direction :
        (lowers_to (trim_space input.direction) "deposit"
          || lowers_to (trim_space input.direction) "withdraw")
        ≡ true

  -- The amount has gone in the direction that was asked for.
  pub data MovesAsAsked (x : PodParties) (d d' : Db) : Type 0 where
    deposits :
        lowers_to (trim_space input.direction) "deposit" ≡ true
        → Moved x.wallet.id x.from_pod.account_id input.amount_paise d d'
        → MovesAsAsked x d d'
    withdraws :
        lowers_to (trim_space input.direction) "deposit" ≡ false
        → lowers_to (trim_space input.direction) "withdraw" ≡ true
        → Moved x.from_pod.account_id x.wallet.id input.amount_paise d d'
        → MovesAsAsked x d d'

  module _ (env : Env DbError) (w : World Db) where
    locate-ok :
        (user k : Uuid) {x : PodParties} {w' : World Db}
        → locate user k env w ≡ (ok x, w')
        → (x.from_pod.user_id ≡ user)
          × (find_by Pod.id k w.db.pods ≡ some x.from_pod)
          × (find? (is_wallet_of user) w.db.accounts ≡ some x.wallet)
    unfolding get_pod_by_id get_wallet_by_user_id choose_key
    locate-ok user k h = elim (Option-cases (find_by Pod.id k w.db.pods)) [
      | inl m ↦ absurd (ground arith)
      | inr (p, f) ↦ elim (Option-cases (find? (is_wallet_of user) w.db.accounts)) [
        | inl m ↦ absurd (ground arith)
        | inr (a, g) ↦ (ground arith, ground arith, ground arith)
      ]
    ]

    find_pod_parties-PodFinds :
        {x : PodParties} {w' : World Db}
        → find_pod_parties parse_uuid uuid_text input env w ≡ (ok x, w')
        → PodFinds w.db x
    unfolding find_pod_parties
    find_pod_parties-PodFinds {x} h = elim (Option-cases (parse_uuid input.authenticated_user_id)) [
      | inl m ↦ absurd (ground arith)
      | inr (user, u) ↦ elim (Option-cases (parse_uuid input.pod_id)) [
        | inl m ↦ absurd (ground arith)
        | inr (k, v) ↦
            let (positive, h₁) =
              guard-ok (leb_ℤ input.amount_paise (pos 0)) invalid_input
                (raise_if (not (is_deposit_to input) && not (is_withdrawal_from input))
                    invalid_input
                  >> locate user k)
                env w (rw (u, v) at h) in
            let (directed, h₂) =
              guard-ok (not (is_deposit_to input) && not (is_withdrawal_from input)) invalid_input
                (locate user k) env w h₁ in
            let (owner, row, own) = locate-ok user k h₂ in
            let named = key-find_by Pod.id k w.db.pods x.from_pod row in
            record {
              user = user;
              caller = u;
              owner = owner;
              named = v ∙ ap some (sym named);
              pod_found = ap (λ i. find_by Pod.id i w.db.pods) named ∙ row;
              wallet_found = own;
              wallet_of_caller = wallet_lem user w.db.accounts x.wallet own;
              positive = ground arith;
              has_direction = either (is_deposit_to input) (is_withdrawal_from input) directed;
            }
      ]
    ]

    as_asked :
        (x : PodParties) (d d' : Db)
        → (lowers_to (trim_space input.direction) "deposit"
            || lowers_to (trim_space input.direction) "withdraw")
          ≡ true
        → (let t = pod_transaction input (is_deposit_to input) x.key x.from_pod x.wallet in
            Moved t.from_account_id t.to_account_id t.amount d d')
        → MovesAsAsked x d d'
    as_asked x d d' directed m =
        let moves : Bool → Type 0 = λ b.
          Moved (if b then x.wallet.id else x.from_pod.account_id)
            (if b then x.from_pod.account_id else x.wallet.id) input.amount_paise d d' in
        elim (Bool-cases (lowers_to (trim_space input.direction) "deposit")) [
          | inl y ↦ deposits y (subst moves y m)
          | inr n ↦ withdraws n (ground arith) (subst moves n m)
        ]

    -- A pod transfer that returns has found the caller's own pod and the caller's wallet, for an
    -- amount above zero, and has moved exactly the amount, and changed no other account: from the
    -- wallet to the pod's account when the direction reads "deposit" in lower case and without
    -- spaces around it, and from the pod's account to the wallet when it reads "withdraw".
    pub transfer_to_pod_moves :
        (r : PodTransferResult) (w' : World Db)
        → transfer_to_pod parse_uuid uuid_text input env w ≡ (ok r, w')
        → (x : PodParties) × PodFinds w.db x × MovesAsAsked x w.db w'.db
    unfolding transfer_to_pod move_to_pod
    transfer_to_pod_moves r w' h =
        let (x, w₁, found, rest) =
          bind-ok (find_pod_parties parse_uuid uuid_text input)
            (move_to_pod parse_uuid uuid_text input) env w h in
        let same = ap (λ y. World.db y.1) (sym found) ∙ find_pod_parties-Reads.keeps env w in
        let t = pod_transaction input (is_deposit_to input) x.key x.from_pod x.wallet in
        let (res, w₂, moved, told) =
          bind-ok (execute_transfer t)
            (λ res. pure (pod_transfer_result input (is_deposit_to input) x.from_pod res)) env w₁
            rest in
        let (m, recorded) = execute_transfer_moves env t w₁ res w₂ moved in
        let finds = find_pod_parties-PodFinds found in
        let moves : Db → Db → Type 0 = Moved t.from_account_id t.to_account_id t.amount in
        (
          x,
          finds,
          as_asked x w.db w'.db finds.has_direction (
              subst (λ d. moves d w'.db) same
                (subst (λ d. moves w₁.db d) (ap (λ y. World.db y.1) told) m)),
        )

    -- A pod transfer that raises has changed nothing.
    pub transfer_to_pod_refused :
        {e : Error} {w' : World Db}
        → transfer_to_pod parse_uuid uuid_text input env w ≡ (err e, w')
        → w'.db ≡ w.db
    unfolding transfer_to_pod move_to_pod
    transfer_to_pod_refused h =
        elim (bind-err (find_pod_parties parse_uuid uuid_text input)
          (move_to_pod parse_uuid uuid_text input) env w h) [
            | inl raised ↦ ap (λ y. World.db y.1) (sym raised) ∙ find_pod_parties-Reads.keeps env w
            | inr (x, w₁, found, rest) ↦
                let same =
                  ap (λ y. World.db y.1) (sym found) ∙ find_pod_parties-Reads.keeps env w in
                let t = pod_transaction input (is_deposit_to input) x.key x.from_pod x.wallet in
                elim (bind-err (execute_transfer t)
                  (λ res. pure (pod_transfer_result input (is_deposit_to input) x.from_pod res)) env
                  w₁ rest) [
                    | inl stopped ↦ execute_transfer_refused env t w₁ stopped ∙ same
                    | inr (res, w₂, moved, told) ↦ absurd (ground (arith, told))
                  ]
          ]
