-- ===== src/Payment/Pods/Creating.antt =====
-- New pods (pod_usecase.go, CreatePod).
use moneymate_backend.Shared.{
  ap, sym, subst, ◌∙◌, suc, String, ◌≡◌, inl, inr, refl, arith, false, Option, Option-cases,
  Bool-cases, none, some, ◌∷◌, find_by,
}
use moneymate_backend.Shared.Int.{pos}
use moneymate_backend.Shared.Text.{trim_space, is_empty}
use moneymate_backend.Shared.Action.{
  Env, World, ok, err, ◌>>◌, raise_if, guard-ok, transaction, transaction-ok, transaction-err, tick,
}
use moneymate_backend.Errors.{DbError, Error, db_error, invalid_input}
use moneymate_backend.Payment.Domain.{Uuid, Account, pod, Pod, Db}
use moneymate_backend.Payment.Constraints.Passing.{
  with_account, with_pod, insert_account_row-cases, insert_pod_row-cases,
}
use moneymate_backend.Payment.Queries.{create_account, create_pod, new_account}
use moneymate_backend.Payment.Pods.{
  CreatePodInput, PodDetail, to_pod_detail, new_pod, create_in_repo, create_body, is_bad_target,
  create_user_pod,
}

-- The pod and the account that a call has added for a user.
pub record Creates (input : CreatePodInput) (user : Uuid) (d d' : Db) (r : PodDetail) : Type 0 where
  pub own : Account
  pub own_added : d'.accounts ≡ own ∷ d.accounts
  pub pod_added : d'.pods ≡ r.pod ∷ d.pods
  pub was_new : find_by Account.id own.id d.accounts ≡ none
  pub of_pod : r.pod.account_id ≡ own.id
  pub own_type : own.type ≡ pod
  pub own_user : own.user_id ≡ some user
  pub own_balance : own.balance ≡ pos 0
  pub owner : r.pod.user_id ≡ user
  pub name : r.pod.name ≡ trim_space input.name
  pub balance : r.balance_paise ≡ pos 0

module _ (input : CreatePodInput) (user : Uuid) (env : Env DbError) (w : World Db) where
  abbrev acc : Account
  acc = new_account (some user) none pod "INR" none (env.now w.calls) (env.new_uuid w.calls)

  abbrev row : Pod
  row = record (new_pod input user acc.id) {
    id = env.new_uuid (suc w.calls);
    created_at = env.now (suc (suc w.calls));
    updated_at = env.now (suc (suc w.calls));
  }

  create_body-ok :
      {r : PodDetail} {w' : World Db}
      → create_body input user env w ≡ (ok r, w')
      → (r ≡ to_pod_detail row (pos 0))
        × (w'.db ≡ with_pod row (with_account acc w.db))
        × (find_by Account.id acc.id w.db.accounts ≡ none)
  unfolding create_body create_in_repo create_account create_pod
  create_body-ok h =
      ground
        (arith, insert_account_row-cases acc w.db, insert_pod_row-cases row (with_account acc w.db))

  create_body-Creates :
      {r : PodDetail} {w' : World Db}
      → create_body input user env w ≡ (ok r, w')
      → Creates input user w.db w'.db r
  create_body-Creates {r} {w'} h =
      let (e, stored, fresh) = create_body-ok h in
      record {
        own = acc;
        own_added = ap Db.accounts stored;
        pod_added = ap Db.pods stored ∙ ap (λ p. p ∷ w.db.pods) (ap PodDetail.pod (sym e));
        was_new = fresh;
        of_pod = ap (λ x. Pod.account_id (PodDetail.pod x)) e;
        own_type = refl;
        own_user = refl;
        own_balance = refl;
        owner = ap (λ x. Pod.user_id (PodDetail.pod x)) e;
        name = ap (λ x. Pod.name (PodDetail.pod x)) e;
        balance = ap PodDetail.balance_paise e;
      }

module _ (parse_uuid : String → Option Uuid) (input : CreatePodInput) (env : Env DbError)
    (w : World Db) where
  -- A pod that was created has a name that is not blank, and came with a new account of its own,
  -- which is its user's, of the type of pods and empty. Nothing else was added to either table.
  pub create_user_pod-Creates :
      (r : PodDetail) (w' : World Db)
      → create_user_pod parse_uuid input env w ≡ (ok r, w')
      → (user : Uuid) × (parse_uuid input.authenticated_user_id ≡ some user)
        × (is_empty (trim_space input.name) ≡ false)
        × Creates input user w.db w'.db r
  unfolding create_user_pod
  create_user_pod-Creates r w' h = elim (Option-cases (parse_uuid input.authenticated_user_id)) [
    | inl m ↦ absurd (ground arith)
    | inr (user, u) ↦
        let (named, h₁) =
          guard-ok (is_empty (trim_space input.name)) invalid_input
            (raise_if (is_bad_target input.target_amount_paise) invalid_input
              >> transaction db_error (create_body input user))
            env w (rw u at h) in
        let (targeted, h₂) =
          guard-ok (is_bad_target input.target_amount_paise) invalid_input
            (transaction db_error (create_body input user)) env w h₁ in
        let (w₁, body, committed) = transaction-ok db_error (create_body input user) env w h₂ in
        (
          user,
          u,
          named,
          subst (λ d. Creates input user w.db d r) (ap World.db (sym committed))
              (create_body-Creates input user env (tick w) body),
        )
  ]

  -- A pod that could not be created, at whichever of its steps, has left no account and no pod.
  pub create_user_pod_refused :
      {e : Error} {w' : World Db}
      → create_user_pod parse_uuid input env w ≡ (err e, w')
      → w'.db ≡ w.db
  unfolding create_user_pod
  create_user_pod_refused h = elim (Option-cases (parse_uuid input.authenticated_user_id)) [
    | inl m ↦ ground arith
    | inr (user, u) ↦ elim (Bool-cases (is_empty (trim_space input.name))) [
      | inl y ↦ sym (ap (λ x. World.db x.1) (rw (u, y) at h))
      | inr n ↦ elim (Bool-cases (is_bad_target input.target_amount_paise)) [
        | inl y ↦ sym (ap (λ x. World.db x.1) (rw (u, n, y) at h))
        | inr m ↦ transaction-err db_error (create_body input user) env w (rw (u, n, m) at h)
      ]
    ]
  ]
