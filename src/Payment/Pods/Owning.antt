-- ===== src/Payment/Pods/Owning.antt =====
-- Pods are created, changed and deleted by their owners alone (pod_usecase.go).
use moneymate_backend.Shared.{
  ap, sym, subst, ◌∙◌, ℕ, String, ◌≡◌, ◌≢◌, inl, inr, refl, arith, true, false, not, Option,
  Option-cases, none, some, ◌==◌, find_by, key-find_by, update_by, delete_by, find_by-delete_by,
  find_by-delete_ne, find_by-update_self, find_by-update_ne,
}
use moneymate_backend.Shared.Int.{ℤ, pos, negsuc, eqb_ℤ}
use moneymate_backend.Shared.Text.{trim_space}
use moneymate_backend.Shared.Action.{
  Env, World, Result, ok, ◌>>=◌, ◌>>◌, pure, raise_if, bind-ok, Result-cases, Reads, bind-Reads,
  raise_if-Reads, or_raise-Reads, pure-Reads, map_err-Reads, query-Reads,
}
use moneymate_backend.Errors.{
  DbError, Error, not_found, unauthorized, pod_non_zero_balance, map_db_errors,
}
use moneymate_backend.Payment.Domain.{Uuid, Account, Pod, Db}
use moneymate_backend.Payment.Queries.{
  Call, get_account_by_id, get_pod_by_id, update_pod, delete_pod, updated_pod,
}
use moneymate_backend.Payment.Ledger.{repo}
use moneymate_backend.Payment.Pods.{
  find_own_pod, delete_user_pod, update_user_pod, to_pod_detail, UpdatePodInput, PodDetail,
  settle_fields, set_fields,
}

differ : (k j : Uuid) → k ≢ j → (k == j) ≡ false
differ k j n = ground (arith, n)

zero_lem : (x : ℤ) → eqb_ℤ x (pos 0) ≡ true → x ≡ pos 0
zero_lem (pos n) h = ap pos (ground arith)
zero_lem (negsuc n) h = absurd (ground arith)

abbrev without : Uuid → Db → Db
without k d = record d { pods = delete_by Pod.id k d.pods }

module _ (parse_uuid : String → Option Uuid) (user_id pod_id : String) where
  -- The caller's pod.
  pub record Owns (d : Db) (p : Pod) : Type 0 where
    pub caller : parse_uuid user_id ≡ some p.user_id
    pub named : parse_uuid pod_id ≡ some p.id
    pub row_found : find_by Pod.id p.id d.pods ≡ some p

  pub pod-Reads : (k : Uuid) → Reads (repo (get_pod_by_id k))
  unfolding get_pod_by_id
  pod-Reads k = map_err-Reads map_db_errors (query-Reads _)

  pub account-Reads : (k : Uuid) → Reads (repo (get_account_by_id k))
  unfolding get_account_by_id
  account-Reads k = map_err-Reads map_db_errors (query-Reads _)

  pub find_own_pod-Reads : Reads (find_own_pod parse_uuid user_id pod_id)
  unfolding find_own_pod
  find_own_pod-Reads = bind-Reads (or_raise-Reads (parse_uuid user_id) unauthorized) λ user.
      bind-Reads (or_raise-Reads (parse_uuid pod_id) not_found) λ k.
        bind-Reads (pod-Reads k)
          λ p. bind-Reads (raise_if-Reads (not (Pod.user_id p == user)) not_found) λ _. pure-Reads p

  module _ (env : Env DbError) (w : World Db) where
    find_own_pod-Owns :
        {p : Pod} {w' : World Db}
        → find_own_pod parse_uuid user_id pod_id env w ≡ (ok p, w')
        → Owns w.db p
    unfolding find_own_pod get_pod_by_id
    find_own_pod-Owns h = elim (Option-cases (parse_uuid user_id)) [
      | inl m ↦ absurd (ground arith)
      | inr (user, u) ↦ elim (Option-cases (parse_uuid pod_id)) [
        | inl m ↦ absurd (ground arith)
        | inr (k, v) ↦ elim (Option-cases (find_by Pod.id k w.db.pods)) [
          | inl m ↦ absurd (ground arith)
          | inr (p, f) ↦ record {
            caller = ground arith;
            named = ground (arith, key-find_by Pod.id k w.db.pods p f);
            row_found = ground (arith, key-find_by Pod.id k w.db.pods p f);
          }
        ]
      ]
    ]

    delete_rest :
        (p : Pod) (w₁ : World Db) {w' : World Db}
        → (repo (get_account_by_id p.account_id) >>= λ acc.
              raise_if (not (eqb_ℤ (Account.balance acc) (pos 0))) pod_non_zero_balance
              >> repo (delete_pod p.id))
            env w₁
          ≡ (ok tt, w')
        → ((a : Account) × (find_by Account.id p.account_id w₁.db.accounts ≡ some a)
            × (a.balance ≡ pos 0))
          × (w'.db ≡ without p.id w₁.db)
    unfolding get_account_by_id delete_pod
    delete_rest p w₁ h = elim (Option-cases (find_by Account.id p.account_id w₁.db.accounts)) [
      | inl m ↦ absurd (ground arith)
      | inr (a, f) ↦ ((a, f, zero_lem a.balance (ground arith)), ground arith)
    ]

    -- A pod that was deleted belonged to the caller and had the balance 0; it is gone, and no other
    -- pod and no account has changed.
    pub delete_user_pod-Owns :
        (w' : World Db)
        → delete_user_pod parse_uuid user_id pod_id env w ≡ (ok tt, w')
        → (p : Pod) × Owns w.db p
          × ((a : Account) × (find_by Account.id p.account_id w.db.accounts ≡ some a)
              × (a.balance ≡ pos 0))
          × (find_by Pod.id p.id w'.db.pods ≡ none)
          × ((k : Uuid) → k ≢ p.id → find_by Pod.id k w'.db.pods ≡ find_by Pod.id k w.db.pods)
          × (w'.db.accounts ≡ w.db.accounts)
    unfolding delete_user_pod
    delete_user_pod-Owns w' h =
        let (p, w₁, found, rest) =
          bind-ok (find_own_pod parse_uuid user_id pod_id)
            (λ p. repo (get_account_by_id (Pod.account_id p)) >>= λ acc.
              raise_if (not (eqb_ℤ (Account.balance acc) (pos 0))) pod_non_zero_balance
              >> repo (delete_pod (Pod.id p)))
            env w h in
        let same = ap (λ x. World.db x.1) (sym found) ∙ find_own_pod-Reads.keeps env w in
        let ((a, f, zero), stored) = delete_rest p w₁ rest in
        let left = stored ∙ ap (without p.id) same in
        (
          p,
          find_own_pod-Owns found,
          (a, ap (λ d. find_by Account.id p.account_id (Db.accounts d)) (sym same) ∙ f, zero),
          ap (λ d. find_by Pod.id p.id (Db.pods d)) left ∙ find_by-delete_by Pod.id p.id w.db.pods,
          λ k n.
              ap (λ d. find_by Pod.id k (Db.pods d)) left
              ∙ find_by-delete_ne Pod.id p.id k w.db.pods (ground (arith, n)),
          ap Db.accounts left,
        )

set_fields_lem :
    (input : UpdatePodInput) (p c : Pod)
    → set_fields input p ≡ ok c
    → (c.id ≡ p.id)
      × (c.account_id ≡ p.account_id)
      × (c.user_id ≡ p.user_id)
      × (c.status ≡ p.status)
unfolding set_fields
set_fields_lem input p c h = ground arith

-- A column after an edit: as it was when none was given, or what was given, put in form.
abbrev pub given_or : {A B : Type 0} → B → (A → B) → Option A → B
given_or old form none = old
given_or old form (some a) = form a

edited_columns :
    (input : UpdatePodInput) (p c : Pod)
    → set_fields input p ≡ ok c
    → (c.name ≡ given_or p.name trim_space input.name)
      × (c.target_amount ≡ given_or p.target_amount (λ x. some x) input.target_amount_paise)
      × (c.target_date ≡ given_or p.target_date (λ x. some x) input.target_date)
      × (c.icon ≡ given_or p.icon trim_space input.icon)
unfolding set_fields
edited_columns input p c h = (ground arith, ground arith, ground arith, ground arith)

-- What UpdatePod has made of the row of a pod.
pub record Edits (input : UpdatePodInput) (env : Env DbError) (d d' : Db) (p : Pod) : Type 0 where
  pub row : Pod
  pub row_left : find_by Pod.id p.id d'.pods ≡ some row
  pub named : row.name ≡ given_or p.name trim_space input.name
  pub targeted :
      row.target_amount ≡ given_or p.target_amount (λ x. some x) input.target_amount_paise
  pub dated : row.target_date ≡ given_or p.target_date (λ x. some x) input.target_date
  pub pictured : row.icon ≡ given_or p.icon trim_space input.icon
  pub same_id : row.id ≡ p.id
  pub same_account : row.account_id ≡ p.account_id
  pub same_owner : row.user_id ≡ p.user_id
  pub same_status : row.status ≡ p.status
  pub created_then : row.created_at ≡ p.created_at
  pub updated_now : (n : ℕ) × (row.updated_at ≡ env.now n)
  pub others_left : (k : Uuid) → k ≢ p.id → find_by Pod.id k d'.pods ≡ find_by Pod.id k d.pods
  pub same_accounts : d'.accounts ≡ d.accounts

module _ (parse_uuid : String → Option Uuid) (input : UpdatePodInput) (env : Env DbError)
    (w : World Db) where
  abbrev edited_in : Pod → ℕ → Uuid → Db → Db
  edited_in c now k d = record d { pods = update_by Pod.id k (updated_pod c now) d.pods }

  update_pod-ok :
      (p c : Pod) (w₁ : World Db) {stored : Pod} {w₂ : World Db}
      → find_by Pod.id p.id w₁.db.pods ≡ some p
      → c.id ≡ p.id
      → repo (update_pod c) env w₁ ≡ (ok stored, w₂)
      → w₂.db ≡ edited_in c (env.now w₁.calls) p.id w₁.db
  unfolding update_pod
  update_pod-ok p c w₁ f e h =
      let g = ap (λ k. find_by Pod.id k w₁.db.pods) e ∙ f in
      ground (arith, g, ap (λ k. edited_in c (env.now w₁.calls) k w₁.db) e)

  after_settle : Pod → Call PodDetail
  after_settle c = do
    stored ← repo (update_pod c)
    acc ← repo (get_account_by_id stored.account_id)
    pure (to_pod_detail stored acc.balance)

  account_tail :
      (s : Pod) (w₂ : World Db) {r : PodDetail} {w' : World Db}
      → (repo (get_account_by_id s.account_id) >>= λ acc.
            pure (to_pod_detail s (Account.balance acc)))
          env w₂
        ≡ (ok r, w')
      → w'.db ≡ w₂.db
  unfolding get_account_by_id
  account_tail s w₂ h = ground arith

  settled_lem :
      (p c : Pod) (w₁ : World Db) {r : PodDetail} {w' : World Db}
      → find_by Pod.id p.id w₁.db.pods ≡ some p
      → c.id ≡ p.id
      → after_settle c env w₁ ≡ (ok r, w')
      → w'.db ≡ edited_in c (env.now w₁.calls) p.id w₁.db
  unfolding after_settle
  settled_lem p c w₁ f e h =
      let (s, w₂, updated, rest) =
        bind-ok (repo (update_pod c))
          (λ s. repo (get_account_by_id (Pod.account_id s)) >>= λ acc.
            pure (to_pod_detail s (Account.balance acc)))
          env w₁ h in
      account_tail s w₂ rest ∙ update_pod-ok p c w₁ f e updated

  settle_lem :
      (x : Result Error Pod) (c : Pod) (w₁ : World Db) {y : Result Error PodDetail × World Db}
      → x ≡ ok c
      → (settle_fields x >>= after_settle) env w₁ ≡ y
      → after_settle c env w₁ ≡ y
  settle_lem x c w₁ e h = ap (λ z. (settle_fields z >>= after_settle) env w₁) (sym e) ∙ h

  update_rest :
      (p : Pod) (w₁ : World Db) {r : PodDetail} {w' : World Db}
      → find_by Pod.id p.id w₁.db.pods ≡ some p
      → (settle_fields (set_fields input p) >>= after_settle) env w₁ ≡ (ok r, w')
      → Edits input env w₁.db w'.db p
  update_rest p w₁ {w' = w'} f h = elim (Result-cases (set_fields input p)) [
    | inr (e, bad) ↦ absurd (ground (arith, bad))
    | inl (c, good) ↦
        let now = env.now w₁.calls in
        let (id, account, owner, status) = set_fields_lem input p c good in
        let (name, target, date, icon) = edited_columns input p c good in
        let left : w'.db ≡ edited_in c now p.id w₁.db =
          settled_lem p c w₁ f (set_fields_lem input p c good).0
            (settle_lem (set_fields input p) c w₁ good h) in
        record {
          row = updated_pod c now p;
          row_left =
              ap (λ d. find_by Pod.id p.id (Db.pods d)) left
              ∙ find_by-update_self Pod.id (updated_pod c now) (λ _. refl) p.id w₁.db.pods p f;
          named = name;
          targeted = target;
          dated = date;
          pictured = icon;
          same_id = refl;
          same_account = refl;
          same_owner = refl;
          same_status = status;
          created_then = refl;
          updated_now = (w₁.calls, refl);
          others_left = λ k n.
              ap (λ d. find_by Pod.id k (Db.pods d)) left
              ∙ find_by-update_ne Pod.id (updated_pod c now) (λ _. refl) p.id k w₁.db.pods
                  (differ k p.id n);
          same_accounts = ap Db.accounts left;
        }
  ]

  -- A pod that was changed belonged to the caller. In the stored row the name, the target amount, the
  -- target date and the icon are each the one given, the name and the icon without spaces around
  -- them, or as before where none was given; the identifier, the account, the owner, the status and
  -- the time of creation are as before, and the time of the update is a reading of the clock. No
  -- other pod and no account has changed.
  pub update_user_pod-Edits :
      (r : PodDetail) (w' : World Db)
      → update_user_pod parse_uuid input env w ≡ (ok r, w')
      → (p : Pod) × Owns parse_uuid input.authenticated_user_id input.pod_id w.db p
        × Edits input env w.db w'.db p
  unfolding update_user_pod after_settle
  update_user_pod-Edits r w' h =
      let (p, w₁, found, rest) =
        bind-ok (find_own_pod parse_uuid input.authenticated_user_id input.pod_id)
          (λ p. settle_fields (set_fields input p) >>= after_settle) env w h in
      let same =
        ap (λ x. World.db x.1) (sym found)
        ∙ (find_own_pod-Reads parse_uuid input.authenticated_user_id input.pod_id).keeps env w in
      let owns =
        find_own_pod-Owns parse_uuid input.authenticated_user_id input.pod_id env w found in
      let f = ap (λ d. find_by Pod.id p.id (Db.pods d)) same ∙ owns.row_found in
      (p, owns, subst (λ d. Edits input env d w'.db p) same (update_rest p w₁ f rest))
