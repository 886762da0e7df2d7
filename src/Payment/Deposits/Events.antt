-- ===== src/Payment/Deposits/Events.antt =====
-- Sequences of deposit events (deposits_repo.go): orders that are created, captured and failed, in
-- any order and with repetitions.
use moneymate_backend.Shared.{
  ap, sym, subst, ◌∙◌, suc, ◌≤◌, String, ◌≡◌, ◌⊎◌, inl, inr, refl, arith, true, false, ◌&&◌,
  Bool-cases, Option-cases, none, some, List, [], ◌∷◌, find?, find_by, update_by, IsKeyed,
  find?-update_by, update_by-IsKeyed, ◌==◌, if◌then◌else◌, str_eq, eq_iff,
}
use moneymate_backend.Shared.Int.{ℤ}
use moneymate_backend.Shared.Action.{Env, World}
use moneymate_backend.Errors.{DbError}
use moneymate_backend.Payment.Domain.{Uuid, Deposit, created, Db}
use moneymate_backend.Payment.Constraints.Passing.{insert_deposit_row-cases}
use moneymate_backend.Payment.Queries.{
  has_order, is_created, pay, fail, create_deposit, get_deposit_by_order_id, mark_deposit_failed,
}
use moneymate_backend.Payment.Ledger.{repo}
use moneymate_backend.Payment.Deposits.{
  confirm_payment, mark_failed, DepositEvent, initiated, captured, payment_failed, deposit_event,
  is_for, count_credits,
}
use moneymate_backend.Payment.Deposits.Outcomes.{confirm_payment_outcomes}

-- The order's deposit is there, and has been paid or has failed.
abbrev IsClosed : String → List Deposit → Type 0
IsClosed order rs =
    (p : Deposit) × (find? (has_order order) rs ≡ some p) × (is_created p.status ≡ false)

-- What an event can do to the deposits: nothing, a new row, or a row that is closed.
data Changes (rs : List Deposit) : List Deposit → Type 0 where
  unchanged : Changes rs rs
  added :
      (p : Deposit)
      → find_by Deposit.id p.id rs ≡ none
      → find? (has_order p.razorpay_order_id) rs ≡ none
      → Changes rs (p ∷ rs)
  closes :
      (k : Uuid) (f : Deposit → Deposit)
      → ((p : Deposit) → (f p).id ≡ p.id)
      → ((p : Deposit) → (f p).razorpay_order_id ≡ p.razorpay_order_id)
      → ((p : Deposit) → is_created (f p).status ≡ false)
      → Changes rs (update_by Deposit.id k f rs)

Changes-IsKeyed :
    {rs rs' : List Deposit} → Changes rs rs' → IsKeyed Deposit.id rs → IsKeyed Deposit.id rs'
Changes-IsKeyed unchanged h = h
Changes-IsKeyed (added p new_id new_order) h = (new_id, h)
Changes-IsKeyed {rs} (closes k f same_id same_order closed) h =
    update_by-IsKeyed Deposit.id f same_id k rs h

Changes-IsClosed :
    (order : String) {rs rs' : List Deposit}
    → Changes rs rs'
    → IsClosed order rs
    → IsClosed order rs'
Changes-IsClosed order unchanged h = h
Changes-IsClosed order (added q new_id new_order) (p, f, c) =
    (p, ground (arith, eq_iff q.razorpay_order_id order, f), c)
Changes-IsClosed order {rs} (closes k f same_id same_order closed) (p, found, c) = (
  if p.id == k then f p else p,
  find?-update_by Deposit.id (has_order order) f (λ r. ap (λ o. str_eq o order) (same_order r)) k rs
      p found,
  ground (arith, closed p, c),
)

module _ (id user account : Uuid) (order : String) (amount : ℤ) (env : Env DbError)
    (w : World Db) where
  abbrev new_deposit : Deposit
  new_deposit = record {
    id = id;
    user_id = user;
    account_id = account;
    razorpay_order_id = order;
    razorpay_payment_id = "";
    amount = amount;
    status = created;
    created_at = env.now w.calls;
    completed_at = none;
  }

  initiated-cases :
      ((repo (create_deposit id user account order amount) env w).1.db.deposits ≡ w.db.deposits)
      ⊎ (((repo (create_deposit id user account order amount) env w).1.db.deposits
            ≡ new_deposit ∷ w.db.deposits)
          × (find_by Deposit.id id w.db.deposits ≡ none)
          × (find? (has_order order) w.db.deposits ≡ none))
  unfolding create_deposit
  initiated-cases = ground (arith, insert_deposit_row-cases new_deposit w.db)

  initiated-Changes :
      Changes w.db.deposits (repo (create_deposit id user account order amount) env w).1.db.deposits
  initiated-Changes = elim initiated-cases [
    | inl same ↦ subst (Changes w.db.deposits) (sym same) unchanged
    | inr (e, new_id, new_order) ↦
        subst (Changes w.db.deposits) (sym e) (added new_deposit new_id new_order)
  ]

module _ (order payment : String) (env : Env DbError) (w : World Db) where
  payment_failed-cases :
      ((mark_failed order payment env w).1.db.deposits ≡ w.db.deposits)
      ⊎ ((p : Deposit) × ((mark_failed order payment env w).1.db.deposits
            ≡ update_by Deposit.id p.id (fail payment) w.db.deposits))
  unfolding mark_failed get_deposit_by_order_id mark_deposit_failed
  payment_failed-cases = elim (Option-cases (find? (has_order order) w.db.deposits)) [
    | inl m ↦ inl (ground arith)
    | inr (p, f) ↦ elim (Option-cases (env.fault w.calls)) [
      | inr (e, stopped) ↦ inl (ground arith)
      | inl runs ↦ elim (Option-cases (env.fault (suc w.calls))) [
        | inr (e, stopped) ↦ inl (ground arith)
        | inl runs_too ↦ inr (p, ground arith)
      ]
    ]
  ]

  payment_failed-Changes : Changes w.db.deposits (mark_failed order payment env w).1.db.deposits
  payment_failed-Changes = elim payment_failed-cases [
    | inl same ↦ subst (Changes w.db.deposits) (sym same) unchanged
    | inr (p, e) ↦
        subst (Changes w.db.deposits) (sym e)
          (closes p.id (fail payment) (λ _. refl) (λ _. refl) (λ _. refl))
  ]

  captured-Changes :
      (settlement : Uuid)
      → IsKeyed Deposit.id w.db.deposits
      → Changes w.db.deposits (confirm_payment order payment settlement env w).1.db.deposits
  captured-Changes settlement keyed =
      elim (confirm_payment_outcomes env order payment settlement w keyed) [
        | inl (told, c) ↦
            subst (Changes w.db.deposits) (sym c.deposits_left)
              (closes c.row.id (pay payment c.now) (λ _. refl) (λ _. refl) (λ _. refl))
        | inr (duplicate, same) ↦
            subst (Changes w.db.deposits) (ap Db.deposits (sym same)) unchanged
      ]

module _ (settlement : Uuid) where
  deposit_event-Changes :
      (e : DepositEvent) (env : Env DbError) (w : World Db)
      → IsKeyed Deposit.id w.db.deposits
      → Changes w.db.deposits (deposit_event settlement e env w).1.db.deposits
  unfolding deposit_event
  deposit_event-Changes (initiated id user account order amount) env w keyed =
      initiated-Changes id user account order amount env w
  deposit_event-Changes (captured order payment) env w keyed =
      captured-Changes order payment env w settlement keyed
  deposit_event-Changes (payment_failed order payment) env w keyed =
      payment_failed-Changes order payment env w

  -- An event that credits for an order has found it created, and left it closed.
  credits_once :
      (order : String) (e : DepositEvent) (env : Env DbError) (w : World Db)
      → IsKeyed Deposit.id w.db.deposits
      → (is_for order e && (deposit_event settlement e env w).0) ≡ true
      → ((p : Deposit) × (find? (has_order order) w.db.deposits ≡ some p) × (p.status ≡ created))
        × IsClosed order (deposit_event settlement e env w).1.db.deposits
  unfolding deposit_event
  credits_once order (initiated _ _ _ _ _) env w keyed h = ground arith
  credits_once order (payment_failed _ _) env w keyed h = ground arith
  credits_once order (captured o payment) env w keyed h =
      elim (confirm_payment_outcomes env o payment settlement w keyed) [
        | inl (told, c) ↦
            let e : o ≡ order = ground (arith, eq_iff o order) in
            (
              (
                c.row,
                ap (λ x. find? (has_order x) w.db.deposits) (sym e) ∙ c.row_found,
                c.was_created,
              ),
              (
                pay payment c.now c.row,
                ap
                      (λ x.
                        find? (has_order x)
                          (confirm_payment o payment settlement env w).1.db.deposits)
                      (sym e)
                    ∙ c.row_paid,
                refl,
              ),
            )
        | inr (duplicate, same) ↦ absurd (ground arith)
      ]

  -- A closed order is not credited again.
  closed_lem :
      (order : String) (es : List DepositEvent) (env : Env DbError) (w : World Db)
      → IsKeyed Deposit.id w.db.deposits
      → IsClosed order w.db.deposits
      → count_credits settlement order es env w ≡ 0
  closed_lem order [] env w keyed closed = refl
  closed_lem order (e ∷ es) env w keyed closed =
      let c = deposit_event-Changes e env w keyed in
      let rest =
        closed_lem order es env (deposit_event settlement e env w).1 (Changes-IsKeyed c keyed)
          (Changes-IsClosed order c closed) in
      elim (Bool-cases (is_for order e && (deposit_event settlement e env w).0)) [
        | inl y ↦ absurd (ground (arith, closed, credits_once order e env w keyed y))
        | inr n ↦ rw n rest
      ]

  -- In any sequence of events on deposits of which each has its own identifier, orders that are
  -- created, captured and failed in any order and with repetitions, an order is credited at most
  -- once, whichever calls fail.
  pub count_credits_le_one :
      (order : String) (es : List DepositEvent) (env : Env DbError) (w : World Db)
      → IsKeyed Deposit.id w.db.deposits
      → count_credits settlement order es env w ≤ 1
  count_credits_le_one order [] env w keyed = omega arith
  count_credits_le_one order (e ∷ es) env w keyed =
      let keyed' = Changes-IsKeyed (deposit_event-Changes e env w keyed) keyed in
      elim (Bool-cases (is_for order e && (deposit_event settlement e env w).0)) [
        | inl y ↦
            rw
              (
                y,
                closed_lem order es env (deposit_event settlement e env w).1 keyed'
                    (credits_once order e env w keyed y).1,
              )
              (omega arith)
        | inr n ↦
            rw n (count_credits_le_one order es env (deposit_event settlement e env w).1 keyed')
      ]
