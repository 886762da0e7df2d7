-- ===== src/Rewards/Payouts/Counting.antt =====
-- How often the payment service has paid for one transaction and type of recipient, against the rows
-- of the table and what is still to be paid (reward_usecase.go).
use moneymate_backend.Shared.{
  ℕ, suc, ◌+◌, ◌≤◌, String, ◌≡◌, ◌⊎◌, refl, sym, ap, subst, ◌∙◌, arith, inl, inr, Bool, true,
  Option, none, List, [], ◌∷◌, Bool-cases, Option-cases, find?, find_by, update_by, count_if,
  count_if-find?, count_if-update_by,
}
use moneymate_backend.Shared.Int.{ℤ}
use moneymate_backend.Shared.Action.{Env, World, Result, ok, err}
use moneymate_backend.Shared.Evolving.{Chains, Evolves, statement-Evolves}
use moneymate_backend.Errors.{DbError}
use moneymate_backend.Rewards.Domain.{
  Uuid, Time, RecipientType, recipient_user, recipient_merchant, same_type, RewardPayout,
  PaymentCompletedEvent, Payment, RewardDb,
}
use moneymate_backend.Rewards.Repo.{
  with_payouts, answer_row, is_payout_for, insert_payout_row, fresh_payout, insert_payout,
  update_payout,
}
use moneymate_backend.Rewards.Payouts.{execute_reward_payout}

abbrev pub rows_for : Uuid → RecipientType → RewardDb → ℕ
rows_for tx type d = count_if (is_payout_for tx type) d.payouts

abbrev pub paid_for : Uuid → RecipientType → RewardDb → ℕ
paid_for tx type d = count_if (λ m. is_payout_for tx type (Payment.payout m)) d.payments

-- The payouts `due` are still to be paid, and each row was paid for once, but for `extra` times.
pub record Owes (extra : ℕ) (due : List RewardPayout) (d : RewardDb) : Type 0 where
  pub single : (tx : Uuid) (type : RecipientType) → rows_for tx type d ≤ 1
  pub covered :
      (tx : Uuid) (type : RecipientType)
      → paid_for tx type d + count_if (is_payout_for tx type) due ≤ rows_for tx type d + extra

insert_payout_row-cases :
    (p : RewardPayout) (d : RewardDb)
    → ((insert_payout_row p d ≡ ok (p, with_payouts (p ∷ d.payouts) d))
        × (find? (is_payout_for p.transaction_id p.recipient_type) d.payouts ≡ none))
      ⊎ ((e : DbError) × (insert_payout_row p d ≡ err e))
unfolding insert_payout_row
insert_payout_row-cases p d = ground arith

same_type_lem : (a b : RecipientType) → same_type a b ≡ true → a ≡ b
same_type_lem recipient_user recipient_user h = refl
same_type_lem recipient_merchant recipient_merchant h = refl
same_type_lem recipient_user recipient_merchant h = ground arith
same_type_lem recipient_merchant recipient_user h = ground arith

-- A row that is counted for a key has that key.
is_payout_for-key :
    (tx : Uuid) (type : RecipientType) (p : RewardPayout)
    → is_payout_for tx type p ≡ true
    → (p.transaction_id ≡ tx) × (p.recipient_type ≡ type)
is_payout_for-key tx type p h = (ground arith, ground (arith, same_type_lem p.recipient_type type))

module _ (extra : ℕ) where
  inserted-Owes :
      (p : RewardPayout) (d : RewardDb)
      → find? (is_payout_for p.transaction_id p.recipient_type) d.payouts ≡ none
      → Owes extra [] d
      → Owes extra (p ∷ []) (with_payouts (p ∷ d.payouts) d)
  inserted-Owes p d free h = record {
    single = λ tx type. elim (Bool-cases (is_payout_for tx type p)) [
      | inl y ↦
          let (e, e') = is_payout_for-key tx type p y in
          let zero : rows_for tx type d ≡ 0 =
            ap (λ t. rows_for t type d) (sym e)
            ∙ ap (λ t. rows_for p.transaction_id t d) (sym e')
            ∙ count_if-find? (is_payout_for p.transaction_id p.recipient_type) d.payouts free in
          rw y (omega (arith, zero))
      | inr n ↦ rw n (omega (arith, h.single tx type))
    ];
    covered = λ tx type. elim (Bool-cases (is_payout_for tx type p)) [
      | inl y ↦ rw y (omega (arith, h.covered tx type))
      | inr n ↦ rw n (omega (arith, h.covered tx type))
    ];
  }

  -- An insertion that returns leaves its row to be paid, and one that fails has done nothing.
  pub insert_payout-Owes :
      (p : RewardPayout) (env : Env DbError) (w : World RewardDb)
      → Owes extra [] w.db
      → ((q : RewardPayout) × ((insert_payout p env w).0 ≡ ok q)
          × Owes extra (q ∷ []) (insert_payout p env w).1.db)
        ⊎ ((e : DbError) × ((insert_payout p env w).0 ≡ err e)
            × ((insert_payout p env w).1.db ≡ w.db))
  unfolding insert_payout
  insert_payout-Owes p env w h =
      let q = fresh_payout p (env.now w.calls) (env.new_uuid w.calls) in
      elim (Option-cases (env.fault w.calls)) [
        | inr (e, stops) ↦ inr (e, ground arith, ground arith)
        | inl runs ↦ elim (insert_payout_row-cases q w.db) [
          | inl (stored, free) ↦
              inl (q, rw (runs, stored) refl, rw (runs, stored) (inserted-Owes q w.db free h))
          | inr (e, refused) ↦ inr (e, rw (runs, refused) refl, rw (runs, refused) refl)
        ]
      ]

  -- Nothing that is counted has changed.
  pub kept-Owes :
      (due : List RewardPayout) (d d' : RewardDb)
      → d'.payments ≡ d.payments
      → ((tx : Uuid) (type : RecipientType) → rows_for tx type d' ≡ rows_for tx type d)
      → Owes extra due d
      → Owes extra due d'
  kept-Owes due d d' e f h = record {
    single = λ tx type. rw (f tx type) (h.single tx type);
    covered = λ tx type. rw (e, f tx type) (h.covered tx type);
  }

  -- What is due need not be paid, and may be a part of the rows that are there.
  pub no_more-Owes : (due : List RewardPayout) (d : RewardDb) → Owes extra due d → Owes extra [] d
  no_more-Owes due d h = record {
    single = h.single;
    covered = λ tx type. omega (arith, h.covered tx type);
  }

  pub again-Owes :
      (due : List RewardPayout) (d : RewardDb)
      → ((tx : Uuid) (type : RecipientType)
          → count_if (is_payout_for tx type) due ≤ rows_for tx type d)
      → Owes extra [] d
      → Owes (suc extra) due d
  again-Owes due d few h = record {
    single = h.single;
    covered = λ tx type. omega (arith, h.covered tx type, h.single tx type, few tx type);
  }

  abbrev pub KeepsOwing : List RewardPayout → RewardDb → RewardDb → Type 0
  KeepsOwing due d d' = Owes extra due d → Owes extra due d'

  pub KeepsOwing-Chains : (due : List RewardPayout) → Chains (KeepsOwing due)
  KeepsOwing-Chains due = record { stays = λ d h. h; chained = λ d d' d'' f g h. g (f h) }

  module _ (due : List RewardPayout) where
    pub marked-Evolves :
        (k : Uuid) (f : Time → RewardPayout → RewardPayout)
        → ((now : Time) (tx : Uuid) (type : RecipientType) (p : RewardPayout)
            → is_payout_for tx type (f now p) ≡ is_payout_for tx type p)
        → Evolves (KeepsOwing due) (update_payout k f)
    unfolding update_payout
    marked-Evolves k f blind =
        statement-Evolves (KeepsOwing-Chains due)
          (λ now _ d.
            answer_row (find_by RewardPayout.id k (RewardDb.payouts d)) (f now)
              (with_payouts (update_by RewardPayout.id k (f now) d.payouts) d))
          λ now fresh d d' r h. elim (Option-cases (find_by RewardPayout.id k d.payouts)) [
            | inl m ↦ absurd (ground arith)
            | inr (p, found) ↦
                let e : with_payouts (update_by RewardPayout.id k (f now) d.payouts) d ≡ d' =
                  ground arith in
                subst (KeepsOwing due d) e (
                  kept-Owes due d _ refl λ tx type.
                    count_if-update_by RewardPayout.id (is_payout_for tx type) (f now)
                      (blind now tx type) k d.payouts)
          ]

    pub paid-Owes :
        (parse_event : String → Option PaymentCompletedEvent) (int31n : ℤ → ℕ → ℤ)
        (answers : Uuid → ℤ → ℕ → Result String Uuid) (has_paid : Uuid → ℤ → ℕ → Bool)
        (p : RewardPayout) (account : Uuid) (amount : ℤ) (env : Env DbError) (w : World RewardDb)
        → Owes extra (p ∷ due) w.db
        → Owes extra due
            (execute_reward_payout parse_event int31n answers has_paid p account amount env w).1.db
    unfolding execute_reward_payout
    paid-Owes parse_event int31n answers has_paid p account amount env w h =
        elim (Bool-cases (has_paid account amount w.calls)) [
          | inl y ↦
              rw y (record {
                single = h.single;
                covered = λ tx type. ground (arith, h.covered tx type);
              })
          | inr n ↦
              rw n (record {
                single = h.single;
                covered = λ tx type. ground (arith, h.covered tx type);
              })
        ]
