-- ===== src/Rewards/Payouts/Repeating.antt =====
-- What ProcessPaymentCompletedEvent (reward_usecase.go) does with a repeated event.
use moneymate_backend.Shared.{
  ℕ, String, ◌≡◌, refl, ap, ◌∙◌, arith, inl, inr, Bool, Option, some, Bool-cases, Option-cases,
  find?, ◌&&◌,
}
use moneymate_backend.Shared.Int.{ℤ, pos, leb_ℤ}
use moneymate_backend.Shared.Action.{
  Env, World, Result, ok, err, Result-cases, tick, Reads, query-Reads,
}
use moneymate_backend.Errors.{DbError}
use moneymate_backend.Rewards.Domain.{
  Uuid, RewardRule, RewardPayout, PaymentCompletedEvent, RewardDb,
}
use moneymate_backend.Rewards.Calculation.{RewardCalculation, rolls_for}
use moneymate_backend.Rewards.Repo.{
  is_payout_for, fresh_payout, insert_payout_row, insert_payout, get_active_rule,
}
use moneymate_backend.Rewards.Payouts.{
  pay_inserted, pay_if_eligible, roll_reward, roll_bound, with_rule,
  process_payment_completed_event, new_payout, recipient_type_of,
}

-- A second row of one key is refused, whatever else is wrong with it.
taken-refused :
    (p q : RewardPayout) (d : RewardDb)
    → find? (is_payout_for p.transaction_id p.recipient_type) d.payouts ≡ some q
    → (e : DbError) × (insert_payout_row p d ≡ err e)
unfolding insert_payout_row
taken-refused p q d h = elim (Result-cases (insert_payout_row p d)) [
  | inl (x, stored) ↦ absurd (ground arith)
  | inr refused ↦ refused
]

insert_payout-refused :
    (p q : RewardPayout) (env : Env DbError) (w : World RewardDb)
    → find? (is_payout_for p.transaction_id p.recipient_type) w.db.payouts ≡ some q
    → (e : DbError) × (insert_payout p env w ≡ (err e, tick w))
unfolding insert_payout
insert_payout-refused p q env w h =
    let (e, refused) =
      taken-refused (fresh_payout p (env.now w.calls) (env.new_uuid w.calls)) q w.db h in
    elim (Option-cases (env.fault w.calls)) [
      | inl runs ↦ (e, rw (runs, refused) refl)
      | inr (x, stops) ↦ (x, rw stops refl)
    ]

get_active_rule-Reads : Reads get_active_rule
unfolding get_active_rule
get_active_rule-Reads = query-Reads _

module _ (parse_event : String → Option PaymentCompletedEvent) (int31n : ℤ → ℕ → ℤ)
    (answers : Uuid → ℤ → ℕ → Result String Uuid) (has_paid : Uuid → ℤ → ℕ → Bool)
    (payload : String) (event : PaymentCompletedEvent) (env : Env DbError) where
  pay_if_eligible_again :
      (rule : RewardRule) (calc : RewardCalculation) (w : World RewardDb) (q : RewardPayout)
      → find?
          (is_payout_for event.transaction_id (recipient_type_of event.recipient_type))
          w.db.payouts
        ≡ some q
      → (pay_if_eligible parse_event int31n answers has_paid payload event rule calc env w).1.db
        ≡ w.db
  unfolding pay_if_eligible pay_inserted
  pay_if_eligible_again rule calc w q h =
      let (e, refused) = insert_payout-refused (new_payout payload event rule calc) q env w h in
      elim (Bool-cases calc.eligible) [ inl y ↦ rw (y, refused) (ground arith) | inr n ↦ rw n refl ]

  with_rule_again :
      (r : Result DbError RewardRule) (w : World RewardDb) (q : RewardPayout)
      → find?
          (is_payout_for event.transaction_id (recipient_type_of event.recipient_type))
          w.db.payouts
        ≡ some q
      → (with_rule parse_event int31n answers has_paid payload event r env w).1.db ≡ w.db
  unfolding with_rule roll_reward
  with_rule_again (err e) w q h = refl
  with_rule_again (ok rule) w q h =
      elim (Bool-cases (
        rolls_for event.amount_paise rule
        && leb_ℤ (roll_bound rule.min_percentage_bps rule.max_percentage_bps) (pos 0))) [
          | inl y ↦ rw y refl
          | inr n ↦ rw n (pay_if_eligible_again rule _ (tick w) q h)
        ]

  -- An event for a transaction and type of recipient that have a payout changes nothing, whatever else
  -- it says, whatever the state of that payout, and whichever statement fails.
  pub process_again :
      (w : World RewardDb) (q : RewardPayout)
      → parse_event payload ≡ some event
      → find?
          (is_payout_for event.transaction_id (recipient_type_of event.recipient_type))
          w.db.payouts
        ≡ some q
      → (process_payment_completed_event parse_event int31n answers has_paid payload env w).1.db
        ≡ w.db
  unfolding process_payment_completed_event
  process_again w q parsed h = rw parsed (
      let found = get_active_rule env w in
      let same : found.1.db ≡ w.db = get_active_rule-Reads.keeps env w in
      with_rule_again found.0 found.1 q (
        ap
          (λ d.
            find? (is_payout_for event.transaction_id (recipient_type_of event.recipient_type))
              (RewardDb.payouts d))
          same
        ∙ h)
      ∙ same)
