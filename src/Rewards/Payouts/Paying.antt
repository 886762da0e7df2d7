-- ===== src/Rewards/Payouts/Paying.antt =====
-- What ProcessPaymentCompletedEvent (reward_usecase.go) does with a first event.
use moneymate_backend.Shared.{
  ℕ, suc, String, ◌≡◌, refl, ap, ◌∙◌, arith, Bool, true, false, Option, none, some, ◌∷◌, find?,
  find_by, update_by, update_by-missing, is_some,
}
use moneymate_backend.Shared.Int.{ℤ, pos, ◌+ℤ◌, ◌≤ℤ◌, leb_ℤ, to_int32}
use moneymate_backend.Shared.Action.{Env, World, Result, ok, tick, put}
use moneymate_backend.Errors.{DbError}
use moneymate_backend.Rewards.Domain.{
  Uuid, RewardRule, RewardPayout, payout_completed, PaymentCompletedEvent, Payment, RewardDb,
}
use moneymate_backend.Rewards.Calculation.{
  RewardCalculation, calculate_reward, calculate_reward-InRule,
}
use moneymate_backend.Rewards.Repo.{
  with_payouts, is_payout_for, fresh_payout, insert_payout_row, insert_payout, complete_payout,
  mark_payout_completed, update_payout, get_active_rule,
}
use moneymate_backend.Rewards.Payouts.{
  execute_reward_payout, settle_payment, pay_inserted, pay_if_eligible, roll_reward, roll_bound,
  with_rule, process_payment_completed_event, new_payout, recipient_type_of,
}

module _ (parse_event : String → Option PaymentCompletedEvent) (int31n : ℤ → ℕ → ℤ)
    (answers : Uuid → ℤ → ℕ → Result String Uuid) (has_paid : Uuid → ℤ → ℕ → Bool)
    (payload : String) (event : PaymentCompletedEvent) (env : Env DbError) where
  -- The reward that is calculated with the number drawn by the call `n`.
  abbrev pub rolled : RewardRule → ℕ → RewardCalculation
  rolled rule n =
      calculate_reward event.amount_paise rule λ lo hi. to_int32 (lo +ℤ int31n (roll_bound lo hi) n)

  -- What a first event meets with: no statement fails, the active rule gives a reward for the number that
  -- is drawn, the event's key and the new identifier are unused, and the payment service pays.
  pub record IsPayable (w : World RewardDb) (rule : RewardRule) (payment : Uuid) : Type 0 where
    pub parsed : parse_event payload ≡ some event
    pub runs : (n : ℕ) → env.fault n ≡ none
    pub rule_found : find? RewardRule.active w.db.rules ≡ some rule
    pub rule_kept : is_some (find_by RewardRule.id rule.id w.db.rules) ≡ true
    pub min_not_negative : pos 0 ≤ℤ rule.min_percentage_bps
    pub ordered : rule.min_percentage_bps ≤ℤ rule.max_percentage_bps
    pub rolls : leb_ℤ (roll_bound rule.min_percentage_bps rule.max_percentage_bps) (pos 0) ≡ false
    pub eligible : (rolled rule (suc w.calls)).eligible ≡ true
    pub key_unused :
        find?
          (is_payout_for event.transaction_id (recipient_type_of event.recipient_type))
          w.db.payouts
        ≡ none
    pub id_unused : find_by RewardPayout.id (env.new_uuid (suc (suc w.calls))) w.db.payouts ≡ none
    pub answered :
        answers event.recipient_account_id
          (rolled rule (suc w.calls)).reward_amount_paise
          (suc (suc (suc w.calls)))
        ≡ ok payment
    pub pays :
        has_paid event.recipient_account_id
          (rolled rule (suc w.calls)).reward_amount_paise
          (suc (suc (suc w.calls)))
        ≡ true

  module _ (w : World RewardDb) (rule : RewardRule) (payment : Uuid)
      (h : IsPayable w rule payment) where
    abbrev calc : RewardCalculation
    calc = rolled rule (suc w.calls)

    abbrev row : RewardPayout
    row =
        fresh_payout (new_payout payload event rule calc) (env.now (suc (suc w.calls)))
          (env.new_uuid (suc (suc w.calls)))

    active_found : get_active_rule env w ≡ (ok rule, tick w)
    unfolding get_active_rule
    active_found = rw (h.runs w.calls, h.rule_found) refl

    roll_found :
        roll_reward parse_event int31n answers has_paid event.amount_paise rule env (tick w)
        ≡ (ok calc, tick (tick w))
    unfolding roll_reward
    roll_found = ground (arith, h.rolls)

    row_inserted :
        insert_payout (new_payout payload event rule calc) env (tick (tick w))
        ≡ (ok row, put (with_payouts (row ∷ w.db.payouts) w.db) (tick (tick w)))
    unfolding insert_payout insert_payout_row
    row_inserted =
        let good = calculate_reward-InRule event.amount_paise rule _ h.ordered h.eligible in
        rw (h.runs (suc (suc w.calls)))
          (ground (arith, good, h.min_not_negative, h.key_unused, h.id_unused, h.rule_kept))

    abbrev paid_row : RewardPayout
    paid_row = complete_payout payment (env.now (suc (suc (suc (suc w.calls))))) row

    abbrev payment_made : Payment
    payment_made = record {
      payout = row;
      account_id = event.recipient_account_id;
      amount_paise = calc.reward_amount_paise;
    }

    -- The world after the insertion and after the payment.
    abbrev with_row : World RewardDb
    with_row = put (with_payouts (row ∷ w.db.payouts) w.db) (tick (tick w))

    abbrev with_payment : World RewardDb
    with_payment = put (record with_row.db { payments = payment_made ∷ w.db.payments }) with_row

    row_paid :
        execute_reward_payout parse_event int31n answers has_paid row event.recipient_account_id
          calc.reward_amount_paise env with_row
        ≡ (ok payment, with_payment)
    unfolding execute_reward_payout
    row_paid = rw (h.answered, h.pays) refl

    row_completed : mark_payout_completed row.id payment env with_payment ≡ (
      ok paid_row,
      put
          (record w.db {
            payouts =
                paid_row
                ∷ update_by RewardPayout.id row.id
                    (complete_payout payment (env.now (suc (suc (suc (suc w.calls))))))
                    w.db.payouts;
            payments = payment_made ∷ w.db.payments;
          })
          with_payment,
    )
    unfolding update_payout find_by update_by
    row_completed = rw (h.runs (suc (suc (suc (suc w.calls))))) (ground arith)

    settled :
        settle_payment parse_event int31n answers has_paid row (ok payment) env with_payment
        ≡ (ok tt, (mark_payout_completed row.id payment env with_payment).1)
    unfolding settle_payment
    settled = rw row_completed refl

    inserted_and_paid :
        pay_if_eligible parse_event int31n answers has_paid payload event rule calc env
          (tick (tick w))
        ≡ (ok tt, (mark_payout_completed row.id payment env with_payment).1)
    unfolding pay_if_eligible pay_inserted
    inserted_and_paid = rw (h.eligible, row_inserted, row_paid) settled

    processed :
        process_payment_completed_event parse_event int31n answers has_paid payload env w
        ≡ (ok tt, (mark_payout_completed row.id payment env with_payment).1)
    unfolding process_payment_completed_event with_rule
    processed = rw (h.parsed, active_found, roll_found) inserted_and_paid

    -- A first event under a rule that gives a reward, with nothing that fails: the call returns, the
    -- event's account is paid the reward once, and one payout is added, completed and with this amount.
    pub process_pays :
        ((process_payment_completed_event parse_event int31n answers has_paid payload env w).0
          ≡ ok tt)
        × (p : RewardPayout) × ((process_payment_completed_event parse_event int31n answers has_paid
              payload env w).1.db
            ≡ record w.db { payouts = p ∷ w.db.payouts; payments = payment_made ∷ w.db.payments })
        × (p.status ≡ payout_completed)
        × (p.payment_transaction_id ≡ some payment)
        × (p.transaction_id ≡ event.transaction_id)
        × (p.recipient_account_id ≡ event.recipient_account_id)
        × (p.reward_amount_paise ≡ calc.reward_amount_paise)
    process_pays =
        let others =
          update_by-missing RewardPayout.id row.id
            (complete_payout payment (env.now (suc (suc (suc (suc w.calls)))))) w.db.payouts
            h.id_unused in
        (
          ap (λ x. x.0) processed,
          paid_row,
          ap (λ x. World.db x.1) processed
              ∙ ap (λ x. World.db x.1) row_completed
              ∙ ap
                  (λ rows. record w.db {
                    payouts = paid_row ∷ rows;
                    payments = payment_made ∷ w.db.payments;
                  })
                  others,
          refl,
          refl,
          refl,
          refl,
          refl,
        )
