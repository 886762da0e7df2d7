-- ===== src/Rewards/Service/Once.antt =====
-- A reward is paid once, and once more at most for each time that the failed ones are tried again
-- (reward_usecase.go).
use moneymate_backend.Shared.{
  ℕ, suc, ◌+◌, ◌≤◌, String, refl, sym, subst, arith, inl, inr, Bool, Option, List, [], ◌∷◌,
  Bool-cases, Option-cases, count_if, keep_if, take, count_if-take, count_if-keep_if, not, ◌&&◌,
}
use moneymate_backend.Shared.Int.{ℤ, pos, ◌+ℤ◌, leb_ℤ, to_int32}
use moneymate_backend.Shared.Action.{
  Env, World, Result, ok, err, Result-cases, handle, external, tick, Reads, query-Reads, pure-Reads,
  raise-Reads, raise_if-Reads, or_raise-Reads, bind-Reads,
}
use moneymate_backend.Shared.Evolving.{
  Chains, Evolves, Reads-Evolves, bind-Evolves, handle-Evolves, if-Evolves, map_err-Evolves,
}
use moneymate_backend.Errors.{DbError}
use moneymate_backend.Rewards.Domain.{
  Uuid, RecipientType, is_failed, RewardRule, RewardPayout, PaymentCompletedEvent, RewardDb,
  bad_event, store_failed, payment_failed, roll_panics,
}
use moneymate_backend.Rewards.Calculation.{RewardCalculation, calculate_reward, rolls_for}
use moneymate_backend.Rewards.Repo.{
  is_payout_for, insert_payout, complete_payout, fail_payout, list_failed_payouts, get_active_rule,
}
use moneymate_backend.Rewards.Rules.Evolution.{
  FollowsRules, create_rule-Evolves, update_rule-Evolves, deactivate_rule-Evolves,
}
use moneymate_backend.Rewards.Payouts.{
  execute_reward_payout, settle_payment, pay_inserted, pay_if_eligible, roll_reward, roll_bound,
  with_rule, process_payment_completed_event, mark_replayed, replay_all, replay_failed,
  is_unique_violation, new_payout,
}
use moneymate_backend.Rewards.Payouts.Counting.{
  Owes, rows_for, paid_for, KeepsOwing, KeepsOwing-Chains, insert_payout-Owes, kept-Owes,
  no_more-Owes, again-Owes, marked-Evolves, paid-Owes,
}
use moneymate_backend.Rewards.Service.{
  RewardRequest, payment_event, post_replay, post_rule, put_rule, patch_rule, count_replays,
  serve_reward, serve_rewards,
}

module _ (parse_event : String → Option PaymentCompletedEvent) (int31n : ℤ → ℕ → ℤ)
    (answers : Uuid → ℤ → ℕ → Result String Uuid) (has_paid : Uuid → ℤ → ℕ → Bool) where
  module _ (extra : ℕ) where
    abbrev c : (due : List RewardPayout) → Chains (KeepsOwing extra due)
    c = KeepsOwing-Chains extra

    settle_payment-Evolves :
        (p : RewardPayout) (r : Result String Uuid)
        → Evolves (KeepsOwing extra []) (settle_payment parse_event int31n answers has_paid p r)
    unfolding settle_payment
    settle_payment-Evolves p (err reason) =
        handle-Evolves (c [])
          (marked-Evolves extra [] p.id (fail_payout reason) λ now tx type q. refl)
          λ r. Reads-Evolves (c []) (raise-Reads (payment_failed reason))
    settle_payment-Evolves p (ok payment) =
        bind-Evolves (c [])
          (map_err-Evolves (c []) store_failed
            (marked-Evolves extra [] p.id (complete_payout payment) λ now tx type q. refl))
          λ q. Reads-Evolves (c []) (pure-Reads tt)

    -- What is inserted is paid once.
    pay_inserted-Owes :
        (event : PaymentCompletedEvent) (calc : RewardCalculation) (p : RewardPayout)
        (env : Env DbError) (w : World RewardDb)
        → Owes extra [] w.db
        → Owes extra []
            (handle
              (insert_payout p)
              (pay_inserted parse_event int31n answers has_paid event calc)
              env
              w).1.db
    unfolding pay_inserted
    pay_inserted-Owes event calc p env w h = elim (insert_payout-Owes extra p env w h) [
      | inr (e, refused, same) ↦ elim (Bool-cases (is_unique_violation e)) [
        | inl y ↦ rw (refused, y) (subst (Owes extra []) (sym same) h)
        | inr n ↦ rw (refused, n) (subst (Owes extra []) (sym same) h)
      ]
      | inl (q, stored, due) ↦ rw stored (
          (settle_payment-Evolves q _).evolves env _ (
            paid-Owes extra [] parse_event int31n answers has_paid q event.recipient_account_id
              calc.reward_amount_paise env (insert_payout p env w).1 due))
    ]

    pay_if_eligible-Evolves :
        (payload : String) (event : PaymentCompletedEvent) (rule : RewardRule)
        (calc : RewardCalculation)
        → Evolves
            (KeepsOwing extra [])
            (pay_if_eligible parse_event int31n answers has_paid payload event rule calc)
    unfolding pay_if_eligible
    pay_if_eligible-Evolves payload event rule calc =
        if-Evolves (c []) (not calc.eligible) (Reads-Evolves (c []) (pure-Reads tt))
          (record { evolves = pay_inserted-Owes event calc (new_payout payload event rule calc) })

    roll_reward-Reads :
        (amount : ℤ) (rule : RewardRule)
        → Reads (roll_reward parse_event int31n answers has_paid amount rule)
    unfolding roll_reward
    roll_reward-Reads amount rule =
        bind-Reads
          {f = λ u. external λ n.
            ok (calculate_reward amount rule λ lo hi. to_int32 (lo +ℤ int31n (roll_bound lo hi) n))}
          (raise_if-Reads
            (rolls_for amount rule
              && leb_ℤ (roll_bound rule.min_percentage_bps rule.max_percentage_bps) (pos 0))
            roll_panics)
          λ u. record { keeps = λ env w. refl }

    with_rule-Evolves :
        (payload : String) (event : PaymentCompletedEvent) (r : Result DbError RewardRule)
        → Evolves
            (KeepsOwing extra [])
            (with_rule parse_event int31n answers has_paid payload event r)
    unfolding with_rule
    with_rule-Evolves payload event (err e) = Reads-Evolves (c []) (pure-Reads tt)
    with_rule-Evolves payload event (ok rule) =
        bind-Evolves (c []) (Reads-Evolves (c []) (roll_reward-Reads event.amount_paise rule))
          λ calc. pay_if_eligible-Evolves payload event rule calc

    process-Evolves :
        (payload : String)
        → Evolves
            (KeepsOwing extra [])
            (process_payment_completed_event parse_event int31n answers has_paid payload)
    unfolding process_payment_completed_event get_active_rule
    process-Evolves payload =
        bind-Evolves (c []) (Reads-Evolves (c []) (or_raise-Reads (parse_event payload) bad_event))
          λ event.
            handle-Evolves (c []) (Reads-Evolves (c []) (query-Reads _))
              (with_rule-Evolves payload event)

    mark_replayed-Evolves :
        (due : List RewardPayout) (p : RewardPayout) (r : Result String Uuid)
        → Evolves (KeepsOwing extra due) (mark_replayed parse_event int31n answers has_paid p r)
    unfolding mark_replayed
    mark_replayed-Evolves due p (err reason) = Reads-Evolves (c due) (pure-Reads tt)
    mark_replayed-Evolves due p (ok payment) =
        handle-Evolves (c due)
          (marked-Evolves extra due p.id (complete_payout payment) λ now tx type q. refl)
          λ r. Reads-Evolves (c due) (pure-Reads tt)

    replay_all-Owes :
        (due : List RewardPayout) (env : Env DbError) (w : World RewardDb)
        → Owes extra due w.db
        → Owes extra [] (replay_all parse_event int31n answers has_paid due env w).1.db
    unfolding replay_all
    replay_all-Owes [] env w h = h
    replay_all-Owes (p ∷ due) env w h =
        let step =
          handle
            (execute_reward_payout parse_event int31n answers has_paid p p.recipient_account_id
              p.reward_amount_paise)
            (mark_replayed parse_event int31n answers has_paid p) in
        let paid =
          paid-Owes extra due parse_event int31n answers has_paid p p.recipient_account_id
            p.reward_amount_paise env w h in
        let stepped : Owes extra due (step env w).1.db =
          (mark_replayed-Evolves due p _).evolves env _ paid in
        elim (Result-cases (step env w).0) [
          | inl (u, e) ↦ rw e (replay_all-Owes due env (step env w).1 stepped)
          | inr (x, e) ↦ rw e (no_more-Owes extra due _ stepped)
        ]

  replay_failed-Owes :
      (extra : ℕ) (env : Env DbError) (w : World RewardDb)
      → Owes extra [] w.db
      → Owes (suc extra) [] (replay_failed parse_event int31n answers has_paid env w).1.db
  unfolding replay_failed list_failed_payouts
  replay_failed-Owes extra env w h =
      let failed = take 10 (keep_if (λ p. is_failed (RewardPayout.status p)) w.db.payouts) in
      let few : (tx : Uuid) (type : RecipientType)
          → count_if (is_payout_for tx type) failed ≤ rows_for tx type w.db =
        λ tx type. omega (
          arith,
          count_if-take (is_payout_for tx type) 10
              (keep_if (λ p. is_failed (RewardPayout.status p)) w.db.payouts),
          count_if-keep_if (is_payout_for tx type) (λ p. is_failed (RewardPayout.status p))
              w.db.payouts,
        ) in
      elim (Option-cases (env.fault w.calls)) [
        | inl runs ↦
            rw runs
              (replay_all-Owes (suc extra) failed env (tick w) (again-Owes extra failed w.db few h))
        | inr (e, stops) ↦ rw stops (again-Owes extra [] w.db (λ tx type. ground arith) h)
      ]

  -- Changes of the rules are no concern of the payouts.
  KeepsOwing-FollowsRules : (extra : ℕ) → FollowsRules (KeepsOwing extra [])
  KeepsOwing-FollowsRules extra = record {
    chains = KeepsOwing-Chains extra [];
    inserted = λ r d c free apart. kept-Owes extra [] d _ refl λ tx type. refl;
    replaced = λ r d c apart. kept-Owes extra [] d _ refl λ tx type. refl;
    cleared = λ k now d. kept-Owes extra [] d _ refl λ tx type. refl;
  }

  module _ (env : Env DbError) where
    serve_rewards-Owes :
        (requests : List RewardRequest) (extra : ℕ) (w : World RewardDb)
        → Owes extra [] w.db
        → Owes
            (count_replays requests + extra)
            []
            (serve_rewards parse_event int31n answers has_paid requests env w).db
    unfolding serve_rewards serve_reward
    serve_rewards-Owes [] extra w h = subst (λ n. Owes n [] w.db) (omega arith) h
    serve_rewards-Owes (payment_event payload ∷ rest) extra w h =
        serve_rewards-Owes rest extra _ ((process-Evolves extra payload).evolves env w h)
    serve_rewards-Owes (post_replay ∷ rest) extra w h =
        let served = serve_rewards-Owes rest (suc extra) _ (replay_failed-Owes extra env w h) in
        subst
          (λ n.
            Owes n []
              (serve_rewards parse_event int31n answers has_paid (post_replay ∷ rest) env w).db)
          (omega arith) served
    serve_rewards-Owes (post_rule r ∷ rest) extra w h =
        serve_rewards-Owes rest extra _
          ((create_rule-Evolves (KeepsOwing-FollowsRules extra) r).evolves env w h)
    serve_rewards-Owes (put_rule r ∷ rest) extra w h =
        serve_rewards-Owes rest extra _
          ((update_rule-Evolves (KeepsOwing-FollowsRules extra) r).evolves env w h)
    serve_rewards-Owes (patch_rule k ∷ rest) extra w h =
        serve_rewards-Owes rest extra _
          ((deactivate_rule-Evolves (KeepsOwing-FollowsRules extra) k).evolves env w h)

-- Whatever requests the service gets, and whichever statements or payments fail: for one transaction
-- and type of recipient there is at most one payout, and the payment service has paid at most once for
-- it, and once more at most for each time that the failed payouts were tried again, if before them no
-- key had two payouts, or more payments than payouts.
pub serve_rewards-paid :
    (parse_event : String → Option PaymentCompletedEvent) (int31n : ℤ → ℕ → ℤ)
    (answers : Uuid → ℤ → ℕ → Result String Uuid) (has_paid : Uuid → ℤ → ℕ → Bool)
    (env : Env DbError) (requests : List RewardRequest) (w : World RewardDb) (tx : Uuid)
    (type : RecipientType)
    → Owes 0 [] w.db
    → (rows_for tx type (serve_rewards parse_event int31n answers has_paid requests env w).db ≤ 1)
      × (paid_for tx type (serve_rewards parse_event int31n answers has_paid requests env w).db
          ≤ 1 + count_replays requests)
serve_rewards-paid parse_event int31n answers has_paid env requests w tx type h =
    let after = serve_rewards-Owes parse_event int31n answers has_paid env requests 0 w h in
    (after.single tx type, omega (arith, after.single tx type, after.covered tx type))
