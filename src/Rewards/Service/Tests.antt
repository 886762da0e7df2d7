-- ===== src/Rewards/Service/Tests.antt =====
-- A run of requests to services/rewards, and the theorem on all runs at it.
use moneymate_backend.Shared.{
  ℕ, ◌+◌, ◌≤◌, ◌≡◌, refl, arith, String, [], ◌∷◌, List, if◌then◌else◌, ◌==◌, find_by, update_by,
}
use moneymate_backend.Shared.Int.{ℤ, ◌+ℤ◌, ◌-ℤ◌, ◌*ℤ◌, ◌quot◌, to_int32, to_int64}
use moneymate_backend.Shared.Action.{World, Result, ok, err}
use moneymate_backend.Rewards.Domain.{Uuid, recipient_user, RewardDb}
use moneymate_backend.Rewards.Calculation.{calculate_reward}
use moneymate_backend.Rewards.Repo.{
  get_active_rule, insert_payout, insert_payout_row, update_payout, list_failed_payouts,
  clear_active,
}
use moneymate_backend.Rewards.Rules.{deactivate_rule}
use moneymate_backend.Rewards.Rules.Tests.{quiet}
use moneymate_backend.Rewards.Payouts.{
  process_payment_completed_event, with_rule, roll_reward, pay_if_eligible, pay_inserted,
  settle_payment, execute_reward_payout, replay_failed, replay_all, mark_replayed,
  is_unique_violation,
}
use moneymate_backend.Rewards.Payouts.Counting.{Owes, rows_for, paid_for}
use moneymate_backend.Rewards.Payouts.Tests.{parse, draw, paid, start}
use moneymate_backend.Rewards.Service.{
  RewardRequest, payment_event, post_replay, patch_rule, count_replays, serve_reward, serve_rewards,
}
use moneymate_backend.Rewards.Service.Once.{serve_rewards-paid}

-- The first answer of the payment service is lost after it has paid.
abbrev lost_once : Uuid → ℤ → ℕ → Result String Uuid
lost_once account amount n = if n == 3 then err "deadline exceeded" else ok (500 + n)

abbrev requests : List RewardRequest
requests = payment_event "e-1" ∷ payment_event "e-1" ∷ post_replay ∷ patch_rule 1 ∷ post_replay ∷ []

abbrev served : World RewardDb
served = serve_rewards parse draw lost_once paid requests quiet start

start-Owes : Owes 0 [] start.db
start-Owes = record { single = λ tx type. omega arith; covered = λ tx type. omega arith }

serve_rewards-paid_example :
    (rows_for 7 recipient_user served.db ≤ 1)
    × (paid_for 7 recipient_user served.db ≤ 1 + count_replays requests)
serve_rewards-paid_example =
    serve_rewards-paid parse draw lost_once paid quiet requests start 7 recipient_user start-Owes

-- The reward was paid again when it was tried again, and then no more.
paid_twice : paid_for 7 recipient_user served.db ≡ 2
unfolding serve_rewards serve_reward process_payment_completed_event with_rule roll_reward
    pay_if_eligible pay_inserted settle_payment execute_reward_payout replay_failed replay_all
    mark_replayed is_unique_violation get_active_rule insert_payout insert_payout_row update_payout
    list_failed_payouts clear_active deactivate_rule calculate_reward to_int64 to_int32 ◌quot◌ ◌*ℤ◌
    ◌+ℤ◌ ◌-ℤ◌ find_by update_by
paid_twice = refl
