-- ===== src/Rewards/Service.antt =====
-- The calls that services/rewards serves: internal/transport/http/routes.go and the events that it is
-- sent.
pub mod Once
pub mod Tests
use moneymate_backend.Shared.{ℕ, suc, String, Bool, Option, List, [], ◌∷◌}
use moneymate_backend.Shared.Int.{ℤ}
use moneymate_backend.Shared.Action.{Env, World, Result}
use moneymate_backend.Errors.{DbError}
use moneymate_backend.Rewards.Domain.{Uuid, RewardRule, PaymentCompletedEvent, RewardDb, RewardCall}
use moneymate_backend.Rewards.Rules.{create_rule, update_rule, deactivate_rule}
use moneymate_backend.Rewards.Payouts.{process_payment_completed_event, replay_failed}

pub data RewardRequest : Type 0 where
  payment_event : (payload : String) → RewardRequest
  post_replay : RewardRequest
  post_rule : RewardRule → RewardRequest
  put_rule : RewardRule → RewardRequest
  patch_rule : Uuid → RewardRequest

-- Of an answer nothing is kept.
abbrev pub silent : {A : Type 0} → RewardCall A → Env DbError → World RewardDb → World RewardDb
silent m env w = (m env w).1

-- How often the failed payouts are tried again.
abbrev pub count_replays : List RewardRequest → ℕ
count_replays [] = 0
count_replays (post_replay ∷ rest) = suc (count_replays rest)
count_replays (payment_event payload ∷ rest) = count_replays rest
count_replays (post_rule r ∷ rest) = count_replays rest
count_replays (put_rule r ∷ rest) = count_replays rest
count_replays (patch_rule k ∷ rest) = count_replays rest

module _ (parse_event : String → Option PaymentCompletedEvent) (int31n : ℤ → ℕ → ℤ)
    (answers : Uuid → ℤ → ℕ → Result String Uuid) (has_paid : Uuid → ℤ → ℕ → Bool) where
  unfoldable pub serve_reward : RewardRequest → Env DbError → World RewardDb → World RewardDb
  serve_reward (payment_event payload) =
      silent (process_payment_completed_event parse_event int31n answers has_paid payload)
  serve_reward post_replay = silent (replay_failed parse_event int31n answers has_paid)
  serve_reward (post_rule r) = silent (create_rule r)
  serve_reward (put_rule r) = silent (update_rule r)
  serve_reward (patch_rule k) = silent (deactivate_rule k)

  unfoldable pub serve_rewards : List RewardRequest → Env DbError → World RewardDb → World RewardDb
  serve_rewards [] env w = w
  serve_rewards (r ∷ rest) env w = serve_rewards rest env (serve_reward r env w)
