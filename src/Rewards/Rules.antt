-- ===== src/Rewards/Rules.antt =====
-- The rules of rewards: the operations of reward_usecase.go (services/rewards/internal/usecases) on
-- them.
pub mod Evolution
pub mod Soundness
pub mod Creating
pub mod Tests
use moneymate_backend.Shared.{String, List, if◌then◌else◌}
use moneymate_backend.Shared.Int.{ℤ, pos, ltb_ℤ, leb_ℤ}
use moneymate_backend.Shared.Text.{is_empty}
use moneymate_backend.Shared.Action.{◌>>=◌, ◌>>◌, raise_if, map_err}
use moneymate_backend.Rewards.Domain.{
  Uuid, RewardRule, RewardCall, RewardError, bad_rule, store_failed,
}
use moneymate_backend.Rewards.Repo.{insert_rule, select_rules, select_rule, set_rule, clear_active}

-- `CreateRule`
unfoldable pub create_rule : RewardRule → RewardCall RewardRule
create_rule rule = do
  raise_if (is_empty rule.name) (bad_rule "name is required")
  raise_if (ltb_ℤ rule.min_percentage_bps (pos 0)) (bad_rule "min_percentage_bps must be >= 0")
  raise_if (ltb_ℤ rule.max_percentage_bps rule.min_percentage_bps)
      (bad_rule "max_percentage_bps must be >= min_percentage_bps")
  raise_if (ltb_ℤ (pos 10000) rule.max_percentage_bps)
      (bad_rule "max_percentage_bps must be <= 10000")
  raise_if (leb_ℤ rule.max_payout_amount_paise (pos 0))
      (bad_rule "max_payout_amount_paise must be > 0")
  map_err store_failed (insert_rule rule)

-- `if limit <= 0 { limit = 50 }`
abbrev pub or_fifty : ℤ → ℤ
or_fifty limit = if leb_ℤ limit (pos 0) then pos 50 else limit

-- `ListRules`
unfoldable pub list_rules : ℤ → ℤ → RewardCall (List RewardRule)
list_rules limit offset = map_err store_failed (select_rules (or_fifty limit) offset)

-- `GetRule`
unfoldable pub get_rule : Uuid → RewardCall RewardRule
get_rule k = map_err store_failed (select_rule k)

-- `UpdateRule`
unfoldable pub update_rule : RewardRule → RewardCall RewardRule
update_rule rule = map_err store_failed (set_rule rule)

-- `DeactivateRule`
unfoldable pub deactivate_rule : Uuid → RewardCall RewardRule
deactivate_rule k = map_err store_failed (clear_active k)
