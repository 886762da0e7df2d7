-- ===== src/Rewards/Rules/Tests.antt =====
-- A rule of rewards, and the theorems on rules and their rewards at it (rule_engine.go,
-- reward_usecase.go).
use moneymate_backend.Shared.{◌≡◌, ◌+◌, refl, arith, true, none, [], ◌∷◌, find_by}
use moneymate_backend.Shared.Int.{ℤ, pos, pos_part, ◌≤ℤ◌, ◌*ℤ◌, ◌quot◌, to_int64}
use moneymate_backend.Shared.Action.{Env, World, ok}
use moneymate_backend.Errors.{DbError}
use moneymate_backend.Rewards.Domain.{RewardRule, RewardDb}
use moneymate_backend.Rewards.Calculation.{
  calculate_reward, fair_share, IsLegal, calculate_reward-IsShare,
}
use moneymate_backend.Rewards.Repo.{with_rules, insert_rule, insert_rule_row}
use moneymate_backend.Rewards.Rules.{create_rule, update_rule, deactivate_rule}
use moneymate_backend.Rewards.Rules.Soundness.{RulesAreSound, rule_operations-RulesAreSound}
use moneymate_backend.Rewards.Rules.Creating.{create_rule-IsLegal}

-- From one to five percent, for one rupee and more, and up to fifty.
abbrev pub cashback : RewardRule
cashback = record {
  id = 1;
  name = "cashback";
  min_percentage_bps = pos 100;
  max_percentage_bps = pos 500;
  min_transaction_amount_paise = pos 100;
  max_payout_amount_paise = pos 5000;
  active = true;
  created_by = none;
  created_at = 0;
  updated_at = 0;
}

cashback-IsLegal : IsLegal cashback
cashback-IsLegal = record {
  min_not_negative = omega arith;
  ordered = omega arith;
  at_most_all = omega arith;
  pays = omega arith;
}

abbrev always : ℤ → ℤ → ℤ → ℤ
always n lo hi = n

-- Three percent of 333 paise, and a roll that is out of range.
rewarded : (calculate_reward (pos 333) cashback (always (pos 300))).reward_amount_paise ≡ pos 9
unfolding calculate_reward to_int64 ◌quot◌ ◌*ℤ◌
rewarded = refl

clamped :
    (calculate_reward (pos 1000000) cashback (always (pos 9999))).reward_amount_paise ≡ pos 5000
unfolding calculate_reward to_int64 ◌quot◌ ◌*ℤ◌
clamped = refl

is_eligible : (calculate_reward (pos 333) cashback (always (pos 300))).eligible ≡ true
unfolding calculate_reward to_int64 ◌quot◌ ◌*ℤ◌
is_eligible = refl

calculate_reward-IsShare_example :
    ((calculate_reward (pos 333) cashback (always (pos 300))).reward_amount_paise
      ≡ pos (
          fair_share 333
            (pos_part (calculate_reward (pos 333) cashback (always (pos 300))).percentage_bps)
            5000))
    × ((calculate_reward (pos 333) cashback (always (pos 300))).reward_amount_paise ≤ℤ pos 333)
calculate_reward-IsShare_example =
    calculate_reward-IsShare (pos 333) cashback (always (pos 300)) cashback-IsLegal (omega arith)
      is_eligible

abbrev pub quiet : Env DbError
quiet = record { fault = λ n. none; now = λ n. n; new_uuid = λ n. 100 + n }

abbrev empty : World RewardDb
empty = record { db = record { rules = []; payouts = []; payments = [] }; calls = 0 }

abbrev pub stored_rule : RewardRule
stored_rule = record cashback { id = 100 }

creates : create_rule cashback quiet empty ≡ (ok stored_rule, (create_rule cashback quiet empty).1)
unfolding create_rule insert_rule insert_rule_row find_by
creates = refl

create_rule-IsLegal_example :
    IsLegal stored_rule
    × ((create_rule cashback quiet empty).1.db ≡ with_rules (stored_rule ∷ []) empty.db)
    × (stored_rule.min_percentage_bps ≡ cashback.min_percentage_bps)
    × (stored_rule.max_percentage_bps ≡ cashback.max_percentage_bps)
    × (stored_rule.min_transaction_amount_paise ≡ cashback.min_transaction_amount_paise)
    × (stored_rule.max_payout_amount_paise ≡ cashback.max_payout_amount_paise)
    × (stored_rule.active ≡ cashback.active)
create_rule-IsLegal_example =
    create_rule-IsLegal cashback stored_rule quiet empty (create_rule cashback quiet empty).1
      creates

abbrev one_rule : World RewardDb
one_rule = record { db = record { rules = cashback ∷ []; payouts = []; payments = [] }; calls = 0 }

one_rule-RulesAreSound : RulesAreSound one_rule.db
unfolding find_by
one_rule-RulesAreSound = record {
  keyed = (refl, tt);
  checked = (
    record {
      min_not_negative = omega arith;
      ordered = omega arith;
      least_not_negative = omega arith;
      pays = omega arith;
    },
    tt,
  );
  one_active = omega arith;
}

rule_operations-RulesAreSound_example :
    RulesAreSound (create_rule cashback quiet one_rule).1.db
    × RulesAreSound (update_rule cashback quiet one_rule).1.db
    × RulesAreSound (deactivate_rule 1 quiet one_rule).1.db
rule_operations-RulesAreSound_example =
    rule_operations-RulesAreSound cashback 1 quiet one_rule one_rule-RulesAreSound
