-- ===== src/Rewards/Rules/Creating.antt =====
-- What CreateRule (reward_usecase.go) accepts.
use moneymate_backend.Shared.{◌≡◌, ap, arith, inl, inr, false, ◌∷◌, Option-cases}
use moneymate_backend.Shared.Int.{pos, ltb_ℤ, leb_ℤ}
use moneymate_backend.Shared.Text.{is_empty}
use moneymate_backend.Shared.Action.{Env, World, ok, raise_if, map_err, ◌>>◌, guard-ok}
use moneymate_backend.Errors.{DbError}
use moneymate_backend.Rewards.Domain.{
  Uuid, Time, RewardRule, RewardDb, RewardCall, bad_rule, store_failed,
}
use moneymate_backend.Rewards.Repo.{with_rules, insert_rule}
use moneymate_backend.Rewards.Calculation.{IsLegal}
use moneymate_backend.Rewards.Rules.{create_rule}
use moneymate_backend.Rewards.Rules.Evolution.{insert_rule_row-cases}

-- The tests that CreateRule makes.
accepted-IsLegal :
    (rule : RewardRule) (id : Uuid) (made changed : Time)
    → ltb_ℤ rule.min_percentage_bps (pos 0) ≡ false
    → ltb_ℤ rule.max_percentage_bps rule.min_percentage_bps ≡ false
    → ltb_ℤ (pos 10000) rule.max_percentage_bps ≡ false
    → leb_ℤ rule.max_payout_amount_paise (pos 0) ≡ false
    → IsLegal (record rule { id = id; created_at = made; updated_at = changed })
accepted-IsLegal rule id made changed p q r s = record {
  min_not_negative = ground arith;
  ordered = ground arith;
  at_most_all = ground arith;
  pays = ground arith;
}

insert_rule-ok :
    (rule r : RewardRule) (env : Env DbError) (w w' : World RewardDb)
    → map_err store_failed (insert_rule rule) env w ≡ (ok r, w')
    → (w'.db ≡ with_rules (r ∷ w.db.rules) w.db)
      × (r ≡ record rule {
        id = env.new_uuid w.calls;
        created_at = env.now w.calls;
        updated_at = env.now w.calls;
      })
unfolding insert_rule
insert_rule-ok rule r env w w' h =
    let fresh : RewardRule = record rule {
      id = env.new_uuid w.calls;
      created_at = env.now w.calls;
      updated_at = env.now w.calls;
    } in
    elim (Option-cases (env.fault w.calls)) [
      | inr (e, stops) ↦ absurd (ground arith)
      | inl runs ↦ elim (insert_rule_row-cases fresh w.db) [
        | inl (stored, checked, free, apart) ↦ (ground arith, ground arith)
        | inr (e, refused) ↦ absurd (ground arith)
      ]
    ]

-- A rule that CreateRule returns is legal, stands in the table, and has the rates, the threshold and
-- the maximum that were asked for.
pub create_rule-IsLegal :
    (rule r : RewardRule) (env : Env DbError) (w w' : World RewardDb)
    → create_rule rule env w ≡ (ok r, w')
    → IsLegal r
      × (w'.db ≡ with_rules (r ∷ w.db.rules) w.db)
      × (r.min_percentage_bps ≡ rule.min_percentage_bps)
      × (r.max_percentage_bps ≡ rule.max_percentage_bps)
      × (r.min_transaction_amount_paise ≡ rule.min_transaction_amount_paise)
      × (r.max_payout_amount_paise ≡ rule.max_payout_amount_paise)
      × (r.active ≡ rule.active)
unfolding create_rule
create_rule-IsLegal rule r env w w' h =
    let k₅ : RewardCall RewardRule = map_err store_failed (insert_rule rule) in
    let c₅ = leb_ℤ rule.max_payout_amount_paise (pos 0) in
    let e₅ = bad_rule "max_payout_amount_paise must be > 0" in
    let c₄ = ltb_ℤ (pos 10000) rule.max_percentage_bps in
    let e₄ = bad_rule "max_percentage_bps must be <= 10000" in
    let c₃ = ltb_ℤ rule.max_percentage_bps rule.min_percentage_bps in
    let e₃ = bad_rule "max_percentage_bps must be >= min_percentage_bps" in
    let c₂ = ltb_ℤ rule.min_percentage_bps (pos 0) in
    let e₂ = bad_rule "min_percentage_bps must be >= 0" in
    let k₄ : RewardCall RewardRule = raise_if c₅ e₅ >> k₅ in
    let k₃ : RewardCall RewardRule = raise_if c₄ e₄ >> k₄ in
    let k₂ : RewardCall RewardRule = raise_if c₃ e₃ >> k₃ in
    let k₁ : RewardCall RewardRule = raise_if c₂ e₂ >> k₂ in
    let (g₁, h₁) = guard-ok (is_empty rule.name) (bad_rule "name is required") k₁ env w h in
    let (g₂, h₂) = guard-ok c₂ e₂ k₂ env w h₁ in
    let (g₃, h₃) = guard-ok c₃ e₃ k₃ env w h₂ in
    let (g₄, h₄) = guard-ok c₄ e₄ k₄ env w h₃ in
    let (g₅, h₅) = guard-ok c₅ e₅ k₅ env w h₄ in
    let (stored, e) = insert_rule-ok rule r env w w' h₅ in
    (
      rw e (accepted-IsLegal rule _ _ _ g₂ g₃ g₄ g₅),
      stored,
      ap RewardRule.min_percentage_bps e,
      ap RewardRule.max_percentage_bps e,
      ap RewardRule.min_transaction_amount_paise e,
      ap RewardRule.max_payout_amount_paise e,
      ap RewardRule.active e,
    )
