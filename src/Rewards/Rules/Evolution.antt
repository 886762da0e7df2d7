-- ===== src/Rewards/Rules/Evolution.antt =====
-- What the operations on rules (reward_usecase.go, reward_repo.go) make of the store.
use moneymate_backend.Shared.{
  ◌≡◌, ◌⊎◌, subst, arith, inl, inr, false, none, some, ◌∷◌, Option-cases, find_by, update_by, any,
  ◌&&◌,
}
use moneymate_backend.Shared.Int.{pos, ◌≤ℤ◌, ◌<ℤ◌, ltb_ℤ, leb_ℤ}
use moneymate_backend.Shared.Text.{is_empty}
use moneymate_backend.Shared.Action.{ok, err}
use moneymate_backend.Shared.Evolving.{
  Chains, Evolves, guard-Evolves, map_err-Evolves, statement-Evolves,
}
use moneymate_backend.Errors.{DbError}
use moneymate_backend.Rewards.Domain.{Uuid, Time, RewardRule, RewardDb, bad_rule, store_failed}
use moneymate_backend.Rewards.Repo.{
  with_rules, is_other_active, insert_rule_row, insert_rule, replace_rule, edited, set_rule,
  deactivated, answer_row, clear_active,
}
use moneymate_backend.Rewards.Rules.{create_rule, update_rule, deactivate_rule}

-- The check constraints of a row.
pub record IsChecked (r : RewardRule) : Type 0 where
  pub min_not_negative : pos 0 ≤ℤ r.min_percentage_bps
  pub ordered : r.min_percentage_bps ≤ℤ r.max_percentage_bps
  pub least_not_negative : pos 0 ≤ℤ r.min_transaction_amount_paise
  pub pays : pos 0 <ℤ r.max_payout_amount_paise

-- A relation that holds of every change that the tables let an operation make.
pub record FollowsRules (R : RewardDb → RewardDb → Type 0) : Type 0 where
  pub chains : Chains R
  pub inserted :
      (r : RewardRule) (d : RewardDb)
      → IsChecked r
      → find_by RewardRule.id r.id d.rules ≡ none
      → (r.active && any (is_other_active r.id) d.rules) ≡ false
      → R d (with_rules (r ∷ d.rules) d)
  pub replaced :
      (r : RewardRule) (d : RewardDb)
      → IsChecked r
      → (r.active && any (is_other_active r.id) d.rules) ≡ false
      → R d (with_rules (update_by RewardRule.id r.id (λ _. r) d.rules) d)
  pub cleared :
      (k : Uuid) (now : Time) (d : RewardDb)
      → R d (with_rules (update_by RewardRule.id k (deactivated now) d.rules) d)

pub insert_rule_row-cases :
    (r : RewardRule) (d : RewardDb)
    → ((insert_rule_row r d ≡ ok (r, with_rules (r ∷ d.rules) d))
        × IsChecked r
        × (find_by RewardRule.id r.id d.rules ≡ none)
        × ((r.active && any (is_other_active r.id) d.rules) ≡ false))
      ⊎ ((e : DbError) × (insert_rule_row r d ≡ err e))
unfolding insert_rule_row
insert_rule_row-cases r d = ground arith

replace_rule-cases :
    (r old : RewardRule) (d : RewardDb)
    → ((replace_rule r (some old) d
          ≡ ok (r, with_rules (update_by RewardRule.id r.id (λ _. r) d.rules) d))
        × IsChecked r
        × ((r.active && any (is_other_active r.id) d.rules) ≡ false))
      ⊎ ((e : DbError) × (replace_rule r (some old) d ≡ err e))
replace_rule-cases r old d = ground arith

module _ {R : RewardDb → RewardDb → Type 0} (f : FollowsRules R) where
  pub create_rule-Evolves : (rule : RewardRule) → Evolves R (create_rule rule)
  unfolding create_rule insert_rule
  create_rule-Evolves rule =
      let fresh_rule : Time → Uuid → RewardRule =
        λ now fresh. record rule { id = fresh; created_at = now; updated_at = now } in
      guard-Evolves f.chains (is_empty rule.name) (bad_rule "name is required") (
        guard-Evolves f.chains (ltb_ℤ rule.min_percentage_bps (pos 0))
          (bad_rule "min_percentage_bps must be >= 0")
          (guard-Evolves f.chains (ltb_ℤ rule.max_percentage_bps rule.min_percentage_bps)
            (bad_rule "max_percentage_bps must be >= min_percentage_bps")
            (guard-Evolves f.chains (ltb_ℤ (pos 10000) rule.max_percentage_bps)
              (bad_rule "max_percentage_bps must be <= 10000")
              (guard-Evolves f.chains (leb_ℤ rule.max_payout_amount_paise (pos 0))
                (bad_rule "max_payout_amount_paise must be > 0")
                (map_err-Evolves f.chains store_failed (
                  statement-Evolves f.chains
                    (λ now fresh d. insert_rule_row (fresh_rule now fresh) d)
                    λ now fresh d d' r h. elim (insert_rule_row-cases (fresh_rule now fresh) d) [
                      | inl (e, checked, free, apart) ↦
                          subst (R d) (ground arith)
                            (f.inserted (fresh_rule now fresh) d checked free apart)
                      | inr (x, refused) ↦ absurd (ground arith)
                    ]))))))

  pub update_rule-Evolves : (rule : RewardRule) → Evolves R (update_rule rule)
  unfolding update_rule set_rule
  update_rule-Evolves rule = map_err-Evolves f.chains store_failed (
      statement-Evolves f.chains
        (λ now _ d.
          let old = find_by RewardRule.id rule.id (RewardDb.rules d) in
          replace_rule (edited rule now old) old d)
        λ now fresh d d' r h. elim (Option-cases (find_by RewardRule.id rule.id d.rules)) [
          | inl m ↦ absurd (ground arith)
          | inr (old, found) ↦ elim (replace_rule-cases (edited rule now (some old)) old d) [
            | inl (e, checked, apart) ↦ subst (R d) (ground arith) (f.replaced _ d checked apart)
            | inr (x, refused) ↦ absurd (ground arith)
          ]
        ])

  pub deactivate_rule-Evolves : (k : Uuid) → Evolves R (deactivate_rule k)
  unfolding deactivate_rule clear_active
  deactivate_rule-Evolves k = map_err-Evolves f.chains store_failed (
      statement-Evolves f.chains
        (λ now _ d.
          answer_row (find_by RewardRule.id k (RewardDb.rules d)) (deactivated now)
            (with_rules (update_by RewardRule.id k (deactivated now) d.rules) d))
        λ now fresh d d' r h. elim (Option-cases (find_by RewardRule.id k d.rules)) [
          | inl m ↦ absurd (ground arith)
          | inr (old, found) ↦
              let e : with_rules (update_by RewardRule.id k (deactivated now) d.rules) d ≡ d' =
                ground arith in
              subst (R d) e (f.cleared k now d)
        ])
