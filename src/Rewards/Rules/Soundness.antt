-- ===== src/Rewards/Rules/Soundness.antt =====
-- The table of rules under the operations on it (reward_usecase.go, and the constraints of
-- 000001_create_rewards_tables.up.sql).
use moneymate_backend.Shared.{
  ◌≤◌, ◌≡◌, refl, sym, ap, subst, ◌∙◌, arith, inl, inr, false, none, List, [], ◌∷◌, Bool-cases,
  find_by, update_by, any, All, count_if, IsKeyed, update_by-IsKeyed, update_by-missing, ◌&&◌, ◌==◌,
  ==_iff,
}
use moneymate_backend.Shared.Action.{Env, World}
use moneymate_backend.Errors.{DbError}
use moneymate_backend.Rewards.Domain.{Uuid, Time, RewardRule, RewardDb}
use moneymate_backend.Rewards.Repo.{is_other_active, deactivated}
use moneymate_backend.Rewards.Rules.{create_rule, update_rule, deactivate_rule}
use moneymate_backend.Rewards.Rules.Evolution.{
  IsChecked, FollowsRules, create_rule-Evolves, update_rule-Evolves, deactivate_rule-Evolves,
}

-- Identifiers are unique, the rows pass their checks, and at most one is active.
pub record RulesAreSound (d : RewardDb) : Type 0 where
  pub keyed : IsKeyed RewardRule.id d.rules
  pub checked : All IsChecked d.rules
  pub one_active : count_if RewardRule.active d.rules ≤ 1

none_active :
    (k : Uuid) (rows : List RewardRule)
    → find_by RewardRule.id k rows ≡ none
    → any (is_other_active k) rows ≡ false
    → count_if RewardRule.active rows ≡ 0
unfolding find_by
none_active k [] m h = refl
none_active k (r ∷ rows) m h = ground (arith, none_active k rows)

replaced-IsChecked :
    (k : Uuid) (r : RewardRule) (rows : List RewardRule)
    → IsChecked r
    → All IsChecked rows
    → All IsChecked (update_by RewardRule.id k (λ _. r) rows)
unfolding update_by
replaced-IsChecked k r [] c h = tt
replaced-IsChecked k r (x ∷ rows) c h = elim (Bool-cases (x.id == k)) [
  | inl y ↦ rw y (c, replaced-IsChecked k r rows c h.1)
  | inr n ↦ rw n (h.0, replaced-IsChecked k r rows c h.1)
]

module _ (r : RewardRule) where
  inactive-count :
      (rows : List RewardRule)
      → r.active ≡ false
      → count_if RewardRule.active (update_by RewardRule.id r.id (λ _. r) rows)
        ≤ count_if RewardRule.active rows
  unfolding update_by
  inactive-count [] h = ground arith
  inactive-count (x ∷ rows) h = ground (arith, inactive-count rows)

  active-count :
      (rows : List RewardRule)
      → IsKeyed RewardRule.id rows
      → any (is_other_active r.id) rows ≡ false
      → count_if RewardRule.active (update_by RewardRule.id r.id (λ _. r) rows) ≤ 1
  unfolding update_by
  active-count [] keyed h = ground arith
  active-count (x ∷ rows) keyed h = elim (Bool-cases (x.id == r.id)) [
    | inl y ↦
        let missing : find_by RewardRule.id r.id rows ≡ none =
          ap (λ j. find_by RewardRule.id j rows) (sym ((==_iff x.id r.id).0 y)) ∙ keyed.0 in
        ground (
          arith,
          missing,
          none_active r.id rows,
          update_by-missing RewardRule.id r.id (λ _. r) rows,
        )
    | inr n ↦ ground (arith, active-count rows)
  ]

  replaced-count :
      (rows : List RewardRule)
      → IsKeyed RewardRule.id rows
      → (r.active && any (is_other_active r.id) rows) ≡ false
      → count_if RewardRule.active rows ≤ 1
      → count_if RewardRule.active (update_by RewardRule.id r.id (λ _. r) rows) ≤ 1
  replaced-count rows keyed apart one = elim (Bool-cases r.active) [
    | inl y ↦ active-count rows keyed (ground arith)
    | inr n ↦ omega (arith, inactive-count rows n)
  ]

  replaced-missing :
      (j : Uuid) (rows : List RewardRule)
      → find_by RewardRule.id j rows ≡ none
      → find_by RewardRule.id j (update_by RewardRule.id r.id (λ _. r) rows) ≡ none
  unfolding find_by update_by
  replaced-missing j [] h = refl
  replaced-missing j (x ∷ rows) h = ground (arith, replaced-missing j rows)

  replaced-IsKeyed :
      (rows : List RewardRule)
      → IsKeyed RewardRule.id rows
      → IsKeyed RewardRule.id (update_by RewardRule.id r.id (λ _. r) rows)
  unfolding update_by
  replaced-IsKeyed [] h = h
  replaced-IsKeyed (x ∷ rows) h = elim (Bool-cases (x.id == r.id)) [
    | inl y ↦ rw y (
      subst (λ j. find_by RewardRule.id j (update_by RewardRule.id r.id (λ _. r) rows) ≡ none)
          ((==_iff x.id r.id).0 y) (replaced-missing x.id rows h.0),
      replaced-IsKeyed rows h.1,
    )
    | inr n ↦ rw n (replaced-missing x.id rows h.0, replaced-IsKeyed rows h.1)
  ]

deactivated-count :
    (k : Uuid) (now : Time) (rows : List RewardRule)
    → count_if RewardRule.active (update_by RewardRule.id k (deactivated now) rows)
      ≤ count_if RewardRule.active rows
unfolding update_by
deactivated-count k now [] = ground arith
deactivated-count k now (x ∷ rows) = ground (arith, deactivated-count k now rows)

deactivated-IsChecked :
    (k : Uuid) (now : Time) (rows : List RewardRule)
    → All IsChecked rows
    → All IsChecked (update_by RewardRule.id k (deactivated now) rows)
unfolding update_by
deactivated-IsChecked k now [] h = tt
deactivated-IsChecked k now (x ∷ rows) h = elim (Bool-cases (x.id == k)) [
  | inl y ↦
      let c = h.0 in
      rw y (
        record {
          min_not_negative = c.min_not_negative;
          ordered = c.ordered;
          least_not_negative = c.least_not_negative;
          pays = c.pays;
        },
        deactivated-IsChecked k now rows h.1,
      )
  | inr n ↦ rw n (h.0, deactivated-IsChecked k now rows h.1)
]

inserted-count :
    (r : RewardRule) (rows : List RewardRule)
    → find_by RewardRule.id r.id rows ≡ none
    → (r.active && any (is_other_active r.id) rows) ≡ false
    → count_if RewardRule.active rows ≤ 1
    → count_if RewardRule.active (r ∷ rows) ≤ 1
inserted-count r rows free apart one = ground (arith, none_active r.id rows free)

RulesAreSound-FollowsRules : FollowsRules (λ d d'. RulesAreSound d → RulesAreSound d')
RulesAreSound-FollowsRules = record {
  chains = record { stays = λ d h. h; chained = λ d d' d'' f g h. g (f h) };
  inserted = λ r d c free apart h. record {
    keyed = (free, h.keyed);
    checked = (c, h.checked);
    one_active = inserted-count r d.rules free apart h.one_active;
  };
  replaced = λ r d c apart h. record {
    keyed = replaced-IsKeyed r d.rules h.keyed;
    checked = replaced-IsChecked r.id r d.rules c h.checked;
    one_active = replaced-count r d.rules h.keyed apart h.one_active;
  };
  cleared = λ k now d h. record {
    keyed = update_by-IsKeyed RewardRule.id (deactivated now) (λ _. refl) k d.rules h.keyed;
    checked = deactivated-IsChecked k now d.rules h.checked;
    one_active = omega (arith, deactivated-count k now d.rules, h.one_active);
  };
}

-- Creating, updating and deactivating a rule, whatever the arguments and whichever statement fails,
-- keep the table of rules sound: identifiers are unique, at most one rule is active, and every rule has
-- a rate between 0 and its maximum, a threshold that is not negative and a positive maximal payout.
pub rule_operations-RulesAreSound :
    (rule : RewardRule) (k : Uuid) (env : Env DbError) (w : World RewardDb)
    → RulesAreSound w.db
    → RulesAreSound (create_rule rule env w).1.db
      × RulesAreSound (update_rule rule env w).1.db
      × RulesAreSound (deactivate_rule k env w).1.db
rule_operations-RulesAreSound rule k env w h = (
  (create_rule-Evolves RulesAreSound-FollowsRules rule).evolves env w h,
  (update_rule-Evolves RulesAreSound-FollowsRules rule).evolves env w h,
  (deactivate_rule-Evolves RulesAreSound-FollowsRules k).evolves env w h,
)
