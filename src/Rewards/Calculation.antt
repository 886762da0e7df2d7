-- ===== src/Rewards/Calculation.antt =====
-- CalculateReward (services/rewards/internal/usecases/rule_engine.go), and what it may give.
use native.Mathlib.Nat.{mul-zero, zero-mul, mul-le-mul, mul-le-mul_left}
use moneymate_backend.Shared.{
  ℕ, ◌*◌, ◌/◌, ◌≤◌, String, Bool, true, false, not, ◌≡◌, ◌↔◌, arith, if◌then◌else◌, leb, ap, sym,
  subst, ◌∙◌,
}
use moneymate_backend.Shared.Int.{
  ℤ, pos, pos_part, ◌*ℤ◌, ◌quot◌, ◌≤ℤ◌, ◌<ℤ◌, ltb_ℤ, leb_ℤ, to_int64, to_int64_lem,
}
use moneymate_backend.Rewards.Domain.{RewardRule}

pub record RewardCalculation : Type 0 where
  pub eligible : Bool
  pub percentage_bps : ℤ
  pub reward_amount_paise : ℤ
  pub reason : String

abbrev pub ineligible : ℤ → String → RewardCalculation
ineligible bps reason = record {
  eligible = false;
  percentage_bps = bps;
  reward_amount_paise = pos 0;
  reason = reason;
}

-- The bounds that a roll is put between, in the code's order.
abbrev pub clamp : ℤ → ℤ → ℤ → ℤ
clamp lo hi bps =
    let raised = if ltb_ℤ bps lo then lo else bps in if ltb_ℤ hi raised then hi else raised

-- `amountPaise * int64(bps) / 10000`, and not more than the rule's maximum.
abbrev pub capped_reward : ℤ → ℤ → ℤ → ℤ
capped_reward amount bps most =
    let reward = to_int64 (amount *ℤ bps) quot 10000 in if ltb_ℤ most reward then most else reward

abbrev pub if_positive : ℤ → ℤ → RewardCalculation
if_positive bps reward =
    if leb_ℤ reward (pos 0)
    then ineligible bps "zero reward"
    else record { eligible = true; percentage_bps = bps; reward_amount_paise = reward; reason = "" }

-- The tests that come before the roll.
abbrev pub rolls_for : ℤ → RewardRule → Bool
rolls_for amount rule =
    if not rule.active
    then false
    else if leb_ℤ amount (pos 0)
    then false
    else not (ltb_ℤ amount rule.min_transaction_amount_paise)

unfoldable pub calculate_reward : ℤ → RewardRule → (ℤ → ℤ → ℤ) → RewardCalculation
calculate_reward amount rule roll =
    if not rule.active
    then ineligible (pos 0) "rule inactive"
    else if leb_ℤ amount (pos 0)
    then ineligible (pos 0) "invalid amount"
    else if ltb_ℤ amount rule.min_transaction_amount_paise
    then ineligible (pos 0) "below threshold"
    else let bps =
        clamp rule.min_percentage_bps rule.max_percentage_bps
          (roll rule.min_percentage_bps rule.max_percentage_bps) in
      if_positive bps (capped_reward amount bps rule.max_payout_amount_paise)

-- What CreateRule asks of a rule, and the column's type.
pub record IsLegal (rule : RewardRule) : Type 0 where
  pub min_not_negative : pos 0 ≤ℤ rule.min_percentage_bps
  pub ordered : rule.min_percentage_bps ≤ℤ rule.max_percentage_bps
  pub at_most_all : rule.max_percentage_bps ≤ℤ pos 10000
  pub pays : pos 0 <ℤ rule.max_payout_amount_paise

-- Whatever the roll gives, a reward is given only by an active rule for an amount that reaches its
-- threshold, is positive and not above the rule's maximum, and its rate lies within the rule's.
pub calculate_reward-InRule :
    (amount : ℤ) (rule : RewardRule) (roll : ℤ → ℤ → ℤ)
    → rule.min_percentage_bps ≤ℤ rule.max_percentage_bps
    → (calculate_reward amount rule roll).eligible ≡ true
    → (rule.active ≡ true)
      × (pos 0 <ℤ amount)
      × (rule.min_transaction_amount_paise ≤ℤ amount)
      × (pos 0 <ℤ (calculate_reward amount rule roll).reward_amount_paise)
      × ((calculate_reward amount rule roll).reward_amount_paise ≤ℤ rule.max_payout_amount_paise)
      × (rule.min_percentage_bps ≤ℤ (calculate_reward amount rule roll).percentage_bps)
      × ((calculate_reward amount rule roll).percentage_bps ≤ℤ rule.max_percentage_bps)
unfolding calculate_reward
calculate_reward-InRule amount rule roll ordered h = ground arith

-- The share of an amount, rounded down, with a maximum, in numbers that have no bound.
abbrev pub fair_share : ℕ → ℕ → ℕ → ℕ
fair_share amount bps most =
    let share = amount * bps / 10000 in if leb share most then share else most

product_lem : (a b : ℕ) → a ≤ 922337203685477 → b ≤ 10000 → to_int64 (pos a *ℤ pos b) ≡ pos (a * b)
unfolding ◌*ℤ◌
product_lem a b p q =
    let bound : a * b ≤ 922337203685477 * 10000 = mul-le-mul p q in
    let e : pos a *ℤ pos b ≡ pos (a * b) = ground (arith, zero-mul b, mul-zero a) in
    ap to_int64 e ∙ to_int64_lem (pos (a * b)) (ground (arith, bound))

capped_reward_lem :
    (a b most : ℕ)
    → a ≤ 922337203685477
    → b ≤ 10000
    → (capped_reward (pos a) (pos b) (pos most) ≡ pos (fair_share a b most))
      × (fair_share a b most ≤ a)
unfolding ◌quot◌
capped_reward_lem a b most p q =
    let bound : a * b ≤ a * 10000 = mul-le-mul_left a q in
    (rw (product_lem a b p q) (ground arith), ground (arith, bound))

clamp_lem :
    (lo hi bps : ℤ)
    → pos 0 ≤ℤ lo
    → lo ≤ℤ hi
    → hi ≤ℤ pos 10000
    → (b : ℕ) × (clamp lo hi bps ≡ pos b) × (b ≤ 10000)
clamp_lem lo hi bps p q r = (pos_part (clamp lo hi bps), ground arith, ground arith)

if_positive_lem :
    (bps reward : ℤ)
    → (if_positive bps reward).eligible ≡ true
    → ((if_positive bps reward).reward_amount_paise ≡ reward)
      × ((if_positive bps reward).percentage_bps ≡ bps)
if_positive_lem bps reward h = ground arith

-- The tests, whatever the computed answer is.
guarded_lem :
    (active : Bool) (amount least : ℤ) (c : RewardCalculation)
    → (if not active
        then ineligible (pos 0) "rule inactive"
        else if leb_ℤ amount (pos 0)
        then ineligible (pos 0) "invalid amount"
        else if ltb_ℤ amount least
        then ineligible (pos 0) "below threshold"
        else c).eligible
      ≡ true
    → ((if not active
          then ineligible (pos 0) "rule inactive"
          else if leb_ℤ amount (pos 0)
          then ineligible (pos 0) "invalid amount"
          else if ltb_ℤ amount least
          then ineligible (pos 0) "below threshold"
          else c)
        ≡ c)
      × (pos 0 <ℤ amount)
guarded_lem active amount least c h = (ground arith, ground arith)

pos_lem : (x : ℤ) → pos 0 <ℤ x → x ≡ pos (pos_part x)
pos_lem x p = ground arith

pos_part_lem : (x : ℤ) (n : ℕ) → pos 0 <ℤ x → (x ≤ℤ pos n) ↔ (pos_part x ≤ n)
pos_part_lem x n p = ground arith

≤ℤ_lem : (x : ℤ) (n : ℕ) → pos 0 <ℤ x → n ≤ pos_part x → pos n ≤ℤ x
≤ℤ_lem x n p q = ground arith

-- Under a rule that CreateRule accepts, and for amounts whose product with the rate fits in int64, the
-- reward is the rate's share of the amount, rounded down, up to the rule's maximum, and not more than
-- the amount.
pub calculate_reward-IsShare :
    (amount : ℤ) (rule : RewardRule) (roll : ℤ → ℤ → ℤ)
    → IsLegal rule
    → amount ≤ℤ pos 922337203685477
    → (calculate_reward amount rule roll).eligible ≡ true
    → ((calculate_reward amount rule roll).reward_amount_paise
        ≡ pos (
            fair_share
              (pos_part amount)
              (pos_part (calculate_reward amount rule roll).percentage_bps)
              (pos_part rule.max_payout_amount_paise)))
      × ((calculate_reward amount rule roll).reward_amount_paise ≤ℤ amount)
unfolding calculate_reward
calculate_reward-IsShare amount rule roll legal small h =
    let lo = rule.min_percentage_bps in
    let hi = rule.max_percentage_bps in
    let most = rule.max_payout_amount_paise in
    let bps = clamp lo hi (roll lo hi) in
    let reward = capped_reward amount bps most in
    let (e, p) =
      guarded_lem rule.active amount rule.min_transaction_amount_paise (if_positive bps reward) h in
    let (r, q) = if_positive_lem bps reward (sym (ap RewardCalculation.eligible e) ∙ h) in
    let (b, is_b, small_b) =
      clamp_lem lo hi (roll lo hi) legal.min_not_negative legal.ordered legal.at_most_all in
    let small_a : pos_part amount ≤ 922337203685477 =
      (pos_part_lem amount 922337203685477 p).0 small in
    let (exact, bounded) = capped_reward_lem (pos_part amount) b (pos_part most) small_a small_b in
    let pct : pos_part (calculate_reward amount rule roll).percentage_bps ≡ b =
      ap (λ c. pos_part (RewardCalculation.percentage_bps c)) e ∙ ap pos_part (q ∙ is_b) in
    let value : (calculate_reward amount rule roll).reward_amount_paise
        ≡ pos (fair_share (pos_part amount) b (pos_part most)) =
      ap RewardCalculation.reward_amount_paise e
      ∙ r
      ∙ ap (λ x. capped_reward x bps most) (pos_lem amount p)
      ∙ ap (λ x. capped_reward (pos (pos_part amount)) x most) is_b
      ∙ ap (capped_reward (pos (pos_part amount)) (pos b)) (pos_lem most legal.pays)
      ∙ exact in
    (
      value ∙ ap (λ x. pos (fair_share (pos_part amount) x (pos_part most))) (sym pct),
      subst (λ x. x ≤ℤ amount) (sym value) (≤ℤ_lem amount _ p bounded),
    )
