-- ===== src/Rewards/Repo.antt =====
-- The repository of services/rewards (internal/adapter/postgres/repo/reward_repo.go) on the tables of
-- its migration. A table has its newest row first, which is `ORDER BY created_at DESC`.
use moneymate_backend.Shared.{
  ℕ, String, Bool, true, false, not, ◌&&◌, Option, none, some, List, ◌∷◌, is_some, any, find_by,
  find?, update_by, keep_if, take, drop, ◌==◌, if◌then◌else◌,
}
use moneymate_backend.Shared.Int.{ℤ, pos, pos_part, ltb_ℤ, leb_ℤ}
use moneymate_backend.Shared.Action.{Result, ok, err, statement, query}
use moneymate_backend.Errors.{DbError, no_rows, pg_error}
use moneymate_backend.Rewards.Domain.{
  Uuid, Time, RecipientType, same_type, PayoutStatus, payout_pending, payout_completed,
  payout_failed, is_failed, RewardRule, RewardPayout, RewardDb, RewardQuery,
}

abbrev pub with_rules : List RewardRule → RewardDb → RewardDb
with_rules rows d = record d { rules = rows }

abbrev pub with_payouts : List RewardPayout → RewardDb → RewardDb
with_payouts rows d = record d { payouts = rows }

-- The check constraints of `reward_rules`
abbrev pub check_rule : {A : Type 0} → RewardRule → Result DbError A → Result DbError A
check_rule r rest =
    if ltb_ℤ r.max_percentage_bps r.min_percentage_bps
    then err (pg_error "23514" "reward_rules_check")
    else if leb_ℤ r.max_payout_amount_paise (pos 0)
    then err (pg_error "23514" "reward_rules_max_payout_amount_paise_check")
    else if ltb_ℤ r.min_percentage_bps (pos 0)
    then err (pg_error "23514" "reward_rules_min_percentage_bps_check")
    else if ltb_ℤ r.min_transaction_amount_paise (pos 0)
    then err (pg_error "23514" "reward_rules_min_transaction_amount_paise_check")
    else rest

-- The unique index `idx_reward_rules_one_active`, for a row that takes its place among these.
abbrev pub is_other_active : Uuid → RewardRule → Bool
is_other_active k r = r.active && not (r.id == k)

abbrev pub check_one_active :
    {A : Type 0} → RewardRule → List RewardRule → Result DbError A → Result DbError A
check_one_active r rows rest =
    if r.active && any (is_other_active r.id) rows
    then err (pg_error "23505" "idx_reward_rules_one_active")
    else rest

unfoldable pub insert_rule_row : RewardRule → RewardDb → Result DbError (RewardRule × RewardDb)
insert_rule_row r d = check_rule r (
    if is_some (find_by RewardRule.id r.id d.rules)
    then err (pg_error "23505" "reward_rules_pkey")
    else check_one_active r d.rules (ok (r, with_rules (r ∷ d.rules) d)))

-- `CreateRule`
unfoldable pub insert_rule : RewardRule → RewardQuery RewardRule
insert_rule r =
    statement
      λ now fresh d. insert_rule_row (record r { id = fresh; created_at = now; updated_at = now }) d

-- A page of a list; a negative number is an error.
abbrev pub page : {A : Type 0} → ℤ → ℤ → List A → Result DbError (List A)
page limit offset rows =
    if ltb_ℤ limit (pos 0)
    then err (pg_error "2201W" "")
    else if ltb_ℤ offset (pos 0)
    then err (pg_error "2201X" "")
    else ok (take (pos_part limit) (drop (pos_part offset) rows))

-- `ListRules`
unfoldable pub select_rules : ℤ → ℤ → RewardQuery (List RewardRule)
select_rules limit offset = query λ d. page limit offset d.rules

abbrev pub one : {A : Type 0} → Option A → Result DbError A
one none = err no_rows
one (some a) = ok a

-- `GetRule`
unfoldable pub select_rule : Uuid → RewardQuery RewardRule
select_rule k = query λ d. one (find_by RewardRule.id k d.rules)

-- `GetActiveRule`
unfoldable pub get_active_rule : RewardQuery RewardRule
get_active_rule = query λ d. one (find? RewardRule.active d.rules)

abbrev pub replace_rule :
    RewardRule → Option RewardRule → RewardDb → Result DbError (RewardRule × RewardDb)
replace_rule r none d = err no_rows
replace_rule r (some old) d = check_rule r (
    check_one_active r d.rules
      (ok (r, with_rules (update_by RewardRule.id r.id (λ _. r) d.rules) d)))

-- `UpdateRule`: the columns that it sets, on a row that is there.
abbrev pub edited : RewardRule → Time → Option RewardRule → RewardRule
edited r now none = r
edited r now (some old) = record r {
  id = old.id;
  created_by = old.created_by;
  created_at = old.created_at;
  updated_at = now;
}

unfoldable pub set_rule : RewardRule → RewardQuery RewardRule
set_rule r =
    statement λ now _ d.
      let old = find_by RewardRule.id r.id d.rules in replace_rule (edited r now old) old d

abbrev pub deactivated : Time → RewardRule → RewardRule
deactivated now r = record r { active = false; updated_at = now }

abbrev pub answer_row : {A : Type 0} → Option A → (A → A) → RewardDb → Result DbError (A × RewardDb)
answer_row none f d = err no_rows
answer_row (some a) f d = ok (f a, d)

-- `DeactivateRule`
unfoldable pub clear_active : Uuid → RewardQuery RewardRule
clear_active k = statement λ now _ d.
    answer_row (find_by RewardRule.id k d.rules) (deactivated now)
      (with_rules (update_by RewardRule.id k (deactivated now) d.rules) d)

-- `UNIQUE (transaction_id, recipient_type)`
abbrev pub is_payout_for : Uuid → RecipientType → RewardPayout → Bool
is_payout_for transaction type p =
    p.transaction_id == transaction && same_type p.recipient_type type

abbrev has_rule : Option Uuid → List RewardRule → Bool
has_rule none rows = true
has_rule (some k) rows = is_some (find_by RewardRule.id k rows)

-- `INSERT INTO reward_payouts`
unfoldable pub insert_payout_row :
    RewardPayout → RewardDb → Result DbError (RewardPayout × RewardDb)
insert_payout_row p d =
    if leb_ℤ p.original_amount_paise (pos 0)
    then err (pg_error "23514" "reward_payouts_original_amount_paise_check")
    else if ltb_ℤ p.reward_amount_paise (pos 0)
    then err (pg_error "23514" "reward_payouts_reward_amount_paise_check")
    else if ltb_ℤ p.reward_percentage_bps (pos 0)
    then err (pg_error "23514" "reward_payouts_reward_percentage_bps_check")
    else if is_some (find_by RewardPayout.id p.id d.payouts)
    then err (pg_error "23505" "reward_payouts_pkey")
    else if is_some (find? (is_payout_for p.transaction_id p.recipient_type) d.payouts)
    then err (pg_error "23505" "reward_payouts_transaction_id_recipient_type_key")
    else if has_rule p.rule_id d.rules
    then ok (p, with_payouts (p ∷ d.payouts) d)
    else err (pg_error "23503" "reward_payouts_rule_id_fkey")

-- The row that `INSERT … VALUES (…, 'pending', …)` makes.
abbrev pub fresh_payout : RewardPayout → Time → Uuid → RewardPayout
fresh_payout p now fresh = record p {
  id = fresh;
  status = payout_pending;
  payment_transaction_id = none;
  failure_reason = none;
  created_at = now;
  updated_at = now;
  completed_at = none;
}

-- `InsertPayout`
unfoldable pub insert_payout : RewardPayout → RewardQuery RewardPayout
insert_payout p = statement λ now fresh d. insert_payout_row (fresh_payout p now fresh) d

-- `GetPayoutByID`
unfoldable pub select_payout : Uuid → RewardQuery RewardPayout
select_payout k = query λ d. one (find_by RewardPayout.id k d.payouts)

abbrev same_status : Option PayoutStatus → PayoutStatus → Bool
same_status none s = true
same_status (some payout_pending) payout_pending = true
same_status (some payout_completed) payout_completed = true
same_status (some payout_failed) payout_failed = true
same_status (some _) _ = false

-- `ListPayoutsByRecipient`
unfoldable pub select_payouts_by_recipient :
    Uuid → Option PayoutStatus → ℤ → ℤ → RewardQuery (List RewardPayout)
select_payouts_by_recipient k status limit offset = query λ d.
    page limit offset
      (keep_if (λ p. RewardPayout.recipient_id p == k && same_status status p.status) d.payouts)

-- `ListPayoutsByTransaction`
unfoldable pub select_payouts_by_transaction : Uuid → RewardQuery (List RewardPayout)
select_payouts_by_transaction k =
    query λ d. ok (keep_if (λ p. RewardPayout.transaction_id p == k) d.payouts)

abbrev pub complete_payout : Uuid → Time → RewardPayout → RewardPayout
complete_payout payment now p = record p {
  status = payout_completed;
  payment_transaction_id = some payment;
  completed_at = some now;
  updated_at = now;
}

abbrev pub fail_payout : String → Time → RewardPayout → RewardPayout
fail_payout reason now p = record p {
  status = payout_failed;
  failure_reason = some reason;
  updated_at = now;
}

-- `UPDATE reward_payouts SET … WHERE id = $1 RETURNING …`
unfoldable pub update_payout :
    Uuid → (Time → RewardPayout → RewardPayout) → RewardQuery RewardPayout
update_payout k f = statement λ now _ d.
    answer_row (find_by RewardPayout.id k d.payouts) (f now)
      (with_payouts (update_by RewardPayout.id k (f now) d.payouts) d)

-- `MarkCompleted`
abbrev pub mark_payout_completed : Uuid → Uuid → RewardQuery RewardPayout
mark_payout_completed k payment = update_payout k (complete_payout payment)

-- `MarkFailed`
abbrev pub mark_payout_failed : Uuid → String → RewardQuery RewardPayout
mark_payout_failed k reason = update_payout k (fail_payout reason)

-- `ListFailedPayouts`
unfoldable pub list_failed_payouts : ℕ → RewardQuery (List RewardPayout)
list_failed_payouts limit =
    query λ d. ok (take limit (keep_if (λ p. is_failed (RewardPayout.status p)) d.payouts))
