-- ===== src/Rewards/Payouts/Tests.antt =====
-- An event and what becomes of it (reward_usecase.go), and the theorems on events at it.
use moneymate_backend.Shared.{
  ℕ, ◌+◌, ◌≡◌, refl, arith, String, Bool, true, Option, none, some, [], ◌∷◌, find_by, str_eq,
  if◌then◌else◌,
}
use moneymate_backend.Shared.Int.{ℤ, pos, ◌+ℤ◌, ◌-ℤ◌, ◌*ℤ◌, ◌quot◌, to_int32, to_int64}
use moneymate_backend.Shared.Action.{World, Result, ok}
use moneymate_backend.Rewards.Domain.{
  Uuid, RewardPayout, payout_completed, PaymentCompletedEvent, RewardDb,
}
use moneymate_backend.Rewards.Calculation.{RewardCalculation, calculate_reward}
use moneymate_backend.Rewards.Repo.{fresh_payout}
use moneymate_backend.Rewards.Payouts.{process_payment_completed_event, new_payout}
use moneymate_backend.Rewards.Payouts.Paying.{IsPayable, process_pays}
use moneymate_backend.Rewards.Payouts.Repeating.{process_again}
use moneymate_backend.Rewards.Rules.Tests.{cashback, quiet}

abbrev pub event : PaymentCompletedEvent
event = record {
  event_id = "e-1";
  event_type = "payment.completed";
  transaction_id = 7;
  recipient_id = 11;
  recipient_account_id = 1;
  recipient_type = "user";
  amount_paise = pos 333;
  occurred_at = 0;
}

abbrev pub parse : String → Option PaymentCompletedEvent
parse s = if str_eq s "e-1" then some event else none

abbrev pub draw : ℤ → ℕ → ℤ
draw bound n = pos 200

abbrev pub pays_all : Uuid → ℤ → ℕ → Result String Uuid
pays_all account amount n = ok (500 + n)

abbrev pub paid : Uuid → ℤ → ℕ → Bool
paid account amount n = true

abbrev pub start : World RewardDb
start = record { db = record { rules = cashback ∷ []; payouts = []; payments = [] }; calls = 0 }

abbrev calc : RewardCalculation
calc = calculate_reward (pos 333) cashback λ lo hi. to_int32 (lo +ℤ pos 200)

event-IsPayable : IsPayable parse draw pays_all paid "e-1" event quiet start cashback 503
unfolding calculate_reward to_int64 to_int32 ◌quot◌ ◌*ℤ◌ ◌+ℤ◌ ◌-ℤ◌ find_by
event-IsPayable = record {
  parsed = refl;
  runs = λ n. refl;
  rule_found = refl;
  rule_kept = refl;
  min_not_negative = omega arith;
  ordered = omega arith;
  rolls = refl;
  eligible = refl;
  key_unused = refl;
  id_unused = refl;
  answered = refl;
  pays = refl;
}

abbrev row : RewardPayout
row = fresh_payout (new_payout "e-1" event cashback calc) 2 102

process_pays_example :
    ((process_payment_completed_event parse draw pays_all paid "e-1" quiet start).0 ≡ ok tt)
    × (p : RewardPayout) × ((process_payment_completed_event parse draw pays_all paid "e-1" quiet
          start).1.db
        ≡ record start.db {
          payouts = p ∷ [];
          payments =
              record { payout = row; account_id = 1; amount_paise = calc.reward_amount_paise } ∷ [];
        })
    × (p.status ≡ payout_completed)
    × (p.payment_transaction_id ≡ some 503)
    × (p.transaction_id ≡ 7)
    × (p.recipient_account_id ≡ 1)
    × (p.reward_amount_paise ≡ calc.reward_amount_paise)
process_pays_example =
    process_pays parse draw pays_all paid "e-1" event quiet start cashback 503 event-IsPayable

abbrev after : World RewardDb
after = record { db = record start.db { payouts = row ∷ [] }; calls = 9 }

process_again_example :
    (process_payment_completed_event parse draw pays_all paid "e-1" quiet after).1.db ≡ after.db
process_again_example = process_again parse draw pays_all paid "e-1" event quiet after row refl refl
