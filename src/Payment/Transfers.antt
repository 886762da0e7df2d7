-- ===== src/Payment/Transfers.antt =====
-- services/payment/internal/usecases/transfer_usecase.go: a transfer from the caller's wallet to the
-- account of a handle.
pub mod Replaying
pub mod Outcomes
pub mod Again
pub mod Tests
use moneymate_backend.Shared.{
  ℕ, String, Bool, true, false, not, ◌||◌, Option, none, some, List, [], ◌∷◌, ◌==◌, if◌then◌else◌,
}
use moneymate_backend.Shared.Int.{ℤ, pos, leb_ℤ}
use moneymate_backend.Shared.Text.{trim_space, is_empty}
use moneymate_backend.Shared.Action.{
  Result, ok, err, ◌>>=◌, ◌>>◌, pure, raise, or_raise, raise_if, handle, map_err,
}
use moneymate_backend.Errors.{Error, not_found, invalid_input, unauthorized, idempotency_key_used}
use moneymate_backend.Payment.Domain.{
  Uuid, is_wallet, is_merchant_settlement, Account, pending, Transaction, debit, credit,
  JournalEntry, Category, LedgerResult,
}
use moneymate_backend.Payment.Queries.{
  Call, get_account_by_handle, get_wallet_by_user_id, get_transaction_by_id,
  get_transaction_by_idempotency_key, get_entries_by_transaction_id, get_category_by_id,
}
use moneymate_backend.Payment.Ledger.{repo, read_balance, execute_transfer}

pub record TransferInput : Type 0 where
  pub authenticated_user_id : String
  pub to_handle : String
  pub amount_paise : ℤ
  pub idempotency_key : String
  pub description : String
  pub category_id : Option String

-- The entries of each direction: the last one of each is kept.
abbrev pub with_entries : List JournalEntry → LedgerResult → LedgerResult
with_entries [] r = r
with_entries (e ∷ es) r = with_entries es (elim (JournalEntry.direction e) [
  | debit ↦ record r { debit_entry = some e }
  | credit ↦ record r { credit_entry = some e }
])

-- `replay`: the answer for a transaction that is there already.
unfoldable pub replay : Transaction → Call LedgerResult
replay t = do
  entries ← repo (get_entries_by_transaction_id t.id)
  from_balance ← read_balance t.from_account_id
  to_balance ← read_balance t.to_account_id
  pure (
      with_entries entries (record {
        transaction = t;
        debit_entry = none;
        credit_entry = none;
        from_balance = from_balance;
        to_balance = to_balance;
      }))

-- `errors.Is(err, apperrors.ErrNotFound)`
abbrev pub is_not_found : Error → Bool
is_not_found not_found = true
is_not_found _ = false

abbrev pub is_idempotency_key_used : Error → Bool
is_idempotency_key_used idempotency_key_used = true
is_idempotency_key_used _ = false

-- A handle that is not there is the caller's mistake.
abbrev pub unknown_handle : Error → Error
unknown_handle e = if is_not_found e then invalid_input else e

-- What can be paid to by its handle.
abbrev pub is_payable : Account → Bool
is_payable a = is_wallet a.type || is_merchant_settlement a.type

pub record Parties : Type 0 where
  pub user_id : Uuid
  pub from_id : Uuid
  pub to_id : Uuid

module _ (parse_uuid : String → Option Uuid) where
  -- The tests of `Transfer` up to the two accounts.
  unfoldable pub find_parties : TransferInput → Call Parties
  find_parties input = do
    raise_if (leb_ℤ input.amount_paise (pos 0)) invalid_input
    raise_if (is_empty (trim_space input.idempotency_key)) invalid_input
    user ← or_raise (parse_uuid input.authenticated_user_id) unauthorized
    from ← repo (get_wallet_by_user_id user)
    raise_if (is_empty (trim_space input.to_handle)) invalid_input
    to ← map_err unknown_handle (repo (get_account_by_handle (trim_space input.to_handle)))
    raise_if (not (is_payable to)) invalid_input
    raise_if (from.id == to.id) invalid_input
    pure (record { user_id = user; from_id = from.id; to_id = to.id })

  abbrev pub owned_category : Uuid → Uuid → Result Error Category → Call (Option Uuid)
  owned_category user cid (err e) = raise invalid_input
  owned_category user cid (ok c) =
      if c.user_id == user then pure (some cid) else raise invalid_input

  abbrev parsed_category : Uuid → Option Uuid → Call (Option Uuid)
  parsed_category user none = raise invalid_input
  parsed_category user (some cid) = handle (repo (get_category_by_id cid)) (owned_category user cid)

  -- `if in.CategoryID != nil && *in.CategoryID != ""`
  unfoldable pub find_category : Uuid → Option String → Call (Option Uuid)
  find_category user none = pure none
  find_category user (some text) =
      if is_empty text then pure none else parsed_category user (parse_uuid text)

  abbrev pub new_transaction : TransferInput → Parties → Option Uuid → Transaction
  new_transaction input p category = record {
    id = 0;
    from_account_id = p.from_id;
    to_account_id = p.to_id;
    amount = input.amount_paise;
    status = pending;
    idempotency_key = trim_space input.idempotency_key;
    description = input.description;
    category_id = category;
    created_at = 0;
    completed_at = none;
  }

  -- A transfer that lost a race to its key answers as the one that won.
  abbrev pub replay_winner : TransferInput → Parties → Result Error LedgerResult → Call LedgerResult
  replay_winner input p (ok r) = pure r
  replay_winner input p (err e) =
      if is_idempotency_key_used e
      then (repo (get_transaction_by_idempotency_key (trim_space input.idempotency_key) p.from_id)
          >>= replay)
      else raise e

  unfoldable pub start_transfer : TransferInput → Parties → Call LedgerResult
  start_transfer input p = do
    category ← find_category p.user_id input.category_id
    handle (execute_transfer (new_transaction input p category)) (replay_winner input p)

  -- What the lookup of the key decides.
  unfoldable pub after_lookup :
      TransferInput → Parties → Result Error Transaction → Call LedgerResult
  after_lookup input p (ok existing) = replay existing
  after_lookup input p (err e) = if is_not_found e then start_transfer input p else raise e

  unfoldable pub transfer_between : TransferInput → Parties → Call LedgerResult
  transfer_between input p =
      handle
        (repo (get_transaction_by_idempotency_key (trim_space input.idempotency_key) p.from_id))
        (after_lookup input p)

  -- `Transfer`
  unfoldable pub transfer : TransferInput → Call LedgerResult
  transfer input = find_parties input >>= transfer_between input

  -- `GetByID`
  unfoldable pub get_by_id : String → Call Transaction
  get_by_id text = do k ← or_raise (parse_uuid text) invalid_input; repo (get_transaction_by_id k)
