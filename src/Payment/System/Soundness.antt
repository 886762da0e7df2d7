-- ===== src/Payment/System/Soundness.antt =====
-- The invariant of the ledger under every call of the service.
use native.Mathlib.Decide.{ℕ_discrete}
use moneymate_backend.Shared.{
  ap, sym, subst, ◌∙◌, ℕ, String, ◌≡◌, ◌≢◌, inl, inr, refl, arith, true, Option, none, some,
  some-injective, List, ◌∷◌, Bool-cases, Option-cases, find_by, IsKeyed, update_by, is_some,
  update_by-IsKeyed, find_by-update_self, find_by-update_ne, ◌==◌, ==_iff,
}
use moneymate_backend.Shared.Int.{ℤ, pos, ◌+ℤ◌, int_laws}
use moneymate_backend.Shared.Action.{Env, World, Result}
use moneymate_backend.Errors.{DbError, Error}
use moneymate_backend.Payment.Domain.{Uuid, Time, Account, Transaction, Deposit, Db}
use moneymate_backend.Payment.Constraints.{credited}
use moneymate_backend.Payment.Constraints.Passing.{with_account}
use moneymate_backend.Payment.Ledger.Posting.{Posts}
use moneymate_backend.Payment.Ledger.Conservation.{others-posted, sender-posted, receiver-posted}
use moneymate_backend.Payment.Ledger.Journal.{journal_balance, journal_net, journal_balance-others}
use moneymate_backend.Payment.Ledger.Soundness.{
  InRange, credit-InRange, HasUniqueKeys, IsSound, Posts-IsSound,
}
use moneymate_backend.Payment.Deposits.Crediting.{Deposits, deposited, debit_row, credit_row}
use moneymate_backend.Payment.System.{PaymentCall, serve_all}
use moneymate_backend.Payment.System.Evolution.{FollowsLedger}
use moneymate_backend.Payment.System.Calls.{serve_all-evolves}

-- `IsSound`, and no entries add up to anything for an account that is not there.
pub record IsWhole (ext : Uuid) (d : Db) : Type 0 where
  pub sound : IsSound ext d
  pub no_strays :
      (k : Uuid) → find_by Account.id k d.accounts ≡ none → journal_balance k d.entries ≡ pos 0

module _ (ext : Uuid) where
  unmoved-IsWhole :
      (d d' : Db)
      → d'.accounts ≡ d.accounts
      → d'.entries ≡ d.entries
      → d'.transactions ≡ d.transactions
      → IsWhole ext d
      → IsWhole ext d'
  unmoved-IsWhole d d' a e t h = record {
    sound = record {
      keyed = rw a h.sound.keyed;
      in_range = λ k x f. h.sound.in_range k x (sym (ap (find_by Account.id k) a) ∙ f);
      reconciled = record {
        at_account = λ k x n f.
            h.sound.reconciled.at_account k x n (sym (ap (find_by Account.id k) a) ∙ f)
            ∙ ap (journal_balance k) (sym e);
      };
      balanced = ap journal_net e ∙ h.sound.balanced;
      unique_keys = rw t h.sound.unique_keys;
    };
    no_strays =
        λ k f. ap (journal_balance k) e ∙ h.no_strays k (sym (ap (find_by Account.id k) a) ∙ f);
  }

  opened-IsWhole :
      (a : Account) (d : Db)
      → a.balance ≡ pos 0
      → find_by Account.id a.id d.accounts ≡ none
      → IsWhole ext d
      → IsWhole ext (with_account a d)
  unfolding find_by
  opened-IsWhole a d zero free h = record {
    sound = record {
      keyed = (free, h.sound.keyed);
      in_range = λ k x f. elim (Bool-cases (a.id == k)) [
        | inl y ↦
            let e : a ≡ x = ground arith in
            subst InRange (sym zero ∙ ap Account.balance e) (ground arith, refl)
        | inr n ↦ h.sound.in_range k x (ground arith)
      ];
      reconciled = record {
        at_account = λ k x ne f. elim (Bool-cases (a.id == k)) [
          | inl y ↦
              let same : a.id ≡ k = (==_iff a.id k).0 y in
              let stray =
                h.no_strays k (ap (λ j. find_by Account.id j d.accounts) (sym same) ∙ free) in
              let e : a ≡ x = ground arith in sym (ap Account.balance e) ∙ zero ∙ sym stray
          | inr n ↦ h.sound.reconciled.at_account k x ne (ground arith)
        ];
      };
      balanced = h.sound.balanced;
      unique_keys = h.sound.unique_keys;
    };
    no_strays = λ k f. elim (Bool-cases (a.id == k)) [
      | inl y ↦ absurd (ground arith)
      | inr n ↦ h.no_strays k (ground arith)
    ];
  }

  found-ne :
      (k j : Uuid) (rows : List Account) {a : Account}
      → find_by Account.id k rows ≡ none
      → find_by Account.id j rows ≡ some a
      → k ≢ j
  found-ne k j rows m f e = ground (arith, ap (λ i. find_by Account.id i rows) e)

  posted-no_strays :
      (env : Env DbError) (c : ℕ) (t : Transaction) (d d' : Db) (h : Posts env c t d d')
      → ((k : Uuid) → find_by Account.id k d.accounts ≡ none → journal_balance k d.entries ≡ pos 0)
      → (k : Uuid) → find_by Account.id k d'.accounts ≡ none
      → journal_balance k d'.entries ≡ pos 0
  posted-no_strays env c t d d' h old k m =
      let ne = found-ne k t.from_account_id d'.accounts m (sender-posted env c t d d' h) in
      let ne' = found-ne k t.to_account_id d'.accounts m (receiver-posted env c t d d' h) in
      journal_balance-others env c t d d' h k ne ne'
      ∙ old k (sym (others-posted env c t d d' h k ne ne') ∙ m)

  module _ (env : Env DbError) (c : ℕ) (order : String) (now : Time) (p : Deposit) (d d' : Db)
      (h : Deposits env c ext order now p d d') where
    accounts-credited :
        d'.accounts ≡ update_by Account.id p.account_id (credited p.amount (env.now c)) d.accounts
    unfolding deposited
    accounts-credited = ap Db.accounts h.stored

    entries-credited :
        d'.entries ≡ credit_row env c ext order now p ∷ debit_row env c ext order now p ∷ d.entries
    unfolding deposited
    entries-credited = ap Db.entries h.stored

    pub payee-credited :
        find_by Account.id p.account_id d'.accounts ≡ some (credited p.amount (env.now c) h.payee)
    payee-credited = rw accounts-credited (
        find_by-update_self Account.id (credited p.amount (env.now c)) (λ _. refl) p.account_id
          d.accounts h.payee h.payee_found)

    pub others-credited :
        (k : Uuid)
        → k ≢ p.account_id
        → find_by Account.id k d'.accounts ≡ find_by Account.id k d.accounts
    others-credited k ne = rw accounts-credited (
        find_by-update_ne Account.id (credited p.amount (env.now c)) (λ _. refl) p.account_id k
          d.accounts (ground arith))

    journal_balance-untouched :
        (k : Uuid)
        → k ≢ p.account_id
        → k ≢ ext
        → journal_balance k d'.entries ≡ journal_balance k d.entries
    journal_balance-untouched k ne ne' = rw entries-credited (ground arith)

    journal_balance-payee :
        journal_balance p.account_id d'.entries ≡ journal_balance p.account_id d.entries +ℤ p.amount
    journal_balance-payee = rw entries-credited (ground (arith, h.passes.distinct))

    settlement_known : (a : Account) × (find_by Account.id ext d'.accounts ≡ some a)
    settlement_known =
        let known : is_some (find_by Account.id ext d'.accounts) ≡ true =
          ap (λ rows. is_some (find_by Account.id ext rows)) accounts-credited
          ∙ h.passes.from_known in
        elim (Option-cases (find_by Account.id ext d'.accounts)) [
          | inl m ↦ absurd (ground arith)
          | inr found ↦ found
        ]

    module _ (old : IsWhole ext d) where
      payee_is :
          (k : Uuid) (a : Account)
          → k ≡ p.account_id
          → find_by Account.id k d'.accounts ≡ some a
          → a ≡ credited p.amount (env.now c) h.payee
      payee_is k a e f =
          some-injective a _ (sym f ∙ ap (λ j. find_by Account.id j d'.accounts) e ∙ payee-credited)

      credited-InRange :
          (k : Uuid) (a : Account) → find_by Account.id k d'.accounts ≡ some a → InRange a.balance
      credited-InRange k a f = elim (ℕ_discrete k p.account_id) [
        | yes e ↦ subst InRange (sym (ap Account.balance (payee_is k a e f))) (
            credit-InRange h.payee.balance p.amount
              (old.sound.in_range p.account_id h.payee h.payee_found) h.passes.positive h.fits)
        | no ne ↦ old.sound.in_range k a (sym (others-credited k ne) ∙ f)
      ]

      credited-reconciled :
          (k : Uuid) (a : Account)
          → k ≢ ext
          → find_by Account.id k d'.accounts ≡ some a
          → a.balance ≡ journal_balance k d'.entries
      credited-reconciled k a n f = elim (ℕ_discrete k p.account_id) [
        | yes e ↦
            ap Account.balance (payee_is k a e f)
            ∙ ap (λ x. x +ℤ p.amount)
                (old.sound.reconciled.at_account p.account_id h.payee (λ q. n (e ∙ q))
                  h.payee_found)
            ∙ sym journal_balance-payee
            ∙ ap (λ j. journal_balance j d'.entries) (sym e)
        | no ne ↦
            old.sound.reconciled.at_account k a n (sym (others-credited k ne) ∙ f)
            ∙ sym (journal_balance-untouched k ne n)
      ]

      credited-no_strays :
          (k : Uuid)
          → find_by Account.id k d'.accounts ≡ none
          → journal_balance k d'.entries ≡ pos 0
      credited-no_strays k m =
          let ne = found-ne k p.account_id d'.accounts m payee-credited in
          let ne' = found-ne k ext d'.accounts m settlement_known.1 in
          journal_balance-untouched k ne ne' ∙ old.no_strays k (sym (others-credited k ne) ∙ m)

      credited-IsWhole : IsWhole ext d'
      unfolding deposited
      credited-IsWhole = record {
        sound = record {
          keyed = subst (IsKeyed Account.id) (sym accounts-credited) (
              update_by-IsKeyed Account.id (credited p.amount (env.now c)) (λ _. refl) p.account_id
                d.accounts old.sound.keyed);
          in_range = credited-InRange;
          reconciled = record { at_account = credited-reconciled };
          balanced =
              let net : journal_net d'.entries ≡ journal_net d.entries =
                rw entries-credited (omega int_laws) in
              net ∙ old.sound.balanced;
          unique_keys =
              subst HasUniqueKeys (sym (ap Db.transactions h.stored))
                (h.passes.new_key, old.sound.unique_keys);
        };
        no_strays = credited-no_strays;
      }

  IsWhole-FollowsLedger : FollowsLedger ext (λ d d'. IsWhole ext d → IsWhole ext d')
  IsWhole-FollowsLedger = record {
    chains = record { stays = λ d h. h; chained = λ d d' d'' f g h. g (f h) };
    unmoved = unmoved-IsWhole;
    posted = λ env c t d d' p h. record {
      sound = Posts-IsSound env c t d d' p ext h.sound;
      no_strays = posted-no_strays env c t d d' p h.no_strays;
    };
    credited = credited-IsWhole;
    opened = opened-IsWhole;
  }

-- Whatever calls the service is sent, those on categories left out, in whatever order, and whichever of their statements fail: the
-- ledger's invariant holds after them if it held before. Identifiers stay unique, every balance is
-- in range and, but for the settlement account's, the sum of its journal entries, debits and credits
-- cancel, no sender's key is used twice, and no entries are left for an account that is not there.
pub serve_all-IsWhole :
    (parse_uuid : String → Option Uuid) (uuid_text : Uuid → String)
    (create_order : ℤ → Uuid → ℕ → Result Error String) (razorpay_key_id : String)
    (settlement : Uuid) (env : Env DbError) (calls : List PaymentCall) (w : World Db)
    → IsWhole settlement w.db
    → IsWhole settlement
        (serve_all parse_uuid uuid_text create_order razorpay_key_id settlement calls env w).db
serve_all-IsWhole parse_uuid uuid_text create_order razorpay_key_id settlement env calls w =
    serve_all-evolves (IsWhole-FollowsLedger settlement) parse_uuid create_order razorpay_key_id
      uuid_text env calls w
