-- ===== src/Merchant/Campaigns/Counting.antt =====
-- How many campaigns of a store are active, before and after a row is changed.
use moneymate_backend.Shared.{
  ◌+◌, ◌≤◌, String, Bool, false, not, ◌&&◌, ◌≡◌, inl, inr, refl, arith, none, List, [], ◌∷◌,
  Bool-cases, find_by, keep_if, IsKeyed, ◌==◌, str_eq,
}
use moneymate_backend.Merchant.Campaigns.{
  Uuid, Time, Campaign, of_store, set_status, is_active, count_campaigns,
}

-- The active campaigns of a store, and those with another identifier.
abbrev pub is_active_of : Uuid → Campaign → Bool
is_active_of s c = of_store s c && is_active c

abbrev pub is_other_of : Uuid → Uuid → Campaign → Bool
is_other_of s id c = of_store s c && (is_active c && not (Campaign.id c == id))

pub count_campaigns-keep_if :
    (q p : Campaign → Bool) (rows : List Campaign)
    → count_campaigns p (keep_if q rows) ≡ count_campaigns (λ c. q c && p c) rows
unfolding count_campaigns
count_campaigns-keep_if q p [] = refl
count_campaigns-keep_if q p (c ∷ rows) = elim (Bool-cases (q c)) [
  | inl y ↦ ground (arith, count_campaigns-keep_if q p rows)
  | inr n ↦ ground (arith, count_campaigns-keep_if q p rows)
]

-- Without a row of the identifier nothing is changed.
pub set_status-none :
    (id store : Uuid) (status : String) (now : Time) (rows : List Campaign)
    → find_by Campaign.id id rows ≡ none
    → set_status id store status now rows ≡ rows
unfolding set_status find_by
set_status-none id store status now [] h = refl
set_status-none id store status now (c ∷ rows) h =
    ground (arith, set_status-none id store status now rows)

pub count_campaigns-other_none :
    (s id : Uuid) (rows : List Campaign)
    → find_by Campaign.id id rows ≡ none
    → count_campaigns (is_other_of s id) rows ≡ count_campaigns (is_active_of s) rows
unfolding count_campaigns find_by
count_campaigns-other_none s id [] h = refl
count_campaigns-other_none s id (c ∷ rows) h = ground (arith, count_campaigns-other_none s id rows)

module _ (id store : Uuid) (status : String) (now : Time) where
  -- A changed row counts at most once, for its own store.
  pub count_campaigns-set_status :
      (s : Uuid) (rows : List Campaign)
      → IsKeyed Campaign.id rows
      → count_campaigns (is_active_of s) (set_status id store status now rows)
        ≤ count_campaigns (is_other_of s id) rows + 1
  unfolding count_campaigns set_status find_by
  count_campaigns-set_status s [] k = ground arith
  count_campaigns-set_status s (c ∷ rows) k = elim (Bool-cases (Campaign.id c == id)) [
    | inl y ↦
        let free : find_by Campaign.id id rows ≡ none = ground (arith, y, k.0) in
        let still = set_status-none id store status now rows free in
        let all = count_campaigns-other_none s id rows free in rw still (ground (arith, y, all))
    | inr n ↦ ground (arith, n, count_campaigns-set_status s rows k.1)
  ]

  -- Any other status than `active` adds to no store.
  pub count_campaigns-set_inactive :
      (s : Uuid) (rows : List Campaign)
      → str_eq status "active" ≡ false
      → count_campaigns (is_active_of s) (set_status id store status now rows)
        ≤ count_campaigns (is_active_of s) rows
  unfolding count_campaigns set_status
  count_campaigns-set_inactive s [] n = ground arith
  count_campaigns-set_inactive s (c ∷ rows) n =
      ground (arith, n, count_campaigns-set_inactive s rows n)

  -- Of another store nothing is changed.
  pub count_campaigns-set_ne :
      (s : Uuid) (rows : List Campaign)
      → (store == s) ≡ false
      → count_campaigns (is_active_of s) (set_status id store status now rows)
        ≡ count_campaigns (is_active_of s) rows
  unfolding count_campaigns set_status
  count_campaigns-set_ne s [] n = refl
  count_campaigns-set_ne s (c ∷ rows) n = ground (arith, n, count_campaigns-set_ne s rows n)
