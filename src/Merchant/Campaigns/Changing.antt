-- ===== src/Merchant/Campaigns/Changing.antt =====
-- The limit of active campaigns when a campaign's status is changed (campaign_usecase.go).
use moneymate_backend.Shared.{
  ap, sym, subst, ◌∙◌, String, Bool, true, false, not, ◌&&◌, ◌≡◌, inl, inr, refl, arith, none, List,
  [], ◌∷◌, Bool-cases, find_by, keep_if, IsKeyed, ◌==◌, str_eq, if◌then◌else◌,
}
use moneymate_backend.Shared.Action.{Env, World, ok, bind-ok, map_err, pure, ◌>>=◌}
use moneymate_backend.Errors.{DbError}
use moneymate_backend.Merchant.Campaigns.{
  Uuid, Time, Campaign, CampaignCall, db_failed, plan_text, Store, MerchantDb, with_campaigns,
  of_store, is_active, count_campaigns, get_store_profile_by_store_id, get_campaigns_by_store_id,
  set_status, update_status, enforce_limit, check_others, update_campaign_status,
}
use moneymate_backend.Merchant.Campaigns.Counting.{
  is_other_of, count_campaigns-keep_if, count_campaigns-set_status, count_campaigns-set_inactive,
  count_campaigns-set_ne,
}
use moneymate_backend.Merchant.Campaigns.Limits.{
  enforce_limit-ok, IsSingle, store-Reads, get_campaigns-ok,
}

find_by-set_status :
    (k id store : Uuid) (status : String) (now : Time) (rows : List Campaign)
    → find_by Campaign.id k rows ≡ none
    → find_by Campaign.id k (set_status id store status now rows) ≡ none
unfolding set_status find_by
find_by-set_status k id store status now [] h = refl
find_by-set_status k id store status now (c ∷ rows) h =
    ground (arith, find_by-set_status k id store status now rows)

set_status-IsKeyed :
    (id store : Uuid) (status : String) (now : Time) (rows : List Campaign)
    → IsKeyed Campaign.id rows
    → IsKeyed Campaign.id (set_status id store status now rows)
unfolding set_status
set_status-IsKeyed id store status now [] k = tt
set_status-IsKeyed id store status now (c ∷ rows) k =
    let rest = find_by-set_status c.id id store status now rows k.0 in
    (ground (arith, rest), set_status-IsKeyed id store status now rows k.1)

update_status-ok :
    (id store : Uuid) (status : String) (env : Env DbError) (w w' : World MerchantDb)
    → map_err db_failed (update_status id store status) env w ≡ (ok tt, w')
    → w'.db ≡ with_campaigns (set_status id store status (env.now w.calls) w.db.campaigns) w.db
unfolding update_status
update_status-ok id store status env w w' h = ground arith

module _ (id store_id : Uuid) (env : Env DbError) (w : World MerchantDb) where
  abbrev compare_limit : Store → List Campaign → CampaignCall Unit
  compare_limit store rows =
      enforce_limit (plan_text store.plan)
        (count_campaigns (λ c. is_active c && not (Campaign.id c == id)) rows)

  abbrev listed_others : Store → CampaignCall Unit
  listed_others store =
      map_err db_failed (get_campaigns_by_store_id store_id) >>= compare_limit store

  check_others-ok :
      (w' : World MerchantDb)
      → check_others id store_id env w ≡ (ok tt, w')
      → (count_campaigns (is_other_of store_id id) w.db.campaigns ≡ 0) × (w'.db ≡ w.db)
  unfolding check_others
  check_others-ok w' h =
      let (store, w₁, got, rest) =
        bind-ok (map_err db_failed (get_store_profile_by_store_id store_id)) listed_others env w
          h in
      let (rows, w₂, listed, passed) =
        bind-ok (map_err db_failed (get_campaigns_by_store_id store_id)) (compare_limit store) env
          w₁ rest in
      let (all, kept) = get_campaigns-ok store_id env w₁ w₂ rows listed in
      let (zero, still) = enforce_limit-ok store.plan _ env w₂ w' passed in
      let same : w₁.db ≡ w.db =
        ap (λ x. World.db x.1) (sym got) ∙ (store-Reads store_id).keeps env w in
      let p : Campaign → Bool = λ c. is_active c && not (Campaign.id c == id) in
      (
        sym (count_campaigns-keep_if (of_store store_id) p w.db.campaigns)
            ∙ ap (λ d. count_campaigns p (keep_if (of_store store_id) (MerchantDb.campaigns d)))
                (sym same)
            ∙ ap (count_campaigns p) (sym all)
            ∙ zero,
        ap World.db still ∙ kept ∙ same,
      )

  gate-ok :
      (is_checked : Bool) (w' : World MerchantDb)
      → (if is_checked then check_others id store_id else pure tt) env w ≡ (ok tt, w')
      → (is_checked ≡ true → count_campaigns (is_other_of store_id id) w.db.campaigns ≡ 0)
        × (w'.db ≡ w.db)
  gate-ok true w' h = let (zero, kept) = check_others-ok w' h in (λ _. zero, kept)
  gate-ok false w' h = (λ e. absurd (ground arith), ground arith)

  set_status-at_most_one :
      (status : String) (now : Time)
      → IsSingle w.db
      → (str_eq status "active" ≡ true
          → count_campaigns (is_other_of store_id id) w.db.campaigns ≡ 0)
      → IsSingle (with_campaigns (set_status id store_id status now w.db.campaigns) w.db)
  set_status-at_most_one status now h few = record {
    keyed = set_status-IsKeyed id store_id status now w.db.campaigns h.keyed;
    at_most_one = λ s. elim (Bool-cases (str_eq status "active")) [
      | inr n ↦ omega (
        arith,
        h.at_most_one s,
        count_campaigns-set_inactive id store_id status now s w.db.campaigns n,
      )
      | inl y ↦ elim (Bool-cases (store_id == s)) [
        | inr n ↦ omega (
          arith,
          h.at_most_one s,
          count_campaigns-set_ne id store_id status now s w.db.campaigns n,
        )
        | inl e ↦
            let own : store_id ≡ s = ground (arith, e) in
            omega (
              arith,
              subst (λ t. count_campaigns (is_other_of t id) w.db.campaigns ≡ 0) own (few y),
              count_campaigns-set_status id store_id status now s w.db.campaigns h.keyed,
            )
      ]
    ];
  }

  -- An UpdateCampaignStatus that returns, with whatever status, keeps each store at one active
  -- campaign or none, and the identifiers distinct.
  pub update_campaign_status-IsSingle :
      (status : String) (w' : World MerchantDb)
      → IsSingle w.db
      → update_campaign_status id store_id status env w ≡ (ok tt, w')
      → IsSingle w'.db
  unfolding update_campaign_status
  update_campaign_status-IsSingle status w' h run =
      let (u, w₁, checked, rest) =
        bind-ok (if str_eq status "active" then check_others id store_id else pure tt)
          (λ _. map_err db_failed (update_status id store_id status)) env w run in
      let (few, kept) = gate-ok (str_eq status "active") w₁ checked in
      let stored = update_status-ok id store_id status env w₁ w' rest in
      subst IsSingle
        (ap
            (λ d.
              with_campaigns
                (set_status id store_id status (env.now w₁.calls) (MerchantDb.campaigns d)) d)
            (sym kept)
          ∙ sym stored)
        (set_status-at_most_one status (env.now w₁.calls) h few)
