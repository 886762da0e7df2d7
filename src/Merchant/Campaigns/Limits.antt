-- ===== src/Merchant/Campaigns/Limits.antt =====
-- The limit of active campaigns (campaign_usecase.go).
use moneymate_backend.Shared.{
  ap, sym, subst, ◌∙◌, ℕ, ◌≤◌, ◌≡◌, inl, inr, arith, none, List, ◌∷◌, Bool-cases, find_by, keep_if,
  IsKeyed, ◌==◌,
}
use moneymate_backend.Shared.Action.{
  Env, World, ok, Reads, map_err-Reads, query-Reads, bind-ok, map_err, ◌>>=◌,
}
use moneymate_backend.Errors.{DbError}
use moneymate_backend.Merchant.Campaigns.{
  Uuid, Campaign, CampaignCall, db_failed, SubscriptionPlan, essential, growth, enterprise,
  plan_text, Store, MerchantDb, with_campaigns, of_store, is_active, count_campaigns,
  get_store_profile_by_store_id, get_campaigns_by_store_id, insert_campaign_row, insert_campaign,
  enforce_limit, create_campaign,
}
use moneymate_backend.Merchant.Campaigns.Counting.{is_active_of, count_campaigns-keep_if}

-- Whatever the plan, the limit is that of the essential one.
pub enforce_limit-ok :
    (plan : SubscriptionPlan) (n : ℕ) (env : Env DbError) (w w' : World MerchantDb)
    → enforce_limit (plan_text plan) n env w ≡ (ok tt, w')
    → (n ≡ 0) × (w' ≡ w)
unfolding enforce_limit
enforce_limit-ok essential n env w w' h = (ground arith, ground arith)
enforce_limit-ok growth n env w w' h = (ground arith, ground arith)
enforce_limit-ok enterprise n env w w' h = (ground arith, ground arith)

-- At most one active campaign for each store, and no two rows of one identifier.
pub record IsSingle (d : MerchantDb) : Type 0 where
  pub keyed : IsKeyed Campaign.id d.campaigns
  pub at_most_one : (s : Uuid) → count_campaigns (is_active_of s) d.campaigns ≤ 1

pub store-Reads : (id : Uuid) → Reads (map_err db_failed (get_store_profile_by_store_id id))
unfolding get_store_profile_by_store_id
store-Reads id = map_err-Reads db_failed (query-Reads _)

pub get_campaigns-ok :
    (id : Uuid) (env : Env DbError) (w w' : World MerchantDb) (rows : List Campaign)
    → map_err db_failed (get_campaigns_by_store_id id) env w ≡ (ok rows, w')
    → (rows ≡ keep_if (of_store id) w.db.campaigns) × (w'.db ≡ w.db)
unfolding get_campaigns_by_store_id
get_campaigns-ok id env w w' rows h = (ground arith, ground arith)

insert_campaign-ok :
    (c : Campaign) (env : Env DbError) (w w' : World MerchantDb) (created : Campaign)
    → map_err db_failed (insert_campaign c) env w ≡ (ok created, w')
    → (w'.db ≡ with_campaigns (created ∷ w.db.campaigns) w.db)
      × (created.store_id ≡ c.store_id)
      × (created.status ≡ c.status)
      × (find_by Campaign.id created.id w.db.campaigns ≡ none)
unfolding insert_campaign insert_campaign_row
insert_campaign-ok c env w w' created h = (ground arith, ground arith, ground arith, ground arith)

module _ (c : Campaign) (env : Env DbError) (w : World MerchantDb) where
  abbrev last_step : CampaignCall Campaign
  last_step = map_err db_failed (insert_campaign (record c { status = "active" }))

  abbrev after_campaigns : Store → List Campaign → CampaignCall Campaign
  after_campaigns store rows =
      enforce_limit (plan_text store.plan) (count_campaigns is_active rows) >>= λ _. last_step

  abbrev after_store : Store → CampaignCall Campaign
  after_store store =
      map_err db_failed (get_campaigns_by_store_id c.store_id) >>= after_campaigns store

  -- CreateCampaign returns only for a store without an active campaign, whatever its plan, and the
  -- campaign that it returns, an active one, is the one row that is new.
  pub create_campaign-single :
      (created : Campaign) (w' : World MerchantDb)
      → create_campaign c env w ≡ (ok created, w')
      → (count_campaigns (is_active_of c.store_id) w.db.campaigns ≡ 0)
        × (w'.db ≡ with_campaigns (created ∷ w.db.campaigns) w.db)
        × (created.store_id ≡ c.store_id)
        × (created.status ≡ "active")
        × (find_by Campaign.id created.id w.db.campaigns ≡ none)
  unfolding create_campaign
  create_campaign-single created w' h =
      let (store, w₁, got, rest) =
        bind-ok (map_err db_failed (get_store_profile_by_store_id c.store_id)) after_store env w
          h in
      let (rows, w₂, listed, rest₁) =
        bind-ok (map_err db_failed (get_campaigns_by_store_id c.store_id)) (after_campaigns store)
          env w₁ rest in
      let (u, w₃, passed, rest₂) =
        bind-ok (enforce_limit (plan_text store.plan) (count_campaigns is_active rows))
          (λ _. last_step) env w₂ rest₁ in
      let (all, kept) = get_campaigns-ok c.store_id env w₁ w₂ rows listed in
      let (zero, still) =
        enforce_limit-ok store.plan (count_campaigns is_active rows) env w₂ w₃ passed in
      let (stored, own, active, free) =
        insert_campaign-ok (record c { status = "active" }) env w₃ w' created rest₂ in
      let same : w₃.db ≡ w.db =
        ap World.db still
        ∙ kept
        ∙ ap (λ x. World.db x.1) (sym got)
        ∙ (store-Reads c.store_id).keeps env w in
      let same₁ : w₁.db ≡ w.db =
        ap (λ x. World.db x.1) (sym got) ∙ (store-Reads c.store_id).keeps env w in
      (
        sym (count_campaigns-keep_if (of_store c.store_id) is_active w.db.campaigns)
            ∙ ap
                (λ d.
                  count_campaigns is_active
                    (keep_if (of_store c.store_id) (MerchantDb.campaigns d)))
                (sym same₁)
            ∙ ap (count_campaigns is_active) (sym all)
            ∙ zero,
        subst (λ d. w'.db ≡ with_campaigns (created ∷ MerchantDb.campaigns d) d) same stored,
        own,
        active,
        subst (λ d. find_by Campaign.id created.id (MerchantDb.campaigns d) ≡ none) same free,
      )

-- After a new row, no other store has more.
with_campaign-IsSingle :
    (created : Campaign) (d : MerchantDb)
    → IsSingle d
    → find_by Campaign.id created.id d.campaigns ≡ none
    → count_campaigns (is_active_of created.store_id) d.campaigns ≡ 0
    → IsSingle (with_campaigns (created ∷ d.campaigns) d)
unfolding count_campaigns
with_campaign-IsSingle created d h free zero = record {
  keyed = (free, h.keyed);
  at_most_one = λ s. elim (Bool-cases (created.store_id == s)) [
    | inl y ↦
        let same : created.store_id ≡ s = ground (arith, y) in
        ground (arith, subst (λ t. count_campaigns (is_active_of t) d.campaigns ≡ 0) same zero)
    | inr n ↦ ground (arith, n, h.at_most_one s)
  ];
}

module _ (env : Env DbError) (w : World MerchantDb) (single : IsSingle w.db) where
  -- A CreateCampaign that returns keeps each store at one active campaign or none, and the
  -- identifiers distinct.
  pub create_campaign-IsSingle :
      (c created : Campaign) (w' : World MerchantDb)
      → create_campaign c env w ≡ (ok created, w')
      → IsSingle w'.db
  create_campaign-IsSingle c created w' h =
      let (zero, stored, own, active, free) = create_campaign-single c env w created w' h in
      subst IsSingle (sym stored) (
        with_campaign-IsSingle created w.db single free
          (ap (λ s. count_campaigns (is_active_of s) w.db.campaigns) own ∙ zero))
