-- ===== src/Merchant/Campaigns/Tests.antt =====
-- Campaigns at single inputs (campaign_usecase.go), and the theorems at them.
use moneymate_backend.Shared.{
  ◌+◌, ◌≡◌, refl, arith, ◌==◌, Bool-cases, inl, inr, none, some, [], ◌∷◌, find_by,
}
use moneymate_backend.Shared.Int.{pos}
use moneymate_backend.Shared.Action.{Env, World, Result, ok, err}
use moneymate_backend.Errors.{DbError}
use moneymate_backend.Merchant.Campaigns.{
  Campaign, CampaignError, essential_limit_reached, growth, MerchantDb, with_campaigns,
  count_campaigns, get_store_profile_by_store_id, get_campaigns_by_store_id, insert_campaign_row,
  insert_campaign, set_status, update_status, enforce_limit, create_campaign, check_others,
  update_campaign_status,
}
use moneymate_backend.Merchant.Campaigns.Counting.{is_active_of}
use moneymate_backend.Merchant.Campaigns.Limits.{IsSingle, create_campaign-single}
use moneymate_backend.Merchant.Campaigns.Changing.{update_campaign_status-IsSingle}

abbrev still : Env DbError
still = record { fault = λ n. none; now = λ n. 50; new_uuid = λ n. 100 + n }

abbrev offer : Campaign
offer = record {
  id = 1;
  store_id = 7;
  name = "ten off";
  redeem_code = some "TEN";
  offer_category = none;
  offer_type = "flat";
  reward_value = pos 1000;
  min_bill_amount = pos 0;
  redemption_limit = pos 5;
  target_audience = "all";
  banner_url = none;
  start_date = 0;
  end_date = 90;
  status = "paused";
  created_at = 0;
  updated_at = 0;
}

abbrev start : World MerchantDb
start = record {
  db = record { stores = record { id = 7; plan = growth } ∷ []; campaigns = offer ∷ [] };
  calls = 0;
}

start-IsSingle : IsSingle start.db
unfolding count_campaigns find_by
start-IsSingle = record {
  keyed = (refl, tt);
  at_most_one =
      λ s. elim (Bool-cases (7 == s)) [ inl y ↦ ground (arith, y) | inr n ↦ ground (arith, n) ];
}

abbrev draft : Campaign
draft = record offer { redeem_code = none; status = "" }

abbrev creation : Result CampaignError Campaign × World MerchantDb
creation = create_campaign draft still start

abbrev made : Campaign
made = record draft { id = 102; status = "active"; created_at = 50; updated_at = 50 }

creates : creation ≡ (ok made, creation.1)
unfolding create_campaign get_store_profile_by_store_id get_campaigns_by_store_id enforce_limit
    insert_campaign insert_campaign_row count_campaigns find_by
creates = refl

create_campaign-single_example :
    (count_campaigns (is_active_of 7) start.db.campaigns ≡ 0)
    × (creation.1.db ≡ with_campaigns (made ∷ start.db.campaigns) start.db)
    × (made.store_id ≡ draft.store_id)
    × (made.status ≡ "active")
    × (find_by Campaign.id made.id start.db.campaigns ≡ none)
create_campaign-single_example = create_campaign-single draft still start made creation.1 creates

abbrev waking : Result CampaignError Unit × World MerchantDb
waking = update_campaign_status 1 7 "active" still start

wakes : waking ≡ (ok tt, waking.1)
unfolding update_campaign_status check_others get_store_profile_by_store_id
    get_campaigns_by_store_id enforce_limit update_status set_status count_campaigns find_by
wakes = refl

update_campaign_status-IsSingle_example : IsSingle waking.1.db
update_campaign_status-IsSingle_example =
    update_campaign_status-IsSingle 1 7 still start "active" waking.1 start-IsSingle wakes

-- A store with the growth plan is refused its second campaign.
refused : (create_campaign draft still creation.1).0 ≡ err essential_limit_reached
unfolding create_campaign get_store_profile_by_store_id get_campaigns_by_store_id enforce_limit
    insert_campaign insert_campaign_row count_campaigns find_by
refused = refl
