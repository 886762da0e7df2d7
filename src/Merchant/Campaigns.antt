-- ===== src/Merchant/Campaigns.antt =====
-- services/merchant: internal/usecases/campaign_usecase.go, internal/adapter/postgres/repo/campaign_repo.go
-- and sqlc/generated/campaigns.sql.go. The amounts of an offer are what the columns hold, in hundredths.
pub mod Counting
pub mod Limits
pub mod Changing
pub mod Tests
use Prim.Native.String.{count}
use moneymate_backend.Shared.{
  ℕ, ◌+◌, String, Bool, true, false, not, ◌&&◌, ◌||◌, Option, none, some, List, [], ◌∷◌, is_some,
  any, find_by, find?, keep_if, leb, ltb, ◌==◌, str_eq, if◌then◌else◌,
}
use moneymate_backend.Shared.Int.{ℤ}
use moneymate_backend.Shared.Action.{
  Action, Result, ok, err, ◌>>=◌, ◌>>◌, pure, raise, raise_if, map_err, statement, query,
}
use moneymate_backend.Errors.{DbError, no_rows, pg_error}

abbrev pub Uuid : Type 0
Uuid = ℕ

abbrev pub Time : Type 0
Time = ℕ

pub record Campaign : Type 0 where
  pub id : Uuid
  pub store_id : Uuid
  pub name : String
  pub redeem_code : Option String
  pub offer_category : Option String
  pub offer_type : String
  pub reward_value : ℤ
  pub min_bill_amount : ℤ
  pub redemption_limit : ℤ
  pub target_audience : String
  pub banner_url : Option String
  pub start_date : Time
  pub end_date : Time
  pub status : String
  pub created_at : Time
  pub updated_at : Time

-- The type `subscription_plan`
pub data SubscriptionPlan : Type 0 where
  essential growth enterprise : SubscriptionPlan

-- `plan::text`
abbrev pub plan_text : SubscriptionPlan → String
plan_text essential = "essential"
plan_text growth = "growth"
plan_text enterprise = "enterprise"

-- Of a store only the identifier and the plan matter here.
pub record Store : Type 0 where
  pub id : Uuid
  pub plan : SubscriptionPlan

pub record MerchantDb : Type 0 where
  pub stores : List Store
  pub campaigns : List Campaign

pub data CampaignError : Type 0 where
  db_failed : DbError → CampaignError
  growth_limit_reached essential_limit_reached : CampaignError

abbrev pub CampaignCall : Type 0 → Type 0
CampaignCall A = Action DbError MerchantDb CampaignError A

abbrev pub CampaignQuery : Type 0 → Type 0
CampaignQuery A = Action DbError MerchantDb DbError A

abbrev found_store : Option Store → Result DbError Store
found_store none = err no_rows
found_store (some s) = ok s

unfoldable pub get_store_profile_by_store_id : Uuid → CampaignQuery Store
get_store_profile_by_store_id store = query λ d. found_store (find_by Store.id store d.stores)

abbrev pub of_store : Uuid → Campaign → Bool
of_store store c = Campaign.store_id c == store

-- The order of the answer, by `created_at`, does not matter to those who ask.
unfoldable pub get_campaigns_by_store_id : Uuid → CampaignQuery (List Campaign)
get_campaigns_by_store_id store = query λ d. ok (keep_if (of_store store) d.campaigns)

abbrev pub with_campaigns : List Campaign → MerchantDb → MerchantDb
with_campaigns rows d = record d { campaigns = rows }

abbrev longer : ℕ → Option String → Bool
longer n none = false
longer n (some s) = ltb n (count s)

-- A text that is longer than its column.
abbrev is_too_long : Campaign → Bool
is_too_long c =
    ltb 255 (count c.name)
    || longer 50 c.redeem_code
    || longer 100 c.offer_category
    || ltb 100 (count c.offer_type)
    || ltb 100 (count c.target_audience)
    || ltb 20 (count c.status)

abbrev same_code : Option String → Option String → Bool
same_code (some a) (some b) = str_eq a b
same_code _ _ = false

-- `campaigns`, with its keys and the type of its columns.
unfoldable pub insert_campaign_row : Campaign → MerchantDb → Result DbError (Campaign × MerchantDb)
insert_campaign_row c d =
    if is_too_long c
    then err (pg_error "22001" "")
    else if is_some (find_by Campaign.id c.id d.campaigns)
    then err (pg_error "23505" "campaigns_pkey")
    else if is_some (find? (λ b. same_code (Campaign.redeem_code b) c.redeem_code) d.campaigns)
    then err (pg_error "23505" "campaigns_redeem_code_key")
    else if is_some (find_by Store.id c.store_id d.stores)
    then ok (c, with_campaigns (c ∷ d.campaigns) d)
    else err (pg_error "23503" "campaigns_store_id_fkey")

unfoldable pub insert_campaign : Campaign → CampaignQuery Campaign
insert_campaign c = statement λ now fresh d.
    insert_campaign_row (record c { id = fresh; created_at = now; updated_at = now }) d

abbrev pub with_status : String → Time → Campaign → Campaign
with_status status now c = record c { status = status; updated_at = now }

-- `WHERE id = $1 AND store_id = $3`
unfoldable pub set_status : Uuid → Uuid → String → Time → List Campaign → List Campaign
set_status id store status now [] = []
set_status id store status now (c ∷ rows) =
    (if Campaign.id c == id && of_store store c then with_status status now c else c)
    ∷ set_status id store status now rows

unfoldable pub update_status : Uuid → Uuid → String → CampaignQuery Unit
update_status id store status = statement λ now _ d.
    if ltb 20 (count status)
    then err (pg_error "22001" "")
    else ok (tt, with_campaigns (set_status id store status now d.campaigns) d)

abbrev pub is_active : Campaign → Bool
is_active c = str_eq (Campaign.status c) "active"

-- How many of the campaigns pass a test.
unfoldable pub count_campaigns : (Campaign → Bool) → List Campaign → ℕ
count_campaigns p [] = 0
count_campaigns p (c ∷ rows) = (if p c then 1 else 0) + count_campaigns p rows

-- `switch store.Plan`: the texts are compared as they are written.
unfoldable pub enforce_limit : String → ℕ → CampaignCall Unit
enforce_limit plan active_count =
    if str_eq plan "Enterprise"
    then pure tt
    else if str_eq plan "Growth"
    then raise_if (leb 5 active_count) growth_limit_reached
    else raise_if (leb 1 active_count) essential_limit_reached

-- `CreateCampaign`
unfoldable pub create_campaign : Campaign → CampaignCall Campaign
create_campaign c = do
  store ← map_err db_failed (get_store_profile_by_store_id c.store_id)
  campaigns ← map_err db_failed (get_campaigns_by_store_id c.store_id)
  enforce_limit (plan_text store.plan) (count_campaigns is_active campaigns)
  map_err db_failed (insert_campaign (record c { status = "active" }))

-- The limit, with the campaign that is changed left out of the count.
unfoldable pub check_others : Uuid → Uuid → CampaignCall Unit
check_others id store_id = do
  store ← map_err db_failed (get_store_profile_by_store_id store_id)
  campaigns ← map_err db_failed (get_campaigns_by_store_id store_id)
  enforce_limit (plan_text store.plan)
      (count_campaigns (λ c. is_active c && not (Campaign.id c == id)) campaigns)

-- `UpdateCampaignStatus`
unfoldable pub update_campaign_status : Uuid → Uuid → String → CampaignCall Unit
update_campaign_status id store_id status =
    (if str_eq status "active" then check_others id store_id else pure tt)
    >> map_err db_failed (update_status id store_id status)
