-- ===== src/Sync/Plans.antt =====
-- src/esim-providers/airalo/airalo.service.ts: upsertPlan, with create and update of
-- src/plans/plans.service.ts and the deactivation of src/plans/infrastructure/persistence/relational/
-- repositories/plan.repository.ts.
use esim_backend.Base.{
  ℕ, Bool, true, false, ◌&&◌, Option, none, some, ◌==◌, ltb, ⊤, if◌then◌else◌, given_or, Action,
  throw, gets, modify, unless_found, ◌>>=◌,
}
use esim_backend.Base.Text.{Text, text, eqb}
use esim_backend.Storage.Rows.{find_one}
use esim_backend.Sync.Data.{
  AiraloPackage, AiraloOperator, AiraloCountry, PlanDto, SyncedPlan, SyncException, SyncEnv, SyncDb,
}
use esim_backend.Sync.Labels.{build_plan_slug, build_plan_name, format_hot_spot_allow}

abbrev pub airalo : Text
airalo = text "airalo"

abbrev pub patch_plan : PlanDto → SyncedPlan → SyncedPlan
patch_plan dto p = record {
  id = p.id;
  slug = p.slug;
  provider = dto.provider;
  provider_plan_id = dto.provider_plan_id;
  name = dto.name;
  country_code = dto.country_code;
  destination_id = dto.destination_id;
  region_id = dto.region_id;
  duration_days = dto.duration_days;
  data_mb = dto.data_mb;
  cost_price = dto.cost_price;
  price = dto.price;
  retail_price = dto.retail_price;
  plan_type = dto.plan_type;
  is_kyc = dto.is_kyc;
  apn = dto.apn;
  hot_spot_allow = dto.hot_spot_allow;
  last_synced_at = some dto.last_synced_at;
  is_active = dto.is_active;
}

abbrev pub new_plan : ℕ → Text → PlanDto → SyncedPlan
new_plan id slug dto = record {
  id = id;
  slug = slug;
  provider = dto.provider;
  provider_plan_id = dto.provider_plan_id;
  name = dto.name;
  country_code = dto.country_code;
  destination_id = dto.destination_id;
  region_id = dto.region_id;
  duration_days = dto.duration_days;
  data_mb = dto.data_mb;
  cost_price = dto.cost_price;
  price = dto.price;
  retail_price = dto.retail_price;
  plan_type = dto.plan_type;
  is_kyc = dto.is_kyc;
  apn = dto.apn;
  hot_spot_allow = dto.hot_spot_allow;
  last_synced_at = some dto.last_synced_at;
  is_active = dto.is_active;
}

-- `"provider" = $1 AND "lastSyncedAt" IS NOT NULL AND "lastSyncedAt" < $2`
abbrev pub is_stale : Text → ℕ → SyncedPlan → Bool
is_stale provider sync_started_at p =
    eqb p.provider provider
    && elim p.last_synced_at [ none ↦ false | some t ↦ ltb t sync_started_at ]

abbrev pub plan_type_of : AiraloPackage → Text
plan_type_of pkg = if pkg.is_unlimited then text "unlimited-reduce" else text "fixed"

module _ ⦃env : SyncEnv⦄ where
  abbrev pub Importing : Type 0 → Type 0
  Importing A = Action SyncException (SyncDb env) A

  abbrev pub slug_of : AiraloCountry → AiraloPackage → Text
  unfolding build_plan_slug
  slug_of country pkg = build_plan_slug country.title pkg.amount pkg.day airalo (plan_type_of pkg)

  unfoldable pub find_by_slug : Text → SyncDb env → Option SyncedPlan
  find_by_slug slug db = find_one env.plan (λ p. eqb p.slug slug) db.plans

  unfoldable pub create_plan : Text → PlanDto → Importing ⊤
  unfolding ◌>>=◌ find_by_slug
  create_plan slug dto = do
    existing_by_slug ← gets (find_by_slug slug)
    unless_found existing_by_slug
        (modify λ db. record db {
          plans = env.plan.insert (new_plan (env.plan.next_id db.plans) slug dto) db.plans;
        })
        λ p. throw SyncException.slug_already_exists

  unfoldable pub update_plan : ℕ → PlanDto → Importing ⊤
  unfolding ◌>>=◌
  update_plan id dto = do
    entity ← gets λ db. find_one env.plan (λ p. p.id == id) db.plans
    unless_found entity (throw SyncException.plan_not_found) λ p.
        modify
          λ db. record db { plans = env.plan.update (λ x. x.id == id) (patch_plan dto) db.plans }

  unfoldable pub plan_data :
      ℕ → AiraloCountry → AiraloOperator → AiraloPackage → Option ℕ → Option ℕ → PlanDto
  unfolding build_plan_name format_hot_spot_allow
  plan_data now country operator pkg destination_id region_id =
      let data_mb = if pkg.is_unlimited then 3072 else pkg.amount in
      let plan_type = plan_type_of pkg in
      record {
        provider = airalo;
        provider_plan_id = pkg.id;
        name = build_plan_name country.title data_mb pkg.day plan_type;
        country_code = elim destination_id [ none ↦ none | some d ↦ some country.country_code ];
        destination_id = destination_id;
        region_id = region_id;
        duration_days = pkg.day;
        data_mb = data_mb;
        cost_price = pkg.net_price;
        price = pkg.net_price;
        retail_price = pkg.price;
        plan_type = plan_type;
        is_kyc = given_or operator.is_kyc_verify false;
        apn = operator.apn_value;
        hot_spot_allow = format_hot_spot_allow plan_type data_mb;
        last_synced_at = now;
        is_active = true;
      }

  unfoldable pub upsert_plan :
      ℕ → AiraloCountry → AiraloOperator → AiraloPackage → Option ℕ → Option ℕ → Importing ⊤
  unfolding ◌>>=◌ find_by_slug create_plan update_plan slug_of plan_data
  upsert_plan now country operator pkg destination_id region_id = do
    existing ← gets (find_by_slug (slug_of country pkg))
    unless_found existing
        (create_plan (slug_of country pkg)
          (plan_data now country operator pkg destination_id region_id))
        λ p. update_plan p.id (plan_data now country operator pkg destination_id region_id)

  unfoldable pub deactivate_stale : Text → ℕ → Importing ⊤
  deactivate_stale provider sync_started_at = modify λ db. record db {
    plans =
        env.plan.update (is_stale provider sync_started_at) (λ p. record p { is_active = false })
          db.plans;
  }
