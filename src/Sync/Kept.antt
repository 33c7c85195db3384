-- ===== src/Sync/Kept.antt =====
-- What an import keeps: a plan with a property that every patch of the import keeps, and a plan's activity.
use esim_backend.Base.{ℕ, refl, inl, inr, Option, List, ◌==◌, Bool-cases, modify}
use esim_backend.Base.Text.{Text}
use esim_backend.Base.Keeps.{Keeps, keeps_rules}
use esim_backend.Sync.Data.{
  AiraloPackage, AiraloOperatorCountry, AiraloOperator, AiraloCountry, PlanDto, SyncedPlan,
  ProviderSyncLog, SyncException, SyncEnv, SyncDb,
}
use esim_backend.Sync.Plans.{patch_plan, create_plan, update_plan, plan_data, upsert_plan}
use esim_backend.Sync.Places.{
  create_destination, destination_by_slug, resolve_destination, create_region, region_by_code,
  add_region, link_country, resolve_region,
}
use esim_backend.Sync.Airalo.{process_package, sync_package, sync_countries}

module _ ⦃env : SyncEnv⦄ where
  -- An invariant of the plans alone.
  abbrev pub OfPlans : (env.plan.Table → Type 0) → SyncDb env → Type 0
  OfPlans Q db = Q db.plans

  module _ (Q : env.plan.Table → Type 0) where
    Keeps-destinations :
        (write : SyncDb env → env.destination.Table)
        → Keeps {X = SyncException} (OfPlans Q) (modify λ db. record db { destinations = write db })
    unfolding modify
    Keeps-destinations write = record { kept = λ before inv. inv }

    Keeps-regions :
        (write : SyncDb env → env.region.Table)
        → Keeps {X = SyncException} (OfPlans Q) (modify λ db. record db { regions = write db })
    unfolding modify
    Keeps-regions write = record { kept = λ before inv. inv }

    Keeps-links :
        (write : SyncDb env → List (ℕ × ℕ))
        → Keeps {X = SyncException} (OfPlans Q) (modify λ db. record db { links = write db })
    unfolding modify
    Keeps-links write = record { kept = λ before inv. inv }

    pub Keeps-log :
        (write : SyncDb env → ProviderSyncLog)
        → Keeps {X = SyncException} (OfPlans Q) (modify λ db. record db { log = write db })
    unfolding modify
    Keeps-log write = record { kept = λ before inv. inv }

    pub Keeps-synced :
        (write : SyncDb env → ℕ)
        → Keeps {X = SyncException} (OfPlans Q) (modify λ db. record db { synced = write db })
    unfolding modify
    Keeps-synced write = record { kept = λ before inv. inv }

    pub Keeps-resolve_destination :
        (country_code title : Text) (flag_url : Option Text)
        → Keeps (OfPlans Q) (resolve_destination country_code title flag_url)
    unfolding resolve_destination create_destination destination_by_slug
    Keeps-resolve_destination country_code title flag_url =
        search (keeps_rules, Keeps-destinations) depth 14

    Keeps-link_country :
        (region_id : ℕ) (c : AiraloOperatorCountry) → Keeps (OfPlans Q) (link_country region_id c)
    unfolding link_country add_region
    Keeps-link_country region_id c =
        search (keeps_rules, Keeps-resolve_destination, Keeps-links) depth 12

    pub Keeps-resolve_region :
        (country : AiraloCountry) (cs : List AiraloOperatorCountry)
        → Keeps (OfPlans Q) (resolve_region country cs)
    unfolding resolve_region create_region region_by_code
    Keeps-resolve_region country cs =
        search (keeps_rules, Keeps-regions, Keeps-link_country) depth 16

  -- A plan with the property is there.
  abbrev pub Has : (SyncedPlan → Type 0) → env.plan.Table → Type 0
  Has P t = (p : SyncedPlan) × env.plan.Holds p t × P p

  -- A patch by an allowed request keeps the property.
  abbrev pub IsPatched : (PlanDto → Type 0) → (SyncedPlan → Type 0) → Type 0
  IsPatched Allowed P = (p : SyncedPlan) (dto : PlanDto) → Allowed dto → P p → P (patch_plan dto p)

  module _ (now : ℕ) (Allowed : PlanDto → Type 0) (P : SyncedPlan → Type 0)
      (patched : IsPatched Allowed P) where
    Has-insert : (p : SyncedPlan) (t : env.plan.Table) → Has P t → Has P (env.plan.insert p t)
    Has-insert p t (x, row, holds) = (x, (env.plan.Holds-insert x p t).1 (inr row), holds)

    Has-patch :
        (id : ℕ) (dto : PlanDto) (t : env.plan.Table)
        → Allowed dto
        → Has P t
        → Has P (env.plan.update (λ x. x.id == id) (patch_plan dto) t)
    Has-patch id dto t allowed (x, row, holds) = elim (Bool-cases (x.id == id)) [
      | inl this ↦ (
        patch_plan dto x,
        (env.plan.Holds-update _ _ _ t).1 (x, row, rw this refl),
        patched x dto allowed holds,
      )
      | inr other ↦ (x, (env.plan.Holds-update _ _ _ t).1 (x, row, rw other refl), holds)
    ]

    Keeps-insert_plan :
        (plan : SyncDb env → SyncedPlan)
        → Keeps {X = SyncException}
            (OfPlans (Has P))
            (modify λ db. record db { plans = env.plan.insert (plan db) db.plans })
    unfolding modify
    Keeps-insert_plan plan = record {
      kept = λ before inv. Has-insert (plan before) before.plans inv;
    }

    Keeps-patch_plan :
        (id : ℕ) (dto : PlanDto)
        → Allowed dto
        → Keeps {X = SyncException} (OfPlans (Has P)) (
            modify λ db. record db {
              plans = env.plan.update (λ x. x.id == id) (patch_plan dto) db.plans;
            })
    unfolding modify
    Keeps-patch_plan id dto allowed = record {
      kept = λ before inv. Has-patch id dto before.plans allowed inv;
    }

    Keeps-create_plan :
        (slug : Text) (dto : PlanDto) → Keeps (OfPlans (Has P)) (create_plan slug dto)
    unfolding create_plan
    Keeps-create_plan slug dto = search (keeps_rules, Keeps-insert_plan) depth 8

    Keeps-update_plan :
        (id : ℕ) (dto : PlanDto) → Allowed dto → Keeps (OfPlans (Has P)) (update_plan id dto)
    unfolding update_plan
    Keeps-update_plan id dto allowed = search (keeps_rules, Keeps-patch_plan) depth 8

    -- What the import makes of the package is allowed.
    abbrev pub AllowsPackage : AiraloCountry → AiraloOperator → AiraloPackage → Type 0
    AllowsPackage country operator pkg =
        (destination_id region_id : Option ℕ)
        → Allowed (plan_data now country operator pkg destination_id region_id)

    module _ (country : AiraloCountry) (operator : AiraloOperator) (pkg : AiraloPackage)
        (allowed : AllowsPackage country operator pkg) where
      Keeps-upsert_plan :
          (destination_id region_id : Option ℕ)
          → Keeps (OfPlans (Has P)) (upsert_plan now country operator pkg destination_id region_id)
      unfolding upsert_plan
      Keeps-upsert_plan destination_id region_id =
          let refreshed : (id : ℕ)
              → Keeps (OfPlans (Has P))
                  (update_plan id (plan_data now country operator pkg destination_id region_id)) =
            λ id. Keeps-update_plan id _ (allowed destination_id region_id) in
          search (keeps_rules, Keeps-create_plan, refreshed) depth 8

      Keeps-process_package : Keeps (OfPlans (Has P)) (process_package now country operator pkg)
      unfolding process_package
      Keeps-process_package =
          search (keeps_rules, Keeps-resolve_region, Keeps-resolve_destination, Keeps-upsert_plan)
            depth 8

      pub Keeps-sync_package : Keeps (OfPlans (Has P)) (sync_package now country operator pkg)
      unfolding sync_package
      Keeps-sync_package =
          search (keeps_rules, Keeps-process_package, Keeps-log, Keeps-synced) depth 10

    pub Keeps-sync_countries :
        (countries : List AiraloCountry)
        → ((country : AiraloCountry) (operator : AiraloOperator) (pkg : AiraloPackage)
            → AllowsPackage country operator pkg)
        → Keeps (OfPlans (Has P)) (sync_countries now countries)
    unfolding sync_countries
    Keeps-sync_countries countries allowed =
        let synced : (country : AiraloCountry) (operator : AiraloOperator) (pkg : AiraloPackage)
            → Keeps (OfPlans (Has P)) (sync_package now country operator pkg) =
          λ country operator pkg.
            Keeps-sync_package country operator pkg (allowed country operator pkg) in
        search (keeps_rules, synced) depth 10
