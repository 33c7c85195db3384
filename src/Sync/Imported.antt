-- ===== src/Sync/Imported.antt =====
-- A completed import: each package of the answer is a plan on sale.
use esim_backend.Base.{
  ℕ, ◌≡◌, refl, sym, subst, ◌⊎◌, inl, Bool, true, false, Option, none, some, List, [], ◌==◌,
  ==_refl, ltb, ⊤, if◌then◌else◌, given_or, ok, Action, throw, gets, modify, unless_found, ◌>>=◌,
}
use esim_backend.Base.Lists.{length, IsIn}
use esim_backend.Base.Text.{Text, eqb_iff}
use esim_backend.Base.Stepping.{bind_inv}
use esim_backend.Storage.Rows.{find_one}
use esim_backend.Sync.Data.{
  AiraloPackage, AiraloOperator, AiraloCountry, PlanDto, SyncedPlan, SyncException, SyncEnv, SyncDb,
}
use esim_backend.Sync.Plans.{
  airalo, patch_plan, new_plan, slug_of, find_by_slug, create_plan, update_plan, plan_data,
  upsert_plan,
}
use esim_backend.Sync.Places.{resolve_destination, resolve_region}
use esim_backend.Sync.Airalo.{process_package, is_topup}
use esim_backend.Sync.Kept.{Has, IsPatched}

-- The plan is what a package of the answer is sold as: it has the package's id, costs, price and days.
pub record IsSold (countries : List AiraloCountry) (p : SyncedPlan) : Type 0 where
  pub country : AiraloCountry
  pub operator : AiraloOperator
  pub pkg : AiraloPackage
  pub of_answer : IsIn country countries
  pub of_country : IsIn operator country.operators
  pub of_operator : IsIn pkg operator.packages
  pub provider : p.provider ≡ airalo
  pub id : p.provider_plan_id ≡ pkg.id
  pub cost : p.cost_price ≡ pkg.net_price
  pub retail : p.retail_price ≡ pkg.price
  pub days : p.duration_days ≡ pkg.day

-- The plan has the slug, is active, was imported at `now`, and is a package of the answer.
pub record IsFresh (now : ℕ) (countries : List AiraloCountry) (slug : Text) (p : SyncedPlan)
    : Type 0 where
  pub of_slug : p.slug ≡ slug
  pub active : p.is_active ≡ true
  pub at_now : p.last_synced_at ≡ some now
  pub sold : IsSold countries p

module _ ⦃env : SyncEnv⦄ (now : ℕ) (countries : List AiraloCountry) where
  -- What the import makes of a package of the answer.
  abbrev pub IsData : PlanDto → Type 0
  IsData dto =
      (country : AiraloCountry) × (operator : AiraloOperator) × (pkg : AiraloPackage)
      × (destination_id : Option ℕ) × (region_id : Option ℕ) × IsIn country countries
      × IsIn operator country.operators
      × IsIn pkg operator.packages
      × (dto ≡ plan_data now country operator pkg destination_id region_id)

  IsFresh-patch :
      (slug : Text) (dto : PlanDto) (p : SyncedPlan)
      → IsData dto
      → p.slug ≡ slug
      → IsFresh now countries slug (patch_plan dto p)
  unfolding plan_data
  IsFresh-patch slug dto p (country, operator, pkg, d, r, c, o, m, same) of_slug =
      subst (λ x. IsFresh now countries slug (patch_plan x p)) (sym same)
        (record {
          of_slug = of_slug;
          active = refl;
          at_now = refl;
          sold = record {
            country = country;
            operator = operator;
            pkg = pkg;
            of_answer = c;
            of_country = o;
            of_operator = m;
            provider = refl;
            id = refl;
            cost = refl;
            retail = refl;
            days = refl;
          };
        })

  IsFresh-new :
      (id : ℕ) (slug : Text) (dto : PlanDto)
      → IsData dto
      → IsFresh now countries slug (new_plan id slug dto)
  unfolding plan_data
  IsFresh-new id slug dto (country, operator, pkg, d, r, c, o, m, same) =
      subst (λ x. IsFresh now countries slug (new_plan id slug x)) (sym same)
        (record {
          of_slug = refl;
          active = refl;
          at_now = refl;
          sold = record {
            country = country;
            operator = operator;
            pkg = pkg;
            of_answer = c;
            of_country = o;
            of_operator = m;
            provider = refl;
            id = refl;
            cost = refl;
            retail = refl;
            days = refl;
          };
        })

  pub IsFresh-patched : (slug : Text) → IsPatched IsData (IsFresh now countries slug)
  IsFresh-patched slug p dto data' fresh = IsFresh-patch slug dto p data' fresh.of_slug

  -- The package is a plan on sale, unless it is a top-up.
  abbrev pub IsOnSale : AiraloCountry → AiraloPackage → env.plan.Table → Type 0
  IsOnSale country pkg t =
      (is_topup pkg ≡ true) ⊎ Has (IsFresh now countries (slug_of country pkg)) t

  create_plan-Has :
      (slug : Text) (dto : PlanDto) (db : SyncDb env)
      → IsData dto
      → (create_plan slug dto db).0 ≡ ok tt
      → Has (IsFresh now countries slug) (create_plan slug dto db).1.plans
  unfolding create_plan unless_found modify throw ◌>>=◌ gets find_by_slug
  create_plan-Has slug dto db data' done = by_slug (find_by_slug slug db) done
    where
      write : Action SyncException (SyncDb env) ⊤
      write = modify λ db. record db {
        plans = env.plan.insert (new_plan (env.plan.next_id db.plans) slug dto) db.plans;
      }

      by_slug :
          (found : Option SyncedPlan)
          → (unless_found found write (λ p. throw SyncException.slug_already_exists) db).0 ≡ ok tt
          → Has
              (IsFresh now countries slug)
              (unless_found found write (λ p. throw SyncException.slug_already_exists) db).1.plans
      by_slug (some p) done = cc done
      by_slug none done = (
        new_plan (env.plan.next_id db.plans) slug dto,
        (env.plan.Holds-insert _ _ db.plans).1 (inl refl),
        IsFresh-new (env.plan.next_id db.plans) slug dto data',
      )

  update_plan-Has :
      (slug : Text) (dto : PlanDto) (e : SyncedPlan) (db : SyncDb env)
      → IsData dto
      → env.plan.Holds e db.plans
      → e.slug ≡ slug
      → (update_plan e.id dto db).0 ≡ ok tt
      → Has (IsFresh now countries slug) (update_plan e.id dto db).1.plans
  unfolding update_plan unless_found modify throw ◌>>=◌ gets
  update_plan-Has slug dto e db data' row of_slug done =
      by_id (find_one env.plan (λ p. p.id == e.id) db.plans) done
    where
      write : SyncedPlan → Action SyncException (SyncDb env) ⊤
      write p =
          modify λ db. record db {
            plans = env.plan.update (λ x. x.id == e.id) (patch_plan dto) db.plans;
          }

      by_id :
          (found : Option SyncedPlan)
          → (unless_found found (throw SyncException.plan_not_found) write db).0 ≡ ok tt
          → Has
              (IsFresh now countries slug)
              (unless_found found (throw SyncException.plan_not_found) write db).1.plans
      by_id none done = cc done
      by_id (some p) done = (
        patch_plan dto e,
        (env.plan.Holds-update _ _ _ db.plans).1 (e, row, rw (==_refl e.id) refl),
        IsFresh-patch slug dto e data' of_slug,
      )

  found_by_slug :
      (slug : Text) (db : SyncDb env) (p : SyncedPlan)
      → find_by_slug slug db ≡ some p
      → env.plan.Holds p db.plans × (p.slug ≡ slug)
  unfolding find_by_slug
  found_by_slug slug db p found = (
    env.plan.find_latest-Holds _ _ db.plans found,
    (eqb_iff p.slug slug).0 (env.plan.find_latest_passes _ _ db.plans found),
  )

  module _ (country : AiraloCountry) (operator : AiraloOperator) (c : IsIn country countries)
      (o : IsIn operator country.operators) where
    upsert_plan-Has :
        (pkg : AiraloPackage) (destination_id region_id : Option ℕ) (db : SyncDb env)
        → IsIn pkg operator.packages
        → (upsert_plan now country operator pkg destination_id region_id db).0 ≡ ok tt
        → Has
            (IsFresh now countries (slug_of country pkg))
            (upsert_plan now country operator pkg destination_id region_id db).1.plans
    unfolding upsert_plan ◌>>=◌ gets unless_found
    upsert_plan-Has pkg destination_id region_id db m done =
        by_slug (find_by_slug (slug_of country pkg) db) refl done
      where
        data' : PlanDto
        data' = plan_data now country operator pkg destination_id region_id

        of_answer : IsData data'
        of_answer = (country, operator, pkg, destination_id, region_id, c, o, m, refl)

        by_slug :
            (found : Option SyncedPlan)
            → find_by_slug (slug_of country pkg) db ≡ found
            → (unless_found found
                (create_plan (slug_of country pkg) data')
                (λ p. update_plan p.id data')
                db).0
              ≡ ok tt
            → Has
                (IsFresh now countries (slug_of country pkg))
                (unless_found found
                  (create_plan (slug_of country pkg) data')
                  (λ p. update_plan p.id data')
                  db).1.plans
        by_slug none e done = create_plan-Has (slug_of country pkg) data' db of_answer done
        by_slug (some p) e done =
            let (row, this) = found_by_slug (slug_of country pkg) db p e in
            update_plan-Has (slug_of country pkg) data' p db of_answer row this done

    pub process_package-Has :
        (pkg : AiraloPackage) (db : SyncDb env)
        → IsIn pkg operator.packages
        → (process_package now country operator pkg db).0 ≡ ok tt
        → Has
            (IsFresh now countries (slug_of country pkg))
            (process_package now country operator pkg db).1.plans
    unfolding process_package
    process_package-Has pkg db m done =
        by_region (ltb 1 (length (given_or operator.countries []))) done
      where
        in_region : Action SyncException (SyncDb env) ⊤
        in_region = resolve_region country (given_or operator.countries []) >>= λ r.
            upsert_plan now country operator pkg none (some r)

        in_country : Action SyncException (SyncDb env) ⊤
        in_country = resolve_destination country.country_code country.title country.image >>= λ d.
            upsert_plan now country operator pkg (some d) none

        by_region :
            (many : Bool)
            → ((if many then in_region else in_country) db).0 ≡ ok tt
            → Has
                (IsFresh now countries (slug_of country pkg))
                ((if many then in_region else in_country) db).1.plans
        by_region true done =
            let (r, db', step, done', whole) =
              bind_inv (resolve_region country (given_or operator.countries [])) _ db done in
            subst (λ out. Has (IsFresh now countries (slug_of country pkg)) out.1.plans) (sym whole)
              (upsert_plan-Has pkg none (some r) db' m done')
        by_region false done =
            let (d, db', step, done', whole) =
              bind_inv (resolve_destination country.country_code country.title country.image) _ db
                done in
            subst (λ out. Has (IsFresh now countries (slug_of country pkg)) out.1.plans) (sym whole)
              (upsert_plan-Has pkg (some d) none db' m done')
