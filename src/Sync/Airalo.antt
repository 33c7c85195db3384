-- ===== src/Sync/Airalo.antt =====
-- src/esim-providers/airalo/airalo.service.ts: syncPlans and fetchAllPackages. The loop over
-- the pages runs on fuel.
use esim_backend.Base.{
  ℕ, zero, suc, ◌+◌, Bool, none, some, List, [], ◌++◌, leb, ltb, ⊤, if◌then◌else◌, given_or, Result,
  ok, err, pure, throw, modify, catching, for_each, ◌>>=◌, ◌>>◌,
}
use esim_backend.Base.Lists.{length}
use esim_backend.Base.Text.{Text, text, eqb}
use esim_backend.Sync.Data.{
  AiraloPackage, AiraloOperator, AiraloCountry, SyncStatus, SyncException, SyncEnv, SyncDb,
}
use esim_backend.Sync.Plans.{airalo, Importing, upsert_plan, deactivate_stale}
use esim_backend.Sync.Places.{resolve_destination, resolve_region}

module _ ⦃env : SyncEnv⦄ where
  unfoldable pub process_package : ℕ → AiraloCountry → AiraloOperator → AiraloPackage → Importing ⊤
  unfolding ◌>>=◌ resolve_region resolve_destination upsert_plan
  process_package now country operator pkg =
      let operator_countries = given_or operator.countries [] in
      if ltb 1 (length operator_countries)
      then (do
        region_id ← resolve_region country operator_countries
        upsert_plan now country operator pkg none (some region_id))
      else (do
        destination_id ← resolve_destination country.country_code country.title country.image
        upsert_plan now country operator pkg (some destination_id) none)

  -- The rest of a turn of the loop over the pages, with what the later turns return.
  abbrev pub after_page :
      ℕ
      → Result SyncException (List AiraloCountry)
      → Result SyncException (List AiraloCountry × ℕ)
      → Result SyncException (List AiraloCountry)
  after_page page rest (err e) = err e
  after_page page rest (ok (countries, last_page)) =
      if leb (page + 1) last_page
      then elim rest [ err e ↦ err e | ok more ↦ ok (countries ++ more) ]
      else ok countries

  -- `page` of `fetchAllPackages` and those behind it
  unfoldable pub fetch_from : ℕ → Text → ℕ → Result SyncException (List AiraloCountry)
  fetch_from zero token page = err SyncException.supplier_failed
  fetch_from (suc fuel) token page =
      after_page page (fetch_from fuel token (page + 1)) (env.get_packages token page)

  unfoldable pub after_sign_in :
      ℕ → Result SyncException Text → Result SyncException (List AiraloCountry)
  unfolding fetch_from
  after_sign_in fuel (err e) = err e
  after_sign_in fuel (ok token) = fetch_from fuel token 1

  unfoldable pub fetch_all_packages : ℕ → Result SyncException (List AiraloCountry)
  unfolding after_sign_in
  fetch_all_packages fuel = after_sign_in fuel env.authenticate

  abbrev pub close_log : SyncStatus → SyncDb env → SyncDb env
  close_log status db = record db {
    log = record { status = status; items_synced = some db.synced };
  }

  abbrev pub is_topup : AiraloPackage → Bool
  is_topup pkg = eqb pkg.package_type (text "topup")

  unfoldable pub sync_package : ℕ → AiraloCountry → AiraloOperator → AiraloPackage → Importing ⊤
  unfolding ◌>>=◌ process_package
  sync_package now country operator pkg = if is_topup pkg then pure tt else (do
    catching (process_package now country operator pkg)
        (modify (close_log SyncStatus.failed) >> throw SyncException.supplier_failed)
    modify λ db. record db { synced = suc db.synced })

  unfoldable pub sync_countries : ℕ → List AiraloCountry → Importing ⊤
  unfolding for_each sync_package
  sync_countries now countries = for_each countries λ country.
      for_each country.operators
        λ operator. for_each operator.packages (sync_package now country operator)

  unfoldable pub import_all : ℕ → ℕ → Importing ⊤
  unfolding ◌>>=◌ fetch_all_packages sync_countries
  import_all fuel now = elim (fetch_all_packages fuel) [
    | err e ↦ throw e
    | ok countries ↦ sync_countries now countries
  ]

  -- `now` is the time of the rows' `lastSyncedAt`.
  unfoldable pub sync_plans : ℕ → ℕ → ℕ → Importing ⊤
  unfolding ◌>>=◌ import_all deactivate_stale
  sync_plans fuel sync_started_at now = do
    modify λ db. record db {
      log = record { status = SyncStatus.started; items_synced = none };
      synced = 0;
    }
    catching
        (do
          import_all fuel now
          modify (close_log SyncStatus.completed)
          deactivate_stale airalo sync_started_at)
        (modify λ db. record db {
          log = record { status = SyncStatus.failed; items_synced = db.log.items_synced };
        })
