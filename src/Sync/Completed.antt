-- ===== src/Sync/Completed.antt =====
-- The end of an import: what a completed import and a failed one leave.
use esim_backend.Base.{
  ℕ, suc, ◌≡◌, refl, subst, inl, inr, none, List, ⊤, if◌then◌else◌, Bool-cases, Result, ok, err,
  Action, pure, throw, modify, recover, catching, continue, for_each, ◌>>=◌, ◌>>◌,
}
use esim_backend.Base.Lists.{IsIn}
use esim_backend.Base.Keeps.{Keeps}
use esim_backend.Sync.Data.{
  AiraloPackage, AiraloOperator, AiraloCountry, SyncStatus, SyncException, SyncEnv, SyncDb,
}
use esim_backend.Sync.Plans.{airalo, slug_of, deactivate_stale}
use esim_backend.Sync.Airalo.{
  process_package, close_log, is_topup, sync_package, sync_countries, import_all, sync_plans,
}
use esim_backend.Sync.Kept.{OfPlans, Has, Keeps-sync_package}
use esim_backend.Base.Loops.{Keeps-each, Keeps-for_each_in, for_each_all_in}
use esim_backend.Sync.Imported.{IsFresh, IsData, IsFresh-patched, IsOnSale, process_package-Has}

module _ ⦃env : SyncEnv⦄ where
  module _ (now : ℕ) (countries : List AiraloCountry) where
    Keeps-IsOnSale :
        (country country' : AiraloCountry) (operator : AiraloOperator) (pkg pkg' : AiraloPackage)
        → IsIn country' countries
        → IsIn operator country'.operators
        → IsIn pkg' operator.packages
        → Keeps
            (OfPlans (IsOnSale now countries country pkg))
            (sync_package now country' operator pkg')
    Keeps-IsOnSale country country' operator pkg pkg' c o m = record {
      kept = λ before inv. elim inv [
        | inl topup ↦ inl topup
        | inr fresh ↦ inr (
            (Keeps-sync_package now (IsData now countries)
                (IsFresh now countries (slug_of country pkg))
                (IsFresh-patched now countries (slug_of country pkg)) country' operator pkg'
                (λ d r. (country', operator, pkg', d, r, c, o, m, refl))).kept
              before fresh)
      ];
    }

    sync_package-IsOnSale :
        (country : AiraloCountry) (operator : AiraloOperator) (pkg : AiraloPackage)
        (db : SyncDb env)
        → IsIn country countries
        → IsIn operator country.operators
        → IsIn pkg operator.packages
        → (sync_package now country operator pkg db).0 ≡ ok tt
        → IsOnSale now countries country pkg (sync_package now country operator pkg db).1.plans
    unfolding sync_package catching modify throw ◌>>=◌
    sync_package-IsOnSale country operator pkg db c o m done = elim (Bool-cases (is_topup pkg)) [
      | inl topup ↦ inl topup
      | inr sold ↦ inr (
          rw sold (
            by_result (process_package now country operator pkg db) refl
              (subst (λ b. ((if b then pure tt else counted) db).0 ≡ ok tt) sold done)))
    ]
      where
        fail : Action SyncException (SyncDb env) ⊤
        fail = modify (close_log SyncStatus.failed) >> throw SyncException.supplier_failed

        count : Action SyncException (SyncDb env) ⊤
        count = modify λ d. record d { synced = suc d.synced }

        counted : Action SyncException (SyncDb env) ⊤
        counted = catching (process_package now country operator pkg) fail >> count

        after : Result SyncException ⊤ × SyncDb env → Result SyncException ⊤ × SyncDb env
        after out = let (r, d) = recover out.0 fail out.1 in continue r (λ _. count) d

        by_result :
            (out : Result SyncException ⊤ × SyncDb env)
            → process_package now country operator pkg db ≡ out
            → (after out).0 ≡ ok tt
            → Has
                (IsFresh now countries (slug_of country pkg))
                (after (process_package now country operator pkg db)).1.plans
        by_result (err e, d) h done = cc done
        by_result (ok tt, d) h done = rw h (
            subst (λ o. Has (IsFresh now countries (slug_of country pkg)) o.1.plans) h
              (process_package-Has now countries country operator c o pkg db m (rw h refl)))

    -- Each package of the countries is on sale.
    abbrev pub AreOnSale : env.plan.Table → Type 0
    AreOnSale t =
        (country : AiraloCountry)
        → IsIn country countries
        → (operator : AiraloOperator) → IsIn operator country.operators
        → (pkg : AiraloPackage) → IsIn pkg operator.packages
        → IsOnSale now countries country pkg t

    pub sync_countries-AreOnSale :
        (db : SyncDb env)
        → (sync_countries now countries db).0 ≡ ok tt
        → AreOnSale (sync_countries now countries db).1.plans
    unfolding sync_countries
    sync_countries-AreOnSale db done =
        for_each_all_in of_country run_country countries
          (λ country d c done'.
            for_each_all_in (of_operator country) (run_operator country) country.operators
              (λ operator d' o done''.
                for_each_all_in (of_package country) (sync_package now country operator)
                  operator.packages
                  (λ pkg d'' m done'''.
                    sync_package-IsOnSale country operator pkg d'' c o m done''')
                  (λ pkg pkg' m. Keeps-IsOnSale country country operator pkg pkg' c o m) d' done'')
              (λ operator operator' o. keeps_operator country country operator operator' c o) d
              done')
          (λ country country' c. keeps_country country country' c) db done
      where
        run_operator : AiraloCountry → AiraloOperator → Action SyncException (SyncDb env) ⊤
        run_operator country operator =
            for_each operator.packages (sync_package now country operator)

        run_country : AiraloCountry → Action SyncException (SyncDb env) ⊤
        run_country country = for_each country.operators (run_operator country)

        of_package : AiraloCountry → AiraloPackage → SyncDb env → Type 0
        of_package country pkg d = IsOnSale now countries country pkg d.plans

        of_operator : AiraloCountry → AiraloOperator → SyncDb env → Type 0
        of_operator country operator d =
            (pkg : AiraloPackage) → IsIn pkg operator.packages → of_package country pkg d

        of_country : AiraloCountry → SyncDb env → Type 0
        of_country country d =
            (operator : AiraloOperator)
            → IsIn operator country.operators
            → of_operator country operator d

        keeps_operator :
            (country country' : AiraloCountry) (operator operator' : AiraloOperator)
            → IsIn country' countries
            → IsIn operator' country'.operators
            → Keeps (of_operator country operator) (run_operator country' operator')
        keeps_operator country country' operator operator' c o =
            Keeps-each (of_package country) operator.packages (run_operator country' operator')
              λ pkg.
                Keeps-for_each_in operator'.packages _
                  λ pkg' m. Keeps-IsOnSale country country' operator' pkg pkg' c o m

        keeps_country :
            (country country' : AiraloCountry)
            → IsIn country' countries
            → Keeps (of_country country) (run_country country')
        keeps_country country country' c =
            Keeps-each (of_operator country) country.operators (run_country country') λ operator.
              Keeps-for_each_in country'.operators _
                λ operator' o. keeps_operator country country' operator operator' c o

  -- How a run ends, by what became of the import.
  abbrev pub finish : ℕ → Result SyncException ⊤ × SyncDb env → Result SyncException ⊤ × SyncDb env
  finish sync_started_at (ok a, db) =
      deactivate_stale airalo sync_started_at (close_log SyncStatus.completed db)
  finish sync_started_at (err e, db) = (
    ok tt,
    record db { log = record { status = SyncStatus.failed; items_synced = db.log.items_synced } },
  )

  abbrev pub opened : SyncDb env → SyncDb env
  opened db = record db {
    log = record { status = SyncStatus.started; items_synced = none };
    synced = 0;
  }

  pub sync_plans-finish :
      (fuel sync_started_at now : ℕ) (db : SyncDb env)
      → sync_plans fuel sync_started_at now db
        ≡ finish sync_started_at (import_all fuel now (opened db))
  unfolding sync_plans catching modify ◌>>=◌ deactivate_stale
  sync_plans-finish fuel sync_started_at now db = by_result (import_all fuel now (opened db))
    where
      done : SyncDb env → Result SyncException ⊤ × SyncDb env
      done d = deactivate_stale airalo sync_started_at (close_log SyncStatus.completed d)

      fail : Action SyncException (SyncDb env) ⊤
      fail = modify λ d. record d {
        log = record { status = SyncStatus.failed; items_synced = d.log.items_synced };
      }

      by_result :
          (out : Result SyncException ⊤ × SyncDb env)
          → (let (r, d) =
                continue out.0
                  (λ _.
                    modify (close_log SyncStatus.completed)
                    >> deactivate_stale airalo sync_started_at)
                  out.1 in
              recover r fail d)
            ≡ finish sync_started_at out
      by_result (ok tt, d) = refl
      by_result (err e, d) = refl
