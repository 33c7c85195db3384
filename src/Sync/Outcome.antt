-- ===== src/Sync/Outcome.antt =====
-- What a run of the import comes to.
use esim_backend.Base.{ℕ, ◌≤◌, ◌≡◌, ◌⊎◌, true, false, some, List, ok, err}
use esim_backend.Base.Text.{Text}
use esim_backend.Sync.Data.{AiraloCountry, SyncedPlan, SyncStatus, SyncException, SyncEnv, SyncDb}
use esim_backend.Sync.Plans.{airalo}
use esim_backend.Sync.Airalo.{fetch_all_packages, import_all}
use esim_backend.Sync.Kept.{Has}
use esim_backend.Sync.Completed.{AreOnSale, opened}

module _ ⦃env : SyncEnv⦄ where
  -- No plan of the supplier is on sale that was last imported before the run.
  abbrev pub NoneStale : ℕ → env.plan.Table → Type 0
  NoneStale sync_started_at t =
      (p : SyncedPlan) (time : ℕ)
      → env.plan.Holds p t
      → p.provider ≡ airalo
      → p.is_active ≡ true
      → p.last_synced_at ≡ some time
      → sync_started_at ≤ time

  -- The plans on sale are still on sale.
  abbrev pub StayActive : env.plan.Table → env.plan.Table → Type 0
  StayActive before after =
      (p : SyncedPlan)
      → env.plan.Holds p before
      → p.is_active ≡ true
      → Has (λ q. (q.id ≡ p.id) × (q.is_active ≡ true)) after

  module _ (sync_started_at : ℕ) where
    abbrev off : SyncedPlan → SyncedPlan
    off p = record p { is_active = false }

  -- How the run from `before` is over.
  abbrev pub IsOver : ℕ → ℕ → ℕ → SyncDb env → SyncDb env → Type 0
  IsOver fuel sync_started_at now before db =
      ((db.log.status ≡ SyncStatus.completed)
        × ((countries : List AiraloCountry) × (fetch_all_packages fuel ≡ ok countries)
            × AreOnSale now countries db.plans)
        × NoneStale sync_started_at db.plans)
      ⊎ ((db.log.status ≡ SyncStatus.failed)
          × ((e : SyncException) × ((import_all fuel now (opened before)).0 ≡ err e))
          × StayActive before.plans db.plans)
