-- ===== src/Sync/Data.antt =====
-- The rows of the plans, destinations and regions as the import of Airalo's plans writes them
-- (src/plans, src/destinations, src/regions, src/provider-sync-logs), and what Airalo answers
-- (src/esim-providers/airalo/airalo-api.types.ts). Left out: the columns for the networks, the currency and the
-- pictures but the flag.
use esim_backend.Base.{ℕ, Bool, Option, List, Result}
use esim_backend.Base.Int.{ℤ}
use esim_backend.Base.Text.{Text}
use esim_backend.Storage.Rows.{RowStore}

pub record AiraloPackage : Type 0 where
  pub id : Text
  pub package_type : Text
  pub price : ℤ
  pub amount : ℕ
  pub day : ℕ
  pub is_unlimited : Bool
  pub net_price : ℤ

pub record AiraloOperatorCountry : Type 0 where
  pub country_code : Text
  pub title : Text
  pub image : Option Text

pub record AiraloOperator : Type 0 where
  pub is_kyc_verify : Option Bool
  pub apn_value : Option Text
  pub packages : List AiraloPackage
  pub countries : Option (List AiraloOperatorCountry)

pub record AiraloCountry : Type 0 where
  pub slug : Text
  pub country_code : Text
  pub title : Text
  pub image : Option Text
  pub operators : List AiraloOperator

-- The columns that an import sets.
pub record PlanDto : Type 0 where
  pub provider : Text
  pub provider_plan_id : Text
  pub name : Text
  pub country_code : Option Text
  pub destination_id : Option ℕ
  pub region_id : Option ℕ
  pub duration_days : ℕ
  pub data_mb : ℕ
  pub cost_price : ℤ
  pub price : ℤ
  pub retail_price : ℤ
  pub plan_type : Text
  pub is_kyc : Bool
  pub apn : Option Text
  pub hot_spot_allow : Option Text
  pub last_synced_at : ℕ
  pub is_active : Bool

pub record SyncedPlan : Type 0 where
  pub id : ℕ
  pub slug : Text
  pub provider : Text
  pub provider_plan_id : Text
  pub name : Text
  pub country_code : Option Text
  pub destination_id : Option ℕ
  pub region_id : Option ℕ
  pub duration_days : ℕ
  pub data_mb : ℕ
  pub cost_price : ℤ
  pub price : ℤ
  pub retail_price : ℤ
  pub plan_type : Text
  pub is_kyc : Bool
  pub apn : Option Text
  pub hot_spot_allow : Option Text
  pub last_synced_at : Option ℕ
  pub is_active : Bool

pub record Destination : Type 0 where
  pub id : ℕ
  pub name : Text
  pub slug : Text
  pub country_code : Text
  pub flag_url : Option Text

pub record Region : Type 0 where
  pub id : ℕ
  pub name : Text
  pub slug : Text
  pub external_code : Option Text
  pub icon_url : Option Text

pub data SyncStatus : Type 0 where
  started completed failed : SyncStatus

pub record ProviderSyncLog : Type 0 where
  pub status : SyncStatus
  pub items_synced : Option ℕ

pub data SyncException : Type 0 where
  supplier_failed slug_already_exists external_code_already_exists plan_not_found unresolved :
      SyncException

-- The tables, the pages of Airalo's answer with the number of the last page, and how JavaScript writes a number
-- and the quotients of a number by 1024 and by 10.
pub record SyncEnv : Type 1 where
  pub plan : RowStore SyncedPlan λ p. p.id
  pub destination : RowStore Destination λ d. d.id
  pub region : RowStore Region λ r. r.id
  pub authenticate : Result SyncException Text
  pub get_packages : Text → ℕ → Result SyncException (List AiraloCountry × ℕ)
  pub number_text : ℕ → Text
  pub quotient_text : ℕ → Text
  pub tenth_text : ℕ → Text

-- `log` is the log of the run, `synced` its variable `itemsSynced`, `links` the countries of the regions.
pub record SyncDb (env : SyncEnv) : Type 0 where
  pub plans : env.plan.Table
  pub destinations : env.destination.Table
  pub regions : env.region.Table
  pub links : List (ℕ × ℕ)
  pub log : ProviderSyncLog
  pub synced : ℕ
