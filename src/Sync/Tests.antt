-- ===== src/Sync/Tests.antt =====
-- An import of two pages, of which one plan of the shop is no longer part.
use esim_backend.Base.{
  ℕ, ◌≡◌, refl, Bool, true, false, none, some, List, [], ◌∷◌, ◌==◌, if◌then◌else◌, ok, arith,
}
use esim_backend.Base.Int.{pos}
use esim_backend.Base.Text.{Text, text, trim, to_lower, is_space}
use esim_backend.Storage.RowLists.{row_store}
use esim_backend.Sync.Data.{AiraloPackage, AiraloCountry, SyncedPlan, SyncStatus, SyncEnv, SyncDb}
use esim_backend.Sync.Labels.{is_slug_unit, to_slug, build_plan_slug}
use esim_backend.Sync.Plans.{airalo}
use esim_backend.Sync.Airalo.{fetch_all_packages, sync_plans}
use esim_backend.Sync.Pages.{pages, fetch_all_packages_lem}

abbrev sold : Text → ℕ → AiraloPackage
sold id amount = record {
  id = id;
  package_type = text "sim";
  price = pos 450;
  amount = amount;
  day = 7;
  is_unlimited = false;
  net_price = pos 400;
}

abbrev country_of : Text → Text → AiraloCountry
country_of code title = record {
  slug = code;
  country_code = code;
  title = title;
  image = none;
  operators =
      record {
        is_kyc_verify = none;
        apn_value = none;
        packages = sold (text "p1") 1024 ∷ [];
        countries = none;
      }
      ∷ [];
}

abbrev answer : ℕ → List AiraloCountry
answer page =
    if page == 1
    then country_of (text "JP") (text "Japan") ∷ []
    else country_of (text "KR") (text "South Korea") ∷ []

instance abbrev market : SyncEnv
market = record {
  plan = row_store λ p. p.id;
  destination = row_store λ d. d.id;
  region = row_store λ r. r.id;
  authenticate = ok (text "token");
  get_packages = λ token page. ok (answer page, 2);
  number_text = λ n. text "7";
  quotient_text = λ n. text "1";
  tenth_text = λ n. text "1";
}

abbrev old_plan : SyncedPlan
old_plan = record {
  id = 1;
  slug = text "france-1gb-7days-fixed-ai";
  provider = airalo;
  provider_plan_id = text "p0";
  name = text "France";
  country_code = none;
  destination_id = none;
  region_id = none;
  duration_days = 7;
  data_mb = 1024;
  cost_price = pos 400;
  price = pos 400;
  retail_price = pos 450;
  plan_type = text "fixed";
  is_kyc = false;
  apn = none;
  hot_spot_allow = none;
  last_synced_at = some 50;
  is_active = true;
}

abbrev db : SyncDb market
db = record {
  plans = old_plan ∷ [];
  destinations = [];
  regions = [];
  links = [];
  log = record { status = SyncStatus.started; items_synced = none };
  synced = 0;
}

slug :
    build_plan_slug (text "South  Korea!") 1024 7 airalo (text "fixed")
    ≡ text "south-korea-1gb-7days-fixed-ai"
unfolding build_plan_slug to_slug is_slug_unit to_lower is_space trim
slug = refl

fetch_all_packages_lem_example : fetch_all_packages 5 ≡ ok (pages answer 1 1)
fetch_all_packages_lem_example =
    fetch_all_packages_lem (text "token") answer 2 (λ page. refl) 4 1 (omega arith) refl refl

abbrev statuses : List SyncedPlan → List (ℕ × Bool)
statuses [] = []
statuses (p ∷ ps) = (p.id, p.is_active) ∷ statuses ps

-- Two plans are new, the old one goes.
imported : statuses ((sync_plans 5 100 120 db).1.plans) ≡ (3, true) ∷ (2, true) ∷ (1, false) ∷ []
unfolding sync_plans
imported = refl
