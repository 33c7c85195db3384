-- ===== src/Sync/Places.antt =====
-- src/esim-providers/airalo/airalo.service.ts: resolveDestination and resolveRegion, with
-- src/destinations/destinations.service.ts and src/regions/regions.service.ts as far as they call them.
use esim_backend.Base.{
  ℕ, Bool, false, ◌&&◌, ◌||◌, Option, none, some, List, [], ◌∷◌, ◌++◌, ◌==◌, ⊤, if◌then◌else◌, pure,
  throw, gets, modify, catching, unless_found, for_each, ◌>>=◌, ◌>>◌,
}
use esim_backend.Base.Text.{Text, text, eqb}
use esim_backend.Storage.Rows.{find_one}
use esim_backend.Sync.Data.{
  AiraloOperatorCountry, AiraloCountry, Region, SyncException, SyncEnv, SyncDb,
}
use esim_backend.Sync.Labels.{to_slug}
use esim_backend.Sync.Plans.{Importing}

abbrev pub is_linked : ℕ → ℕ → List (ℕ × ℕ) → Bool
is_linked destination_id region_id [] = false
is_linked destination_id region_id ((d, r) ∷ links) =
    (d == destination_id && r == region_id) || is_linked destination_id region_id links

module _ ⦃env : SyncEnv⦄ where
  -- `destinationsService.create`
  unfoldable pub create_destination : Text → Text → Text → Option Text → Importing ℕ
  unfolding ◌>>=◌
  create_destination name slug country_code flag_url = do
    existing_by_slug ← gets λ db. find_one env.destination (λ d. eqb d.slug slug) db.destinations
    id ← gets λ db. env.destination.next_id db.destinations
    unless_found existing_by_slug
        (do
          modify λ db. record db {
            destinations =
                env.destination.insert
                  (record {
                    id = id;
                    name = name;
                    slug = slug;
                    country_code = country_code;
                    flag_url = flag_url;
                  })
                  db.destinations;
          }
          pure id)
        λ d. throw SyncException.slug_already_exists

  -- `catch { … }` of resolveDestination
  unfoldable pub destination_by_slug : Text → Importing ℕ
  unfolding ◌>>=◌
  destination_by_slug slug = do
    by_slug ← gets λ db. find_one env.destination (λ d. eqb d.slug slug) db.destinations
    unless_found by_slug (throw SyncException.unresolved) λ d. pure d.id

  unfoldable pub resolve_destination : Text → Text → Option Text → Importing ℕ
  unfolding ◌>>=◌ create_destination destination_by_slug to_slug
  resolve_destination country_code title flag_url = do
    existing ←
        gets λ db. find_one env.destination (λ d. eqb d.country_code country_code) db.destinations
    by_name ← gets λ db. find_one env.destination (λ d. eqb d.name title) db.destinations
    unless_found existing
        (unless_found by_name
          (catching (create_destination title (to_slug title) country_code flag_url)
            (destination_by_slug (to_slug title)))
          λ d. pure d.id)
        λ d. pure d.id

  abbrev pub has_code : Text → Region → Bool
  has_code external_code r = elim r.external_code [
    | none ↦ false
    | some code ↦ eqb code external_code
  ]

  unfoldable pub find_by_external_code : Text → SyncDb env → Option Region
  find_by_external_code external_code db = find_one env.region (has_code external_code) db.regions

  -- `regionsService.create`
  unfoldable pub create_region : Text → Text → Option Text → Importing ℕ
  unfolding ◌>>=◌ find_by_external_code
  create_region name code icon_url = do
    by_slug ← gets λ db. find_one env.region (λ r. eqb r.slug code) db.regions
    by_code ← gets (find_by_external_code code)
    id ← gets λ db. env.region.next_id db.regions
    unless_found by_slug
        (unless_found by_code
          (do
            modify λ db. record db {
              regions =
                  env.region.insert
                    (record {
                      id = id;
                      name = name;
                      slug = code;
                      external_code = some code;
                      icon_url = icon_url;
                    })
                    db.regions;
            }
            pure id)
          λ r. throw SyncException.external_code_already_exists)
        λ r. throw SyncException.slug_already_exists

  unfoldable pub region_by_code : Text → Importing ℕ
  unfolding ◌>>=◌ find_by_external_code
  region_by_code external_code = do
    retry ← gets (find_by_external_code external_code)
    unless_found retry (throw SyncException.unresolved) λ r. pure r.id

  unfoldable pub add_region : ℕ → ℕ → Importing ⊤
  unfolding ◌>>=◌
  add_region destination_id region_id = do
    entity ← gets λ db. find_one env.destination (λ d. d.id == destination_id) db.destinations
    already_linked ← gets λ db. is_linked destination_id region_id db.links
    unless_found entity (pure tt) λ d.
        if already_linked
        then pure tt
        else modify λ db. record db { links = (destination_id, region_id) ∷ db.links }

  unfoldable pub link_country : ℕ → AiraloOperatorCountry → Importing ⊤
  unfolding ◌>>=◌ resolve_destination add_region
  link_country region_id c = do
    destination_id ← resolve_destination c.country_code c.title c.image
    add_region destination_id region_id

  unfoldable pub resolve_region : AiraloCountry → List AiraloOperatorCountry → Importing ℕ
  unfolding ◌>>=◌ find_by_external_code create_region region_by_code link_country for_each
  resolve_region country operator_countries = do
    let external_code = text "airalo-" ++ country.slug
    existing ← gets (find_by_external_code external_code)
    region_id ←
        unless_found existing
          (catching (create_region country.title external_code country.image)
            (region_by_code external_code))
          λ r. pure r.id
    for_each operator_countries (link_country region_id)
    pure region_id
