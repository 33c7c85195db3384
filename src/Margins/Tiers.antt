-- ===== src/Margins/Tiers.antt =====
-- `createTier`, `updateTier`, `removeTier`, `validateNoOverlap`, `getProfitPercentageForVndPrice` and
-- `calculatePrice`, with the queries of the repository. The state is the list of the rows that are not
-- deleted; a percentage (not negative) counts hundredths of a percent and a cost cents, with exact arithmetic where
-- the code uses doubles. The recalculation of the plans' prices, which follows each change, writes no
-- tier and stands in Plans.
use esim_backend.Base.{
  given_or, ℕ, ◌+◌, ◌*◌, Bool, true, false, not, ◌&&◌, Option, none, some, List, [], ◌∷◌, ⊤, Action,
  pure, gets, modify, throw, throw_if, unless_found, ◌>>=◌, ◌>>◌, ltb, leb, ◌==◌, if◌then◌else◌,
}
use esim_backend.Base.Int.{round_div}

pub record ProfitMarginTier : Type 0 where
  pub id : ℕ
  pub min_vnd : ℕ
  pub max_vnd : ℕ
  pub percentage : ℕ
  pub fixed_amount_vnd : ℕ
  pub is_active : Bool

pub record CreateTierDto : Type 0 where
  pub min_vnd : ℕ
  pub max_vnd : ℕ
  pub percentage : ℕ
  pub fixed_amount_vnd : Option ℕ
  pub is_active : Option Bool

pub data RangeException : Type 0 where
  inverted overlaps_existing tier_not_found : RangeException

abbrev pub Tiers : Type 0
Tiers = List ProfitMarginTier

-- The rows that pass a test, in their order.
unfoldable pub rows_where : (ProfitMarginTier → Bool) → Tiers → Tiers
rows_where test [] = []
rows_where test (t ∷ ts) = let rest = rows_where test ts in if test t then t ∷ rest else rest

-- `excludeId && tier.id = excludeId`, where an id of 0 excludes nothing
abbrev pub is_excluded : Option ℕ → ProfitMarginTier → Bool
is_excluded none t = false
is_excluded (some id) t = not (id == 0) && t.id == id

-- The condition of `findOverlapping`.
abbrev pub overlaps : ℕ → ℕ → Option ℕ → ProfitMarginTier → Bool
overlaps min_vnd max_vnd exclude t =
    leb t.min_vnd max_vnd && leb min_vnd t.max_vnd && not (is_excluded exclude t)

unfoldable pub find_overlapping : ℕ → ℕ → Option ℕ → Tiers → Tiers
find_overlapping min_vnd max_vnd exclude ts = rows_where (overlaps min_vnd max_vnd exclude) ts

abbrev pub is_empty : Tiers → Bool
is_empty [] = true
is_empty (t ∷ ts) = false

unfoldable pub validate_no_overlap : ℕ → ℕ → Option ℕ → Action RangeException Tiers ⊤
validate_no_overlap min_vnd max_vnd exclude = do
  throw_if (ltb max_vnd min_vnd) inverted
  overlapping ← gets (find_overlapping min_vnd max_vnd exclude)
  throw_if (not (is_empty overlapping)) overlaps_existing

abbrev pub new_tier : ℕ → CreateTierDto → ProfitMarginTier
new_tier id dto = record {
  id = id;
  min_vnd = dto.min_vnd;
  max_vnd = dto.max_vnd;
  percentage = dto.percentage;
  fixed_amount_vnd = given_or dto.fixed_amount_vnd 0;
  is_active = given_or dto.is_active true;
}

-- `id` is the value that the sequence gives to the new row.
unfoldable pub create_tier : ℕ → CreateTierDto → Action RangeException Tiers ProfitMarginTier
create_tier id dto = do
  validate_no_overlap dto.min_vnd dto.max_vnd none
  modify λ ts. new_tier id dto ∷ ts
  pure (new_tier id dto)

pub record UpdateTierDto : Type 0 where
  pub min_vnd : Option ℕ
  pub max_vnd : Option ℕ
  pub percentage : Option ℕ
  pub fixed_amount_vnd : Option ℕ
  pub is_active : Option Bool

-- `findOne({ where: { id } })`
unfoldable pub find_tier : ℕ → Tiers → Option ProfitMarginTier
find_tier id [] = none
find_tier id (t ∷ ts) = let rest = find_tier id ts in if t.id == id then some t else rest

-- A field that the request does not have keeps its value (`save` skips undefined), but the fixed amount
-- is reset: the mapper writes `fixedAmountVnd ?? 0` after the request's undefined has replaced it.
abbrev pub updated_tier : ProfitMarginTier → UpdateTierDto → ProfitMarginTier
updated_tier t dto = record t {
  min_vnd = given_or dto.min_vnd t.min_vnd;
  max_vnd = given_or dto.max_vnd t.max_vnd;
  percentage = given_or dto.percentage t.percentage;
  fixed_amount_vnd = given_or dto.fixed_amount_vnd 0;
  is_active = given_or dto.is_active t.is_active;
}

-- `UPDATE ... WHERE id = id`
unfoldable pub store_tier : ℕ → ProfitMarginTier → Tiers → Tiers
store_tier id new [] = []
store_tier id new (t ∷ ts) =
    let rest = store_tier id new ts in if t.id == id then new ∷ rest else t ∷ rest

-- The row it returns is left out.
unfoldable pub update_tier : ℕ → UpdateTierDto → Action RangeException Tiers ⊤
update_tier id dto = do
  found ← gets (find_tier id)
  unless_found found (throw tier_not_found) λ existing. do
    validate_no_overlap (given_or dto.min_vnd existing.min_vnd)
        (given_or dto.max_vnd existing.max_vnd) (some id)
    modify (store_tier id (updated_tier existing dto))

unfoldable pub remove_tier : ℕ → Action RangeException Tiers ⊤
remove_tier id = modify λ ts. rows_where (λ t. not (t.id == id)) ts

-- `ORDER BY minVnd ASC`
unfoldable pub insert_by_min : ProfitMarginTier → Tiers → Tiers
insert_by_min t [] = t ∷ []
insert_by_min t (s ∷ ts) =
    let rest = insert_by_min t ts in if leb t.min_vnd s.min_vnd then t ∷ s ∷ ts else s ∷ rest

unfoldable pub sort_by_min : Tiers → Tiers
sort_by_min [] = []
sort_by_min (t ∷ ts) = insert_by_min t (sort_by_min ts)

unfoldable pub find_all : Tiers → Tiers
find_all ts = sort_by_min (rows_where (λ t. t.is_active) ts)

abbrev pub contains : ℕ → ProfitMarginTier → Bool
contains vnd_price t = leb t.min_vnd vnd_price && leb vnd_price t.max_vnd

-- The loop of `getProfitPercentageForVndPrice`.
unfoldable pub first_percentage : ℕ → Tiers → ℕ
first_percentage vnd_price [] = 0
first_percentage vnd_price (t ∷ ts) =
    let rest = first_percentage vnd_price ts in if contains vnd_price t then t.percentage else rest

unfoldable pub get_profit_percentage : ℕ → Tiers → ℕ
get_profit_percentage vnd_price ts = first_percentage vnd_price (find_all ts)

-- `Math.round(costPrice * (1 + percentage / 100) * 100) / 100`, in cents.
unfoldable pub calculate_price : ℕ → ℕ → Tiers → ℕ
calculate_price cost_price vnd_price ts =
    round_div (cost_price * (10_000 + get_profit_percentage vnd_price ts)) 10_000
