-- ===== src/Plans/Prices.antt =====
-- `recalculatePricesWithTiers` (src/plans/plans.service.ts), with `recalculatePricesByTiers` and
-- `updateAllVndPrices` of the repository: the SQL sets the prices of every plan that is not deleted. A
-- cost counts 1/10000 and a price 1/100 of its currency, which is the VND for the local inventory; a rate
-- counts millionths of a VND for a dollar. The marks of the cheapest plans are left out.
use esim_backend.Base.{
  ℕ, ◌+◌, ◌*◌, ◌/◌, ◌%◌, Bool, ◌&&◌, Option, none, some, List, [], ◌∷◌, map, leb, ltb, ◌==◌,
  if◌then◌else◌,
}
use esim_backend.Base.Int.{round_div}
use esim_backend.Margins.Tiers.{ProfitMarginTier, Tiers, contains, find_all}

pub record PricedPlan : Type 0 where
  pub id : ℕ
  pub cost_price : ℕ
  pub price : ℕ
  pub vnd_price : ℕ
  -- `currency` is 'VND'
  pub is_in_vnd : Bool
  pub is_local_inventory : Bool

-- `rate || 25500`
unfoldable pub rate_or_default : ℕ → ℕ
rate_or_default rate = if rate == 0 then 25_500_000_000 else rate

-- What the exchange answers: none where the request fails, 0 where the field is missing.
unfoldable pub current_rate : Option ℕ → ℕ
unfolding rate_or_default
current_rate none = 25_500_000_000
current_rate (some rate) = rate_or_default rate

-- `"costPrice"` in a column of scale 2.
abbrev pub cost_as_price : PricedPlan → ℕ
cost_as_price plan = round_div plan.cost_price 100

-- The condition of a tier's `WHEN`.
unfoldable pub is_in_tier : ℕ → PricedPlan → ProfitMarginTier → Bool
is_in_tier rate plan t =
    if plan.is_local_inventory
    then leb (t.min_vnd * 10_000) plan.cost_price && leb plan.cost_price (t.max_vnd * 10_000)
    else contains (round_div (plan.cost_price * rate) 10_000_000_000) t

-- `ROUND(("costPrice" + fixed / rate) * 100) / 100`: where the rate is a whole number, the division is
-- one of integers and drops the remainder.
unfoldable pub plus_fixed : ℕ → PricedPlan → ℕ → ℕ
plus_fixed rate plan fixed =
    if rate % 1_000_000 == 0
    then round_div (plan.cost_price + fixed / (rate / 1_000_000) * 10_000) 100
    else round_div (plan.cost_price * rate + fixed * 10_000_000_000) (rate * 100)

-- The expression of a tier's `THEN`.
unfoldable pub tier_price : ℕ → PricedPlan → ProfitMarginTier → ℕ
unfolding plus_fixed
tier_price rate plan t =
    if ltb 0 t.fixed_amount_vnd
    then (if plan.is_local_inventory
        then cost_as_price plan + t.fixed_amount_vnd * 100
        else plus_fixed rate plan t.fixed_amount_vnd)
    else round_div (plan.cost_price * (10_000 + t.percentage)) 1_000_000

-- The whole `CASE`.
unfoldable pub case_price : ℕ → PricedPlan → Tiers → ℕ
unfolding tier_price is_in_tier
case_price rate plan [] = cost_as_price plan
case_price rate plan (t ∷ ts) =
    let rest = case_price rate plan ts in
    if is_in_tier rate plan t then tier_price rate plan t else rest

unfoldable pub price_by_tiers : ℕ → Tiers → PricedPlan → ℕ
unfolding case_price rate_or_default
price_by_tiers rate [] plan = cost_as_price plan
price_by_tiers rate (t ∷ ts) plan = case_price (rate_or_default rate) plan (t ∷ ts)

abbrev pub repriced : ℕ → Tiers → PricedPlan → PricedPlan
repriced rate ts plan = record plan { price = price_by_tiers rate ts plan }

unfoldable pub recalculate_prices_by_tiers : ℕ → Tiers → List PricedPlan → List PricedPlan
unfolding price_by_tiers
recalculate_prices_by_tiers rate ts plans = map (repriced rate ts) plans

-- The two statements, at one row.
unfoldable pub updated_vnd_price : ℕ → PricedPlan → ℕ
updated_vnd_price rate plan =
    if plan.is_local_inventory
    then round_div plan.price 100_000 * 1000
    else if plan.is_in_vnd
    then plan.vnd_price
    else round_div (plan.price * rate) 100_000_000_000 * 1000

abbrev pub revalued : ℕ → PricedPlan → PricedPlan
revalued rate plan = record plan { vnd_price = updated_vnd_price rate plan }

unfoldable pub update_all_vnd_prices : ℕ → List PricedPlan → List PricedPlan
unfolding updated_vnd_price
update_all_vnd_prices rate plans = map (revalued rate) plans

unfoldable pub recalculate_prices_with_tiers : Option ℕ → Tiers → List PricedPlan → List PricedPlan
unfolding current_rate recalculate_prices_by_tiers update_all_vnd_prices
recalculate_prices_with_tiers answer ts plans =
    let rate = current_rate answer in
    update_all_vnd_prices rate (recalculate_prices_by_tiers rate ts plans)

-- `recalculateAllPlanPrices` (src/profit-margins/profit-margins.service.ts)
unfoldable pub recalculate_all_plan_prices : Option ℕ → Tiers → List PricedPlan → List PricedPlan
unfolding recalculate_prices_with_tiers
recalculate_all_plan_prices answer ts plans =
    recalculate_prices_with_tiers answer (find_all ts) plans
