-- ===== src/Plans/Tests.antt =====
-- Plans and one tier.
use esim_backend.Base.{◌>>=◌, ◌*◌, ◌≡◌, arith, refl, inl, true, false, [], ◌∷◌, none, some}
use esim_backend.Base.Int.{round_div}
use esim_backend.Margins.Tiers.{
  ProfitMarginTier, CreateTierDto, create_tier, validate_no_overlap, find_overlapping, rows_where,
  sort_by_min, insert_by_min, find_all,
}
use esim_backend.Margins.Separate.{IsSeparate, create_tier-IsSeparate}
use esim_backend.Plans.Prices.{
  PricedPlan, rate_or_default, current_rate, is_in_tier, plus_fixed, tier_price, case_price,
  price_by_tiers, updated_vnd_price, recalculate_prices_by_tiers, update_all_vnd_prices,
  recalculate_prices_with_tiers, recalculate_all_plan_prices,
}
use esim_backend.Plans.Tiered.{IsPriced, recalculate_all_plan_prices-IsPriced}

-- 10,000 VND on a cost of at most 100,000.
abbrev tier : ProfitMarginTier
tier = record {
  id = 1;
  min_vnd = 0;
  max_vnd = 100_000;
  percentage = 3000;
  fixed_amount_vnd = 10_000;
  is_active = true;
}

abbrev request : CreateTierDto
request = record {
  min_vnd = 0;
  max_vnd = 100_000;
  percentage = 3000;
  fixed_amount_vnd = some 10_000;
  is_active = none;
}

tier-IsSeparate : IsSeparate (tier ∷ [])
unfolding create_tier validate_no_overlap find_overlapping rows_where ◌>>=◌
tier-IsSeparate =
    create_tier-IsSeparate 1 request []
      (record { proper = λ t m. absurd m; apart = λ s t m m' h k. absurd m })

-- It costs 2 dollars.
abbrev plan : PricedPlan
plan = record {
  id = 1;
  cost_price = 20_000;
  price = 0;
  vnd_price = 0;
  is_in_vnd = false;
  is_local_inventory = false;
}

abbrev local_plan : PricedPlan
local_plan = record plan { cost_price = 500_000_000; is_in_vnd = true; is_local_inventory = true }

-- 30 percent.
abbrev percentage_tier : ProfitMarginTier
percentage_tier = record tier { fixed_amount_vnd = 0 }

percentage_tier-IsSeparate : IsSeparate (percentage_tier ∷ [])
unfolding create_tier validate_no_overlap find_overlapping rows_where ◌>>=◌
percentage_tier-IsSeparate =
    create_tier-IsSeparate 1 (record request { fixed_amount_vnd = none }) []
      (record { proper = λ t m. absurd m; apart = λ s t m m' h k. absurd m })

in_vnd : round_div (plan.cost_price * current_rate (some 26_000_500_000)) 10_000_000_000 ≡ 52_001
unfolding current_rate rate_or_default round_div
in_vnd = refl

recalculate_all_plan_prices-IsPriced_example :
    (new : PricedPlan) × (recalculate_all_plan_prices
        (some 26_000_500_000)
        (percentage_tier ∷ [])
        (plan ∷ local_plan ∷ [])
      ≡ new
        ∷ recalculate_all_plan_prices
            (some 26_000_500_000)
            (percentage_tier ∷ [])
            (local_plan ∷ []))
    × IsPriced (current_rate (some 26_000_500_000)) 3000 plan new
recalculate_all_plan_prices-IsPriced_example =
    recalculate_all_plan_prices-IsPriced (some 26_000_500_000) (percentage_tier ∷ []) plan
      (local_plan ∷ []) percentage_tier percentage_tier-IsSeparate (inl refl) refl refl refl refl
      (omega arith) (omega (arith, in_vnd))

-- At 26,000.50 VND the fixed amount is 38 cents; at the default rate the division of integers drops it.
with_rate :
    recalculate_all_plan_prices (some 26_000_500_000) (tier ∷ []) (plan ∷ local_plan ∷ [])
    ≡ record plan { price = 238; vnd_price = 62_000 }
      ∷ record local_plan { price = 6_000_000; vnd_price = 60_000 }
      ∷ []
unfolding recalculate_all_plan_prices recalculate_prices_with_tiers recalculate_prices_by_tiers
    update_all_vnd_prices updated_vnd_price price_by_tiers case_price tier_price plus_fixed
    is_in_tier current_rate rate_or_default round_div find_all sort_by_min insert_by_min rows_where
with_rate = refl

without_rate :
    recalculate_all_plan_prices none (tier ∷ []) (plan ∷ [])
    ≡ record plan { price = 200; vnd_price = 51_000 } ∷ []
unfolding recalculate_all_plan_prices recalculate_prices_with_tiers recalculate_prices_by_tiers
    update_all_vnd_prices updated_vnd_price price_by_tiers case_price tier_price plus_fixed
    is_in_tier current_rate rate_or_default round_div find_all sort_by_min insert_by_min rows_where
without_rate = refl
