-- ===== src/Margins/Tests.antt =====
-- Two tiers that touch, and a third that overlaps.
use esim_backend.Base.{◌>>=◌, ◌≡◌, refl, true, List, [], ◌∷◌, none, some}
use esim_backend.Margins.Tiers.{
  ProfitMarginTier, CreateTierDto, Tiers, create_tier, remove_tier, validate_no_overlap,
  find_overlapping, rows_where, update_tier, find_tier, store_tier,
}
use esim_backend.Margins.Separate.{IsSeparate, create_tier-IsSeparate}
use esim_backend.Margins.Updates.{TierCall, run_tier_calls, run_tier_calls-IsSeparate}

abbrev low : ProfitMarginTier
low = record {
  id = 1;
  min_vnd = 0;
  max_vnd = 100_000;
  percentage = 3000;
  fixed_amount_vnd = 0;
  is_active = true;
}

abbrev high : ProfitMarginTier
high = record {
  id = 2;
  min_vnd = 100_001;
  max_vnd = 500_000;
  percentage = 2000;
  fixed_amount_vnd = 0;
  is_active = true;
}

abbrev tiers : Tiers
tiers = high ∷ low ∷ []

no_tiers : IsSeparate []
no_tiers = record { proper = λ t m. absurd m; apart = λ s t m m' h k. absurd m }

abbrev request : ProfitMarginTier → CreateTierDto
request t = record {
  min_vnd = t.min_vnd;
  max_vnd = t.max_vnd;
  percentage = t.percentage;
  fixed_amount_vnd = none;
  is_active = none;
}

tiers-IsSeparate : IsSeparate tiers
unfolding create_tier validate_no_overlap find_overlapping rows_where ◌>>=◌
tiers-IsSeparate =
    create_tier-IsSeparate 2 (request high) (low ∷ [])
      (create_tier-IsSeparate 1 (request low) [] no_tiers)

abbrev middle : CreateTierDto
middle = record {
  min_vnd = 400_000;
  max_vnd = 600_000;
  percentage = 1000;
  fixed_amount_vnd = none;
  is_active = none;
}

-- The low tier is removed, the high one grows downwards, and an overlapping one is refused.
abbrev calls : List TierCall
calls =
    TierCall.remove 1
    ∷ TierCall.update 2 (record {
      min_vnd = some 50_000;
      max_vnd = none;
      percentage = none;
      fixed_amount_vnd = none;
      is_active = none;
    })
    ∷ TierCall.create 3 middle
    ∷ []

run_tier_calls-IsSeparate_example : IsSeparate (run_tier_calls calls tiers)
run_tier_calls-IsSeparate_example = run_tier_calls-IsSeparate calls tiers tiers-IsSeparate

grown : run_tier_calls calls tiers ≡ record high { min_vnd = 50_000 } ∷ []
unfolding create_tier update_tier remove_tier find_tier store_tier validate_no_overlap
    find_overlapping rows_where ◌>>=◌
grown = refl
