-- ===== src/Sync/Labels.antt =====
-- The texts that src/esim-providers/airalo/airalo.service.ts builds: buildPlanSlug, toSlug, buildPlanName,
-- formatHotSpotAllow. Lower case is that of the letters A to Z.
use esim_backend.Base.{
  ℕ, ◌+◌, ◌*◌, ◌/◌, ◌%◌, Bool, false, ◌&&◌, ◌||◌, Option, none, some, [], ◌∷◌, ◌++◌, ◌==◌, leb, ltb,
  if◌then◌else◌,
}
use esim_backend.Base.Lists.{take}
use esim_backend.Base.Text.{Text, text, trim, to_lower, is_space, eqb}
use esim_backend.Sync.Data.{SyncEnv}

abbrev pub hyphen : ℕ
hyphen = 45

-- `[a-z0-9\s-]`
unfoldable pub is_slug_unit : ℕ → Bool
is_slug_unit c = leb 97 c && leb c 122 || leb 48 c && leb c 57 || is_space c || c == hyphen

abbrev pub keep_slug_units : Text → Text
keep_slug_units [] = []
keep_slug_units (c ∷ cs) =
    let rest = keep_slug_units cs in if is_slug_unit c then c ∷ rest else rest

-- Each run of units of a kind becomes a hyphen.
abbrev pub hyphenate : (ℕ → Bool) → Bool → Text → Text
hyphenate kind inside [] = []
hyphenate kind inside (c ∷ cs) =
    let rest = hyphenate kind (kind c) cs in
    if kind c then (if inside then rest else hyphen ∷ rest) else c ∷ rest

unfoldable pub to_slug : Text → Text
unfolding is_slug_unit to_lower is_space trim
to_slug name = trim (
    hyphenate (λ c. c == hyphen) false (hyphenate is_space false (keep_slug_units (to_lower name))))

module _ ⦃env : SyncEnv⦄ where
  unfoldable pub build_plan_slug : Text → ℕ → ℕ → Text → Text → Text
  unfolding to_slug to_lower
  build_plan_slug location_name data_mb days provider plan_type =
      let label =
        if leb 1024 data_mb
        then env.quotient_text data_mb ++ text "gb"
        else env.number_text data_mb ++ text "mb" in
      let data_part = if ltb 0 data_mb then hyphen ∷ label else [] in
      to_slug location_name
      ++ data_part
      ++ hyphen ∷ env.number_text days
      ++ text "days-"
      ++ plan_type
      ++ hyphen ∷ to_lower (take 2 provider)

  unfoldable pub build_plan_name : Text → ℕ → ℕ → Text → Text
  build_plan_name location_name data_mb days plan_type =
      let label =
        if leb 1024 data_mb
        then env.quotient_text data_mb ++ text "GB"
        else env.number_text data_mb ++ text "MB" in
      let by_day =
        location_name ++ text " " ++ label ++ text " / " ++ env.number_text days ++ text "day" in
      if eqb plan_type (text "fixed")
      then by_day
      else if eqb plan_type (text "daily")
      then location_name ++ text " " ++ label ++ text " per day"
      else if eqb plan_type (text "unlimited-reduce") || eqb plan_type (text "unlimited")
      then location_name ++ text " unlimited"
      else by_day

  unfoldable pub format_hot_spot_allow : Text → ℕ → Option Text
  format_hot_spot_allow plan_type data_mb =
      if eqb plan_type (text "unlimited") || eqb plan_type (text "unlimited-reduce")
      then none
      else if data_mb == 0
      then none
      else if ltb data_mb 1024
      then some (env.number_text data_mb ++ text "MB")
      else if data_mb % 1024 == 0
      then some (env.number_text (data_mb / 1024) ++ text "GB")
      else some (env.tenth_text ((data_mb * 10 + 512) / 1024) ++ text "GB")
