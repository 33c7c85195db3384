-- ===== src/Plans/Tiered.antt =====
-- The price that a plan has after the tiers have changed.
use esim_backend.Base.{
  ℕ, ◌≤◌, ◌<◌, ◌+◌, ◌*◌, false, ◌≡◌, refl, ap, ◌∙◌, inl, inr, true, Option, none, some, List, [],
  ◌∷◌, arith, Bool-cases,
}
use esim_backend.Base.Int.{round_div}
use esim_backend.Margins.Tiers.{ProfitMarginTier, Tiers, rows_where, find_all}
use esim_backend.Margins.Rows.{
  IsRow, rows_where_sound, rows_where_complete, sort_by_min_sound, sort_by_min_complete,
}
use esim_backend.Margins.Separate.{IsSeparate}
use esim_backend.Plans.Prices.{
  PricedPlan, updated_vnd_price, rate_or_default, current_rate, revalued, is_in_tier, tier_price,
  case_price, price_by_tiers, recalculate_prices_by_tiers, update_all_vnd_prices,
  recalculate_prices_with_tiers, recalculate_all_plan_prices,
}

case_price_lem :
    (rate : ℕ) (plan : PricedPlan) (t : ProfitMarginTier) (ts : Tiers)
    → IsRow t ts
    → is_in_tier rate plan t ≡ true
    → ((s : ProfitMarginTier) → IsRow s ts → is_in_tier rate plan s ≡ true → s ≡ t)
    → case_price rate plan ts ≡ tier_price rate plan t
unfolding case_price
case_price_lem rate plan t [] h inside one = absurd h
case_price_lem rate plan t (s ∷ ts) h inside one = elim (Bool-cases (is_in_tier rate plan s)) [
  | inl here ↦ rw here (ap (tier_price rate plan) (one s (inl refl) here))
  | inr other ↦ rw other (elim h [
    | inl e ↦ cc (other, ap (is_in_tier rate plan) e, inside)
    | inr m ↦ case_price_lem rate plan t ts m inside (λ r k. one r (inr k))
  ])
]

in_tier_meets :
    (rate : ℕ) (plan : PricedPlan) (s t : ProfitMarginTier)
    → is_in_tier rate plan s ≡ true
    → is_in_tier rate plan t ≡ true
    → (s.min_vnd ≤ t.max_vnd) × (t.min_vnd ≤ s.max_vnd)
unfolding is_in_tier
in_tier_meets rate plan s t h k = (ground arith, ground arith)

find_all_sound : (ts : Tiers) (t : ProfitMarginTier) → IsRow t (find_all ts) → IsRow t ts
unfolding find_all
find_all_sound ts t m =
    (rows_where_sound (λ x. x.is_active) ts t
      (sort_by_min_sound (rows_where (λ x. x.is_active) ts) t m)).0

find_all_complete :
    (ts : Tiers) (t : ProfitMarginTier) → IsRow t ts → t.is_active ≡ true → IsRow t (find_all ts)
unfolding find_all
find_all_complete ts t row active =
    sort_by_min_complete (rows_where (λ x. x.is_active) ts) t
      (rows_where_complete (λ x. x.is_active) ts t row active)

rate_or_default-current_rate :
    (answer : Option ℕ) → rate_or_default (current_rate answer) ≡ current_rate answer
unfolding rate_or_default current_rate
rate_or_default-current_rate none = refl
rate_or_default-current_rate (some rate) = ground arith

price_by_tiers_lem :
    (answer : Option ℕ) (ts : Tiers) (plan : PricedPlan)
    → price_by_tiers (current_rate answer) ts plan ≡ case_price (current_rate answer) plan ts
unfolding price_by_tiers
price_by_tiers_lem answer [] plan = unfold case_price in refl
price_by_tiers_lem answer (t ∷ ts) plan =
    ap (λ rate. case_price rate plan (t ∷ ts)) (rate_or_default-current_rate answer)

-- The row of a plan whose cost lies in the range of an active tier, whichever tier the query meets first.
recalculate_all_plan_prices_lem :
    (answer : Option ℕ) (ts : Tiers) (plan : PricedPlan) (plans : List PricedPlan)
    (t : ProfitMarginTier)
    → IsSeparate ts
    → IsRow t ts
    → t.is_active ≡ true
    → is_in_tier (current_rate answer) plan t ≡ true
    → recalculate_all_plan_prices answer ts (plan ∷ plans)
      ≡ revalued
          (current_rate answer)
          (record plan { price = tier_price (current_rate answer) plan t })
        ∷ recalculate_all_plan_prices answer ts plans
unfolding recalculate_all_plan_prices recalculate_prices_with_tiers recalculate_prices_by_tiers
    update_all_vnd_prices
recalculate_all_plan_prices_lem answer ts plan plans t separate row active inside =
    let rate = current_rate answer in
    let price : price_by_tiers rate (find_all ts) plan ≡ tier_price rate plan t =
      price_by_tiers_lem answer (find_all ts) plan
      ∙ case_price_lem rate plan t (find_all ts) (find_all_complete ts t row active) inside
          (λ s m here.
            let (below, above) = in_tier_meets rate plan s t here inside in
            separate.apart s t (find_all_sound ts s m) row below above) in
    ap
      (λ n. revalued rate (record plan { price = n }) ∷ recalculate_all_plan_prices answer ts plans)
      price

-- The price of a plan for dollars in a tier of a percentage: the cost (in 1/10000) with the percentage (in
-- 1/10000) added, to the nearest cent; its VND price at the rate (in 1/1000000), to the nearest thousand; a
-- half is rounded up.
pub record IsPriced (rate percentage : ℕ) (before after : PricedPlan) : Type 0 where
  pub same_id : after.id ≡ before.id
  pub same_cost : after.cost_price ≡ before.cost_price
  pub price_below : 1_000_000 * after.price ≤ before.cost_price * (10_000 + percentage) + 500_000
  pub price_above :
      before.cost_price * (10_000 + percentage) + 500_000 < 1_000_000 * after.price + 1_000_000
  pub thousands : ℕ
  pub in_thousands : after.vnd_price ≡ thousands * 1000
  pub vnd_below : 100_000_000_000 * thousands ≤ after.price * rate + 50_000_000_000
  pub vnd_above :
      after.price * rate + 50_000_000_000 < 100_000_000_000 * thousands + 100_000_000_000

round_cents :
    (a : ℕ)
    → (1_000_000 * round_div a 1_000_000 ≤ a + 500_000)
      × (a + 500_000 < 1_000_000 * round_div a 1_000_000 + 1_000_000)
unfolding round_div
round_cents a = (omega arith, omega arith)

round_thousands :
    (a : ℕ)
    → (100_000_000_000 * round_div a 100_000_000_000 ≤ a + 50_000_000_000)
      × (a + 50_000_000_000 < 100_000_000_000 * round_div a 100_000_000_000 + 100_000_000_000)
unfolding round_div
round_thousands a = (omega arith, omega arith)

percentage_price :
    (rate : ℕ) (plan : PricedPlan) (t : ProfitMarginTier)
    → t.fixed_amount_vnd ≡ 0
    → tier_price rate plan t ≡ round_div (plan.cost_price * (10_000 + t.percentage)) 1_000_000
unfolding tier_price
percentage_price rate plan t none_fixed = rw none_fixed refl

foreign_vnd_price :
    (rate : ℕ) (plan : PricedPlan)
    → plan.is_local_inventory ≡ false
    → plan.is_in_vnd ≡ false
    → updated_vnd_price rate plan ≡ round_div (plan.price * rate) 100_000_000_000 * 1000
unfolding updated_vnd_price
foreign_vnd_price rate plan foreign in_dollars = rw (foreign, in_dollars) refl

in_range :
    (rate : ℕ) (plan : PricedPlan) (t : ProfitMarginTier)
    → plan.is_local_inventory ≡ false
    → t.min_vnd ≤ round_div (plan.cost_price * rate) 10_000_000_000
    → round_div (plan.cost_price * rate) 10_000_000_000 ≤ t.max_vnd
    → is_in_tier rate plan t ≡ true
unfolding is_in_tier
in_range rate plan t foreign above below = rw foreign (ground arith)

-- The recalculation after a change of the tiers, where they are separate: a plan from a supplier that is sold
-- for dollars, and whose cost lies in the range of an active tier without a fixed amount, gets the price
-- and the VND price that this tier's percentage and the rate of the day make of its cost (`IsPriced`), and the
-- other plans are recalculated as they are without it.
pub recalculate_all_plan_prices-IsPriced :
    (answer : Option ℕ) (ts : Tiers) (plan : PricedPlan) (plans : List PricedPlan)
    (t : ProfitMarginTier)
    → IsSeparate ts
    → IsRow t ts
    → t.is_active ≡ true
    → t.fixed_amount_vnd ≡ 0
    → plan.is_local_inventory ≡ false
    → plan.is_in_vnd ≡ false
    → t.min_vnd ≤ round_div (plan.cost_price * current_rate answer) 10_000_000_000
    → round_div (plan.cost_price * current_rate answer) 10_000_000_000 ≤ t.max_vnd
    → (new : PricedPlan) × (recalculate_all_plan_prices answer ts (plan ∷ plans)
        ≡ new ∷ recalculate_all_plan_prices answer ts plans)
      × IsPriced (current_rate answer) t.percentage plan new
recalculate_all_plan_prices-IsPriced answer ts plan plans t separate row active none_fixed foreign
      in_dollars above below =
    let rate = current_rate answer in
    let price = round_div (plan.cost_price * (10_000 + t.percentage)) 1_000_000 in
    let k = round_div (price * rate) 100_000_000_000 in
    let cents = round_cents (plan.cost_price * (10_000 + t.percentage)) in
    let thousands = round_thousands (price * rate) in
    (
      record plan { price = price; vnd_price = k * 1000 },
      recalculate_all_plan_prices_lem answer ts plan plans t separate row active
            (in_range rate plan t foreign above below)
          ∙ rw
              (
                percentage_price rate plan t none_fixed,
                foreign_vnd_price rate (record plan { price = price }) foreign in_dollars,
              )
              refl,
      record {
        same_id = refl;
        same_cost = refl;
        price_below = cents.0;
        price_above = cents.1;
        thousands = k;
        in_thousands = refl;
        vnd_below = thousands.0;
        vnd_above = thousands.1;
      },
    )
