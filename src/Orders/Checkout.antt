-- ===== src/Orders/Checkout.antt =====
-- `createPendingOrder`: the order of a checkout, with its referral, its hold and its items. The users'
-- service (the phone number), the plans' service and the invoice are parameters. An exchange rate is in
-- millionths of a VND for a dollar.
use Prim.Native.String.{String}
use esim_backend.Base.{
  ℕ, zero, suc, Bool, ◌||◌, Option, none, some, List, [], ◌∷◌, ◌++◌, map, ⊤, pure, throw, gets,
  modify, attempt, unless_found, for_each, when, ◌>>=◌, ◌>>◌, ◌==◌, leb, if◌then◌else◌,
}
use esim_backend.Base.Int.{ℤ, pos, ◌+ℤ◌, ◌*ℤ◌, ltb_ℤ, round_div_ℤ}
use esim_backend.Base.Text.{Text, text, eqb}
use esim_backend.Entities.{Order, OrderStatus, OrderItemRow, Plan}
use esim_backend.Database.{Database, Service, plan_not_found, save_order, create_order_item}
use esim_backend.Wallets.Holds.{create_hold}
use esim_backend.Wallets.Referrals.{ReferralValidationResult, create_order_referral}
use esim_backend.Orders.Pricing.{
  OrderPlanDetail, SubmitOrderDto, OrderPricing, get_discounted_vnd_price, calculate_order_pricing,
}

pub record OrderItemDto : Type 0 where
  pub plan_id : ℕ
  pub quantity : ℕ
  pub period_num : Option ℕ

-- `{ ...item, plan }`
pub record PlannedItem : Type 0 where
  pub item : OrderItemDto
  pub plan : Plan

-- What the method calls outside the modelled services.
pub record CheckoutServices ⦃d : Database⦄ : Type 0 where
  pub save_phone_number : ℕ → Service ⊤
  pub find_plan : ℕ → Option Plan
  pub create_invoice : Order → Service ⊤

abbrev pub detail_of : PlannedItem → OrderPlanDetail
detail_of planned = record { plan = planned.plan; quantity = planned.item.quantity }

-- `vndRate ? Math.round(costPrice * vndRate) : 0`
unfoldable pub converted_cost : Option ℕ → Plan → ℤ
converted_cost none plan = pos 0
converted_cost (some rate) plan =
    if rate == 0 then pos 0 else round_div_ℤ (plan.cost_price *ℤ pos rate) 10_000_000_000

unfoldable pub item_vnd_cost_price : Option ℕ → PlannedItem → ℤ
unfolding converted_cost
item_vnd_cost_price rate planned =
    if planned.plan.is_local_inventory
    then round_div_ℤ planned.plan.cost_price 10_000 *ℤ pos planned.item.quantity
    else converted_cost rate planned.plan *ℤ pos planned.item.quantity

unfoldable pub total_vnd_cost_price : Option ℕ → List PlannedItem → ℤ
unfolding item_vnd_cost_price
total_vnd_cost_price rate [] = pos 0
total_vnd_cost_price rate (planned ∷ items) =
    item_vnd_cost_price rate planned +ℤ total_vnd_cost_price rate items

abbrev pub is_per_unit : Plan → Bool
is_per_unit plan =
    eqb plan.provider (text "japantravelsim") || eqb plan.provider (text "gadgetkorea")

-- The row of one unit, and that of a whole item.
abbrev pub unit_row : ℕ → String → Option ℕ → PlannedItem → OrderItemRow
unit_row order_id currency rate planned = record {
  order_id = order_id;
  plan_id = planned.item.plan_id;
  price = planned.plan.price;
  currency = currency;
  quantity = 1;
  vnd_price = get_discounted_vnd_price planned.plan;
  vnd_cost_price = converted_cost rate planned.plan;
  period_num = planned.item.period_num;
}

abbrev pub item_row : ℕ → String → Option ℕ → PlannedItem → OrderItemRow
item_row order_id currency rate planned = record {
  order_id = order_id;
  plan_id = planned.item.plan_id;
  price = planned.plan.price;
  currency = if planned.plan.is_local_inventory then "VND" else currency;
  quantity = planned.item.quantity;
  vnd_price = get_discounted_vnd_price planned.plan *ℤ pos planned.item.quantity;
  vnd_cost_price = item_vnd_cost_price rate planned;
  period_num = planned.item.period_num;
}

-- `Math.max(1, quantity)` rows with one unit each.
abbrev pub copies : ℕ → OrderItemRow → List OrderItemRow
copies zero row = []
copies (suc n) row = row ∷ copies n row

abbrev pub at_least_one : ℕ → ℕ
at_least_one n = if leb 1 n then n else 1

unfoldable pub rows_of : ℕ → String → Option ℕ → PlannedItem → List OrderItemRow
unfolding converted_cost item_vnd_cost_price
rows_of order_id currency rate planned =
    if is_per_unit planned.plan
    then copies (at_least_one planned.item.quantity) (unit_row order_id currency rate planned)
    else item_row order_id currency rate planned ∷ []

-- The rows that the loop over the items creates, in their order.
unfoldable pub item_rows : ℕ → String → Option ℕ → List PlannedItem → List OrderItemRow
unfolding rows_of
item_rows order_id currency rate [] = []
item_rows order_id currency rate (planned ∷ items) =
    rows_of order_id currency rate planned ++ item_rows order_id currency rate items

abbrev pub code_of : Option ReferralValidationResult → Option Text
code_of none = none
code_of (some referral) = some referral.referral_code

abbrev pub referrer_of : Option ReferralValidationResult → Option ℕ
referrer_of none = none
referrer_of (some referral) = some referral.referrer_user_id

-- The literal that `orderRepository.create` is called with.
abbrev pub pending_order : ℕ → ℕ → Text → String → OrderPricing → ℤ → ℕ → Order
pending_order id user_id order_number currency pricing cost now = record {
  id = id;
  user_id = user_id;
  order_number = order_number;
  status = OrderStatus.pending;
  total_amount = pricing.final_amount;
  currency = currency;
  payment_method = none;
  payment_id = none;
  coupon_code = pricing.coupon_code;
  discount_amount = pricing.discount_amount;
  vnd_price = pricing.payable_vnd_price;
  vnd_cost_price = cost;
  subtotal_vnd_price = pricing.subtotal_vnd_price;
  coupon_discount_vnd_amount = pricing.coupon_discount_vnd_amount;
  referral_code = code_of pricing.referral;
  referrer_user_id = referrer_of pricing.referral;
  referral_discount_vnd_amount = pricing.referral_discount_vnd_amount;
  wallet_spent_vnd_amount = pricing.wallet_spent_vnd_amount;
  payable_vnd_price = pricing.payable_vnd_price;
  cashback_amount_vnd = pricing.cashback_amount_vnd;
  cashback_transaction_id = none;
  cashback_reversed_at = none;
  refund_status = none;
  refunded_amount_vnd = pos 0;
  created_at = now;
}

module _ ⦃d : Database⦄ (services : CheckoutServices) where
  unfoldable pub find_plans : List OrderItemDto → Service (List PlannedItem)
  find_plans [] = pure []
  find_plans (item ∷ items) =
      unless_found (services.find_plan item.plan_id) (throw (plan_not_found item.plan_id))
        λ plan. do rest ← find_plans items; pure (record { item = item; plan = plan } ∷ rest)

  -- `orderRepository.create`
  unfoldable pub create_order : (ℕ → Order) → Service Order
  create_order new = do
    order ← gets λ db. new (d.repositories.order.next_id db.orders)
    modify (save_order order)
    pure order

  -- `phone` tells whether the request has a phone number.
  unfoldable pub create_pending_order :
      Bool → ℕ → SubmitOrderDto → List OrderItemDto → String → Text → Option ℕ → ℕ → Service Order
  unfolding find_plans create_order
  create_pending_order phone user_id dto items currency order_number rate now = do
    when phone (attempt (services.save_phone_number user_id))
    planned ← find_plans items
    pricing ← calculate_order_pricing user_id dto (map detail_of planned) now
    order ← create_order λ id.
        pending_order id user_id order_number currency pricing (total_vnd_cost_price rate planned)
          now
    unless_found pricing.referral (pure tt)
        λ referral. create_order_referral order.id user_id referral >> pure tt
    when (ltb_ℤ (pos 0) pricing.wallet_spent_vnd_amount)
        (create_hold order.id user_id pricing.wallet_spent_vnd_amount now >> pure tt)
    for_each (item_rows order.id currency rate planned) create_order_item
    services.create_invoice order
    pure order
