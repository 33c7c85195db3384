-- ===== src/Orders/Tests.antt =====
-- Runs of the orders service on small tables, and the theorems at them.
use esim_backend.Base.{
  ◌≡◌, ◌⊎◌, refl, false, List, [], ◌∷◌, none, some, ok, ◌>>=◌, pure, for_each, arith,
}
use esim_backend.Base.Text.{text}
use esim_backend.Base.Int.{pos, ◌+ℤ◌, ◌-ℤ◌, ◌*ℤ◌, round_div, round_div_ℤ}
use esim_backend.Entities.{Order, OrderStatus, direct_bank, Plan}
use esim_backend.Database.{Db, find_order, find_hold, find_order_referral}
use esim_backend.Fixtures.{memory, empty, order_3}
use esim_backend.Orders.Pricing.{
  OrderPlanDetail, SubmitOrderDto, OrderPricing, round_vnd_to_thousands, get_discounted_vnd_price,
  total_amount, subtotal_vnd_price, finish_pricing, price_referral, price_coupon,
  calculate_order_pricing,
}
use esim_backend.Orders.Price.{IsSettled, calculate_order_pricing-IsSettled}
use esim_backend.Orders.Lifecycle.{cancel_order}
use esim_backend.Wallets.Ledger.{IsBalanced}
use esim_backend.Wallets.Operations.{Operation}
use esim_backend.Orders.Checkout.{
  PlannedItem, CheckoutServices, unit_row, item_rows, create_pending_order,
}
use esim_backend.Orders.Items.{rows_total, rows_total-item_rows}
use esim_backend.Orders.Calls.{Call, run_calls}
use esim_backend.Orders.Balanced.{run_calls-IsBalanced}
use esim_backend.Orders.Cancel.{failed, cancel_order_effect}
use esim_backend.Orders.RollBack.{freed, undone}

-- Ten percent off 104,000 VND: 94,000 each.
abbrev plan_1 : Plan
plan_1 = record {
  id = 1;
  price = pos 450;
  vnd_price = some (pos 104_000);
  discount = some (pos 1000);
  is_local_inventory = false;
  cost_price = pos 30_000;
  provider = text "gadgetkorea";
}

abbrev items : List OrderPlanDetail
items = record { plan = plan_1; quantity = 2 } ∷ []

abbrev request : SubmitOrderDto
request = record {
  coupon_code = none;
  referral_code = none;
  use_wallet_amount_vnd = some (pos 50_000);
}

abbrev pricing : OrderPricing
pricing = record {
  total_amount = pos 900;
  discount_amount = pos 0;
  final_amount = pos 900;
  coupon_code = none;
  subtotal_vnd_price = pos 188_000;
  coupon_discount_vnd_amount = pos 0;
  referral_discount_vnd_amount = pos 0;
  wallet_spent_vnd_amount = pos 50_000;
  payable_vnd_price = pos 138_000;
  cashback_amount_vnd = pos 3760;
  referral = none;
}

priced : (calculate_order_pricing 7 request items 2000 empty).0 ≡ ok pricing
unfolding ◌>>=◌ calculate_order_pricing price_referral price_coupon finish_pricing total_amount
    subtotal_vnd_price get_discounted_vnd_price round_vnd_to_thousands round_div_ℤ round_div ◌+ℤ◌
    ◌-ℤ◌ ◌*ℤ◌
priced = refl

calculate_order_pricing-IsSettled_example :
    IsSettled request pricing
    × (pricing.subtotal_vnd_price ≡ subtotal_vnd_price items)
    × ((pricing.coupon_discount_vnd_amount ≡ pos 0)
        ⊎ (pricing.referral_discount_vnd_amount ≡ pos 0))
calculate_order_pricing-IsSettled_example =
    calculate_order_pricing-IsSettled 7 request items 2000 empty priced

abbrev waiting : Order
waiting = record order_3 { status = OrderStatus.pending }

abbrev ordered : Db
ordered = record empty { orders = waiting ∷ [] }

cancel_order_effect_example :
    let out = cancel_order 3 (some 7) ordered in
    (out.0 ≡ ok (failed waiting))
    × (find_order 3 out.1 ≡ some (failed waiting))
    × (find_hold 3 out.1 ≡ freed (find_hold 3 ordered))
    × (find_order_referral 3 out.1 ≡ undone (find_order_referral 3 ordered))
    × (out.1.wallets ≡ ordered.wallets)
    × (out.1.transactions ≡ ordered.transactions)
cancel_order_effect_example = cancel_order_effect 3 (some 7) ordered waiting refl refl refl

-- User 7 gets 500, 200 are reserved for order 3, which is then paid and refunded.
abbrev calls : List Call
calls =
    Call.wallets (Operation.admin_adjust_wallet 7 (pos 500) none 1 1000)
    ∷ Call.wallets (Operation.create_hold 3 7 (pos 200) 2000)
    ∷ Call.finalize_paid_order 3 "onepay" none 3000
    ∷ Call.refund_order 3
        (record { mode = direct_bank; amount_vnd = pos 500; reason = none; admin_note = none }) 1
        4000
    ∷ []

ordered-IsBalanced : IsBalanced ordered
ordered-IsBalanced = record { at_user = λ u. refl }

run_calls-IsBalanced_example : IsBalanced (run_calls calls ordered)
run_calls-IsBalanced_example = run_calls-IsBalanced calls ordered ordered-IsBalanced

-- Two units of a plan that is supplied one unit at a time.
abbrev planned_items : List PlannedItem
planned_items =
    record { item = record { plan_id = 1; quantity = 2; period_num = none }; plan = plan_1 } ∷ []

rows_total-item_rows_example :
    rows_total (item_rows 3 "USD" (some 25_000_000_000) planned_items) ≡ subtotal_vnd_price items
rows_total-item_rows_example =
    rows_total-item_rows 3 "USD" (some 25_000_000_000) planned_items (omega arith, tt)

-- An order of 188,000 VND without a wallet: two rows of 94,000 each.
abbrev services : CheckoutServices
services = record {
  save_phone_number = λ user_id. pure tt;
  find_plan = λ id. some plan_1;
  create_invoice = λ order. pure tt;
}

abbrev plain_request : SubmitOrderDto
plain_request = record request { use_wallet_amount_vnd = none }

checked_out :
    (create_pending_order services false 7 plain_request
      (record { plan_id = 1; quantity = 2; period_num = none } ∷ [])
      "USD"
      (text "ORD-9")
      (some 25_000_000_000)
      2000
      empty).1.order_items
    ≡ unit_row 1 "USD"
        (some 25_000_000_000)
        (record { item = record { plan_id = 1; quantity = 2; period_num = none }; plan = plan_1 })
      ∷ unit_row 1 "USD"
          (some 25_000_000_000)
          (record { item = record { plan_id = 1; quantity = 2; period_num = none }; plan = plan_1 })
      ∷ []
unfolding ◌>>=◌ create_pending_order calculate_order_pricing price_referral price_coupon
    finish_pricing total_amount subtotal_vnd_price get_discounted_vnd_price round_vnd_to_thousands
    round_div_ℤ round_div ◌+ℤ◌ ◌-ℤ◌ ◌*ℤ◌ item_rows for_each
checked_out = refl
