-- ===== src/Supply/OrderTests.antt =====
-- Runs of the submission and of the polling, and the theorems at them.
use esim_backend.Base.{ℕ, ◌+◌, ◌≡◌, refl, false, none, some, List, [], ◌∷◌, ok, err}
use esim_backend.Base.Lists.{take}
use esim_backend.Base.Text.{Text, text, to_lower}
use esim_backend.Supply.Data.{OrderItem, supplier_failed}
use esim_backend.Supply.Fixtures.{shelf}
use esim_backend.Supply.Batches.{batches, batches_from, joined, AreInPlace, batches_lem}
use esim_backend.Supply.Requests.{
  PlannedSupply, Product, queue_products, topup_assignments, qty_by_option,
}
use esim_backend.Supply.Queues.{ids_of, ids_given, items_of, topup_assignments_lem}
use esim_backend.Supply.Asked.{units_asked, units_of, qty_by_option_lem}
use esim_backend.Supply.Polling.{CallbackResult, Polls}

abbrev item : OrderItem
item = record {
  id = 5;
  order_id = 1;
  plan_id = some 2;
  plan = none;
  order_request_id = none;
  provider_order_id = none;
  provider_order_code = none;
  is_completed = false;
  quantity = some 1;
}

abbrev unit_of : Text → PlannedSupply
unit_of option = record {
  item = item;
  plan = record {
    provider = text "gadgetkorea";
    provider_plan_id = option;
    is_local_inventory = false;
    cost_price = 20000;
    duration_days = 7;
  };
  quantity = 1;
  period_num = none;
}

-- Two units of an option and one of another.
abbrev units : List PlannedSupply
units = unit_of (text "KR1") ∷ unit_of (text "KR2") ∷ unit_of (text "KR1") ∷ []

-- The supplier delivers one unit of each.
abbrev products : List Product
products =
    record { topup_id = some (text "t1"); option_id = some (text "kr1") }
    ∷ record { topup_id = some (text "t2"); option_id = some (text "KR2") }
    ∷ []

topup_assignments_lem_example :
    ids_given (text "kr1") (topup_assignments (queue_products (λ o. []) products) units)
    ≡ take (items_of (text "kr1") units) (ids_of (text "kr1") products)
topup_assignments_lem_example = topup_assignments_lem (text "kr1") products units

qty_by_option_lem_example :
    units_asked (text "kr1") (qty_by_option units) ≡ units_of (text "kr1") units
qty_by_option_lem_example = qty_by_option_lem (text "kr1") units

asked_two : units_of (text "kr1") units ≡ 2
unfolding units_of to_lower
asked_two = refl

batches_lem_example :
    ((more : ℕ) → batches_from (more + 3) 0 units ≡ batches units)
    × (joined (batches units) ≡ units)
    × AreInPlace 0 (batches units)
batches_lem_example = batches_lem units

-- The mail fails.
abbrev polls : Polls
polls = record {
  callback = λ ids log. (ok none, log);
  apn_of = λ plan. none;
  email_of = λ user log. (ok (some (text "buyer")), log);
  send_esim_purchase = λ to iccid log. (err (supplier_failed (text "smtp")), iccid ∷ log);
}

abbrev delivered : CallbackResult
delivered = record {
  channel_order_id = text "c1";
  order_no = text "n1";
  iccid = some (text "8981");
  qrcodecontent = some (text "LPA:1$smdp$code");
}
