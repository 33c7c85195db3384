-- ===== src/Supply/Direct.antt =====
-- src/orders/orders.service.ts, `submitOrder`, from its step 4 on: an order that has just been created as pending
-- goes to the suppliers of its items at once. Left out: the columns for prices and periods of the items, and
-- what comes behind step 9 (the coupon, the cart, the mails and the invoice).
use esim_backend.Base.{
  ℕ, zero, suc, Bool, true, false, not, Option, none, some, List, [], ◌∷◌, ◌++◌, map, ⊤, pure, gets,
  modify, attempt, recovered, for_each, when, ◌>>=◌, ◌>>◌, ◌*◌, ◌+◌, leb, if◌then◌else◌,
}
use esim_backend.Base.Lists.{length, drop, is_nil}
use esim_backend.Base.Text.{Text, text, eqb, to_lower}
use esim_backend.Supply.Data.{SupplyEnv, SupplyService, OrderItem, with_suppliers}
use esim_backend.Supply.Batches.{batches}
use esim_backend.Supply.Esims.{update_esim}
use esim_backend.Supply.Requests.{
  SupplierPlan, PackageInfo, OptionQuantity, Queues, queue_products, JtsRequest, jts_row, JtsData,
  set_channels, find_channel, channel_ids,
}
use esim_backend.Supply.Submission.{
  Providers, status_dto, sold, find_available_by_plan_id, update_item,
}

-- `{ ...item, plan }`
pub record WantedItem : Type 0 where
  pub plan_id : ℕ
  pub plan : SupplierPlan
  pub data_mb : Option ℕ
  pub quantity : ℕ
  pub period_num : Option ℕ

abbrev pub is_supplied_by : Text → WantedItem → Bool
is_supplied_by provider w = eqb w.plan.provider provider

abbrev pub is_local : WantedItem → Bool
is_local w = w.plan.is_local_inventory

abbrev pub filtered : (WantedItem → Bool) → List WantedItem → List WantedItem
filtered p [] = []
filtered p (w ∷ ws) = let rest = filtered p ws in if p w then w ∷ rest else rest

-- The arguments of `orderItemsService.create`.
pub record ItemRow : Type 0 where
  pub wanted : WantedItem
  pub order_request_id : Option Text
  pub quantity : ℕ

abbrev pub new_item : ℕ → ℕ → ItemRow → OrderItem
new_item id order_id row = record {
  id = id;
  order_id = order_id;
  plan_id = some row.wanted.plan_id;
  plan = some (record {
    provider_plan_id = row.wanted.plan.provider_plan_id;
    provider = row.wanted.plan.provider;
    data_mb = row.wanted.data_mb;
  });
  order_request_id = row.order_request_id;
  provider_order_id = none;
  provider_order_code = none;
  is_completed = false;
  quantity = some row.quantity;
}

unfoldable pub total_amount_of : List WantedItem → ℕ
total_amount_of [] = 0
total_amount_of (w ∷ ws) = w.plan.cost_price * w.quantity + total_amount_of ws

abbrev pub package_of : WantedItem → PackageInfo
package_of w = record {
  package_code = w.plan.provider_plan_id;
  count = w.quantity;
  price = w.plan.cost_price;
  period_num = w.period_num;
}

abbrev pub rows_with : Option Text → List WantedItem → List ItemRow
rows_with request_id [] = []
rows_with request_id (w ∷ ws) =
    record { wanted = w; order_request_id = request_id; quantity = w.quantity }
    ∷ rows_with request_id ws

-- Gadget Korea: one row for each unit, with the next id of the option's queue.
abbrev pub head : List Text → Option Text
head [] = none
head (id ∷ ids) = some id

unfoldable pub topup_rows : WantedItem → ℕ → List Text → List ItemRow
topup_rows w zero queue = []
topup_rows w (suc n) queue =
    record { wanted = w; order_request_id = head queue; quantity = 1 }
    ∷ topup_rows w n (drop 1 queue)

abbrev pub option_key : WantedItem → Text
option_key w = to_lower w.plan.provider_plan_id

abbrev pub product_of : WantedItem → OptionQuantity
product_of w = record { option_id = option_key w; qty = w.quantity }

abbrev pub shifted_by : ℕ → Text → Queues → Queues
shifted_by n option queues o = if eqb o option then drop n (queues o) else queues o

unfoldable pub gadget_korea_rows : Queues → List WantedItem → List ItemRow
unfolding topup_rows
gadget_korea_rows queues [] = []
gadget_korea_rows queues (w ∷ ws) =
    topup_rows w w.quantity (queues (option_key w))
    ++ gadget_korea_rows (shifted_by w.quantity (option_key w) queues) ws

-- JapanTravelSim: `jtsUnits`; a unit is known by its index.
pub record JtsUnit : Type 0 where
  pub item : WantedItem
  pub index : ℕ

unfoldable pub unit_copies : WantedItem → ℕ → ℕ → List JtsUnit
unit_copies w from zero = []
unit_copies w from (suc n) = record { item = w; index = from } ∷ unit_copies w (suc from) n

-- `Math.max(1, item.quantity)`
abbrev pub unit_count : WantedItem → ℕ
unit_count w = if leb w.quantity 0 then 1 else w.quantity

unfoldable pub jts_units : ℕ → List WantedItem → List JtsUnit
unfolding unit_copies
jts_units counter [] = []
jts_units counter (w ∷ ws) =
    unit_copies w counter (unit_count w) ++ jts_units (counter + unit_count w) ws

abbrev pub unit_request : Text → JtsUnit → JtsRequest
unit_request order_number unit = jts_row order_number unit.index unit.item.plan

unfoldable pub unit_rows : Text → List JtsData → List JtsUnit → List ItemRow
unfolding find_channel
unit_rows order_number channels [] = []
unit_rows order_number channels (u ∷ us) =
    record {
      wanted = u.item;
      order_request_id =
          find_channel (record { order_number = order_number; index = u.index }) channels;
      quantity = 1;
    }
    ∷ unit_rows order_number channels us

module _ ⦃s : SupplyEnv⦄ (providers : Providers) (order_id : ℕ) where
  -- `orderItemsService.create`; it answers the id.
  unfoldable pub create_item : ItemRow → SupplyService ℕ
  create_item row = do
    id ← gets λ db. s.order_item.next_id db.order_items
    modify λ db. record db {
      order_items = s.order_item.insert (new_item id order_id row) db.order_items;
    }
    pure id

  unfoldable pub create_row : ItemRow → SupplyService ⊤
  unfolding create_item
  create_row row = create_item row >> pure tt

  unfoldable pub order_airalo : WantedItem → SupplyService ⊤
  unfolding create_row
  order_airalo w = do
    request_id ←
        recovered none
          (with_suppliers (providers.submit_airalo_order w.plan.provider_plan_id w.quantity))
    create_row (record { wanted = w; order_request_id = request_id; quantity = w.quantity })

  unfoldable pub order_esim_access : Text → List WantedItem → SupplyService ⊤
  unfolding create_row total_amount_of
  order_esim_access order_number ws = when (not (is_nil ws)) do
    order_no ← recovered none (
        with_suppliers (
          providers.submit_esim_access_order (order_number ++ text "-esimaccess")
            (total_amount_of ws) (map package_of ws)))
    for_each (rows_with order_no ws) create_row

  unfoldable pub order_gadget_korea : Text → List WantedItem → SupplyService ⊤
  unfolding create_row queue_products gadget_korea_rows
  order_gadget_korea order_number ws = when (not (is_nil ws)) do
    products ← recovered [] (
        with_suppliers
          (providers.submit_gadget_korea_order (order_number ++ text "-gk") (map product_of ws)))
    for_each (gadget_korea_rows (queue_products (λ option. []) products) ws) create_row

  unfoldable pub order_jts_batches :
      Text → List JtsData → List (ℕ × List JtsUnit) → SupplyService (List JtsData)
  unfolding set_channels
  order_jts_batches order_number channels [] = pure channels
  order_jts_batches order_number channels ((i, batch) ∷ rest) = do
    answer ←
        recovered []
          (with_suppliers (providers.submit_jts_order (map (unit_request order_number) batch)))
    order_jts_batches order_number (set_channels channels answer) rest

  -- The timer that is set at the end does not throw.
  unfoldable pub order_jts : Text → List WantedItem → SupplyService ⊤
  unfolding create_row batches order_jts_batches jts_units unit_rows
  order_jts order_number ws = when (not (is_nil ws)) do
    let units = jts_units 0 ws
    channels ← order_jts_batches order_number [] (batches units)
    for_each (unit_rows order_number channels units) create_row
    attempt (with_suppliers (providers.schedule_callback_after_submit (channel_ids channels)))

  -- The part in `try`: the eSIMs of the inventory.
  unfoldable pub take_from_inventory : ℕ → WantedItem → ℕ → SupplyService ⊤
  unfolding find_available_by_plan_id update_item
  take_from_inventory user_id w item_id = do
    esims ← gets (find_available_by_plan_id (some w.plan_id) w.quantity)
    for_each esims λ e. update_esim e.id (status_dto sold (some item_id) (some user_id))
    when (leb w.quantity (length esims)) (update_item item_id λ i. record i { is_completed = true })

  unfoldable pub order_local : ℕ → WantedItem → SupplyService ⊤
  unfolding create_item take_from_inventory
  order_local user_id w = do
    id ← create_item (record { wanted = w; order_request_id = none; quantity = w.quantity })
    attempt (take_from_inventory user_id w id)

  unfoldable pub provision_order : ℕ → Text → List WantedItem → SupplyService ⊤
  unfolding order_airalo order_esim_access order_gadget_korea order_jts order_local
  provision_order user_id order_number wanted = do
    for_each (filtered (is_supplied_by (text "airalo")) wanted) order_airalo
    order_esim_access order_number (filtered (is_supplied_by (text "esimaccess")) wanted)
    order_gadget_korea order_number (filtered (is_supplied_by (text "gadgetkorea")) wanted)
    order_jts order_number (filtered (is_supplied_by (text "japantravelsim")) wanted)
    for_each (filtered is_local wanted) (order_local user_id)
