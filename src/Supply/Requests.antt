-- ===== src/Supply/Requests.antt =====
-- src/orders/orders.service.ts, `submitProviders`: what an order asks of each supplier, and which of the
-- supplier's ids each item gets.
use esim_backend.Base.{
  ℕ, suc, ◌+◌, ◌*◌, Bool, ◌&&◌, Option, none, some, List, [], ◌∷◌, ◌++◌, ◌==◌, if◌then◌else◌,
}
use esim_backend.Base.Lists.{drop}
use esim_backend.Base.Text.{Text, text, eqb, to_lower}
use esim_backend.Supply.Data.{OrderItem, truthy}
use esim_backend.Supply.Matching.{split}

-- What the submission reads of a plan; the cost in 1/10000 of a dollar.
pub record SupplierPlan : Type 0 where
  pub provider : Text
  pub provider_plan_id : Text
  pub is_local_inventory : Bool
  pub cost_price : ℕ
  pub duration_days : ℕ

-- `{ ...oi, plan }`; the quantity and the period are those of the item.
pub record PlannedSupply : Type 0 where
  pub item : OrderItem
  pub plan : SupplierPlan
  pub quantity : ℕ
  pub period_num : Option ℕ

abbrev pub is_from : Text → PlannedSupply → Bool
is_from provider planned = eqb planned.plan.provider provider

abbrev pub select : (PlannedSupply → Bool) → List PlannedSupply → List PlannedSupply
select p [] = []
select p (x ∷ xs) = let rest = select p xs in if p x then x ∷ rest else rest

-- EsimAccess: one call for all its items.
pub record PackageInfo : Type 0 where
  pub package_code : Text
  pub count : ℕ
  pub price : ℕ
  pub period_num : Option ℕ

abbrev pub package_info : PlannedSupply → PackageInfo
package_info planned = record {
  package_code = planned.plan.provider_plan_id;
  count = planned.quantity;
  price = planned.plan.cost_price;
  period_num = planned.period_num;
}

unfoldable pub total_esim_access_amount : List PlannedSupply → ℕ
total_esim_access_amount [] = 0
total_esim_access_amount (p ∷ ps) = p.plan.cost_price * p.quantity + total_esim_access_amount ps

-- Gadget Korea: the quantities by option, in the order in which `qtyByOption` got its keys.
pub record OptionQuantity : Type 0 where
  pub option_id : Text
  pub qty : ℕ

unfoldable pub add_quantity : Text → ℕ → List OptionQuantity → List OptionQuantity
add_quantity option n [] = record { option_id = option; qty = n } ∷ []
add_quantity option n (q ∷ qs) =
    let rest = add_quantity option n qs in
    if eqb q.option_id option then record q { qty = q.qty + n } ∷ qs else q ∷ rest

abbrev pub option_of : PlannedSupply → Text
option_of planned = to_lower planned.plan.provider_plan_id

unfoldable pub quantities_from : List OptionQuantity → List PlannedSupply → List OptionQuantity
unfolding add_quantity
quantities_from qs [] = qs
quantities_from qs (p ∷ ps) = quantities_from (add_quantity (option_of p) p.quantity qs) ps

unfoldable pub qty_by_option : List PlannedSupply → List OptionQuantity
unfolding quantities_from
qty_by_option items = quantities_from [] items

-- `result.products`
pub record Product : Type 0 where
  pub topup_id : Option Text
  pub option_id : Option Text

-- `topupIdsByOption`: a key that is absent has the empty queue.
abbrev pub Queues : Type 0
Queues = Text → List Text

abbrev pub push : Text → Text → Queues → Queues
push option id queues o = if eqb o option then queues o ++ id ∷ [] else queues o

-- `if (p.topupId && p.optionId)`
abbrev pub ids_in : Product → Option (Text × Text)
ids_in p = elim (truthy p.topup_id) [
  | none ↦ none
  | some id ↦ elim (truthy p.option_id) [ none ↦ none | some option ↦ some (id, option) ]
]

abbrev pub queue_ids : Option (Text × Text) → Queues → Queues
queue_ids none queues = queues
queue_ids (some (id, option)) queues = push (to_lower option) id queues

unfoldable pub queue_products : Queues → List Product → Queues
queue_products queues [] = queues
queue_products queues (p ∷ ps) = queue_products (queue_ids (ids_in p) queues) ps

-- An item with the id that it gets.
pub record Assigned : Type 0 where
  pub planned : PlannedSupply
  pub request_id : Text

abbrev pub shifted : Text → Queues → Queues
shifted option queues o = if eqb o option then drop 1 (queues o) else queues o

-- `queue.shift()`, item by item
abbrev pub given_from : List Text → PlannedSupply → List Assigned
given_from [] planned = []
given_from (id ∷ ids) planned = record { planned = planned; request_id = id } ∷ []

unfoldable pub topup_assignments : Queues → List PlannedSupply → List Assigned
topup_assignments queues [] = []
topup_assignments queues (p ∷ ps) =
    given_from (queues (option_of p)) p ++ topup_assignments (shifted (option_of p) queues) ps

-- JapanTravelSim: an `OrderId` is `${orderNumber}-jts-${index}`, which the order number and the index
-- determine.
pub record JtsOrderId : Type 0 where
  pub order_number : Text
  pub index : ℕ

abbrev pub same_jts_order_id : JtsOrderId → JtsOrderId → Bool
same_jts_order_id a b = eqb a.order_number b.order_number && a.index == b.index

pub record JtsRequest : Type 0 where
  pub order_id : JtsOrderId
  pub wr_group : Text
  pub device_sku_id : Text
  pub days : ℕ

-- `[wrGroup, deviceSkuId] = id.includes(':') ? id.split(':') : ['plan', id]`
abbrev pub group_and_sku : Text → Text × Text
group_and_sku id = elim (split 58 id) [
  | [] ↦ (text "plan", id)
  | a ∷ rest ↦ elim rest [ [] ↦ (text "plan", id) | b ∷ more ↦ (a, b) ]
]

abbrev pub jts_row : Text → ℕ → SupplierPlan → JtsRequest
jts_row order_number index plan =
    let (group, sku) = group_and_sku plan.provider_plan_id in
    record {
      order_id = record { order_number = order_number; index = index };
      wr_group = group;
      device_sku_id = sku;
      days = plan.duration_days;
    }

abbrev pub jts_request : Text → ℕ → PlannedSupply → JtsRequest
jts_request order_number index planned = jts_row order_number index planned.plan

-- The rows of a batch, whose first item has the given index.
unfoldable pub jts_requests : Text → ℕ → List PlannedSupply → List JtsRequest
jts_requests order_number i [] = []
jts_requests order_number i (p ∷ ps) =
    jts_request order_number i p ∷ jts_requests order_number (suc i) ps

-- `result.data`
pub record JtsData : Type 0 where
  pub order_id : JtsOrderId
  pub channel_order_id : Text

-- `channelOrderIdMap`, whose keys stay in the order in which they came
unfoldable pub set_channel : JtsData → List JtsData → List JtsData
set_channel d [] = d ∷ []
set_channel d (e ∷ es) =
    let rest = set_channel d es in
    if same_jts_order_id e.order_id d.order_id then d ∷ es else e ∷ rest

unfoldable pub set_channels : List JtsData → List JtsData → List JtsData
unfolding set_channel
set_channels channels [] = channels
set_channels channels (d ∷ ds) = set_channels (set_channel d channels) ds

unfoldable pub find_channel : JtsOrderId → List JtsData → Option Text
find_channel id [] = none
find_channel id (d ∷ ds) =
    let rest = find_channel id ds in
    if same_jts_order_id d.order_id id then some d.channel_order_id else rest

abbrev pub channel_ids : List JtsData → List Text
channel_ids [] = []
channel_ids (d ∷ ds) = d.channel_order_id ∷ channel_ids ds

unfoldable pub channel_assignments : Text → ℕ → List JtsData → List PlannedSupply → List Assigned
unfolding find_channel
channel_assignments order_number i channels [] = []
channel_assignments order_number i channels (p ∷ ps) =
    let rest = channel_assignments order_number (suc i) channels ps in
    elim (truthy (find_channel (record { order_number = order_number; index = i }) channels)) [
      | none ↦ rest
      | some channel ↦ record { planned = p; request_id = channel } ∷ rest
    ]
