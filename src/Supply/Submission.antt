-- ===== src/Supply/Submission.antt =====
-- src/orders/orders.service.ts, `submitProviders` and `cancelOrderWithSuppliers`: an order that is paid is
-- submitted to the suppliers of its items, and the local inventory serves its own; a refund takes both back.
-- The suppliers' clients and the plans are parameters; the mails at the end of the submission are left out.
use esim_backend.Base.{
  ℕ, Bool, true, false, not, ◌&&◌, Option, none, some, List, [], ◌∷◌, ◌++◌, map, ⊤, Action, pure,
  throw, gets, modify, attempt, recovered, unless_found, for_each, when, ◌>>=◌, ◌>>◌, ◌==◌, leb,
  if◌then◌else◌,
}
use esim_backend.Base.Lists.{length, take, is_nil}
use esim_backend.Base.Text.{Text, text, eqb}
use esim_backend.Storage.Rows.{find_one}
use esim_backend.Supply.Data.{
  SupplyEnv, SupplyDb, SupplyService, SupplyException, Esim, EsimStatus, OrderItem, available,
  refunded, other_status, order_not_found, order_item_not_found, plan_not_found, truthy,
  with_suppliers,
}
use esim_backend.Supply.Batches.{batches}
use esim_backend.Supply.Esims.{EsimDto, update_esim}
use esim_backend.Supply.Matching.{quantity_of}
use esim_backend.Supply.Requests.{
  SupplierPlan, PlannedSupply, is_from, select, PackageInfo, package_info, total_esim_access_amount,
  OptionQuantity, qty_by_option, Product, queue_products, Assigned, topup_assignments, JtsRequest,
  jts_requests, JtsData, set_channels, channel_ids, channel_assignments,
}

pub record Providers ⦃s : SupplyEnv⦄ : Type 0 where
  pub find_plan : Option ℕ → Option SupplierPlan
  pub period_of : OrderItem → Option ℕ
  -- `submitOrderAsync` (a package and a quantity), which answers `request_id`
  pub submit_airalo_order : Text → ℕ → Action SupplyException s.Suppliers (Option Text)
  -- `submitOrder` of a transaction, an amount and packages, which answers `orderNo`
  pub submit_esim_access_order :
      Text → ℕ → List PackageInfo → Action SupplyException s.Suppliers (Option Text)
  pub submit_gadget_korea_order :
      Text → List OptionQuantity → Action SupplyException s.Suppliers (List Product)
  pub submit_jts_order : List JtsRequest → Action SupplyException s.Suppliers (List JtsData)
  pub schedule_callback_after_submit : List Text → Action SupplyException s.Suppliers ⊤
  pub cancel_esim : Text → Action SupplyException s.Suppliers ⊤
  pub cancel_gadget_korea_order : Text → Action SupplyException s.Suppliers ⊤

-- The update of an eSIM with a status, an item and a user.
abbrev pub status_dto : EsimStatus → Option ℕ → Option ℕ → EsimDto
status_dto status order_item_id user_id = record {
  order_item_id = order_item_id;
  user_id = user_id;
  plan_id = none;
  smdp_address = none;
  activation_code = none;
  lpa = none;
  match_id = none;
  qrcode = none;
  direct_apple_installation_url = none;
  apn_value = none;
  is_roaming = none;
  status = status;
  data_used = none;
  data_total = none;
  esim_tran_no = none;
  provider = none;
}

abbrev pub sold : EsimStatus
sold = other_status (text "sold")

-- `where: { planId, status: 'available', orderItemId: null, userId: null }`; TypeORM 0.3 leaves out the
-- conditions with null.
abbrev pub is_available_for : Option ℕ → Esim → Bool
is_available_for plan_id e =
    elim e.status [ available ↦ true | _ ↦ false ]
    && elim plan_id [ none ↦ true | some p ↦ elim e.plan_id [ none ↦ false | some q ↦ p == q ] ]

-- `expiresAt ASC NULLS LAST, createdAt ASC`: the ids grow with the dates of creation.
abbrev pub expires_no_later : Esim → Esim → Bool
expires_no_later a b = elim a.expires_at [
  | none ↦ elim b.expires_at [ none ↦ leb a.id b.id | some y ↦ false ]
  | some x ↦ elim b.expires_at [ none ↦ true | some y ↦ if x == y then leb a.id b.id else leb x y ]
]

unfoldable pub insert_by_expiry : Esim → List Esim → List Esim
insert_by_expiry e [] = e ∷ []
insert_by_expiry e (x ∷ xs) =
    let rest = insert_by_expiry e xs in if expires_no_later e x then e ∷ x ∷ xs else x ∷ rest

unfoldable pub sort_by_expiry : List Esim → List Esim
unfolding insert_by_expiry
sort_by_expiry [] = []
sort_by_expiry (e ∷ es) = insert_by_expiry e (sort_by_expiry es)

module _ ⦃s : SupplyEnv⦄ where
  unfoldable pub find_available_by_plan_id : Option ℕ → ℕ → SupplyDb → List Esim
  unfolding sort_by_expiry
  find_available_by_plan_id plan_id limit db =
      take limit (sort_by_expiry (s.esim.find (is_available_for plan_id) db.esims))

  abbrev pub find_by_order_id : ℕ → SupplyDb → List OrderItem
  find_by_order_id order_id db = s.order_item.find (λ i. i.order_id == order_id) db.order_items

  abbrev pub find_by_order_item : ℕ → SupplyDb → List Esim
  find_by_order_item item_id db =
      s.esim.find (λ e. elim e.order_item_id [ none ↦ false | some i ↦ i == item_id ]) db.esims

  -- `orderItemsService.update`
  unfoldable pub update_item : ℕ → (OrderItem → OrderItem) → SupplyService ⊤
  update_item id set = do
    row ← gets λ db. find_one s.order_item (λ i. i.id == id) db.order_items
    unless_found row (throw order_item_not_found) λ found.
        modify
          λ db. record db { order_items = s.order_item.update (λ i. i.id == id) set db.order_items }

  unfoldable pub set_request : Option Text → OrderItem → SupplyService ⊤
  unfolding update_item
  set_request request_id item =
      update_item item.id (λ i. record i { order_request_id = request_id })

  -- The ids that the items got from a supplier.
  unfoldable pub set_requests : List Assigned → SupplyService ⊤
  unfolding set_request
  set_requests assigned = for_each assigned λ a. set_request (some a.request_id) a.planned.item

  -- One item of the local inventory.
  unfoldable pub assign_local : ℕ → PlannedSupply → SupplyService ⊤
  unfolding find_available_by_plan_id update_item
  assign_local user_id planned = do
    esims ← gets (find_available_by_plan_id planned.item.plan_id planned.quantity)
    for_each esims λ e. update_esim e.id (status_dto sold (some planned.item.id) (some user_id))
    update_item planned.item.id λ i. record i { is_completed = leb planned.quantity (length esims) }

  module _ (providers : Providers) where
    unfoldable pub with_plans : List OrderItem → SupplyService (List PlannedSupply)
    with_plans [] = pure []
    with_plans (item ∷ items) =
        unless_found (providers.find_plan item.plan_id) (throw plan_not_found) λ plan. do
          rest ← with_plans items
          pure (
              record {
                item = item;
                plan = plan;
                quantity = quantity_of item;
                period_num = providers.period_of item;
              }
              ∷ rest)

    unfoldable pub submit_airalo_item : PlannedSupply → SupplyService ⊤
    unfolding set_request
    submit_airalo_item planned = attempt do
      request_id ←
          with_suppliers
            (providers.submit_airalo_order planned.plan.provider_plan_id planned.quantity)
      set_request request_id planned.item

    unfoldable pub submit_esim_access_items : Text → List PlannedSupply → SupplyService ⊤
    unfolding total_esim_access_amount set_request
    submit_esim_access_items order_number items = when (not (is_nil items)) (
        attempt do
          order_no ← with_suppliers (
              providers.submit_esim_access_order (order_number ++ text "-esimaccess")
                (total_esim_access_amount items) (map package_info items))
          for_each items λ planned. set_request order_no planned.item)

    unfoldable pub submit_gadget_korea_items : Text → List PlannedSupply → SupplyService ⊤
    unfolding qty_by_option queue_products topup_assignments set_requests
    submit_gadget_korea_items order_number items = when (not (is_nil items)) do
      products ← recovered [] (
          with_suppliers (
            providers.submit_gadget_korea_order (order_number ++ text "-gk") (qty_by_option items)))
      set_requests (topup_assignments (queue_products (λ option. []) products) items)

    -- The loop over the batches; it answers `channelOrderIdMap`.
    unfoldable pub submit_jts_batches :
        Text → List JtsData → List (ℕ × List PlannedSupply) → SupplyService (List JtsData)
    unfolding jts_requests set_channels
    submit_jts_batches order_number channels [] = pure channels
    submit_jts_batches order_number channels ((i, batch) ∷ rest) = do
      answer ←
          recovered []
            (with_suppliers (providers.submit_jts_order (jts_requests order_number i batch)))
      submit_jts_batches order_number (set_channels channels answer) rest

    unfoldable pub submit_jts_items : Text → List PlannedSupply → SupplyService ⊤
    unfolding batches submit_jts_batches channel_assignments set_requests
    submit_jts_items order_number items = when (not (is_nil items)) do
      channels ← submit_jts_batches order_number [] (batches items)
      set_requests (channel_assignments order_number 0 channels items)
      with_suppliers (providers.schedule_callback_after_submit (channel_ids channels))

    unfoldable pub submit_providers : ℕ → SupplyService ⊤
    unfolding with_plans submit_airalo_item submit_esim_access_items submit_gadget_korea_items
        submit_jts_items assign_local
    submit_providers order_id = do
      row ← gets λ db. find_one s.order (λ o. o.id == order_id) db.orders
      unless_found row (throw order_not_found) λ order. do
        items ← gets (find_by_order_id order_id)
        planned ← with_plans items
        for_each (select (is_from (text "airalo")) planned) submit_airalo_item
        submit_esim_access_items order.order_number (select (is_from (text "esimaccess")) planned)
        submit_gadget_korea_items order.order_number (select (is_from (text "gadgetkorea")) planned)
        submit_jts_items order.order_number (select (is_from (text "japantravelsim")) planned)
        for_each (select (λ p. p.plan.is_local_inventory) planned)
            λ p. attempt (assign_local order.user_id p)

    -- `cancelOrderWithSuppliers`, for one item. (`userId: null` and `orderItemId: null` clear the columns.)
    unfoldable pub cancel_item : OrderItem → SupplierPlan → SupplyService ⊤
    cancel_item item plan =
        if eqb plan.provider (text "esimaccess")
        then (do
          esims ← gets (find_by_order_item item.id)
          for_each esims λ e.
              unless_found (truthy e.esim_tran_no) (pure tt)
                λ number. with_suppliers (providers.cancel_esim number))
        else if eqb plan.provider (text "gadgetkorea")
        then (unless_found (truthy item.order_request_id) (pure tt)
            λ request. with_suppliers (providers.cancel_gadget_korea_order request))
        else when plan.is_local_inventory do
          esims ← gets (find_by_order_item item.id)
          for_each esims λ e. modify λ db. record db {
            esims =
                s.esim.update (λ x. x.id == e.id)
                  (λ x. record x { user_id = none; order_item_id = none; status = refunded })
                  db.esims;
          }

    unfoldable pub cancel_order_with_suppliers : ℕ → SupplyService ⊤
    unfolding cancel_item
    cancel_order_with_suppliers order_id = do
      items ← gets (find_by_order_id order_id)
      for_each items λ item.
          unless_found (providers.find_plan item.plan_id) (pure tt)
            λ plan. attempt (cancel_item item plan)
