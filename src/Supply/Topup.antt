-- ===== src/Supply/Topup.antt =====
-- src/topup/topup.service.ts: checkout and executeTopup. The texts for the browser (the payment URL,
-- the label of the data amount) are left out. Prices in dollars are in 1/10000, the exchange rate in
-- millionths, and the arithmetic is exact; the plans of Gadget Korea are a parameter, since they are our
-- own table of plans.
use esim_backend.Base.{
  ℕ, not, ◌||◌, Option, none, some, List, [], map, ⊤, Result, pure, throw, gets, modify, throw_if,
  attempt, catching, unless_found, ◌>>=◌, ◌>>◌, ◌==◌, ltb, if◌then◌else◌,
}
use esim_backend.Base.Text.{Text, to_lower}
use esim_backend.Storage.Rows.{find_one}
use esim_backend.Supply.Data.{
  SupplyEnv, SupplyService, SupplyException, Esim, TopupOrder, TopupProvider, TopupStatus, airalo,
  esim_access, gadget_korea, unsupported, topup, pending, completed, manual_intervention, truthy,
  find_by_iccid, find_topup, with_suppliers, iccid_not_found, topup_not_supported,
  provider_mismatch, package_not_available, order_not_found, topup_id_missing, unsupported_provider,
}
use esim_backend.Supply.Packages.{
  TopupPackage, TopupCheckoutDto, same_topup_provider, is_final, is_topup, provider_of, topup_vnd,
  map_airalo_package, map_esim_access_package, find_package, given_provider, id_of_esim,
}

module _ ⦃s : SupplyEnv⦄ where
  -- a supplier's list, which throws where the call fails
  abbrev pub listed : {A : Type 0} → (s.Suppliers → Result SupplyException A) → SupplyService A
  listed f db = (f db.suppliers, db)

  unfoldable pub resolve_provider_for_iccid : Text → SupplyService (TopupProvider × Esim)
  unfolding to_lower
  resolve_provider_for_iccid iccid = do
    row ← gets (find_by_iccid iccid)
    unless_found row (throw iccid_not_found) λ esim.
        unless_found (provider_of (elim esim.provider [ none ↦ [] | some p ↦ to_lower p ]))
          (throw topup_not_supported) λ provider. pure (provider, esim)

  -- `our_plans` is `listGadgetKoreaPackagesFromDb` of the eSIM's plan.
  unfoldable pub packages_of :
      (Option ℕ → List TopupPackage)
      → Option ℕ
      → Text
      → Esim
      → TopupProvider
      → SupplyService (List TopupPackage)
  unfolding map_airalo_package map_esim_access_package
  packages_of our_plans rate iccid esim airalo =
      listed (s.list_airalo iccid) >>= λ list. pure (map (map_airalo_package rate) list)
  packages_of our_plans rate iccid esim esim_access =
      listed (s.list_esim_access iccid) >>= λ list. pure (map (map_esim_access_package rate) list)
  packages_of our_plans rate iccid esim _ = pure (our_plans esim.plan_id)

  unfoldable pub list_packages :
      (Option ℕ → List TopupPackage) → Text → SupplyService (List TopupPackage)
  unfolding resolve_provider_for_iccid packages_of
  list_packages our_plans iccid = do
    resolved ← resolve_provider_for_iccid iccid
    rate ← gets λ db. s.vnd_rate db.suppliers
    packages_of our_plans rate iccid resolved.1 resolved.0

  -- the price that the buyer pays; without a rate the code takes 26000
  unfoldable pub vnd_amount : TopupPackage → SupplyService ℕ
  unfolding topup_vnd
  vnd_amount pkg = do
    rate ← gets λ db. s.vnd_rate db.suppliers
    pure elim pkg.vnd_price [
      | none ↦ topup_vnd pkg.retail_price (elim rate [ none ↦ 26000000000 | some r ↦ r ]) 100
      | some v ↦
          if ltb 0 v
          then v
          else topup_vnd pkg.retail_price (elim rate [ none ↦ 26000000000 | some r ↦ r ]) 100
    ]

  abbrev pub new_topup : ℕ → ℕ → Text → TopupCheckoutDto → TopupPackage → ℕ → TopupOrder
  new_topup id user_id order_number dto pkg vnd = record {
    id = id;
    user_id = user_id;
    order_number = order_number;
    status = pending;
    order_type = topup;
    target_iccid = some dto.iccid;
    topup_provider = some dto.provider;
    topup_package_id = some dto.package_id;
    total_amount = pkg.retail_price;
    vnd_price = vnd;
    subtotal_vnd_price = vnd;
    payable_vnd_price = vnd;
  }

  -- `orderRepository.create`
  unfoldable pub store_topup : (ℕ → TopupOrder) → SupplyService TopupOrder
  store_topup new = do
    order ← gets λ db. new (s.order.next_id db.orders)
    modify λ db. record db { orders = s.order.insert order db.orders }
    pure order

  -- `order_number` is drawn by the clock and a random generator.
  unfoldable pub checkout :
      (Option ℕ → List TopupPackage) → ℕ → Text → TopupCheckoutDto → SupplyService TopupOrder
  unfolding resolve_provider_for_iccid list_packages vnd_amount store_topup
  checkout our_plans user_id order_number dto = do
    resolved ← resolve_provider_for_iccid dto.iccid
    throw_if (not (same_topup_provider resolved.0 dto.provider)) provider_mismatch
    packages ← list_packages our_plans dto.iccid
    unless_found (find_package dto.package_id packages) (throw package_not_available) λ pkg. do
      vnd ← vnd_amount pkg
      store_topup λ id. new_topup id user_id order_number dto pkg vnd

  -- `orderRepository.update(id, { status })`
  unfoldable pub update_status : ℕ → TopupStatus → SupplyService ⊤
  update_status id status = do
    row ← gets λ db. find_one s.order (λ o. o.id == id) db.orders
    unless_found row (throw order_not_found) λ found. modify λ db. record db {
      orders = s.order.update (λ o. o.id == id) (λ o. record o { status = status }) db.orders;
    }

  unfoldable pub mark_manual_intervention : TopupOrder → SupplyService ⊤
  unfolding update_status
  mark_manual_intervention order = attempt (update_status order.id manual_intervention)

  -- the call of the supplier: package, iccid, order number
  unfoldable pub submit_topup : TopupProvider → Text → Text → Text → SupplyService ⊤
  submit_topup airalo package_id iccid number = with_suppliers (s.submit_airalo package_id iccid)
  submit_topup esim_access package_id iccid number =
      with_suppliers (s.submit_esim_access iccid package_id number)
  submit_topup gadget_korea package_id iccid number = do
    row ← gets (find_by_iccid iccid)
    unless_found (id_of_esim row) (throw topup_id_missing)
        λ topup_id. with_suppliers (s.submit_gadget_korea topup_id package_id)
  submit_topup (unsupported name) package_id iccid number = throw unsupported_provider

  -- an order whose metadata are complete
  unfoldable pub execute_with : TopupOrder → TopupProvider → Text → Text → SupplyService ⊤
  unfolding submit_topup update_status mark_manual_intervention
  execute_with order provider package_id iccid =
      catching
        (submit_topup provider package_id iccid order.order_number
          >> update_status order.id completed)
        (mark_manual_intervention order)

  -- an order that was found
  unfoldable pub execute_order : TopupOrder → SupplyService ⊤
  unfolding execute_with mark_manual_intervention
  execute_order order =
      if not (is_topup order.order_type) || is_final order.status
      then pure tt
      else unless_found (given_provider order.topup_provider) (mark_manual_intervention order)
          λ provider.
            unless_found (truthy order.topup_package_id) (mark_manual_intervention order)
              λ package_id.
                unless_found (truthy order.target_iccid) (mark_manual_intervention order)
                  λ iccid. execute_with order provider package_id iccid

  unfoldable pub execute_topup : Text → SupplyService ⊤
  unfolding execute_order
  execute_topup order_number = do
    row ← gets (find_topup order_number)
    unless_found row (pure tt) execute_order
