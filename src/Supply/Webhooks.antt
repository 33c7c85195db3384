-- ===== src/Supply/Webhooks.antt =====
-- src/webhooks/webhooks.service.ts: the callbacks of the three suppliers. The check of a callback's HMAC
-- and the e-mails at the end of a handler, which change no table, are left out. An exception while one
-- eSIM is stored is logged, and the next one follows.
use esim_backend.Base.{
  ◌orelse◌, ℕ, false, ◌&&◌, Option, none, some, List, [], ◌∷◌, ⊤, ok, err, pure, gets, attempt,
  unless_found, for_each, when, ◌>>=◌, ◌>>◌, ◌==◌,
}
use esim_backend.Base.Text.{Text, text, eqb}
use esim_backend.Storage.Rows.{find_one}
use esim_backend.Supply.Data.{
  SupplyEnv, SupplyDb, SupplyService, OrderItem, SupplierEsim, available, truthy, find_by_iccid,
}
use esim_backend.Supply.Esims.{EsimDto, create_esim, update_esim, complete_item}
use esim_backend.Supply.Matching.{
  parse_link, data_total, first_item, id_of_item, plan_of_item, AiraloSim, AiraloEvent,
  EsimAccessEvent, GadgetKoreaEvent, has_sims, Counts, match_item, count_match,
}

module _ ⦃s : SupplyEnv⦄ where
  -- `orderItemsService.findByOrderRequestId`
  abbrev pub find_by_order_request_id : Text → SupplyDb → List OrderItem
  find_by_order_request_id request db =
      s.order_item.find (λ i. elim i.order_request_id [ none ↦ false | some r ↦ eqb r request ])
        db.order_items

  -- the user of the first item's order
  unfoldable pub owner_of : List OrderItem → SupplyService (Option ℕ)
  owner_of items = elim (first_item items) [
    | none ↦ pure none
    | some item ↦ do
      order ← gets λ db. find_one s.order (λ o. o.id == item.order_id) db.orders
      pure elim order [ none ↦ none | some o ↦ some o.user_id ]
  ]

  -- An eSIM that is there is updated by what the callback gives (its data usage stays, where it has
  -- one), any other is created.
  unfoldable pub upsert_esim : Text → EsimDto → SupplyService ⊤
  unfolding create_esim update_esim
  upsert_esim iccid dto = do
    existing ← gets (find_by_iccid iccid)
    unless_found existing (create_esim iccid dto)
        λ e. update_esim e.id (record dto { data_used = e.data_used orelse dto.data_used })

  abbrev pub airalo_dto : Option ℕ → Option OrderItem → AiraloSim → EsimDto
  airalo_dto user_id item sim =
      let link = parse_link sim.lpa sim.matching_id sim.qrcode in
      record {
        order_item_id = id_of_item item;
        user_id = user_id;
        plan_id = plan_of_item item;
        smdp_address = link.0;
        activation_code = link.1;
        lpa = sim.qrcode;
        match_id = sim.matching_id;
        qrcode = sim.qrcode;
        direct_apple_installation_url = sim.direct_apple_installation_url;
        apn_value = sim.apn_value;
        is_roaming = sim.is_roaming;
        status = available;
        data_used = some (text "0");
        data_total = data_total item;
        esim_tran_no = none;
        provider = some (text "airalo");
      }

  abbrev pub esim_access_dto : Option ℕ → Option OrderItem → SupplierEsim → EsimDto
  esim_access_dto user_id item esim =
      let link = parse_link none none esim.ac in
      record {
        order_item_id = id_of_item item;
        user_id = user_id;
        plan_id = plan_of_item item;
        smdp_address = link.0;
        activation_code = link.1;
        lpa = esim.ac;
        match_id = none;
        qrcode = esim.qr_code_url;
        direct_apple_installation_url = none;
        apn_value = esim.apn;
        is_roaming = none;
        status = available;
        data_used = some (text "0");
        data_total = data_total item;
        esim_tran_no = esim.esim_tran_no;
        provider = some (text "esimaccess");
      }

  abbrev pub gadget_korea_dto : Option ℕ → Option OrderItem → GadgetKoreaEvent → EsimDto
  gadget_korea_dto user_id item event =
      let link = parse_link event.smdp event.activate_code event.download_link in
      record {
        order_item_id = id_of_item item;
        user_id = user_id;
        plan_id = plan_of_item item;
        smdp_address = link.0;
        activation_code = link.1;
        lpa = event.download_link;
        match_id = none;
        qrcode = event.qrcode_img_url;
        direct_apple_installation_url = none;
        apn_value = none;
        is_roaming = none;
        status = available;
        data_used = none;
        data_total = none;
        esim_tran_no = none;
        provider = some (text "gadgetkorea");
      }

  -- `if (!iccid) continue` and the `try` round the upsert
  unfoldable pub store_esim : Option Text → EsimDto → SupplyService ⊤
  unfolding upsert_esim
  store_esim iccid dto = unless_found (truthy iccid) (pure tt) λ i. attempt (upsert_esim i dto)

  unfoldable pub handle_airalo_event : AiraloEvent → SupplyService ⊤
  unfolding complete_item owner_of store_esim
  handle_airalo_event event = when (has_sims event.sims) do
    items ← gets λ db. elim (truthy event.request_id) [
      | none ↦ []
      | some request ↦ find_by_order_request_id request db
    ]
    for_each items (complete_item (truthy event.id) event.code)
    user_id ← owner_of items
    for_each event.sims λ sim. store_esim sim.iccid (airalo_dto user_id (first_item items) sim)

  -- the loop over the eSIMs of an order; it answers the map of the assignments
  unfoldable pub store_supplied :
      Option ℕ → List OrderItem → Counts → List SupplierEsim → SupplyService Counts
  unfolding match_item count_match store_esim
  store_supplied user_id items counts [] = pure counts
  store_supplied user_id items counts (esim ∷ esims) =
      unless_found (truthy esim.iccid) (store_supplied user_id items counts esims) λ iccid.
        let item = match_item items counts esim.package_code in
        store_esim esim.iccid (esim_access_dto user_id item esim) >>= λ u.
        store_supplied user_id items (count_match item counts) esims

  -- the part past the checks of the event
  unfoldable pub receive_order : Text → SupplyService ⊤
  unfolding complete_item owner_of store_supplied
  receive_order order_no = do
    items ← gets (find_by_order_request_id order_no)
    for_each items (complete_item (some order_no) (some order_no))
    user_id ← owner_of items
    answer ← gets λ db. s.query_esims order_no db.suppliers
    elim answer [
      | err x ↦ pure tt
      | ok esims ↦ store_supplied user_id items (λ id. 0) esims >>= λ counts. pure tt
    ]

  unfoldable pub handle_esim_access_event : EsimAccessEvent → SupplyService ⊤
  unfolding receive_order
  handle_esim_access_event event =
      when
        (eqb event.notify_type (text "ORDER_STATUS")
          && eqb event.order_status (text "GOT_RESOURCE"))
        (unless_found (truthy event.order_no) (pure tt) receive_order)

  unfoldable pub handle_gadget_korea_event : GadgetKoreaEvent → SupplyService ⊤
  unfolding complete_item owner_of store_esim
  handle_gadget_korea_event event = unless_found (truthy event.topup_id) (pure tt) λ topup_id. do
    items ← gets (find_by_order_request_id topup_id)
    for_each items (complete_item (some topup_id) event.option_id)
    user_id ← owner_of items
    store_esim event.iccid (gadget_korea_dto user_id (first_item items) event)
