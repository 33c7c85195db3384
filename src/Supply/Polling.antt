-- ===== src/Supply/Polling.antt =====
-- src/esim-providers/japantravelsim/japantravelsim.service.ts: the supplier is asked for the eSIMs of the
-- orders that wait (`pollSpecificOrders`, a minute after an order, and `pollPendingCallbacks`, every half
-- minute), and what it answers is stored. The HTTP calls, the plans and the mails are parameters. The status
-- of an item is `pending` or `completed`.
use esim_backend.Base.{
  ℕ, Bool, true, false, not, ◌&&◌, Option, none, some, List, [], ◌∷◌, ⊤, Action, pure, gets,
  attempt, succeeds, unless_found, for_each, when, ◌>>=◌, ◌>>◌, ◌==◌, leb, if◌then◌else◌,
}
use esim_backend.Base.Lists.{take, is_nil}
use esim_backend.Base.Text.{Text, text, eqb}
use esim_backend.Storage.Rows.{find_one}
use esim_backend.Supply.Data.{
  SupplyEnv, SupplyDb, SupplyService, SupplyException, OrderItem, TopupOrder, available, truthy,
  find_by_iccid, with_suppliers,
}
use esim_backend.Supply.Batches.{batches}
use esim_backend.Supply.Esims.{EsimDto, create_esim, complete_item}
use esim_backend.Supply.Matching.{split, dollar, find_item}
use esim_backend.Supply.Webhooks.{find_by_order_request_id}

-- `JapanTravelSimCallbackResponseItem`
pub record CallbackResult : Type 0 where
  pub channel_order_id : Text
  pub order_no : Text
  pub iccid : Option Text
  pub qrcodecontent : Option Text

pub record Polls ⦃s : SupplyEnv⦄ : Type 0 where
  -- the callback API; `none` stands for another `tradeCode` than '0001', and for no data
  pub callback : List Text → Action SupplyException s.Suppliers (Option (List CallbackResult))
  -- `plansService.findById(planId)?.apn`
  pub apn_of : Option ℕ → Option Text
  -- `usersService.findById(userId)?.email`, which may throw
  pub email_of : ℕ → Action SupplyException s.Suppliers (Option Text)
  -- `mailService.sendEsimPurchase`, of an address and an iccid
  pub send_esim_purchase : Text → Text → Action SupplyException s.Suppliers ⊤

abbrev last_part : List Text → Text
last_part [] = []
last_part (p ∷ []) = p
last_part (p ∷ q ∷ ps) = last_part (q ∷ ps)

abbrev pub second_part : List Text → Option Text
second_part (a ∷ b ∷ ps) = truthy (some b)
second_part _ = none

-- the part after the last `$`, if there is a `$`
abbrev pub part_behind : List Text → Option Text
part_behind (a ∷ b ∷ ps) = truthy (some (last_part (b ∷ ps)))
part_behind _ = none

unfoldable pub extract_smdp_from_lpa : Text → Option Text
unfolding split
extract_smdp_from_lpa lpa = second_part (split dollar lpa)

unfoldable pub extract_activation_code_from_lpa : Text → Option Text
unfolding split
extract_activation_code_from_lpa lpa = part_behind (split dollar lpa)

abbrev pub read_lpa : (Text → Option Text) → Option Text → Option Text
read_lpa read lpa = elim (truthy lpa) [ none ↦ none | some l ↦ read l ]

abbrev pub polled_dto : Option Text → Option ℕ → OrderItem → CallbackResult → EsimDto
polled_dto apn user_id item result = record {
  order_item_id = some item.id;
  user_id = user_id;
  plan_id = item.plan_id;
  smdp_address = read_lpa extract_smdp_from_lpa result.qrcodecontent;
  activation_code = read_lpa extract_activation_code_from_lpa result.qrcodecontent;
  lpa = result.qrcodecontent;
  match_id = none;
  qrcode = none;
  direct_apple_installation_url = none;
  apn_value = apn;
  is_roaming = none;
  status = available;
  data_used = some (text "0");
  data_total = none;
  esim_tran_no = none;
  provider = some (text "japantravelsim");
}

-- `ORDER BY id ASC`
unfoldable pub insert_by_id : OrderItem → List OrderItem → List OrderItem
insert_by_id i [] = i ∷ []
insert_by_id i (j ∷ js) =
    let rest = insert_by_id i js in if leb i.id j.id then i ∷ j ∷ js else j ∷ rest

unfoldable pub sort_by_id : List OrderItem → List OrderItem
unfolding insert_by_id
sort_by_id [] = []
sort_by_id (i ∷ is) = insert_by_id i (sort_by_id is)

abbrev pub is_pending_for : Text → OrderItem → Bool
is_pending_for provider i =
    not i.is_completed
    && elim i.plan [ none ↦ false | some plan ↦ eqb plan.provider provider ]
    && elim i.order_request_id [ none ↦ false | some r ↦ true ]

-- `items.map((i) => i.orderRequestId).filter((id) => id != null)`
abbrev pub request_ids : List OrderItem → List Text
request_ids [] = []
request_ids (i ∷ is) = elim i.order_request_id [
  | none ↦ request_ids is
  | some r ↦ r ∷ request_ids is
]

abbrev pub user_of_order : Option TopupOrder → Option ℕ
user_of_order none = none
user_of_order (some order) = some order.user_id

module _ ⦃s : SupplyEnv⦄ where
  -- `orderItemsService.findPendingByProvider`
  unfoldable pub find_pending_by_provider : Text → SupplyDb → List OrderItem
  unfolding sort_by_id
  find_pending_by_provider provider db =
      take 100 (sort_by_id (s.order_item.find (is_pending_for provider) db.order_items))

  module _ (polls : Polls) where
    -- It answers whether the mail has been sent or has no recipient. (`!userId`: also an id of 0.)
    unfoldable pub send_purchase_email : Option ℕ → Text → SupplyService Bool
    send_purchase_email none iccid = pure true
    send_purchase_email (some user_id) iccid =
        if user_id == 0
        then pure true
        else succeeds (
            with_suppliers (polls.email_of user_id) >>= λ email.
            unless_found (truthy email) (pure tt)
              λ to. with_suppliers (polls.send_esim_purchase to iccid))

    unfoldable pub finish_item : CallbackResult → OrderItem → SupplyService ⊤
    unfolding complete_item
    finish_item result item =
        complete_item (some result.order_no) (some result.channel_order_id) item

    -- The part past the look-up of the eSIM, where there is none.
    unfoldable pub provision : Option ℕ → Text → CallbackResult → OrderItem → SupplyService ⊤
    unfolding create_esim send_purchase_email finish_item
    provision user_id iccid result item = do
      create_esim iccid (polled_dto (polls.apn_of item.plan_id) user_id item result)
      sent ← send_purchase_email user_id iccid
      when sent (finish_item result item)

    unfoldable pub handle_order_complete : CallbackResult → OrderItem → SupplyService ⊤
    unfolding finish_item provision
    handle_order_complete result item = unless_found (truthy result.iccid) (pure tt) λ iccid. do
      existing ← gets (find_by_iccid iccid)
      order ← gets λ db. find_one s.order (λ o. o.id == item.order_id) db.orders
      unless_found existing (provision (user_of_order order) iccid result item)
          λ e. finish_item result item

    unfoldable pub store_results : List CallbackResult → SupplyService ⊤
    unfolding handle_order_complete
    store_results results = for_each results λ result.
        unless_found (truthy result.iccid) (pure tt) λ iccid. do
          items ← gets (find_by_order_request_id result.channel_order_id)
          for_each items
              λ item. if item.is_completed then pure tt else handle_order_complete result item

    unfoldable pub poll_specific_orders : List Text → SupplyService ⊤
    unfolding store_results
    poll_specific_orders channel_order_ids = do
      answer ← with_suppliers (polls.callback channel_order_ids)
      unless_found answer (pure tt) store_results

    unfoldable pub process_callback_result : CallbackResult → List OrderItem → SupplyService ⊤
    unfolding handle_order_complete
    process_callback_result result items =
        unless_found
          (find_item
            (λ i. elim i.order_request_id [ none ↦ false | some r ↦ eqb r result.channel_order_id ])
            items)
          (pure tt) (handle_order_complete result)

    unfoldable pub poll_batch : List OrderItem → SupplyService ⊤
    unfolding process_callback_result
    poll_batch items = when (not (is_nil (request_ids items))) do
      answer ← with_suppliers (polls.callback (request_ids items))
      unless_found answer (pure tt)
          λ results. for_each results λ result. process_callback_result result items

    -- The rows are those of the supplier that have an id.
    unfoldable pub poll_pending_callbacks : SupplyService ⊤
    unfolding find_pending_by_provider poll_batch
    poll_pending_callbacks = attempt do
      items ← gets (find_pending_by_provider (text "japantravelsim"))
      for_each (batches items) λ batch. poll_batch batch.1
