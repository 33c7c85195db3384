-- ===== src/Supply/Esims.antt =====
-- src/esims/esims.service.ts (create, update) and src/order-items/order-items.service.ts (update) over
-- their repositories. The QR access token, the phone number and the dates of an eSIM are left out: the
-- callbacks do not give them.
use esim_backend.Base.{
  ◌orelse◌, ℕ, Bool, true, false, Option, none, some, ⊤, throw, gets, modify, throw_if,
  unless_found, ◌>>=◌, ◌>>◌, ◌==◌,
}
use esim_backend.Base.Text.{Text}
use esim_backend.Storage.Rows.{find_one}
use esim_backend.Supply.Data.{
  SupplyEnv, SupplyService, Esim, EsimStatus, DataTotal, OrderItem, find_by_iccid,
  iccid_already_exists, esim_not_found, order_item_not_found,
}

-- `CreateEsimDto` and `UpdateEsimDto`: an absent field is `none`.
pub record EsimDto : Type 0 where
  pub order_item_id : Option ℕ
  pub user_id : Option ℕ
  pub plan_id : Option ℕ
  pub smdp_address : Option Text
  pub activation_code : Option Text
  pub lpa : Option Text
  pub match_id : Option Text
  pub qrcode : Option Text
  pub direct_apple_installation_url : Option Text
  pub apn_value : Option Text
  pub is_roaming : Option Bool
  pub status : EsimStatus
  pub data_used : Option Text
  pub data_total : Option DataTotal
  pub esim_tran_no : Option Text
  pub provider : Option Text

abbrev pub new_esim : ℕ → Text → EsimDto → Esim
new_esim id iccid dto = record {
  id = id;
  order_item_id = dto.order_item_id;
  user_id = dto.user_id;
  plan_id = dto.plan_id;
  iccid = iccid;
  smdp_address = dto.smdp_address;
  activation_code = dto.activation_code;
  lpa = dto.lpa;
  match_id = dto.match_id;
  qrcode = dto.qrcode;
  direct_apple_installation_url = dto.direct_apple_installation_url;
  apn_value = dto.apn_value;
  is_roaming = dto.is_roaming;
  status = dto.status;
  data_used = dto.data_used;
  data_total = dto.data_total;
  esim_tran_no = dto.esim_tran_no;
  provider = dto.provider;
  expires_at = none;
}

-- What the service's `update` hands on to the repository's: not the LPA, the matching id, the QR code,
-- the installation URL, the APN and the roaming flag.
abbrev pub patch_esim : EsimDto → Esim → Esim
patch_esim dto e = record e {
  order_item_id = dto.order_item_id orelse e.order_item_id;
  user_id = dto.user_id orelse e.user_id;
  plan_id = dto.plan_id orelse e.plan_id;
  smdp_address = dto.smdp_address orelse e.smdp_address;
  activation_code = dto.activation_code orelse e.activation_code;
  status = dto.status;
  data_used = dto.data_used orelse e.data_used;
  data_total = dto.data_total orelse e.data_total;
  esim_tran_no = dto.esim_tran_no orelse e.esim_tran_no;
  provider = dto.provider orelse e.provider;
}

module _ ⦃s : SupplyEnv⦄ where
  unfoldable pub create_esim : Text → EsimDto → SupplyService ⊤
  create_esim iccid dto = do
    existing ← gets (find_by_iccid iccid)
    throw_if (elim existing [ none ↦ false | some e ↦ true ]) iccid_already_exists
    modify λ db. record db {
      esims = s.esim.insert (new_esim (s.esim.next_id db.esims) iccid dto) db.esims;
    }

  unfoldable pub update_esim : ℕ → EsimDto → SupplyService ⊤
  update_esim id dto = do
    row ← gets λ db. find_one s.esim (λ e. e.id == id) db.esims
    unless_found row (throw esim_not_found) λ found.
        modify λ db. record db { esims = s.esim.update (λ e. e.id == id) (patch_esim dto) db.esims }

  -- `orderItemsService.update(id, { status: 'completed', providerOrderId, providerOrderCode })`
  unfoldable pub complete_item : Option Text → Option Text → OrderItem → SupplyService ⊤
  complete_item provider_order_id provider_order_code item = do
    row ← gets λ db. find_one s.order_item (λ i. i.id == item.id) db.order_items
    unless_found row (throw order_item_not_found) λ found. modify λ db. record db {
      order_items =
          s.order_item.update (λ i. i.id == item.id)
            (λ i. record i {
              is_completed = true;
              provider_order_id = provider_order_id orelse i.provider_order_id;
              provider_order_code = provider_order_code orelse i.provider_order_code;
            })
            db.order_items;
    }
