-- ===== src/Supply/Fixtures.antt =====
-- Supplies in lists, for the tests.
use esim_backend.Base.{false, none, some, List, [], ◌∷◌, ok}
use esim_backend.Base.Text.{Text, text}
use esim_backend.Storage.RowLists.{row_store}
use esim_backend.Supply.Data.{SupplyEnv, SupplyDb, Esim, TopupOrder, airalo, topup, paid, refunded}

-- The suppliers count the submissions; they list one package.
instance abbrev pub shelf : SupplyEnv
shelf = record {
  esim = row_store λ e. e.id;
  order_item = row_store λ i. i.id;
  order = row_store λ o. o.id;
  Suppliers = List Text;
  submit_airalo = λ package_id iccid log. (ok tt, package_id ∷ log);
  submit_esim_access = λ iccid package_id number log. (ok tt, package_id ∷ log);
  submit_gadget_korea = λ topup_id option log. (ok tt, option ∷ log);
  list_airalo = λ iccid log. ok (
      record {
        id = text "P1";
        title = text "1 GB";
        price = 45000;
        net_price = 40000;
        amount = 1024;
        day = 7;
        is_unlimited = false;
      }
      ∷ []);
  list_esim_access = λ iccid log. ok [];
  query_esims = λ order log. ok [];
  vnd_rate = λ log. some 25000000000;
}

abbrev pub stored_esim : Esim
stored_esim = record {
  id = 4;
  order_item_id = none;
  user_id = some 7;
  plan_id = none;
  iccid = text "8985";
  smdp_address = none;
  activation_code = none;
  lpa = none;
  match_id = none;
  qrcode = none;
  direct_apple_installation_url = none;
  apn_value = none;
  is_roaming = none;
  status = refunded;
  data_used = none;
  data_total = none;
  esim_tran_no = none;
  provider = some (text "Airalo");
  expires_at = none;
}

abbrev pub paid_topup : TopupOrder
paid_topup = record {
  id = 1;
  user_id = 7;
  order_number = text "TOPUP-1";
  status = paid;
  order_type = topup;
  target_iccid = some (text "8985");
  topup_provider = some airalo;
  topup_package_id = some (text "P1");
  total_amount = 45000;
  vnd_price = 146000;
  subtotal_vnd_price = 146000;
  payable_vnd_price = 146000;
}

abbrev pub stock : SupplyDb
stock = record {
  esims = stored_esim ∷ [];
  order_items = [];
  orders = paid_topup ∷ [];
  suppliers = [];
}
