-- ===== src/Supply/Data.antt =====
-- The rows that the supplies work on (src/esims/domain/esim.ts, src/order-items/domain/order-item.ts,
-- the top-up's columns of src/orders/domain/order.ts), and what the services call outside the modelled
-- code: TypeORM and the suppliers, which are HTTP services with a state of their own.
use esim_backend.Base.{ℕ, Bool, Option, none, some, List, ◌∷◌, ⊤, Result, Action}
use esim_backend.Base.Text.{Text, eqb}
use esim_backend.Storage.Rows.{RowStore, find_one}

pub data EsimStatus : Type 0 where
  available refunded : EsimStatus
  other_status : Text → EsimStatus

-- A column `dataTotal`: `${dataMb / 1024}GB`, `${dataMb}MB`, or what another service wrote.
pub data DataTotal : Type 0 where
  in_gb in_mb : ℕ → DataTotal
  other_total : Text → DataTotal

pub record Esim : Type 0 where
  pub id : ℕ
  pub order_item_id : Option ℕ
  pub user_id : Option ℕ
  pub plan_id : Option ℕ
  pub iccid : Text
  pub smdp_address : Option Text
  pub activation_code : Option Text
  pub lpa : Option Text
  pub match_id : Option Text
  pub qrcode : Option Text
  pub direct_apple_installation_url : Option Text
  pub apn_value : Option Text
  pub is_roaming : Option Bool
  pub status : EsimStatus
  pub data_used : Option Text
  pub data_total : Option DataTotal
  pub esim_tran_no : Option Text
  pub provider : Option Text
  pub expires_at : Option ℕ

pub record PlanDetail : Type 0 where
  pub provider_plan_id : Text
  pub provider : Text
  pub data_mb : Option ℕ

pub record OrderItem : Type 0 where
  pub id : ℕ
  pub order_id : ℕ
  pub plan_id : Option ℕ
  pub plan : Option PlanDetail
  pub order_request_id : Option Text
  pub provider_order_id : Option Text
  pub provider_order_code : Option Text
  pub is_completed : Bool
  pub quantity : Option ℕ

-- `TopupProvider`; a column may hold another text.
pub data TopupProvider : Type 0 where
  airalo esim_access gadget_korea : TopupProvider
  unsupported : Text → TopupProvider

pub data OrderType : Type 0 where
  buy_new topup : OrderType

-- `TOPUP_ORDER_STATUS`, and the statuses of other orders.
pub data TopupStatus : Type 0 where
  pending paid completed failed manual_intervention : TopupStatus
  other_order_status : Text → TopupStatus

pub record TopupOrder : Type 0 where
  pub id : ℕ
  pub user_id : ℕ
  pub order_number : Text
  pub status : TopupStatus
  pub order_type : OrderType
  pub target_iccid : Option Text
  pub topup_provider : Option TopupProvider
  pub topup_package_id : Option Text
  -- in 1/10000 of a dollar
  pub total_amount : ℕ
  pub vnd_price : ℕ
  pub subtotal_vnd_price : ℕ
  pub payable_vnd_price : ℕ

pub data SupplyException : Type 0 where
  iccid_not_found topup_not_supported provider_mismatch package_not_available : SupplyException
  iccid_already_exists order_not_found order_item_not_found esim_not_found : SupplyException
  topup_id_missing unsupported_provider plan_not_found : SupplyException
  supplier_failed : Text → SupplyException

-- A package as Airalo lists it; prices in 1/10000 of a dollar.
pub record AiraloTopupPackage : Type 0 where
  pub id : Text
  pub title : Text
  pub price : ℕ
  pub net_price : ℕ
  -- in MB
  pub amount : ℕ
  pub day : ℕ
  pub is_unlimited : Bool

-- A package as EsimAccess lists it; prices in 1/10000 of a dollar, the volume in bytes.
pub record EsimAccessPackage : Type 0 where
  pub package_code : Text
  pub name : Text
  pub price : ℕ
  pub retail_price : ℕ
  pub volume : ℕ
  pub data_type : ℕ
  pub duration : ℕ

-- An eSIM as EsimAccess answers `queryEsims`.
pub record SupplierEsim : Type 0 where
  pub iccid : Option Text
  pub package_code : Option Text
  pub ac : Option Text
  pub qr_code_url : Option Text
  pub apn : Option Text
  pub esim_tran_no : Option Text

pub record SupplyEnv : Type 1 where
  pub esim : RowStore Esim λ e. e.id
  pub order_item : RowStore OrderItem λ i. i.id
  pub order : RowStore TopupOrder λ o. o.id
  -- the state of the suppliers
  pub Suppliers : Type 0
  -- `submitTopup` of the three suppliers: (package, iccid), (iccid, package, transaction), (top-up, option)
  pub submit_airalo : Text → Text → Action SupplyException Suppliers ⊤
  pub submit_esim_access : Text → Text → Text → Action SupplyException Suppliers ⊤
  pub submit_gadget_korea : Text → Text → Action SupplyException Suppliers ⊤
  -- the lists of packages, and the eSIMs of an order
  pub list_airalo : Text → Suppliers → Result SupplyException (List AiraloTopupPackage)
  pub list_esim_access : Text → Suppliers → Result SupplyException (List EsimAccessPackage)
  pub query_esims : Text → Suppliers → Result SupplyException (List SupplierEsim)
  -- `fetchVndRate`, in millionths of a dong for a dollar; `none` where the call fails
  pub vnd_rate : Suppliers → Option ℕ

pub record Supplies (s : SupplyEnv) : Type 0 where
  pub esims : s.esim.Table
  pub order_items : s.order_item.Table
  pub orders : s.order.Table
  pub suppliers : s.Suppliers

abbrev pub SupplyDb : ⦃s : SupplyEnv⦄ → Type 0
SupplyDb ⦃s⦄ = Supplies s

abbrev pub SupplyService : ⦃s : SupplyEnv⦄ → Type 0 → Type 0
SupplyService ⦃s⦄ A = Action SupplyException SupplyDb A

-- `if (text)`: the empty text counts as none.
abbrev pub truthy : Option Text → Option Text
truthy (some (c ∷ cs)) = some (c ∷ cs)
truthy _ = none

module _ ⦃s : SupplyEnv⦄ where
  abbrev pub find_by_iccid : Text → SupplyDb → Option Esim
  find_by_iccid iccid db = find_one s.esim (λ e. eqb iccid e.iccid) db.esims

  -- `orderRepository.findByOrderNumber`
  abbrev pub find_topup : Text → SupplyDb → Option TopupOrder
  find_topup n db = find_one s.order (λ o. eqb n o.order_number) db.orders

  -- A call of a supplier.
  abbrev pub with_suppliers : {A : Type 0} → Action SupplyException s.Suppliers A → SupplyService A
  with_suppliers m db =
      let (r, suppliers) = m db.suppliers in (r, record db { suppliers = suppliers })
