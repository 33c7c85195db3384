-- ===== src/Supply/Tests.antt =====
-- Supplies in lists, runs of them, and the theorems at concrete supplies.
use esim_backend.Base.Lists.{IsIn}
use esim_backend.Base.{
  for_each, ℕ, ◌≤◌, ◌≡◌, refl, inl, inr, true, false, Option, none, some, List, [], ◌∷◌, ◌++◌, ok,
  ◌>>=◌,
}
use esim_backend.Base.Text.{Text, text}
use esim_backend.Supply.Data.{
  Esim, OrderItem, TopupOrder, TopupStatus, SupplierEsim, airalo, completed, available, find_topup,
  find_by_iccid,
}
use esim_backend.Supply.Packages.{TopupPackage, TopupCheckoutDto, is_final}
use esim_backend.Supply.Topup.{execute_topup, checkout}
use esim_backend.Supply.Esims.{EsimDto}
use esim_backend.Supply.Matching.{dollar, quantity_of, parse_link}
use esim_backend.Supply.Webhooks.{upsert_esim, store_supplied}
use esim_backend.Supply.Execution.{IsKeyed, execute_topup_final, execute_topup_once}
use esim_backend.Supply.Assignment.{
  store_assigned, named, esims_of, occurrences, store_supplied_capped,
}
use esim_backend.Supply.Links.{parse_link-print}
use esim_backend.Supply.Fixtures.{shelf, paid_topup, stock}
use esim_backend.Supply.Upserts.{AreUnique, upsert_esim_stored}

stock-IsKeyed : IsKeyed stock.orders
stock-IsKeyed = record {
  numbers = λ x y m m' h. elim m [
    | inl e ↦ elim m' [ inl e' ↦ cc (e, e') | inr n ↦ absurd n ]
    | inr n ↦ absurd n
  ];
}

stock-AreUnique : AreUnique stock.esims
stock-AreUnique = record {
  iccids = λ x y m m' h. elim m [
    | inl e ↦ elim m' [ inl e' ↦ cc (e, e') | inr n ↦ absurd n ]
    | inr n ↦ absurd n
  ];
}

execute_topup_final_example :
    (status : TopupStatus) × (is_final status ≡ true)
    × (find_topup (text "TOPUP-1") (execute_topup (text "TOPUP-1") stock).1
        ≡ some (record paid_topup { status = status }))
execute_topup_final_example = execute_topup_final (text "TOPUP-1") stock stock-IsKeyed refl refl

execute_topup_once_example :
    execute_topup (text "TOPUP-1") (execute_topup (text "TOPUP-1") stock).1
    ≡ (ok tt, (execute_topup (text "TOPUP-1") stock).1)
execute_topup_once_example = execute_topup_once (text "TOPUP-1") stock stock-IsKeyed

-- The supplier was called, and the order is completed.
executed : (execute_topup (text "TOPUP-1") stock).1 ≡ record stock {
  orders = record paid_topup { status = completed } ∷ [];
  suppliers = text "P1" ∷ [];
}
unfolding execute_topup ◌>>=◌
executed = refl

abbrev our_plans : Option ℕ → List TopupPackage
our_plans plan = []

abbrev wish : TopupCheckoutDto
wish = record { iccid = text "8985"; package_id = text "P1"; provider = airalo }

abbrev bought : TopupOrder
bought = record paid_topup { id = 2; order_number = text "TOPUP-2"; status = TopupStatus.pending }

checked_out : (checkout our_plans 7 (text "TOPUP-2") wish stock).0 ≡ ok bought
unfolding checkout ◌>>=◌
checked_out = refl

abbrev item : OrderItem
item = record {
  id = 9;
  order_id = 3;
  plan_id = some 5;
  plan =
      some (record {
        provider_plan_id = text "VN1";
        provider = text "esimaccess";
        data_mb = some 1024;
      });
  order_request_id = some (text "B1");
  provider_order_id = none;
  provider_order_code = none;
  is_completed = false;
  quantity = some 1;
}

abbrev supplied : Text → SupplierEsim
supplied iccid = record {
  iccid = some iccid;
  package_code = some (text "VN1");
  ac = some (text "LPA:1$smdp.io$K2");
  qr_code_url = none;
  apn = none;
  esim_tran_no = none;
}

abbrev delivery : List SupplierEsim
delivery = supplied (text "1") ∷ supplied (text "2") ∷ []

distinct_items : (x y : OrderItem) → IsIn x (item ∷ []) → IsIn y (item ∷ []) → x.id ≡ y.id → x ≡ y
distinct_items x y m m' h = elim m [
  | inl e ↦ elim m' [ inl e' ↦ cc (e, e') | inr n ↦ absurd n ]
  | inr n ↦ absurd n
]

store_supplied_capped_example :
    (counts : ℕ → ℕ) × (assigned : List (SupplierEsim × Option OrderItem)) × (store_supplied
        (some 7)
        (item ∷ [])
        (λ id. 0)
        delivery
        stock
      ≡ (ok counts, (for_each assigned (store_assigned (some 7)) stock).1))
    × (esims_of assigned ≡ named delivery)
    × ((i : OrderItem) → IsIn i (item ∷ []) → occurrences i.id assigned ≤ quantity_of i)
store_supplied_capped_example =
    store_supplied_capped (some 7) (item ∷ []) delivery stock distinct_items

parse_link-print_example :
    parse_link none none (some (text "LPA:1" ++ dollar ∷ (text "smdp.io" ++ dollar ∷ text "K2")))
    ≡ (some (text "smdp.io"), some (text "K2"))
parse_link-print_example =
    parse_link-print none none 76 (text "PA:1") (text "smdp.io") (text "K2")
      (refl, (refl, (refl, (refl, (refl, tt)))))
      (refl, (refl, (refl, (refl, (refl, (refl, (refl, tt))))))) (refl, (refl, tt))

abbrev dto : EsimDto
dto = record {
  order_item_id = some 9;
  user_id = some 7;
  plan_id = some 5;
  smdp_address = some (text "smdp.io");
  activation_code = some (text "K2");
  lpa = some (text "LPA:1$smdp.io$K2");
  match_id = none;
  qrcode = some (text "Q");
  direct_apple_installation_url = none;
  apn_value = none;
  is_roaming = none;
  status = available;
  data_used = some (text "0");
  data_total = none;
  esim_tran_no = none;
  provider = some (text "esimaccess");
}

upsert_esim_stored_example :
    (e : Esim) × (find_by_iccid (text "8985") (upsert_esim (text "8985") dto stock).1 ≡ some e)
    × (e.status ≡ available)
    × ((u : ℕ) → some 7 ≡ some u → e.user_id ≡ some u)
    × ((i : ℕ) → some 9 ≡ some i → e.order_item_id ≡ some i)
upsert_esim_stored_example = upsert_esim_stored (text "8985") dto stock stock-AreUnique
