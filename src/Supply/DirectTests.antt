-- ===== src/Supply/DirectTests.antt =====
-- An order of two items, of which one supplier fails.
use esim_backend.Base.{
  subst, sym, inl, inr, arith, ◌≤◌, ◌≡◌, refl, true, false, none, some, List, [], ◌∷◌, ok, err,
  ◌>>=◌, for_each,
}
use esim_backend.Base.Lists.{IsIn, length}
use esim_backend.Base.Text.{Text, text}
use esim_backend.Supply.Data.{supplier_failed}
use esim_backend.Supply.Fixtures.{shelf, stock}
use esim_backend.Supply.Requests.{SupplierPlan}
use esim_backend.Supply.Submission.{Providers}
use esim_backend.Supply.Direct.{
  WantedItem, rows_with, gadget_korea_rows, jts_units, unit_rows, provision_order,
}
use esim_backend.Supply.Giving.{HasItem}
use esim_backend.Supply.Complete.{is_served, provision_order_complete}
use esim_backend.Supply.Units.{row_units, wanted_units, rows_units}

-- Airalo answers, the others fail.
abbrev down : Providers
down = record {
  find_plan = λ id. none;
  period_of = λ item. none;
  submit_airalo_order = λ id quantity log. (ok (some (text "R1")), id ∷ log);
  submit_esim_access_order = λ id amount infos log. (err (supplier_failed id), log);
  submit_gadget_korea_order = λ id options log. (err (supplier_failed id), log);
  submit_jts_order = λ requests log. (err (supplier_failed []), log);
  schedule_callback_after_submit = λ ids log. (ok tt, log);
  cancel_esim = λ number log. (ok tt, log);
  cancel_gadget_korea_order = λ id log. (ok tt, log);
}

abbrev plan_of : Text → SupplierPlan
plan_of provider = record {
  provider = provider;
  provider_plan_id = text "P1";
  is_local_inventory = false;
  cost_price = 20000;
  duration_days = 7;
}

abbrev wanted : List WantedItem
wanted =
    record {
      plan_id = 2;
      plan = plan_of (text "airalo");
      data_mb = none;
      quantity = 1;
      period_num = none;
    }
    ∷ record {
      plan_id = 3;
      plan = plan_of (text "gadgetkorea");
      data_mb = none;
      quantity = 2;
      period_num = none;
    }
    ∷ []

all_positive : (w : WantedItem) → IsIn w wanted → 1 ≤ w.quantity
all_positive w m = elim m [
  | inl e ↦ subst (λ v. 1 ≤ v.quantity) (sym e) (omega arith)
  | inr m' ↦ elim m' [
    | inl e ↦ subst (λ v. 1 ≤ v.quantity) (sym e) (omega arith)
    | inr n ↦ absurd n
  ]
]

-- No supplier answers, and an item without an id is stored for each unit.
rows_units_example :
    (row_units 3 (rows_with none wanted) ≡ wanted_units 3 wanted)
    × (row_units 3 (gadget_korea_rows (λ option. []) wanted) ≡ wanted_units 3 wanted)
    × (row_units 3 (unit_rows (text "ORD-9") [] (jts_units 0 wanted)) ≡ wanted_units 3 wanted)
rows_units_example = rows_units 3 none (λ option. []) (text "ORD-9") [] wanted all_positive

provision_order_complete_example :
    let out = provision_order down 9 1 (text "ORD-9") wanted stock in
    (out.0 ≡ ok tt)
    × ((w : WantedItem)
        → IsIn w wanted
        → is_served w ≡ true
        → 1 ≤ w.quantity
        → HasItem 9 w.plan_id out.1)
provision_order_complete_example = provision_order_complete 9 down 1 (text "ORD-9") wanted stock

-- One item from Airalo, and one for each unit that Gadget Korea has not supplied.
item_count : length ((provision_order down 9 1 (text "ORD-9") wanted stock).1.order_items) ≡ 3
unfolding provision_order ◌>>=◌ for_each
item_count = refl
