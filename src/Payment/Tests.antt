-- ===== src/Payment/Tests.antt =====
-- Notifications about a pending order and about a paid one.
use esim_backend.Base.{◌≡◌, refl, [], ◌∷◌, none, some, ok, pure}
use esim_backend.Base.Text.{text, starts_with}
use esim_backend.Entities.{Order, OrderStatus}
use esim_backend.Database.{Db, find_order, find_hold, find_order_referral}
use esim_backend.Fixtures.{memory, empty, order_3}
use esim_backend.Orders.Cancel.{failed}
use esim_backend.Orders.RollBack.{freed, undone}
use esim_backend.Payment.Notifications.{Query, Gateway, is_payment_success, verify_ipn, handle_ipn}
use esim_backend.Payment.Settlement.{handle_ipn_declined, handle_ipn_idle}

-- A gateway whose every hash is `H`.
abbrev gateway : Gateway
gateway = record {
  create_secure_hash = λ query. text "H";
  submit_providers = λ order_id. pure tt;
  clear_cart = λ user_id. pure tt;
}

abbrev declined : Query
declined = record {
  secure_hash = some (text "H");
  merch_txn_ref = some (text "ORD-3");
  txn_response_code = text "7";
  transaction_no = none;
  others = [];
}

abbrev waiting : Order
waiting = record order_3 { status = OrderStatus.pending }

abbrev ordered : Db
ordered = record empty { orders = waiting ∷ [] }

handle_ipn_declined_example :
    let out = handle_ipn gateway declined 2000 ordered in
    (out.0 ≡ ok "00")
    × (find_order 3 out.1 ≡ some (failed waiting))
    × (find_hold 3 out.1 ≡ freed (find_hold 3 ordered))
    × (find_order_referral 3 out.1 ≡ undone (find_order_referral 3 ordered))
    × (out.1.wallets ≡ ordered.wallets)
    × (out.1.transactions ≡ ordered.transactions)
unfolding verify_ipn is_payment_success starts_with
handle_ipn_declined_example =
    handle_ipn_declined gateway declined 2000 ordered (text "ORD-3") waiting refl refl refl refl
      refl refl refl refl

abbrev settled : Db
settled = record empty { orders = order_3 ∷ [] }

handle_ipn_idle_example : (handle_ipn gateway declined 2000 settled).1 ≡ settled
unfolding starts_with
handle_ipn_idle_example = handle_ipn_idle gateway declined 2000 settled (text "ORD-3") refl refl
