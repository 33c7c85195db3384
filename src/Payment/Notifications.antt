-- ===== src/Payment/Notifications.antt =====
-- `handleIpn` with its three routes, and the check of a notification's signature. The HMAC, the
-- submission to the suppliers and the cart are parameters; the top-up's submission that the last
-- route schedules runs later, and is not part of the answer.
use Prim.Native.String.{String}
use esim_backend.Base.{
  ℕ, Bool, false, not, List, Option, none, some, ⊤, pure, gets, attempt, unless_found, ◌>>=◌, ◌>>◌,
  if◌then◌else◌,
}
use esim_backend.Base.Text.{Text, text, eqb, starts_with}
use esim_backend.Entities.{Order, OrderStatus, is_pending}
use esim_backend.Database.{Database, Service, find_by_order_number, find_custom_link}
use esim_backend.Coupons.Service.{apply_coupon}
use esim_backend.Orders.Pricing.{given}
use esim_backend.Orders.Lifecycle.{update, finalize_paid_order, cancel_order}
use esim_backend.Links.Service.{virtual_order_prefix, finalize_from_ipn}

-- The parameters that the handler reads, and the others.
pub record Query : Type 0 where
  pub secure_hash : Option Text
  pub merch_txn_ref : Option Text
  pub txn_response_code : Text
  pub transaction_no : Option String
  pub others : List (Text × Text)

-- What the handler calls outside the modelled services: `createSecureHash` of the parameters but the
-- hash, `submitProviders`, `clearCart`.
pub record Gateway ⦃d : Database⦄ : Type 0 where
  pub create_secure_hash : Query → Text
  pub submit_providers : ℕ → Service ⊤
  pub clear_cart : ℕ → Service ⊤

unfoldable pub is_payment_success : Query → Bool
is_payment_success query = eqb query.txn_response_code (text "0")

abbrev pub topup_prefix : Text
topup_prefix = text "TOPUP-"

module _ ⦃d : Database⦄ (gateway : Gateway) where
  unfoldable pub verify_ipn : Query → Bool
  verify_ipn query = elim (given query.secure_hash) [
    | none ↦ false
    | some received ↦
        eqb (gateway.create_secure_hash (record query { secure_hash = none })) received
  ]

  -- `applyCouponAndClearCart`, or `clearCartForUser` where there is no coupon.
  unfoldable pub close_cart : Order → Service ⊤
  close_cart order =
      unless_found (given order.coupon_code) (gateway.clear_cart order.user_id)
        λ code. apply_coupon code >> gateway.clear_cart order.user_id

  unfoldable pub settle_paid : Order → Query → ℕ → Service ⊤
  settle_paid order query now = do
    finalize_paid_order order.id "onepay" query.transaction_no now
    gateway.submit_providers order.id
    close_cart order

  unfoldable pub handle_order_ipn : Query → Text → ℕ → Service String
  handle_order_ipn query order_number now = do
    found ← gets (find_by_order_number order_number)
    unless_found found (pure "01") λ order.
        if not (is_pending order.status)
        then pure "00"
        else if not (is_payment_success query)
        then attempt (cancel_order order.id none) >> pure "00"
        else attempt (settle_paid order query now) >> pure "00"

  unfoldable pub handle_topup_ipn : Query → Text → Service String
  handle_topup_ipn query order_number = do
    found ← gets (find_by_order_number order_number)
    unless_found found (pure "01") λ order.
        if not (is_pending order.status)
        then pure "00"
        else if not (is_payment_success query)
        then (update order.id λ o. record o { status = OrderStatus.failed }) >> pure "00"
        else (update order.id λ o. record o {
          status = OrderStatus.paid;
          payment_method = some "onepay";
          payment_id = query.transaction_no;
        })
          >> pure "00"

  unfoldable pub handle_link_ipn : Query → Text → Service String
  handle_link_ipn query virtual_order_id = do
    found ← gets (find_custom_link virtual_order_id)
    unless_found found (pure "01") λ link. do
      finalize_from_ipn virtual_order_id (is_payment_success query) query.transaction_no
      pure "00"

  unfoldable pub handle_ipn : Query → ℕ → Service String
  handle_ipn query now =
      if not (verify_ipn query)
      then pure "97"
      else unless_found (given query.merch_txn_ref) (pure "01") λ order_number.
        if starts_with topup_prefix order_number
        then handle_topup_ipn query order_number
        else if starts_with virtual_order_prefix order_number
        then handle_link_ipn query order_number
        else handle_order_ipn query order_number now
