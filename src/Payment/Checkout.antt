-- ===== src/Payment/Checkout.antt =====
-- `createCheckout` (src/payment/payment.service.ts): an order that the wallet pays in full is finalised at
-- once, any other is paid at the gateway. The exchange rate and the order number are arguments, and the
-- URLs are left out.
use Prim.Native.String.{String}
use esim_backend.Base.{ℕ, Bool, none, some, List, pure, if◌then◌else◌, ◌>>=◌, ◌>>◌}
use esim_backend.Base.Int.{pos, leb_ℤ}
use esim_backend.Base.Text.{Text}
use esim_backend.Entities.{Order}
use esim_backend.Database.{Database, Service}
use esim_backend.Orders.Pricing.{SubmitOrderDto}
use esim_backend.Orders.Lifecycle.{finalize_paid_order}
use esim_backend.Orders.Checkout.{OrderItemDto, CheckoutServices, create_pending_order}
use esim_backend.Payment.Notifications.{Gateway, close_cart}

module _ ⦃d : Database⦄ (gateway : Gateway) (services : CheckoutServices) where
  -- The branch of an order with nothing left to pay.
  unfoldable pub pay_by_wallet : Order → ℕ → Service Order
  pay_by_wallet order now = do
    finalized ← finalize_paid_order order.id "wallet" none now
    gateway.submit_providers order.id
    close_cart gateway order
    pure order

  unfoldable pub create_checkout :
      Bool → ℕ → SubmitOrderDto → List OrderItemDto → String → Text → ℕ → ℕ → Service Order
  unfolding pay_by_wallet
  create_checkout phone user_id dto items currency order_number rate now = do
    order ←
        create_pending_order services phone user_id dto items currency order_number (some rate) now
    if leb_ℤ order.vnd_price (pos 0) then pay_by_wallet order now else pure order
