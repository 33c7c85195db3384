-- ===== src/Orders/Lifecycle.antt =====
-- What becomes of an order: `finalizePaidOrder`, `cancelOrder`, `failExpiredPendingOrders`,
-- `refundOrder`, and the repository's `update`. The e-mails and the suppliers' cancellations are left
-- out: the code logs their errors and goes on, and they write no table that is modelled.
use Prim.Native.String.{String}
use esim_backend.Base.{
  ℕ, ◌+◌, ◌*◌, Bool, false, not, ◌&&◌, Option, none, some, ⊤, pure, throw, gets, modify, throw_if,
  attempt, unless_found, for_each, ◌>>=◌, ◌>>◌, ltb, ◌==◌,
}
use esim_backend.Entities.{Order, OrderStatus, OrderRefund, is_pending}
use esim_backend.Database.{
  Database, Db, Service, order_not_found, not_order_owner, order_not_pending, foreign, find_order,
  update_order,
}
use esim_backend.Coupons.Service.{release_coupon}
use esim_backend.Wallets.Holds.{release_hold_for_order}
use esim_backend.Wallets.Referrals.{reverse_pending_referral_for_order}
use esim_backend.Wallets.Benefits.{complete_paid_order_benefits}
use esim_backend.Wallets.Refunds.{RefundOrderDto}
use esim_backend.Wallets.Refunds
use esim_backend.Orders.Pricing.{given}

-- `userId !== undefined && order.userId !== userId`
abbrev pub is_not_owner : Option ℕ → Order → Bool
is_not_owner none order = false
is_not_owner (some user_id) order = not (order.user_id == user_id)

abbrev pub pending_minutes : ℕ
pending_minutes = 30

abbrev pub milliseconds_per_minute : ℕ
milliseconds_per_minute = 60_000

module _ ⦃d : Database⦄ where
  -- `orderRepository.update(id, payload)`: the merged row, or an error where there is none.
  unfoldable pub update : ℕ → (Order → Order) → Service Order
  update id payload = do
    found ← gets (find_order id)
    unless_found found (throw foreign)
        λ entity. do modify (update_order id payload); pure (payload entity)

  unfoldable pub finalize_paid_order : ℕ → String → Option String → ℕ → Service Order
  finalize_paid_order id payment_method payment_id now = do
    updated ← update id λ o. record o {
      status = OrderStatus.paid;
      payment_method = some payment_method;
      payment_id = payment_id;
    }
    complete_paid_order_benefits updated now
    pure updated

  -- `if (order.couponCode) { try { … } catch { … } }`
  unfoldable pub release_coupon_of : Order → Service ⊤
  release_coupon_of order =
      unless_found (given order.coupon_code) (pure tt) λ code. attempt (release_coupon code)

  -- What `cancelOrder` gives back, each step on its own.
  unfoldable pub roll_back : Order → Service ⊤
  unfolding release_coupon_of
  roll_back order = do
    attempt (release_hold_for_order order.id)
    release_coupon_of order
    attempt (reverse_pending_referral_for_order order.id)

  unfoldable pub cancel_order : ℕ → Option ℕ → Service Order
  unfolding roll_back update
  cancel_order order_id user_id = do
    found ← gets (find_order order_id)
    unless_found found (throw (order_not_found order_id)) λ order. do
      throw_if (is_not_owner user_id order) not_order_owner
      throw_if (not (is_pending order.status)) order_not_pending
      updated ← update order.id λ o. record o { status = OrderStatus.failed }
      roll_back order
      pure updated

  -- `status = 'pending' AND createdAt < cutoff`
  abbrev pub is_overdue : ℕ → Order → Bool
  is_overdue now o =
      is_pending o.status && ltb (o.created_at + pending_minutes * milliseconds_per_minute) now

  -- The rows' update is by their ids, which are those of the rows that the test selects.
  abbrev pub fail_overdue : ℕ → Db → Db
  fail_overdue now db = record db {
    orders =
        d.repositories.order.update (is_overdue now) (λ o. record o { status = OrderStatus.failed })
          db.orders;
  }

  -- The job that runs every five minutes.
  unfoldable pub fail_expired_pending_orders : ℕ → Service ⊤
  fail_expired_pending_orders now = do
    expired ← gets (λ db. d.repositories.order.find (is_overdue now) db.orders)
    modify (fail_overdue now)
    for_each expired λ order. do
      attempt (release_hold_for_order order.id)
      attempt (reverse_pending_referral_for_order order.id)

  unfoldable pub refund_order : ℕ → RefundOrderDto → ℕ → ℕ → Service OrderRefund
  refund_order id dto admin_id now = do
    found ← gets (find_order id)
    unless_found found (throw (order_not_found id))
        λ order. Refunds.refund_order order dto admin_id now
