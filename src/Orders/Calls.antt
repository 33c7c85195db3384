-- ===== src/Orders/Calls.antt =====
-- The calls that change an order or its coupon, between calls of the wallets service.
use Prim.Native.String.{String}
use esim_backend.Base.{ℕ, Option, List, [], ◌∷◌, ⊤}
use esim_backend.Base.Text.{Text}
use esim_backend.Database.{Database, Db, Service}
use esim_backend.Wallets.Refunds.{RefundOrderDto}
use esim_backend.Wallets.Operations.{Operation, void, perform}
use esim_backend.Coupons.Service
use esim_backend.Orders.Lifecycle

pub data Call : Type 0 where
  wallets : Operation → Call
  finalize_paid_order : ℕ → String → Option String → ℕ → Call
  cancel_order : ℕ → Option ℕ → Call
  fail_expired_pending_orders : ℕ → Call
  refund_order : ℕ → RefundOrderDto → ℕ → ℕ → Call
  apply_coupon release_coupon : Text → Call

module _ ⦃d : Database⦄ where
  unfoldable pub perform_call : Call → Service ⊤
  perform_call (Call.wallets op) = perform op
  perform_call (Call.finalize_paid_order o method payment now) =
      void (Lifecycle.finalize_paid_order o method payment now)
  perform_call (Call.cancel_order o u) = void (Lifecycle.cancel_order o u)
  perform_call (Call.fail_expired_pending_orders now) = Lifecycle.fail_expired_pending_orders now
  perform_call (Call.refund_order o dto admin now) = void (Lifecycle.refund_order o dto admin now)
  perform_call (Call.apply_coupon code) = Service.apply_coupon code
  perform_call (Call.release_coupon code) = Service.release_coupon code

  unfoldable pub run_calls : List Call → Db → Db
  run_calls [] db = db
  run_calls (call ∷ calls) db = run_calls calls (perform_call call db).1
