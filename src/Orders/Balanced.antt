-- ===== src/Orders/Balanced.antt =====
-- The ledger's invariant under the calls of the orders and the coupons services.
use Prim.Native.String.{String}
use esim_backend.Base.{ℕ, Option, List, [], ◌∷◌, modify}
use esim_backend.Base.Text.{Text}
use esim_backend.Base.Keeps.{Keeps}
use esim_backend.Entities.{Order}
use esim_backend.Database.{Database, Db, Exception}
use esim_backend.Coupons.Service.{increment_usage, decrement_usage, apply_coupon, release_coupon}
use esim_backend.Wallets.Refunds.{RefundOrderDto}
use esim_backend.Wallets.Ledger.{IsBalanced}
use esim_backend.Wallets.Balanced.{ledger_rules, operation_rules, Keeps-perform}
use esim_backend.Orders.Lifecycle.{
  update, finalize_paid_order, cancel_order, fail_overdue, fail_expired_pending_orders,
  refund_order, release_coupon_of, roll_back,
}
use esim_backend.Orders.Calls.{Call, perform_call, run_calls}

module _ ⦃d : Database⦄ where
  Keeps-increment_usage : (id : ℕ) → Keeps {X = Exception} IsBalanced (modify (increment_usage id))
  unfolding modify
  Keeps-increment_usage id = record { kept = λ db b. record { at_user = b.at_user } }

  Keeps-decrement_usage : (id : ℕ) → Keeps {X = Exception} IsBalanced (modify (decrement_usage id))
  unfolding modify
  Keeps-decrement_usage id = record { kept = λ db b. record { at_user = b.at_user } }

  Keeps-fail_overdue : (now : ℕ) → Keeps {X = Exception} IsBalanced (modify (fail_overdue now))
  unfolding modify
  Keeps-fail_overdue now = record { kept = λ db b. record { at_user = b.at_user } }

  pub Keeps-apply_coupon : (code : Text) → Keeps IsBalanced (apply_coupon code)
  unfolding apply_coupon
  Keeps-apply_coupon code = search (ledger_rules, Keeps-increment_usage) depth 8

  Keeps-release_coupon : (code : Text) → Keeps IsBalanced (release_coupon code)
  unfolding release_coupon
  Keeps-release_coupon code = search (ledger_rules, Keeps-decrement_usage) depth 8

  pub Keeps-update : (id : ℕ) (f : Order → Order) → Keeps IsBalanced (update id f)
  unfolding update
  Keeps-update id f = search ledger_rules depth 8

  pub Keeps-finalize_paid_order :
      (o : ℕ) (method : String) (payment : Option String) (now : ℕ)
      → Keeps IsBalanced (finalize_paid_order o method payment now)
  unfolding finalize_paid_order
  Keeps-finalize_paid_order o method payment now = search (operation_rules, Keeps-update) depth 8

  Keeps-release_coupon_of : (o : Order) → Keeps IsBalanced (release_coupon_of o)
  unfolding release_coupon_of
  Keeps-release_coupon_of o = search (operation_rules, Keeps-release_coupon) depth 8

  Keeps-roll_back : (o : Order) → Keeps IsBalanced (roll_back o)
  unfolding roll_back
  Keeps-roll_back o = search (operation_rules, Keeps-release_coupon_of) depth 8

  pub Keeps-cancel_order : (o : ℕ) (u : Option ℕ) → Keeps IsBalanced (cancel_order o u)
  unfolding cancel_order
  Keeps-cancel_order o u = search (operation_rules, Keeps-update, Keeps-roll_back) depth 12

  Keeps-fail_expired_pending_orders : (now : ℕ) → Keeps IsBalanced (fail_expired_pending_orders now)
  unfolding fail_expired_pending_orders
  Keeps-fail_expired_pending_orders now = search (operation_rules, Keeps-fail_overdue) depth 12

  Keeps-refund_order :
      (o : ℕ) (dto : RefundOrderDto) (admin now : ℕ)
      → Keeps IsBalanced (refund_order o dto admin now)
  unfolding refund_order
  Keeps-refund_order o dto admin now = search operation_rules depth 8

  ruleset call_rules = (
    operation_rules, Keeps-perform, Keeps-finalize_paid_order, Keeps-cancel_order,
    Keeps-fail_expired_pending_orders, Keeps-refund_order, Keeps-apply_coupon, Keeps-release_coupon,
  )

  pub Keeps-perform_call : (call : Call) → Keeps IsBalanced (perform_call call)
  unfolding perform_call
  Keeps-perform_call (Call.wallets op) = Keeps-perform op
  Keeps-perform_call _ = search call_rules depth 8

  -- From tables in which every balance is the sum of its user's transactions, any sequence of calls of
  -- the wallets service, finalized payments, cancellations, expiries and refunds of orders, and counts
  -- of coupons leads to such tables again, whatever the arguments and also where calls throw.
  pub run_calls-IsBalanced :
      (calls : List Call) (db : Db) → IsBalanced db → IsBalanced (run_calls calls db)
  unfolding run_calls
  run_calls-IsBalanced [] db b = b
  run_calls-IsBalanced (call ∷ calls) db b =
      run_calls-IsBalanced calls (perform_call call db).1 ((Keeps-perform_call call).kept db b)
