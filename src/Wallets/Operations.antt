-- ===== src/Wallets/Operations.antt =====
-- The calls of the wallets service that change the tables, as data. `Orders.Calls` runs lists of them.
use Prim.Native.String.{String}
use esim_backend.Base.{ℕ, Option, ⊤, pure, ◌>>=◌}
use esim_backend.Base.Int.{ℤ}
use esim_backend.Entities.{Order, WalletStatus}
use esim_backend.Database.{Database, Service}
use esim_backend.Wallets.Holds
use esim_backend.Wallets.Referrals
use esim_backend.Wallets.Referrals.{ReferralValidationResult}
use esim_backend.Wallets.Benefits
use esim_backend.Wallets.Refunds
use esim_backend.Wallets.Refunds.{RefundOrderDto}
use esim_backend.Wallets.Admin

pub data Operation : Type 0 where
  get_wallet_summary : ℕ → ℕ → Operation
  create_order_referral : ℕ → ℕ → ReferralValidationResult → Operation
  create_hold : ℕ → ℕ → ℤ → ℕ → Operation
  capture_hold_for_order : ℕ → ℕ → Operation
  release_hold_for_order : ℕ → Operation
  reverse_pending_referral_for_order : ℕ → Operation
  complete_paid_order_benefits : Order → ℕ → Operation
  admin_adjust_wallet : ℕ → ℤ → Option String → ℕ → ℕ → Operation
  cancel_wallet_balance : ℕ → Option String → ℕ → ℕ → Operation
  update_wallet_status : ℕ → WalletStatus → Operation
  refund_order : Order → RefundOrderDto → ℕ → ℕ → Operation
  expire_wallets : ℕ → Operation
  expire_holds : ℕ → Operation

module _ ⦃d : Database⦄ where
  -- A call whose value is dropped.
  abbrev pub void : {A : Type 0} → Service A → Service ⊤
  void m = m >>= λ _. pure tt

  unfoldable pub perform : Operation → Service ⊤
  perform (Operation.get_wallet_summary u now) = void (Admin.get_wallet_summary u now)
  perform (Operation.create_order_referral o u r) = void (Referrals.create_order_referral o u r)
  perform (Operation.create_hold o u a now) = void (Holds.create_hold o u a now)
  perform (Operation.capture_hold_for_order o now) = void (Holds.capture_hold_for_order o now)
  perform (Operation.release_hold_for_order o) = Holds.release_hold_for_order o
  perform (Operation.reverse_pending_referral_for_order o) =
      Referrals.reverse_pending_referral_for_order o
  perform (Operation.complete_paid_order_benefits o now) =
      Benefits.complete_paid_order_benefits o now
  perform (Operation.admin_adjust_wallet u a r admin now) =
      void (Admin.admin_adjust_wallet u a r admin now)
  perform (Operation.cancel_wallet_balance u r admin now) =
      void (Admin.cancel_wallet_balance u r admin now)
  perform (Operation.update_wallet_status u s) = void (Admin.update_wallet_status u s)
  perform (Operation.refund_order o dto admin now) = void (Refunds.refund_order o dto admin now)
  perform (Operation.expire_wallets now) = Admin.expire_wallets now
  perform (Operation.expire_holds now) = Holds.expire_holds now
