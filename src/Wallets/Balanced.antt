-- ===== src/Wallets/Balanced.antt =====
-- The ledger's invariant under every operation of the wallets service.
use Prim.Native.String.{String}
use esim_backend.Base.{ℕ, Option, inl, inr, modify, ◌>>=◌, Option-cases, arith}
use esim_backend.Base.Int.{ℤ}
use esim_backend.Base.Keeps.{Keeps}
use esim_backend.Entities.{UserWallet, WalletStatus, WalletHold, OrderReferral, OrderRefund, Order}
use esim_backend.Database.{
  Database, Exception, save_hold, save_order_referral, save_order_refund, update_order,
  mark_refunded_by_order_id, find_wallet,
}
use esim_backend.Wallets.Transactions.{get_or_create_wallet_with_manager, get_or_create_wallet}
use esim_backend.Wallets.Holds.{
  get_available_balance_with_manager, get_available_balance, reserve, create_hold, capture,
  capture_hold_for_order, release_hold_for_order, expire_holds,
}
use esim_backend.Wallets.Referrals.{
  ReferralValidationResult, create_order_referral, reverse_pending_referral_for_order,
}
use esim_backend.Wallets.Benefits.{complete_paid_order_benefits}
use esim_backend.Wallets.Refunds.{RefundOrderDto, refund_order}
use esim_backend.Wallets.Admin.{
  get_wallet_summary, admin_adjust_wallet, cancel_wallet_balance, update_wallet_status,
  expire_wallet, expire_wallets,
}
use esim_backend.Wallets.Operations.{Operation, perform}
use esim_backend.Wallets.Ledger.{IsBalanced, balanced_rules}

module _ ⦃d : Database⦄ where
  -- What is saved to the other tables leaves the ledger alone.
  pub Keeps-save_hold : (h : WalletHold) → Keeps {X = Exception} IsBalanced (modify (save_hold h))
  unfolding modify
  Keeps-save_hold h = record { kept = λ db b. record { at_user = b.at_user } }

  pub Keeps-save_order_referral :
      (r : OrderReferral) → Keeps {X = Exception} IsBalanced (modify (save_order_referral r))
  unfolding modify
  Keeps-save_order_referral r = record { kept = λ db b. record { at_user = b.at_user } }

  pub Keeps-save_order_refund :
      (r : OrderRefund) → Keeps {X = Exception} IsBalanced (modify (save_order_refund r))
  unfolding modify
  Keeps-save_order_refund r = record { kept = λ db b. record { at_user = b.at_user } }

  pub Keeps-update_order :
      (id : ℕ) (f : Order → Order) → Keeps {X = Exception} IsBalanced (modify (update_order id f))
  unfolding modify
  Keeps-update_order id f = record { kept = λ db b. record { at_user = b.at_user } }

  pub Keeps-mark_refunded : (order_id : ℕ) → Keeps IsBalanced (mark_refunded_by_order_id order_id)
  Keeps-mark_refunded order_id = record { kept = λ db b. record { at_user = b.at_user } }

  pub ruleset ledger_rules = (
    balanced_rules, Keeps-save_hold, Keeps-save_order_referral, Keeps-save_order_refund,
    Keeps-update_order, Keeps-mark_refunded,
  )

  pub Keeps-get_available_balance_with_manager :
      (u now : ℕ) → Keeps IsBalanced (get_available_balance_with_manager u now)
  unfolding get_available_balance_with_manager
  Keeps-get_available_balance_with_manager u now = search ledger_rules depth 8

  pub Keeps-reserve : (o u : ℕ) (a : ℤ) (now : ℕ) → Keeps IsBalanced (reserve o u a now)
  unfolding reserve
  Keeps-reserve o u a now = search (ledger_rules, Keeps-get_available_balance_with_manager) depth 12

  pub Keeps-create_hold : (o u : ℕ) (a : ℤ) (now : ℕ) → Keeps IsBalanced (create_hold o u a now)
  unfolding create_hold
  Keeps-create_hold o u a now = search (ledger_rules, Keeps-reserve) depth 8

  pub Keeps-capture : (h : WalletHold) (o now : ℕ) → Keeps IsBalanced (capture h o now)
  unfolding capture
  Keeps-capture h o now = search ledger_rules depth 8

  pub Keeps-capture_hold_for_order : (o now : ℕ) → Keeps IsBalanced (capture_hold_for_order o now)
  unfolding capture_hold_for_order
  Keeps-capture_hold_for_order o now = search (ledger_rules, Keeps-capture) depth 8

  pub Keeps-release_hold_for_order : (o : ℕ) → Keeps IsBalanced (release_hold_for_order o)
  unfolding release_hold_for_order
  Keeps-release_hold_for_order o = search ledger_rules depth 8

  pub Keeps-expire_holds : (now : ℕ) → Keeps IsBalanced (expire_holds now)
  unfolding expire_holds modify
  Keeps-expire_holds now = record { kept = λ db b. record { at_user = b.at_user } }

  pub Keeps-create_order_referral :
      (o u : ℕ) (r : ReferralValidationResult) → Keeps IsBalanced (create_order_referral o u r)
  unfolding create_order_referral
  Keeps-create_order_referral o u r = search ledger_rules depth 8

  pub Keeps-reverse_pending_referral_for_order :
      (o : ℕ) → Keeps IsBalanced (reverse_pending_referral_for_order o)
  unfolding reverse_pending_referral_for_order
  Keeps-reverse_pending_referral_for_order o = search ledger_rules depth 8

  pub Keeps-complete_paid_order_benefits :
      (o : Order) (now : ℕ) → Keeps IsBalanced (complete_paid_order_benefits o now)
  unfolding complete_paid_order_benefits
  Keeps-complete_paid_order_benefits o now =
      search (ledger_rules, Keeps-capture_hold_for_order) depth 12

  pub Keeps-refund_order :
      (o : Order) (dto : RefundOrderDto) (admin now : ℕ)
      → Keeps IsBalanced (refund_order o dto admin now)
  unfolding refund_order
  Keeps-refund_order o dto admin now = search ledger_rules depth 12

  pub Keeps-get_or_create_wallet : (u : ℕ) → Keeps IsBalanced (get_or_create_wallet u)
  unfolding get_or_create_wallet
  Keeps-get_or_create_wallet u = search ledger_rules

  pub Keeps-get_available_balance : (u now : ℕ) → Keeps IsBalanced (get_available_balance u now)
  unfolding get_available_balance
  Keeps-get_available_balance u now =
      search (ledger_rules, Keeps-get_available_balance_with_manager)

  pub Keeps-get_wallet_summary : (u now : ℕ) → Keeps IsBalanced (get_wallet_summary u now)
  unfolding get_wallet_summary
  Keeps-get_wallet_summary u now =
      search (ledger_rules, Keeps-get_or_create_wallet, Keeps-get_available_balance) depth 8

  pub Keeps-admin_adjust_wallet :
      (u : ℕ) (a : ℤ) (r : Option String) (admin now : ℕ)
      → Keeps IsBalanced (admin_adjust_wallet u a r admin now)
  unfolding admin_adjust_wallet
  Keeps-admin_adjust_wallet u a r admin now = search ledger_rules depth 8

  pub Keeps-cancel_wallet_balance :
      (u : ℕ) (r : Option String) (admin now : ℕ)
      → Keeps IsBalanced (cancel_wallet_balance u r admin now)
  unfolding cancel_wallet_balance
  Keeps-cancel_wallet_balance u r admin now =
      search (ledger_rules, Keeps-get_or_create_wallet) depth 8

  pub Keeps-update_wallet_status :
      (u : ℕ) (s : WalletStatus) → Keeps IsBalanced (update_wallet_status u s)
  unfolding update_wallet_status ◌>>=◌ get_or_create_wallet get_or_create_wallet_with_manager
  Keeps-update_wallet_status u s = record {
    kept = λ db b. record {
      at_user = λ v. simp d.source.transaction_lem (elim (Option-cases (find_wallet u db)) [
        | inl e ↦ grind (arith, find_one-save, b.at_user v, b.at_user u)
        | inr (w, e) ↦ grind (arith, find_one-save, find_one-key u w db.wallets e, b.at_user v)
      ]);
    };
  }
    where
      open d.repositories.wallet use {find_one-save, find_one-key}

  pub Keeps-expire_wallet : (now : ℕ) (w : UserWallet) → Keeps IsBalanced (expire_wallet now w)
  unfolding expire_wallet
  Keeps-expire_wallet now w = search ledger_rules depth 8

  pub Keeps-expire_wallets : (now : ℕ) → Keeps IsBalanced (expire_wallets now)
  unfolding expire_wallets
  Keeps-expire_wallets now = search (ledger_rules, Keeps-expire_wallet) depth 8

  pub ruleset operation_rules = (
    ledger_rules, Keeps-create_hold, Keeps-get_wallet_summary, Keeps-create_order_referral,
    Keeps-capture_hold_for_order, Keeps-release_hold_for_order,
    Keeps-reverse_pending_referral_for_order, Keeps-complete_paid_order_benefits,
    Keeps-admin_adjust_wallet, Keeps-cancel_wallet_balance, Keeps-update_wallet_status,
    Keeps-refund_order, Keeps-expire_wallets, Keeps-expire_holds,
  )

  pub Keeps-perform : (op : Operation) → Keeps IsBalanced (perform op)
  unfolding perform
  Keeps-perform (Operation.expire_holds now) = search operation_rules
  Keeps-perform _ = search operation_rules
