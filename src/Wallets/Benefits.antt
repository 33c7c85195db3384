-- ===== src/Wallets/Benefits.antt =====
-- `completePaidOrderBenefits`: what a buyer and a referrer are owed when an order has been paid.
use esim_backend.Base.{ℕ, ◌&&◌, none, some, ⊤, pure, gets, modify, unless_found, when, ◌>>=◌, ◌>>◌}
use esim_backend.Base.Int.{pos, ltb_ℤ}
use esim_backend.Entities.{
  Order, OrderReferral, order_cashback, referral_reward, credited, is_pending_referral, is_falsy,
  Source, IdempotencyKey,
}
use esim_backend.Database.{
  Database, Service, find_order_referral, save_order_referral, update_order,
}
use esim_backend.Wallets.Transactions.{WalletTransactionInput, create_transaction}
use esim_backend.Wallets.Holds.{capture_hold_for_order}

abbrev pub cashback_input : ℕ → WalletTransactionInput
cashback_input order_id = record {
  source = some (Source.order order_id);
  order_id = some order_id;
  ref_user_id = none;
  idempotency_key = some (IdempotencyKey.order_cashback order_id);
  reason = some "2% eXu cashback for paid order";
  created_by_admin_id = none;
}

abbrev pub reward_input : ℕ → OrderReferral → WalletTransactionInput
reward_input order_id referral = record {
  source = some (Source.order_referral referral.id);
  order_id = some order_id;
  ref_user_id = some referral.referee_user_id;
  idempotency_key = some (IdempotencyKey.referral_reward order_id);
  reason = some "Referral reward for successful first order";
  created_by_admin_id = none;
}

module _ ⦃d : Database⦄ where
  unfoldable pub pay_cashback : Order → ℕ → Service ⊤
  pay_cashback order now =
      when (ltb_ℤ (pos 0) order.cashback_amount_vnd && is_falsy order.cashback_transaction_id) do
        transaction ←
            create_transaction order.user_id order_cashback order.cashback_amount_vnd
              (cashback_input order.id) now
        modify
            (update_order order.id λ o. record o { cashback_transaction_id = some transaction.id })

  unfoldable pub pay_referral_reward : Order → ℕ → Service ⊤
  pay_referral_reward order now = do
    found ← gets (find_order_referral order.id)
    unless_found found (pure tt) λ referral.
        when (is_pending_referral referral.status && is_falsy referral.reward_transaction_id) do
          transaction ←
              create_transaction referral.referrer_user_id referral_reward referral.reward_vnd
                (reward_input order.id referral) now
          modify (
              save_order_referral (record referral {
                reward_transaction_id = some transaction.id;
                status = credited;
              }))

  unfoldable pub complete_paid_order_benefits : Order → ℕ → Service ⊤
  unfolding pay_cashback pay_referral_reward
  complete_paid_order_benefits order now = do
    when (ltb_ℤ (pos 0) order.wallet_spent_vnd_amount)
        do capture_hold_for_order order.id now; pure tt
    pay_cashback order now
    pay_referral_reward order now
