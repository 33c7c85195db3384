-- ===== src/Wallets/Refunds.antt =====
-- `refundOrder` of the wallets service, in the order of its steps.
use Prim.Native.String.{String}
use esim_backend.Base.{
  ℕ, not, ◌&&◌, Option, none, some, ⊤, pure, gets, modify, throw_if, attempt, unless_found, when,
  ◌>>=◌, ◌>>◌, if◌then◌else◌,
}
use esim_backend.Base.Int.{ℤ, pos, pos_part, ◌+ℤ◌, ◌-ℤ◌, ◌*ℤ◌, neg, ltb_ℤ, round_div_ℤ}
use esim_backend.Entities.{
  Order, OrderStatus, OrderReferral, OrderReferralStatus, OrderRefund, OrderRefundMode,
  OrderRefundStatus, order_cashback_reversal, referral_reward_reversal, refund_to_wallet,
  is_refundable, is_wallet, is_credited, is_pending_referral, is_null, is_falsy, Source,
  IdempotencyKey,
}
use esim_backend.Database.{
  Database, Service, order_not_refundable, negative_refund, refund_exceeds_remaining,
  find_order_referral, save_order_referral, save_order_refund, update_order,
  mark_refunded_by_order_id,
}
use esim_backend.Wallets.Transactions.{WalletTransactionInput, create_transaction}

pub record RefundOrderDto : Type 0 where
  pub mode : OrderRefundMode
  pub amount_vnd : ℤ
  pub reason : Option String
  pub admin_note : Option String

-- Total order value: cash paid and eXu spent.
unfoldable pub total_order_value : Order → ℤ
total_order_value order = order.payable_vnd_price +ℤ order.wallet_spent_vnd_amount

-- The part of a refund that goes back to the wallet whatever the mode.
unfoldable pub exu_refund_amount : Order → ℤ → ℤ
unfolding total_order_value
exu_refund_amount order amount =
    if ltb_ℤ (pos 0) (total_order_value order)
    then round_div_ℤ (amount *ℤ order.wallet_spent_vnd_amount) (pos_part (total_order_value order))
    else pos 0

abbrev pub cashback_reversal_input : ℕ → ℕ → WalletTransactionInput
cashback_reversal_input order_id admin_id = record {
  source = some (Source.order order_id);
  order_id = some order_id;
  ref_user_id = none;
  idempotency_key = some (IdempotencyKey.order_cashback_reversal order_id);
  reason = some "Reverse order cashback after refund";
  created_by_admin_id = some admin_id;
}

abbrev pub reward_reversal_input : ℕ → OrderReferral → ℕ → WalletTransactionInput
reward_reversal_input order_id referral admin_id = record {
  source = some (Source.order_referral referral.id);
  order_id = some order_id;
  ref_user_id = some referral.referee_user_id;
  idempotency_key = some (IdempotencyKey.referral_reward_reversal order_id);
  reason = some "Reverse referral reward after refund";
  created_by_admin_id = some admin_id;
}

abbrev pub refund_input : ℕ → ℕ → IdempotencyKey → Option String → ℕ → WalletTransactionInput
refund_input order_id refund_id key reason admin_id = record {
  source = some (Source.order_refund refund_id);
  order_id = some order_id;
  ref_user_id = none;
  idempotency_key = some key;
  reason = reason;
  created_by_admin_id = some admin_id;
}

-- `dto.reason ?? 'Refund to eXu wallet'`
abbrev pub reason_or_default : Option String → Option String
reason_or_default none = some "Refund to eXu wallet"
reason_or_default (some reason) = some reason

module _ ⦃d : Database⦄ where
  unfoldable pub reverse_cashback : Order → ℕ → ℕ → Service ⊤
  reverse_cashback order admin_id now =
      when (ltb_ℤ (pos 0) order.cashback_amount_vnd && is_null order.cashback_reversed_at) do
        create_transaction order.user_id order_cashback_reversal (neg order.cashback_amount_vnd)
            (cashback_reversal_input order.id admin_id) now
        modify (update_order order.id λ o. record o { cashback_reversed_at = some now })

  unfoldable pub reverse_referral : Order → ℕ → ℕ → Service ⊤
  reverse_referral order admin_id now = do
    found ← gets (find_order_referral order.id)
    unless_found found (pure tt) λ referral.
        if is_credited referral.status && is_falsy referral.reversed_transaction_id
        then (do
          transaction ←
              create_transaction referral.referrer_user_id referral_reward_reversal
                (neg referral.reward_vnd) (reward_reversal_input order.id referral admin_id) now
          modify (
              save_order_referral (record referral {
                reversed_transaction_id = some transaction.id;
                status = OrderReferralStatus.reversed;
              })))
        else when (is_pending_referral referral.status) (
            modify
              (save_order_referral (record referral { status = OrderReferralStatus.reversed })))

  -- The eXu part goes back to the wallet, whatever the mode.
  unfoldable pub return_exu : Order → OrderRefund → ℤ → ℕ → ℕ → Service ⊤
  return_exu order refund exu_amount admin_id now = when (ltb_ℤ (pos 0) exu_amount) do
    create_transaction order.user_id refund_to_wallet exu_amount
        (refund_input order.id refund.id (IdempotencyKey.refund_exu_return refund.id)
          (some "Hoàn eXU đã sử dụng cho đơn hàng") admin_id)
        now
    pure tt

  -- The cash part goes to the wallet in mode WALLET.
  unfoldable pub refund_cash_to_wallet :
      Order → OrderRefund → RefundOrderDto → ℤ → ℕ → ℕ → Service OrderRefund
  refund_cash_to_wallet order refund dto cash_amount admin_id now =
      if is_wallet dto.mode && ltb_ℤ (pos 0) cash_amount
      then (do
        transaction ←
            create_transaction order.user_id refund_to_wallet cash_amount
              (refund_input order.id refund.id (IdempotencyKey.refund_to_wallet refund.id)
                (reason_or_default dto.reason) admin_id)
              now
        let linked : OrderRefund = record refund { wallet_transaction_id = some transaction.id }
        modify (save_order_refund linked)
        pure linked)
      else pure refund

  -- `orderRefundRepository.save(orderRefundRepository.create({ … }))`
  unfoldable pub create_refund : Order → RefundOrderDto → ℕ → Service OrderRefund
  create_refund order dto admin_id = do
    id ← gets (λ db. d.repositories.order_refund.next_id db.order_refunds)
    let refund : OrderRefund = record {
      id = id;
      order_id = order.id;
      user_id = order.user_id;
      mode = dto.mode;
      amount_vnd = dto.amount_vnd;
      status = OrderRefundStatus.completed;
      reason = dto.reason;
      admin_note = dto.admin_note;
      wallet_transaction_id = none;
      created_by_admin_id = some admin_id;
    }
    modify (save_order_refund refund)
    pure refund

  -- The update of the order that ends a refund.
  unfoldable pub record_refund : Order → ℤ → Service ⊤
  record_refund order amount = modify (
      update_order order.id λ o. record o {
        status = OrderStatus.refunded;
        refund_status = some OrderRefundStatus.completed;
        refunded_amount_vnd = order.refunded_amount_vnd +ℤ amount;
      })

  unfoldable pub refund_order : Order → RefundOrderDto → ℕ → ℕ → Service OrderRefund
  unfolding exu_refund_amount reverse_cashback reverse_referral return_exu refund_cash_to_wallet
      create_refund record_refund
  refund_order order dto admin_id now = do
    throw_if (not (is_refundable order.status)) order_not_refundable
    let amount = dto.amount_vnd
    throw_if (ltb_ℤ amount (pos 0)) negative_refund
    throw_if (ltb_ℤ (total_order_value order -ℤ order.refunded_amount_vnd) amount)
        refund_exceeds_remaining
    let exu_amount = exu_refund_amount order amount
    let cash_amount = amount -ℤ exu_amount
    refund ← create_refund order dto admin_id
    reverse_cashback order admin_id now
    reverse_referral order admin_id now
    return_exu order refund exu_amount admin_id now
    linked ← refund_cash_to_wallet order refund dto cash_amount admin_id now
    record_refund order amount
    attempt (mark_refunded_by_order_id order.id)
    pure linked
