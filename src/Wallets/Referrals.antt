-- ===== src/Wallets/Referrals.antt =====
-- Referrals: `validateReferralForOrder`, `createOrderReferral` and `reversePendingReferralForOrder`.
-- Column `orderId` of the referrals is unique, and so is column `code` of the profiles.
use esim_backend.Base.{
  ℕ, Bool, not, ◌&&◌, ◌||◌, none, ⊤, pure, throw, gets, modify, throw_if, unless_found, ◌>>=◌, ◌>>◌,
  ltb, ◌==◌, if◌then◌else◌,
}
use esim_backend.Base.Int.{ℤ, pos, ltb_ℤ}
use esim_backend.Base.Text.{Text, trim, to_upper}
use esim_backend.Entities.{
  UserReferralProfile, OrderReferral, OrderReferralStatus, reversed, is_active, is_pending_referral,
  is_credited, is_paid,
}
use esim_backend.Database.{
  Database, Db, Service, referral_with_coupon, referral_below_minimum, referral_code_not_found,
  referrer_wallet_locked, own_referral_code, not_first_order, referral_already_used, find_wallet,
  find_order_referral, find_referral_profile, save_order_referral,
}

abbrev pub referral_min_order_vnd : ℤ
referral_min_order_vnd = pos 100_000

abbrev pub referral_discount_vnd : ℤ
referral_discount_vnd = pos 10_000

abbrev pub referral_reward_vnd : ℤ
referral_reward_vnd = pos 10_000

pub record ReferralValidationResult : Type 0 where
  pub referral_code : Text
  pub referrer_user_id : ℕ
  pub buyer_discount_vnd : ℤ
  pub reward_vnd : ℤ

module _ ⦃d : Database⦄ where
  -- `orderRepository.count({ where: { userId, status: 'paid' } })`
  abbrev pub paid_orders : ℕ → Db → ℕ
  paid_orders user_id db =
      d.repositories.order.count (λ o. o.user_id == user_id && is_paid o.status) db.orders

  -- The referrals of a buyer that are pending or credited.
  abbrev pub referral_benefits : ℕ → Db → ℕ
  referral_benefits user_id db =
      d.repositories.order_referral.count
        (λ r.
          r.referee_user_id == user_id && is_pending_referral r.status
          || r.referee_user_id == user_id && is_credited r.status)
        db.order_referrals

  -- The checks that follow the look-up of the referrer's profile.
  unfoldable pub check_referrer : ℕ → UserReferralProfile → Service ⊤
  check_referrer user_id profile = do
    referrer_wallet ← gets (find_wallet profile.user_id)
    unless_found referrer_wallet (pure tt)
        λ wallet. throw_if (not (is_active wallet.status)) referrer_wallet_locked
    throw_if (profile.user_id == user_id) own_referral_code
    paid ← gets (paid_orders user_id)
    throw_if (ltb 0 paid) not_first_order
    benefits ← gets (referral_benefits user_id)
    throw_if (ltb 0 benefits) referral_already_used

  unfoldable pub validate_referral_for_order :
      ℕ → Text → ℤ → Bool → Service ReferralValidationResult
  validate_referral_for_order user_id referral_code subtotal_vnd_price has_coupon = do
    throw_if has_coupon referral_with_coupon
    throw_if (ltb_ℤ subtotal_vnd_price referral_min_order_vnd) referral_below_minimum
    let code = to_upper (trim referral_code)
    found ← gets (find_referral_profile code)
    unless_found found (throw referral_code_not_found) λ profile. do
      throw_if (not profile.is_active) referral_code_not_found
      check_referrer user_id profile
      let result : ReferralValidationResult = record {
        referral_code = code;
        referrer_user_id = profile.user_id;
        buyer_discount_vnd = referral_discount_vnd;
        reward_vnd = referral_reward_vnd;
      }
      pure result

  unfoldable pub create_order_referral : ℕ → ℕ → ReferralValidationResult → Service OrderReferral
  create_order_referral order_id referee_user_id referral = do
    existing ← gets (find_order_referral order_id)
    id ← gets (λ db. d.repositories.order_referral.next_id db.order_referrals)
    let created : OrderReferral = record {
      id = id;
      order_id = order_id;
      referrer_user_id = referral.referrer_user_id;
      referee_user_id = referee_user_id;
      referral_code = referral.referral_code;
      buyer_discount_vnd = referral.buyer_discount_vnd;
      reward_vnd = referral.reward_vnd;
      status = OrderReferralStatus.pending;
      reward_transaction_id = none;
      reversed_transaction_id = none;
    }
    unless_found existing (modify (save_order_referral created) >> pure created) pure

  unfoldable pub reverse_pending_referral_for_order : ℕ → Service ⊤
  reverse_pending_referral_for_order order_id = do
    found ← gets (find_order_referral order_id)
    unless_found found (pure tt) λ referral.
        if not (is_pending_referral referral.status)
        then pure tt
        else modify (save_order_referral (record referral { status = reversed }))
