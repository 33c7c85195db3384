-- ===== src/Orders/Pricing.antt =====
-- `calculateOrderPricing` and the functions that it calls. A plan's discount counts hundredths of a
-- percent and its price in US dollars counts cents; the arithmetic is exact where the code uses
-- doubles.
use esim_backend.Base.{
  ℕ, ◌*◌, Bool, true, false, ◌&&◌, Option, none, some, List, [], ◌∷◌, pure, throw_if, unless_found,
  ◌>>=◌, ◌>>◌, if◌then◌else◌,
}
use esim_backend.Base.Int.{ℤ, pos, ◌+ℤ◌, ◌-ℤ◌, ◌*ℤ◌, leb_ℤ, max_ℤ, min_ℤ, round_div_ℤ}
use esim_backend.Base.Text.{Text, to_upper}
use esim_backend.Entities.{Plan}
use esim_backend.Database.{Database, Service, referral_with_coupon}
use esim_backend.Coupons.Service.{validate_coupon}
use esim_backend.Wallets.Referrals.{ReferralValidationResult, validate_referral_for_order}

abbrev pub vnd_rounding_unit : ℕ
vnd_rounding_unit = 1000

abbrev pub exu_cashback_percent : ℕ
exu_cashback_percent = 2

-- `roundVndToThousands(amount / scale)`
unfoldable pub round_vnd_to_thousands : ℤ → ℕ → ℤ
round_vnd_to_thousands amount scale =
    round_div_ℤ amount (scale * vnd_rounding_unit) *ℤ pos vnd_rounding_unit

-- `plan.vndPrice ?? 0`
abbrev pub or_zero : Option ℤ → ℤ
or_zero none = pos 0
or_zero (some n) = n

unfoldable pub get_discounted_vnd_price : Plan → ℤ
unfolding round_vnd_to_thousands
get_discounted_vnd_price plan =
    let vnd_price = or_zero plan.vnd_price in
    let discount = or_zero plan.discount in
    if leb_ℤ discount (pos 0)
    then vnd_price
    else round_vnd_to_thousands (vnd_price *ℤ (pos 10_000 -ℤ discount)) 10_000

-- An item of the order with its plan.
pub record OrderPlanDetail : Type 0 where
  pub plan : Plan
  pub quantity : ℕ

-- What `calculateOrderPricing` reads of the request.
pub record SubmitOrderDto : Type 0 where
  pub coupon_code : Option Text
  pub referral_code : Option Text
  pub use_wallet_amount_vnd : Option ℤ

-- The text of a truthy string.
abbrev pub given : Option Text → Option Text
given none = none
given (some []) = none
given (some (c ∷ cs)) = some (c ∷ cs)

abbrev pub is_given : Option Text → Bool
is_given (some (c ∷ cs)) = true
is_given _ = false

pub record OrderPricing : Type 0 where
  pub total_amount : ℤ
  pub discount_amount : ℤ
  pub final_amount : ℤ
  pub coupon_code : Option Text
  pub subtotal_vnd_price : ℤ
  pub coupon_discount_vnd_amount : ℤ
  pub referral_discount_vnd_amount : ℤ
  pub wallet_spent_vnd_amount : ℤ
  pub payable_vnd_price : ℤ
  pub cashback_amount_vnd : ℤ
  -- `referralCode` and `referrerUserId` are null, or those of `referral`
  pub referral : Option ReferralValidationResult

-- In cents, without the items of the local inventory.
unfoldable pub total_amount : List OrderPlanDetail → ℤ
total_amount [] = pos 0
total_amount (item ∷ items) =
    let rest = total_amount items in
    if item.plan.is_local_inventory then rest else item.plan.price *ℤ pos item.quantity +ℤ rest

unfoldable pub subtotal_vnd_price : List OrderPlanDetail → ℤ
subtotal_vnd_price [] = pos 0
subtotal_vnd_price (item ∷ items) =
    get_discounted_vnd_price item.plan *ℤ pos item.quantity +ℤ subtotal_vnd_price items

-- What the branch `if (dto.couponCode)` assigns.
pub record CouponPart : Type 0 where
  pub code : Option Text
  pub discount_vnd : ℤ
  pub discount_amount : ℤ

abbrev pub no_coupon : CouponPart
no_coupon = record { code = none; discount_vnd = pos 0; discount_amount = pos 0 }

abbrev pub referral_discount : Option ReferralValidationResult → ℤ
referral_discount none = pos 0
referral_discount (some referral) = referral.buyer_discount_vnd

-- `Math.max(0, Math.round(Number(dto.useWalletAmountVnd ?? 0)))`
abbrev pub requested_wallet_amount : Option ℤ → ℤ
requested_wallet_amount amount = max_ℤ (pos 0) (or_zero amount)

-- The computations that follow the two look-ups.
unfoldable pub finish_pricing :
    ℤ → ℤ → Option ReferralValidationResult → CouponPart → Option ℤ → OrderPricing
finish_pricing total subtotal referral coupon use_wallet =
    let after_coupon_and_referral =
      max_ℤ (pos 0) (subtotal -ℤ coupon.discount_vnd -ℤ referral_discount referral) in
    let wallet_spent = min_ℤ (requested_wallet_amount use_wallet) after_coupon_and_referral in
    record {
      total_amount = total;
      discount_amount = coupon.discount_amount;
      final_amount = total -ℤ coupon.discount_amount;
      coupon_code = coupon.code;
      subtotal_vnd_price = subtotal;
      coupon_discount_vnd_amount = coupon.discount_vnd;
      referral_discount_vnd_amount = referral_discount referral;
      wallet_spent_vnd_amount = wallet_spent;
      payable_vnd_price = max_ℤ (pos 0) (after_coupon_and_referral -ℤ wallet_spent);
      cashback_amount_vnd = round_div_ℤ (after_coupon_and_referral *ℤ pos exu_cashback_percent) 100;
      referral = referral;
    }

module _ ⦃d : Database⦄ where
  -- `if (dto.referralCode) { … }`
  unfoldable pub price_referral : ℕ → SubmitOrderDto → ℤ → Service (Option ReferralValidationResult)
  price_referral user_id dto subtotal = unless_found (given dto.referral_code) (pure none) λ code.
      do
        referral ← validate_referral_for_order user_id code subtotal (is_given dto.coupon_code)
        pure (some referral)

  -- `if (dto.couponCode) { … }`
  unfoldable pub price_coupon : ℕ → SubmitOrderDto → ℤ → ℤ → ℕ → Service CouponPart
  price_coupon user_id dto total subtotal now =
      unless_found (given dto.coupon_code) (pure no_coupon) λ code. do
        result ← validate_coupon code subtotal user_id now
        let part : CouponPart = record {
          code = some (to_upper code);
          discount_vnd = round_vnd_to_thousands result.discount_amount 100;
          discount_amount = round_div_ℤ (total *ℤ pos result.discount_percent) 10_000;
        }
        pure part

  unfoldable pub calculate_order_pricing :
      ℕ → SubmitOrderDto → List OrderPlanDetail → ℕ → Service OrderPricing
  calculate_order_pricing user_id dto items now = do
    let total = total_amount items
    let subtotal = subtotal_vnd_price items
    throw_if (is_given dto.coupon_code && is_given dto.referral_code) referral_with_coupon
    referral ← price_referral user_id dto subtotal
    coupon ← price_coupon user_id dto total subtotal now
    pure (finish_pricing total subtotal referral coupon dto.use_wallet_amount_vnd)
