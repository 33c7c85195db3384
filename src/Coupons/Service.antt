-- ===== src/Coupons/Service.antt =====
-- `create`, `validateCoupon`, `applyCoupon` and `releaseCoupon` of the coupons service, with the
-- repository's `incrementUsage` and `decrementUsage`. A percentage counts hundredths of a percent,
-- and a discount hundredths of a VND; the arithmetic is exact where the code uses doubles.
use esim_backend.Base.{
  ℕ, ◌+◌, ◌-◌, Bool, true, false, not, ◌&&◌, Option, none, some, ⊤, pure, throw, gets, modify,
  throw_if, unless_found, ◌>>=◌, ◌>>◌, ltb, leb, ◌==◌,
}
use esim_backend.Base.Int.{ℤ, pos, ◌-ℤ◌, ◌*ℤ◌, ltb_ℤ, round_div_ℤ}
use esim_backend.Base.Text.{Text, to_upper, eqb}
use esim_backend.Entities.{Coupon, Order, is_paid}
use esim_backend.Database.{
  Database, Db, Service, coupon_not_found, coupon_inactive, coupon_expired, coupon_usage_limit,
  coupon_user_limit, coupon_minimum_order, coupon_code_exists, find_coupon, save_coupon,
}

pub record CreateCouponDto : Type 0 where
  pub code : Text
  pub discount_percent : ℕ
  pub max_usage : Option ℕ
  pub max_usage_per_user : Option ℕ
  pub min_order_amount : Option ℕ
  pub expires_at : Option ℕ
  pub is_active : Option Bool
  pub is_popular : Option Bool

-- `discount_amount` and `final_amount` in hundredths of a VND.
pub record ValidateCouponResponse : Type 0 where
  pub valid : Bool
  pub discount_percent : ℕ
  pub discount_amount : ℤ
  pub final_amount : ℤ

-- `coupon.expiresAt && new Date(coupon.expiresAt) < new Date()`
unfoldable pub has_expired : Option ℕ → ℕ → Bool
has_expired none now = false
has_expired (some date) now = ltb date now

-- `limit !== null && count >= limit`
unfoldable pub reaches : Option ℕ → ℕ → Bool
reaches none used = false
reaches (some limit) used = leb limit used

-- `coupon.minOrderAmount !== null && dto.orderAmount < coupon.minOrderAmount`
unfoldable pub is_below : Option ℕ → ℤ → Bool
is_below none amount = false
is_below (some minimum) amount = ltb_ℤ (pos 100 *ℤ amount) (pos minimum)

-- `Math.round(dto.orderAmount * coupon.discountPercent) / 100`
unfoldable pub coupon_discount : ℤ → ℕ → ℤ
coupon_discount amount percent = round_div_ℤ (amount *ℤ pos percent) 100

-- `flag ?? default`
abbrev pub or_default : Bool → Option Bool → Bool
or_default default none = default
or_default default (some flag) = flag

abbrev pub is_found : Option Coupon → Bool
is_found none = false
is_found (some coupon) = true

module _ ⦃d : Database⦄ where
  unfoldable pub create : CreateCouponDto → Service Coupon
  create dto = do
    existing ← gets (find_coupon (to_upper dto.code))
    throw_if (is_found existing) coupon_code_exists
    id ← gets (λ db. d.repositories.coupon.next_id db.coupons)
    let coupon : Coupon = record {
      id = id;
      code = to_upper dto.code;
      discount_percent = dto.discount_percent;
      max_usage = dto.max_usage;
      max_usage_per_user = dto.max_usage_per_user;
      usage_count = 0;
      min_order_amount = dto.min_order_amount;
      expires_at = dto.expires_at;
      is_active = or_default true dto.is_active;
      is_popular = or_default false dto.is_popular;
    }
    modify (save_coupon coupon)
    pure coupon

  -- `orderRepo.count({ where: { userId, couponCode: coupon.code, status: 'paid' } })`
  abbrev pub is_use : ℕ → Text → Order → Bool
  is_use user_id code o =
      o.user_id == user_id
      && elim o.coupon_code [ none ↦ false | some c ↦ eqb c code ]
      && is_paid o.status

  abbrev pub uses_of_coupon : ℕ → Text → Db → ℕ
  uses_of_coupon user_id code db = d.repositories.order.count (is_use user_id code) db.orders

  -- What follows the look-up.
  unfoldable pub check_coupon : Coupon → ℤ → ℕ → ℕ → Service ValidateCouponResponse
  check_coupon coupon order_amount user_id now = do
    throw_if (not coupon.is_active) coupon_inactive
    throw_if (has_expired coupon.expires_at now) coupon_expired
    throw_if (reaches coupon.max_usage coupon.usage_count) coupon_usage_limit
    user_usage_count ← gets (uses_of_coupon user_id coupon.code)
    throw_if (reaches coupon.max_usage_per_user user_usage_count) coupon_user_limit
    throw_if (is_below coupon.min_order_amount order_amount) coupon_minimum_order
    let discount_amount = coupon_discount order_amount coupon.discount_percent
    let response : ValidateCouponResponse = record {
      valid = true;
      discount_percent = coupon.discount_percent;
      discount_amount = discount_amount;
      final_amount = pos 100 *ℤ order_amount -ℤ discount_amount;
    }
    pure response

  unfoldable pub validate_coupon : Text → ℤ → ℕ → ℕ → Service ValidateCouponResponse
  validate_coupon code order_amount user_id now = do
    found ← gets (find_coupon (to_upper code))
    unless_found found (throw coupon_not_found)
        λ coupon. check_coupon coupon order_amount user_id now

  -- `usageCount + 1` and `GREATEST(usageCount - 1, 0)`, on the row with the id.
  abbrev pub increment_usage : ℕ → Db → Db
  increment_usage id db = record db {
    coupons =
        d.repositories.coupon.update (λ c. c.id == id)
          (λ c. record c { usage_count = c.usage_count + 1 }) db.coupons;
  }

  abbrev pub decrement_usage : ℕ → Db → Db
  decrement_usage id db = record db {
    coupons =
        d.repositories.coupon.update (λ c. c.id == id)
          (λ c. record c { usage_count = c.usage_count - 1 }) db.coupons;
  }

  unfoldable pub apply_coupon : Text → Service ⊤
  apply_coupon code = do
    found ← gets (find_coupon (to_upper code))
    unless_found found (pure tt) λ coupon. modify (increment_usage coupon.id)

  unfoldable pub release_coupon : Text → Service ⊤
  release_coupon code = do
    found ← gets (find_coupon (to_upper code))
    unless_found found (pure tt) λ coupon. modify (decrement_usage coupon.id)
