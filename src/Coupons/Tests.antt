-- ===== src/Coupons/Tests.antt =====
-- Runs of the coupons service on a small table, and the theorems at them.
use esim_backend.Base.{◌≡◌, refl, true, [], ◌∷◌, none, some, ok, ◌>>=◌}
use esim_backend.Base.Int.{pos, ◌-ℤ◌, ◌*ℤ◌, round_div, round_div_ℤ}
use mathlib.Core.Logic.{◌↔◌}
use esim_backend.Base.Text.{text, to_upper}
use esim_backend.Entities.{Coupon}
use esim_backend.Database.{Db}
use esim_backend.Fixtures.{memory, empty}
use esim_backend.Coupons.Service.{
  ValidateCouponResponse, has_expired, reaches, is_below, coupon_discount, check_coupon,
  validate_coupon,
}
use esim_backend.Coupons.Usage.{IsAdmitted, validate_coupon-IsAdmitted}

-- Ten percent off.
abbrev summer : Coupon
summer = record {
  id = 1;
  code = text "SUMMER10";
  discount_percent = 1000;
  max_usage = some 3;
  max_usage_per_user = none;
  usage_count = 2;
  min_order_amount = none;
  expires_at = some 9000;
  is_active = true;
  is_popular = true;
}

abbrev stocked : Db
stocked = record empty { coupons = summer ∷ [] }

abbrev response : ValidateCouponResponse
response = record {
  valid = true;
  discount_percent = 1000;
  discount_amount = pos 1_700_000;
  final_amount = pos 15_300_000;
}

validated : (validate_coupon (text "summer10") (pos 170_000) 7 2000 stocked).0 ≡ ok response
unfolding ◌>>=◌ validate_coupon check_coupon has_expired reaches is_below coupon_discount
    round_div_ℤ round_div ◌*ℤ◌ ◌-ℤ◌ to_upper
validated = refl

validate_coupon-IsAdmitted_example :
    ((validate_coupon (text "summer10") (pos 170_000) 7 2000 stocked).0 ≡ ok response)
    ↔ IsAdmitted (text "summer10") (pos 170_000) 7 2000 stocked response
validate_coupon-IsAdmitted_example =
    validate_coupon-IsAdmitted (text "summer10") (pos 170_000) 7 2000 stocked response

-- The coupon is admitted in these tables.
summer-IsAdmitted : IsAdmitted (text "summer10") (pos 170_000) 7 2000 stocked response
summer-IsAdmitted =
    (validate_coupon-IsAdmitted (text "summer10") (pos 170_000) 7 2000 stocked response).0 validated
