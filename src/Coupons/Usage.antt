-- ===== src/Coupons/Usage.antt =====
-- When a coupon is valid, and how `usageCount` moves.
use esim_backend.Base.{
  not-false, ℕ, ◌+◌, ◌-◌, ◌≤◌, ◌<◌, ◌≡◌, refl, sym, ap, subst, ◌∙◌, true, none, some, inl, inr, ok,
  arith, Option-cases, Bool-cases, ◌>>=◌, ◌==◌, ==_refl, if◌then◌else◌,
}
use mathlib.Core.Logic.{◌↔◌}
use esim_backend.Base.Int.{ℤ, pos, ◌+ℤ◌, ◌-ℤ◌, ◌*ℤ◌, ◌≤ℤ◌, ◌<ℤ◌}
use esim_backend.Base.Text.{Text, to_upper}
use esim_backend.Base.Stepping.{throw_if_inv, gets_step, pure_inv, unless_found_inv}
use esim_backend.Entities.{Coupon}
use esim_backend.Database.{Database, Db, coupon_not_found, find_coupon}
use esim_backend.Coupons.Limits.{
  not_expired, not_reached, not_below, is_current, is_below_limit, is_large_enough, nearest,
  nearest_one,
}
use esim_backend.Coupons.Service.{
  ValidateCouponResponse, coupon_discount, uses_of_coupon, validate_coupon, apply_coupon,
  release_coupon, check_coupon, increment_usage, decrement_usage,
}

module _ ⦃d : Database⦄ where
  -- The coupon of the response admits the order: it is active, its last day has not passed, it has been
  -- used less often than its limits say, and the order is not below its minimum (which counts hundredths of
  -- a VND, as the discount does). The discount is the nearest to its percentage of the amount, a half
  -- rounded up, and the final amount is what is left.
  pub record IsAdmitted (code : Text) (amount : ℤ) (user_id now : ℕ) (db : Db)
      (r : ValidateCouponResponse) : Type 0 where
    pub coupon : Coupon
    pub found : find_coupon (to_upper code) db ≡ some coupon
    pub active : coupon.is_active ≡ true
    pub current : (date : ℕ) → coupon.expires_at ≡ some date → now ≤ date
    pub below_limit : (limit : ℕ) → coupon.max_usage ≡ some limit → coupon.usage_count < limit
    pub below_user_limit :
        (limit : ℕ)
        → coupon.max_usage_per_user ≡ some limit
        → uses_of_coupon user_id coupon.code db < limit
    pub large_enough :
        (minimum : ℕ) → coupon.min_order_amount ≡ some minimum → pos minimum ≤ℤ pos 100 *ℤ amount
    pub valid : r.valid ≡ true
    pub percent : r.discount_percent ≡ coupon.discount_percent
    pub discount_below :
        pos 100 *ℤ r.discount_amount ≤ℤ amount *ℤ pos coupon.discount_percent +ℤ pos 50
    pub discount_above :
        amount *ℤ pos coupon.discount_percent +ℤ pos 50 <ℤ pos 100 *ℤ r.discount_amount +ℤ pos 100
    pub remainder : r.final_amount ≡ pos 100 *ℤ amount -ℤ r.discount_amount

  admitted :
      (code : Text) (amount : ℤ) (user_id now : ℕ) (db : Db) {r : ValidateCouponResponse}
      → (validate_coupon code amount user_id now db).0 ≡ ok r
      → IsAdmitted code amount user_id now db r
  unfolding validate_coupon check_coupon coupon_discount
  admitted code amount user_id now db h =
      let h0 = ap (λ out. out.0) (sym (gets_step _ _ db)) ∙ h in
      let (c, found, h1) = unless_found_inv coupon_not_found _ db h0 in
      let (active, h2) = throw_if_inv _ _ _ db h1 in
      let (current, h3) = throw_if_inv _ _ _ db h2 in
      let (below_limit, h4) = throw_if_inv _ _ _ db h3 in
      let h5 = ap (λ out. out.0) (sym (gets_step _ _ db)) ∙ h4 in
      let (below_user_limit, h6) = throw_if_inv _ _ _ db h5 in
      let (large_enough, h7) = throw_if_inv _ _ _ db h6 in
      let e = pure_inv db h7 in
      record {
        coupon = c;
        found = found;
        active = not-false _ active;
        current = λ date e. not_expired _ date now e current;
        below_limit = λ limit e. not_reached _ limit _ e below_limit;
        below_user_limit = λ limit e. not_reached _ limit _ e below_user_limit;
        large_enough = λ minimum e. not_below _ minimum amount e large_enough;
        valid = ap (λ x. x.valid) (sym e);
        percent = ap (λ x. x.discount_percent) (sym e);
        discount_below =
            subst (λ x. pos 100 *ℤ x ≤ℤ amount *ℤ pos c.discount_percent +ℤ pos 50)
              (ap (λ x. x.discount_amount) e) (nearest _).0;
        discount_above =
            subst (λ x. amount *ℤ pos c.discount_percent +ℤ pos 50 <ℤ pos 100 *ℤ x +ℤ pos 100)
              (ap (λ x. x.discount_amount) e) (nearest _).1;
        remainder =
            ap (λ x. x.final_amount) (sym e) ∙ ap (λ s. pos 100 *ℤ amount -ℤ s.discount_amount) e;
      }

  passes :
      (code : Text) (amount : ℤ) (user_id now : ℕ) (db : Db) {r : ValidateCouponResponse}
      → IsAdmitted code amount user_id now db r
      → validate_coupon code amount user_id now db ≡ (ok r, db)
  unfolding validate_coupon check_coupon coupon_discount ◌>>=◌
  passes code amount user_id now db {r} a =
      let in_time = is_current a.coupon.expires_at now a.current in
      let unused = is_below_limit a.coupon.max_usage a.coupon.usage_count a.below_limit in
      let unused_by_user =
        is_below_limit a.coupon.max_usage_per_user (uses_of_coupon user_id a.coupon.code db)
          a.below_user_limit in
      let enough = is_large_enough a.coupon.min_order_amount amount a.large_enough in
      let same_discount =
        nearest_one (amount *ℤ pos a.coupon.discount_percent) r.discount_amount a.discount_below
          a.discount_above in
      rw (a.found, a.active, in_time, unused, unused_by_user, enough)
        (λ i. (
          ok (record {
            valid = sym a.valid i;
            discount_percent = sym a.percent i;
            discount_amount = same_discount i;
            final_amount = (ap (λ x. pos 100 *ℤ amount -ℤ x) same_discount ∙ sym a.remainder) i;
          }),
          db,
        ))

  -- `validateCoupon` returns a response exactly where the coupon of the code exists, is active, has not
  -- expired, has been used less often than its limit and the buyer's say, and the order is not below its
  -- minimum; the discount is the nearest hundredth to its percentage of the amount, a half rounded up, and
  -- the final amount is what is left.
  pub validate_coupon-IsAdmitted :
      (code : Text) (amount : ℤ) (user_id now : ℕ) (db : Db) (r : ValidateCouponResponse)
      → ((validate_coupon code amount user_id now db).0 ≡ ok r)
        ↔ IsAdmitted code amount user_id now db r
  validate_coupon-IsAdmitted code amount user_id now db r = (
    admitted code amount user_id now db,
    λ a. ap (λ out. out.0) (passes code amount user_id now db a),
  )

  find_coupon-increment :
      (k : Text) (id : ℕ) (db : Db)
      → find_coupon k (increment_usage id db) ≡ elim (find_coupon k db) [
        | none ↦ none
        | some c ↦ some (if c.id == id then record c { usage_count = c.usage_count + 1 } else c)
      ]
  find_coupon-increment k id db =
      d.repositories.coupon.find_one-update k (λ c. c.id == id)
        (λ c. record c { usage_count = c.usage_count + 1 }) db.coupons (λ c. refl)

  find_coupon-decrement :
      (k : Text) (id : ℕ) (db : Db)
      → find_coupon k (decrement_usage id db) ≡ elim (find_coupon k db) [
        | none ↦ none
        | some c ↦ some (if c.id == id then record c { usage_count = c.usage_count - 1 } else c)
      ]
  find_coupon-decrement k id db =
      d.repositories.coupon.find_one-update k (λ c. c.id == id)
        (λ c. record c { usage_count = c.usage_count - 1 }) db.coupons (λ c. refl)

  decrement-increment :
      (k : Text) (id : ℕ) (db : Db)
      → find_coupon k (decrement_usage id (increment_usage id db)) ≡ find_coupon k db
  decrement-increment k id db = elim (Option-cases (find_coupon k db)) [
    | inl e ↦ rw (find_coupon-decrement, find_coupon-increment, e) refl
    | inr (c, e) ↦ elim (Bool-cases (c.id == id)) [
      | inl same ↦
          let back : c.usage_count + 1 - 1 ≡ c.usage_count = omega arith in
          rw (find_coupon-decrement, find_coupon-increment, e, same, same)
            (ap (λ n. some (record c { usage_count = n })) back)
      | inr other ↦ rw (find_coupon-decrement, find_coupon-increment, e, other, other) refl
    ]
  ]

  -- `releaseCoupon` undoes `applyCoupon`: whatever code is looked up then, the coupon is as it was.
  pub release_coupon-apply_coupon :
      (code k : Text) (db : Db)
      → find_coupon k (release_coupon code (apply_coupon code db).1).1 ≡ find_coupon k db
  unfolding apply_coupon release_coupon ◌>>=◌
  release_coupon-apply_coupon code k db = elim (Option-cases (find_coupon (to_upper code) db)) [
    | inl e ↦ rw (e, e) refl
    | inr (c, e) ↦
        rw (e, find_coupon-increment (to_upper code) c.id db, e, ==_refl c.id)
          (decrement-increment k c.id db)
  ]
