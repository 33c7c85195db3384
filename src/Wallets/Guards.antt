-- ===== src/Wallets/Guards.antt =====
-- When `validateReferralForOrder` accepts a code, and what `refundOrder` has checked when it succeeds.
use esim_backend.Base.{
  not-false, ℕ, ◌≡◌, refl, ap, sym, ◌∙◌, Bool, true, false, not, ⊤, Option, pure, throw_if, none,
  some, inl, inr, ok, arith, Bool-cases, ◌==◌, ltb, unless_found, ◌>>=◌, Option-cases,
}
use mathlib.Core.Logic.{◌↔◌}
use esim_backend.Base.Int.{ℤ, pos, ◌+ℤ◌, ◌-ℤ◌, ◌≤ℤ◌, ltb_ℤ, int_laws}
use esim_backend.Base.Text.{Text, trim, to_upper}
use esim_backend.Base.Stepping.{bind_inv, throw_if_inv, gets_step, pure_inv, unless_found_inv}
use esim_backend.Entities.{
  Order, OrderRefund, UserReferralProfile, UserWallet, is_refundable, is_active,
}
use esim_backend.Database.{
  Database, Db, Exception, referral_already_used, find_wallet, find_referral_profile,
  referral_code_not_found, referrer_wallet_locked,
}
use esim_backend.Wallets.Referrals.{
  ReferralValidationResult, paid_orders, referral_benefits, check_referrer,
  validate_referral_for_order, referral_min_order_vnd, referral_discount_vnd, referral_reward_vnd,
}
use esim_backend.Wallets.Refunds.{RefundOrderDto, total_order_value, refund_order}

room : (value before a : ℤ) → ltb_ℤ (value -ℤ before) a ≡ false → before +ℤ a ≤ℤ value
room value before a h = grind (int_laws, h)

none_of : (n : ℕ) → ltb 0 n ≡ false → n ≡ 0
none_of n h = ground arith

module _ ⦃d : Database⦄ where
  throw_if_end :
      (b : Bool) (e : Exception) (db : Db) {a : ⊤} → (throw_if b e db).0 ≡ ok a → b ≡ false
  unfolding throw_if
  throw_if_end true e db h = cc h
  throw_if_end false e db h = refl

  -- `refundOrder` that succeeds was for a paid or refunded order and an amount that is not negative,
  -- and with what has been refunded before it, the amount does not exceed the order's value in cash and
  -- eXu.
  pub refund_order-le_total :
      (order : Order) (dto : RefundOrderDto) (admin now : ℕ) (db : Db) {r : OrderRefund}
      → (refund_order order dto admin now db).0 ≡ ok r
      → (is_refundable order.status ≡ true)
        × (pos 0 ≤ℤ dto.amount_vnd)
        × (order.refunded_amount_vnd +ℤ dto.amount_vnd ≤ℤ total_order_value order)
  unfolding refund_order
  refund_order-le_total order dto admin now db h =
      let (refundable, h1) = throw_if_inv _ _ _ db h in
      let (signed, h2) = throw_if_inv _ _ _ db h1 in
      let (within, h3) = throw_if_inv _ _ _ db h2 in
      (not-false _ refundable, ground arith, room _ _ _ within)

  unlocked_step :
      (o : Option UserWallet) (db s : Db) {a : ⊤}
      → unless_found o
          (pure tt)
          (λ w. throw_if (not (is_active w.status)) referrer_wallet_locked)
          db
        ≡ (ok a, s)
      → (s ≡ db) × ((w : UserWallet) → o ≡ some w → is_active w.status ≡ true)
  unfolding unless_found pure throw_if
  unlocked_step none db s h = (cc h, λ w e. cc e)
  unlocked_step (some w) db s h = elim (Bool-cases (is_active w.status)) [
    | inl usable ↦ (cc (h, usable), λ w' e. cc (e, usable))
    | inr locked ↦ cc (h, locked)
  ]

  check_referrer_ok :
      (u : ℕ) (profile : UserReferralProfile) (db : Db) {a : ⊤}
      → (check_referrer u profile db).0 ≡ ok a
      → ((w : UserWallet) → find_wallet profile.user_id db ≡ some w → is_active w.status ≡ true)
        × ((profile.user_id == u) ≡ false)
        × (paid_orders u db ≡ 0)
        × (referral_benefits u db ≡ 0)
  unfolding check_referrer
  check_referrer_ok u profile db h =
      let h1 = ap (λ out. out.0) (sym (gets_step _ _ db)) ∙ h in
      let (_, s, e, h2, _) = bind_inv _ _ db h1 in
      let (same, unlocked) = unlocked_step (find_wallet profile.user_id db) db s e in
      let (another, h3) = throw_if_inv _ _ _ s h2 in
      let h4 = ap (λ out. out.0) (sym (gets_step _ _ s)) ∙ h3 in
      let (first_order, h5) = throw_if_inv _ _ _ s h4 in
      let h6 = ap (λ out. out.0) (sym (gets_step _ _ s)) ∙ h5 in
      let first_referral =
        throw_if_end (ltb 0 (referral_benefits u s)) referral_already_used s h6 in
      (
        unlocked,
        another,
        ap (paid_orders u) (sym same) ∙ none_of (paid_orders u s) first_order,
        ap (referral_benefits u) (sym same) ∙ none_of (referral_benefits u s) first_referral,
      )

  -- The referral is allowed: the code is that of an active profile of another user whose wallet is not
  -- locked, the order is large enough and has no coupon, and it is the buyer's first.
  pub record IsAllowed (u : ℕ) (code : Text) (subtotal : ℤ) (has_coupon : Bool) (db : Db)
      (r : ReferralValidationResult) : Type 0 where
    pub profile : UserReferralProfile
    pub found : find_referral_profile (to_upper (trim code)) db ≡ some profile
    pub active : profile.is_active ≡ true
    pub no_coupon : has_coupon ≡ false
    pub large_enough : referral_min_order_vnd ≤ℤ subtotal
    pub unlocked :
        (w : UserWallet) → find_wallet profile.user_id db ≡ some w → is_active w.status ≡ true
    pub another : (profile.user_id == u) ≡ false
    pub first_order : paid_orders u db ≡ 0
    pub first_referral : referral_benefits u db ≡ 0
    pub code_given : r.referral_code ≡ to_upper (trim code)
    pub referrer : r.referrer_user_id ≡ profile.user_id
    pub discount : r.buyer_discount_vnd ≡ referral_discount_vnd
    pub reward : r.reward_vnd ≡ referral_reward_vnd

  checked :
      (u : ℕ) (code : Text) (subtotal : ℤ) (has_coupon : Bool) (db : Db)
      {r : ReferralValidationResult}
      → (validate_referral_for_order u code subtotal has_coupon db).0 ≡ ok r
      → IsAllowed u code subtotal has_coupon db r
  unfolding validate_referral_for_order
  checked u code subtotal has_coupon db h =
      let (no_coupon, h1) = throw_if_inv _ _ _ db h in
      let (large, h2) = throw_if_inv _ _ _ db h1 in
      let h3 = ap (λ out. out.0) (sym (gets_step _ _ db)) ∙ h2 in
      let (profile, found, h4) = unless_found_inv referral_code_not_found _ db h3 in
      let (active, h5) = throw_if_inv _ _ _ db h4 in
      let (a, s1, e1, h6, _) = bind_inv (check_referrer u profile) _ db h5 in
      let (unlocked, another, first_order, first_referral) =
        check_referrer_ok u profile db (ap (λ out. out.0) e1) in
      let e = pure_inv s1 h6 in
      record {
        profile = profile;
        found = found;
        active = not-false _ active;
        no_coupon = no_coupon;
        large_enough = ground arith;
        unlocked = unlocked;
        another = another;
        first_order = first_order;
        first_referral = first_referral;
        code_given = ap (λ x. x.referral_code) (sym e);
        referrer = ap (λ x. x.referrer_user_id) (sym e);
        discount = ap (λ x. x.buyer_discount_vnd) (sym e);
        reward = ap (λ x. x.reward_vnd) (sym e);
      }

  check_referrer_passes :
      (u : ℕ) (profile : UserReferralProfile) (db : Db)
      → ((w : UserWallet) → find_wallet profile.user_id db ≡ some w → is_active w.status ≡ true)
      → (profile.user_id == u) ≡ false
      → paid_orders u db ≡ 0
      → referral_benefits u db ≡ 0
      → check_referrer u profile db ≡ (ok tt, db)
  unfolding check_referrer ◌>>=◌
  check_referrer_passes u profile db unlocked another first_order first_referral =
      elim (Option-cases (find_wallet profile.user_id db)) [
        | inl e ↦ rw (e, another, first_order, first_referral) refl
        | inr (w, e) ↦ rw (e, unlocked w e, another, first_order, first_referral) refl
      ]

  passes :
      (u : ℕ) (code : Text) (subtotal : ℤ) (has_coupon : Bool) (db : Db)
      {r : ReferralValidationResult}
      → IsAllowed u code subtotal has_coupon db r
      → validate_referral_for_order u code subtotal has_coupon db ≡ (ok r, db)
  unfolding validate_referral_for_order ◌>>=◌ check_referrer
  passes u code subtotal has_coupon db {r} a =
      let large : ltb_ℤ subtotal referral_min_order_vnd ≡ false = ground (arith, a.large_enough) in
      let step =
        check_referrer_passes u a.profile db a.unlocked a.another a.first_order a.first_referral in
      rw (a.no_coupon, large, a.found, a.active, step)
        (λ i. (
          ok (record {
            referral_code = sym a.code_given i;
            referrer_user_id = sym a.referrer i;
            buyer_discount_vnd = sym a.discount i;
            reward_vnd = sym a.reward i;
          }),
          db,
        ))

  -- `validateReferralForOrder` returns a result exactly where the referral is allowed: the code, trimmed and
  -- in capitals, is that of an active profile of another user whose wallet, if there is one, is not locked,
  -- the subtotal is at least 100.000 VND, there is no coupon, the buyer has no paid order and no referral
  -- that is pending or credited, and the result names the code, the referrer and the fixed discount and
  -- reward.
  pub validate_referral_for_order-IsAllowed :
      (u : ℕ) (code : Text) (subtotal : ℤ) (has_coupon : Bool) (db : Db)
      (r : ReferralValidationResult)
      → ((validate_referral_for_order u code subtotal has_coupon db).0 ≡ ok r)
        ↔ IsAllowed u code subtotal has_coupon db r
  validate_referral_for_order-IsAllowed u code subtotal has_coupon db r = (
    checked u code subtotal has_coupon db,
    λ a. ap (λ out. out.0) (passes u code subtotal has_coupon db a),
  )
