-- ===== src/Orders/Price.antt =====
-- What a price is made of.
use esim_backend.Base.{
  ℕ, ◌≡◌, refl, sym, ap, subst, ◌∙◌, ◌⊎◌, inl, inr, false, ◌&&◌, Option, none, some, List, [], ◌∷◌,
  ok, arith,
}
use esim_backend.Base.Int.{ℤ, pos, ◌+ℤ◌, ◌-ℤ◌, ◌*ℤ◌, ◌≤ℤ◌, max_ℤ, min_ℤ, round_div_ℤ, int_laws}
use esim_backend.Base.Stepping.{bind_inv, throw_if_inv, pure_inv, unless_found-none}
use esim_backend.Base.Text.{Text}
use esim_backend.Database.{Database, Db}
use esim_backend.Wallets.Referrals.{ReferralValidationResult}
use esim_backend.Orders.Pricing.{
  SubmitOrderDto, OrderPlanDetail, OrderPricing, CouponPart, no_coupon, given, is_given, or_zero,
  requested_wallet_amount, subtotal_vnd_price, finish_pricing, price_referral, price_coupon,
  calculate_order_pricing, exu_cashback_percent, referral_discount,
}

-- The amount after the discounts, which the buyer pays in cash and from the wallet.
abbrev pub owed : OrderPricing → ℤ
owed p =
    max_ℤ (pos 0)
      (p.subtotal_vnd_price -ℤ p.coupon_discount_vnd_amount -ℤ p.referral_discount_vnd_amount)

-- The wallet's part and the cash part add up to the amount owed, neither is negative, and the wallet's
-- part is at most what the buyer asked for; the cashback is two percent of the amount owed.
pub record IsSettled (dto : SubmitOrderDto) (p : OrderPricing) : Type 0 where
  pub adds_up : p.payable_vnd_price +ℤ p.wallet_spent_vnd_amount ≡ owed p
  pub payable : pos 0 ≤ℤ p.payable_vnd_price
  pub spent : pos 0 ≤ℤ p.wallet_spent_vnd_amount
  pub asked : p.wallet_spent_vnd_amount ≤ℤ requested_wallet_amount dto.use_wallet_amount_vnd
  pub cashback : p.cashback_amount_vnd ≡ round_div_ℤ (owed p *ℤ pos exu_cashback_percent) 100

max_pos : (a : ℤ) → pos 0 ≤ℤ max_ℤ (pos 0) a
max_pos a = ground arith

min_pos : (a b : ℤ) → pos 0 ≤ℤ a → pos 0 ≤ℤ b → pos 0 ≤ℤ min_ℤ a b
min_pos a b h h' = ground arith

min_le : (a b : ℤ) → min_ℤ a b ≤ℤ a
min_le a b = ground arith

min_ge : (a b : ℤ) → min_ℤ a b ≤ℤ b
min_ge a b = ground arith

back : (due spent : ℤ) → spent ≤ℤ due → max_ℤ (pos 0) (due -ℤ spent) +ℤ spent ≡ due
back due spent h = grind (int_laws, h)

finish_pricing-IsSettled :
    (dto : SubmitOrderDto) (total subtotal : ℤ) (referral : Option ReferralValidationResult)
    (coupon : CouponPart)
    → IsSettled dto (finish_pricing total subtotal referral coupon dto.use_wallet_amount_vnd)
unfolding finish_pricing
finish_pricing-IsSettled dto total subtotal referral coupon =
    let asked = requested_wallet_amount dto.use_wallet_amount_vnd in
    let rest = subtotal -ℤ coupon.discount_vnd -ℤ referral_discount referral in
    let due = max_ℤ (pos 0) rest in
    record {
      adds_up = back due (min_ℤ asked due) (min_ge asked due);
      payable = max_pos (due -ℤ min_ℤ asked due);
      spent = min_pos asked due (max_pos (or_zero dto.use_wallet_amount_vnd)) (max_pos rest);
      asked = min_le asked due;
      cashback = refl;
    }

given-none : (o : Option Text) → is_given o ≡ false → given o ≡ none
given-none none h = refl
given-none (some []) h = refl
given-none (some (c ∷ cs)) h = cc h

one_given :
    (dto : SubmitOrderDto)
    → is_given dto.coupon_code && is_given dto.referral_code ≡ false
    → (is_given dto.coupon_code ≡ false) ⊎ (is_given dto.referral_code ≡ false)
one_given dto h = ground arith

module _ ⦃d : Database⦄ where
  no_referral_part :
      (u : ℕ) (dto : SubmitOrderDto) (subtotal : ℤ) (db : Db) {r : Option ReferralValidationResult}
      → is_given dto.referral_code ≡ false
      → (price_referral u dto subtotal db).0 ≡ ok r
      → referral_discount r ≡ pos 0
  unfolding price_referral
  no_referral_part u dto subtotal db absent h = ap referral_discount (
      sym (
        pure_inv db (
          ap (λ m. (m db).0) (sym (unless_found-none _ _ (given-none dto.referral_code absent)))
          ∙ h)))

  no_coupon_part :
      (u : ℕ) (dto : SubmitOrderDto) (total subtotal : ℤ) (now : ℕ) (db : Db) {c : CouponPart}
      → is_given dto.coupon_code ≡ false
      → (price_coupon u dto total subtotal now db).0 ≡ ok c
      → c.discount_vnd ≡ pos 0
  unfolding price_coupon
  no_coupon_part u dto total subtotal now db absent h =
      ap (λ c. c.discount_vnd)
        (sym (
          pure_inv db (
            ap (λ m. (m db).0) (sym (unless_found-none _ _ (given-none dto.coupon_code absent)))
            ∙ h)))

  -- The price of a checkout: when `calculateOrderPricing` succeeds, the subtotal is that of the items,
  -- what is paid in cash and from the wallet adds up to what is left of it after the discounts, neither
  -- is negative, the wallet's part is at most what was asked for, the cashback is two percent of what is
  -- left, and of the coupon's discount and the referral's one is zero.
  pub calculate_order_pricing-IsSettled :
      (u : ℕ) (dto : SubmitOrderDto) (items : List OrderPlanDetail) (now : ℕ) (db : Db)
      {p : OrderPricing}
      → (calculate_order_pricing u dto items now db).0 ≡ ok p
      → IsSettled dto p
        × (p.subtotal_vnd_price ≡ subtotal_vnd_price items)
        × ((p.coupon_discount_vnd_amount ≡ pos 0) ⊎ (p.referral_discount_vnd_amount ≡ pos 0))
  unfolding calculate_order_pricing finish_pricing
  calculate_order_pricing-IsSettled u dto items now db {p} h =
      let (exclusive, h1) = throw_if_inv _ _ _ db h in
      let (referral, s1, e1, h2, _) = bind_inv _ _ db h1 in
      let (coupon, s2, e2, h3, _) = bind_inv _ _ s1 h2 in
      let e = pure_inv s2 h3 in
      subst
        (λ q.
          IsSettled dto q
          × (q.subtotal_vnd_price ≡ subtotal_vnd_price items)
          × ((q.coupon_discount_vnd_amount ≡ pos 0) ⊎ (q.referral_discount_vnd_amount ≡ pos 0)))
        e
        (
          finish_pricing-IsSettled dto _ _ referral coupon,
          refl,
          elim (one_given dto exclusive) [
            | inl no_coupon ↦ inl (no_coupon_part u dto _ _ now s1 no_coupon (ap (λ out. out.0) e2))
            | inr no_referral ↦ inr (no_referral_part u dto _ db no_referral (ap (λ out. out.0) e1))
          ],
        )
