-- ===== src/Wallets/RefundParts.antt =====
-- The two parts of a refund: the eXu that goes back to the wallet and the cash.
use esim_backend.Base.{ℕ, ◌+◌, ◌*◌, ◌/◌, ◌≤◌, ◌<◌, ◌≡◌, refl, ap, ◌∙◌, true, arith, ltb}
use esim_backend.Base.Int.{pos, ◌+ℤ◌, ◌-ℤ◌, ◌*ℤ◌, ◌≤ℤ◌, round_div, round_div_ℤ, int_laws}
use esim_backend.Entities.{Order}
use esim_backend.Wallets.Refunds.{exu_refund_amount}
use native.Mathlib.Nat.{div-lt_iff_lt-mul, div-eq_of_lt-le, mul-le-mul_left}

pos-mul : (a b : ℕ) → pos a *ℤ pos b ≡ pos (a * b)
unfolding ◌*ℤ◌
pos-mul a b = ground arith

pos-add : (a b : ℕ) → pos a +ℤ pos b ≡ pos (a + b)
unfolding ◌+ℤ◌
pos-add a b = ground arith

round_div_le : (a s t : ℕ) → 0 < t → s ≤ t → round_div (a * s) t ≤ a
unfolding round_div
round_div_le a s t h below =
    let product : a * s ≤ a * t = mul-le-mul_left a below in
    let bound : 2 * (a * s) + t < (a + 1) * (2 * t) = omega arith in
    let small : (2 * (a * s) + t) / (2 * t) < a + 1 = (div-lt_iff_lt-mul (omega arith)).1 bound in
    omega arith

round_div_exact : (s t : ℕ) → 0 < t → round_div (t * s) t ≡ s
unfolding round_div
round_div_exact s t h =
    let low : s * (2 * t) ≤ 2 * (t * s) + t = omega arith in
    let high : 2 * (t * s) + t < (s + 1) * (2 * t) = omega arith in div-eq_of_lt-le (2 * t) low high

module _ (order : Order) (p s : ℕ) (paid : order.payable_vnd_price ≡ pos p)
    (spent : order.wallet_spent_vnd_amount ≡ pos s) (a : ℕ) where
  exu_lem : 0 < p + s → exu_refund_amount order (pos a) ≡ pos (round_div (a * s) (p + s))
  unfolding exu_refund_amount round_div_ℤ
  exu_lem h =
      let above : ltb (0 + 0) (p + s + 0) ≡ true = ground arith in
      rw (paid, spent, pos-add p s, pos-mul a s, above) refl

  -- Of a refund of an order, whose cash and eXu parts are not both zero and neither negative, the eXu
  -- part is neither negative nor larger than the refund.
  pub exu_refund_amount_bounds :
      0 < p + s
      → (pos 0 ≤ℤ exu_refund_amount order (pos a)) × (exu_refund_amount order (pos a) ≤ℤ pos a)
  exu_refund_amount_bounds h =
      let part : round_div (a * s) (p + s) ≤ a = round_div_le a s (p + s) h (omega arith) in
      rw (exu_lem h) (omega arith, omega arith)

  -- A full refund gives back exactly the eXu that was spent on the order, so that its cash part is
  -- exactly what was paid in cash.
  pub exu_refund_amount_full :
      0 < p + s
      → a ≡ p + s
      → (exu_refund_amount order (pos a) ≡ pos s)
        × (pos a -ℤ exu_refund_amount order (pos a) ≡ pos p)
  exu_refund_amount_full h full =
      let whole : exu_refund_amount order (pos a) ≡ pos s =
        exu_lem h ∙ ap pos (rw full (round_div_exact s (p + s) h)) in
      (whole, rw (whole, full) (grind int_laws))
