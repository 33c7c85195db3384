-- ===== src/Coupons/Limits.antt =====
-- The tests of `validateCoupon`, and the rounding of its discount, in terms of the numbers that they compare.
use esim_backend.Base.{ℕ, ◌≤◌, ◌<◌, ◌≡◌, refl, Option, none, some, false, arith}
use esim_backend.Base.Int.{
  ℤ, pos, negsuc, ◌+ℤ◌, ◌*ℤ◌, ◌≤ℤ◌, ◌<ℤ◌, round_div, round_div_ℤ, eq_of_parts,
}
use esim_backend.Coupons.Service.{has_expired, reaches, is_below}

pub not_expired :
    (expires_at : Option ℕ) (date now : ℕ)
    → expires_at ≡ some date
    → has_expired expires_at now ≡ false
    → now ≤ date
unfolding has_expired
not_expired none date now e h = cc e
not_expired (some d) date now e h = let same : d ≡ date = cc e in ground (arith, same)

pub not_reached :
    (max_usage : Option ℕ) (limit used : ℕ)
    → max_usage ≡ some limit
    → reaches max_usage used ≡ false
    → used < limit
unfolding reaches
not_reached none limit used e h = cc e
not_reached (some l) limit used e h = let same : l ≡ limit = cc e in ground (arith, same)

pub not_below :
    (min_order_amount : Option ℕ) (minimum : ℕ) (amount : ℤ)
    → min_order_amount ≡ some minimum
    → is_below min_order_amount amount ≡ false
    → pos minimum ≤ℤ pos 100 *ℤ amount
unfolding is_below
not_below none minimum amount e h = cc e
not_below (some m) minimum amount e h = let same : m ≡ minimum = cc e in ground (arith, same)

pub is_current :
    (expires_at : Option ℕ) (now : ℕ)
    → ((date : ℕ) → expires_at ≡ some date → now ≤ date)
    → has_expired expires_at now ≡ false
unfolding has_expired
is_current none now h = refl
is_current (some d) now h = let later = h d refl in ground arith

pub is_below_limit :
    (max_usage : Option ℕ) (used : ℕ)
    → ((limit : ℕ) → max_usage ≡ some limit → used < limit)
    → reaches max_usage used ≡ false
unfolding reaches
is_below_limit none used h = refl
is_below_limit (some l) used h = let less = h l refl in ground arith

pub is_large_enough :
    (min_order_amount : Option ℕ) (amount : ℤ)
    → ((minimum : ℕ) → min_order_amount ≡ some minimum → pos minimum ≤ℤ pos 100 *ℤ amount)
    → is_below min_order_amount amount ≡ false
unfolding is_below
is_large_enough none amount h = refl
is_large_enough (some m) amount h = let enough = h m refl in ground arith

-- `Math.round` of a hundredth is the nearest integer.
pub nearest :
    (a : ℤ)
    → (pos 100 *ℤ round_div_ℤ a 100 ≤ℤ a +ℤ pos 50)
      × (a +ℤ pos 50 <ℤ pos 100 *ℤ round_div_ℤ a 100 +ℤ pos 100)
unfolding round_div_ℤ round_div ◌*ℤ◌ ◌+ℤ◌
nearest (pos a) = (ground arith, ground arith)
nearest (negsuc a) = (ground arith, ground arith)

pub nearest_one :
    (a x : ℤ)
    → pos 100 *ℤ x ≤ℤ a +ℤ pos 50
    → a +ℤ pos 50 <ℤ pos 100 *ℤ x +ℤ pos 100
    → round_div_ℤ a 100 ≡ x
unfolding ◌*ℤ◌ ◌+ℤ◌
nearest_one a x below above = let (low, high) = nearest a in eq_of_parts _ _ (ground arith)
