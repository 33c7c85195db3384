-- ===== src/Orders/Items.antt =====
-- The rows of a checkout's items against its price.
use esim_backend.Base.{
  ℕ, zero, suc, ◌+◌, ◌*◌, ◌≤◌, ◌≡◌, refl, sym, ap, ◌∙◌, inl, inr, Option, List, [], ◌∷◌, ◌++◌, map,
  arith, Bool-cases,
}
use Prim.Native.String.{String}
use esim_backend.Base.Int.{ℤ, pos, pos_part, neg_part, ◌+ℤ◌, ◌*ℤ◌, +ℤ_assoc, int_laws}
use esim_backend.Entities.{OrderItemRow}
use esim_backend.Orders.Pricing.{get_discounted_vnd_price, subtotal_vnd_price}
use esim_backend.Orders.Checkout.{
  PlannedItem, detail_of, is_per_unit, copies, at_least_one, rows_of, item_rows,
}

-- What the rows cost together.
unfoldable pub rows_total : List OrderItemRow → ℤ
rows_total [] = pos 0
rows_total (row ∷ rows) = row.vnd_price +ℤ rows_total rows

abbrev pub AreOrdered : List PlannedItem → Type 0
AreOrdered [] = Unit {0}
AreOrdered (planned ∷ items) = (1 ≤ planned.item.quantity) × AreOrdered items

rows_total-append :
    (rows more : List OrderItemRow) → rows_total (rows ++ more) ≡ rows_total rows +ℤ rows_total more
unfolding rows_total
rows_total-append [] more = omega int_laws
rows_total-append (row ∷ rows) more =
    ap (λ n. row.vnd_price +ℤ n) (rows_total-append rows more) ∙ sym (+ℤ_assoc _ _ _)

mul-suc : (m n : ℕ) → m * suc n ≡ m + m * n
mul-suc m n = grind arith

*ℤ_parts :
    (a b : ℤ)
    → pos_part (a *ℤ b) + (pos_part a * neg_part b + neg_part a * pos_part b)
      ≡ neg_part (a *ℤ b) + (pos_part a * pos_part b + neg_part a * neg_part b)
unfolding ◌*ℤ◌
*ℤ_parts a b = ground arith

*ℤ-suc : (a : ℤ) (n : ℕ) → a *ℤ pos (suc n) ≡ a +ℤ a *ℤ pos n
*ℤ-suc a n = omega (
  int_laws,
  *ℤ_parts a (pos (suc n)),
  *ℤ_parts a (pos n),
  mul-suc (pos_part a) n,
  mul-suc (neg_part a) n,
)

*ℤ-zero : (a : ℤ) → a *ℤ pos 0 ≡ pos 0
*ℤ-zero a = omega (int_laws, *ℤ_parts a (pos 0))

*ℤ-one : (a : ℤ) → a +ℤ pos 0 ≡ a
*ℤ-one a = omega int_laws

rows_total-copies :
    (n : ℕ) (row : OrderItemRow) → rows_total (copies n row) ≡ row.vnd_price *ℤ pos n
unfolding rows_total
rows_total-copies zero row = sym (*ℤ-zero row.vnd_price)
rows_total-copies (suc n) row =
    ap (λ m. row.vnd_price +ℤ m) (rows_total-copies n row) ∙ sym (*ℤ-suc row.vnd_price n)

at_least_one_lem : (n : ℕ) → 1 ≤ n → at_least_one n ≡ n
at_least_one_lem n h = ground arith

rows_total-rows_of :
    (order_id : ℕ) (currency : String) (rate : Option ℕ) (planned : PlannedItem)
    → 1 ≤ planned.item.quantity
    → rows_total (rows_of order_id currency rate planned)
      ≡ get_discounted_vnd_price planned.plan *ℤ pos planned.item.quantity
unfolding rows_of rows_total
rows_total-rows_of order_id currency rate planned h = elim (Bool-cases (is_per_unit planned.plan)) [
  | inl unit ↦ rw (unit, at_least_one_lem _ h) (rows_total-copies _ _)
  | inr whole ↦ rw whole (*ℤ-one _)
]

-- The rows of the items add up to the subtotal that the order is priced by, those of the suppliers that
-- take one unit at a time included, where every quantity is at least one.
pub rows_total-item_rows :
    (order_id : ℕ) (currency : String) (rate : Option ℕ) (items : List PlannedItem)
    → AreOrdered items
    → rows_total (item_rows order_id currency rate items) ≡ subtotal_vnd_price (map detail_of items)
unfolding item_rows subtotal_vnd_price
rows_total-item_rows order_id currency rate [] h = unfold rows_total in refl
rows_total-item_rows order_id currency rate (planned ∷ items) (h, k) =
    rows_total-append _ _
    ∙ ap (λ n. n +ℤ rows_total (item_rows order_id currency rate items))
        (rows_total-rows_of order_id currency rate planned h)
    ∙ ap (λ n. get_discounted_vnd_price planned.plan *ℤ pos planned.item.quantity +ℤ n)
        (rows_total-item_rows order_id currency rate items k)
