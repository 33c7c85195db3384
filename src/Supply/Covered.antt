-- ===== src/Supply/Covered.antt =====
-- Every item of an order is among the rows that the submission makes of the answers of a supplier.
use esim_backend.Base.{
  ℕ, zero, suc, ◌≤◌, ◌≡◌, refl, sym, ap, subst, ◌∙◌, inl, inr, Option, List, [], ◌∷◌, ◌++◌, arith,
  ◌+◌,
}
use esim_backend.Base.Lists.{append-IsIn_left, append-IsIn_right, IsIn}
use esim_backend.Base.Text.{Text}
use esim_backend.Supply.Requests.{Queues, JtsData}
use esim_backend.Supply.Direct.{
  WantedItem, ItemRow, rows_with, topup_rows, option_key, shifted_by, gadget_korea_rows, JtsUnit,
  unit_copies, unit_count, jts_units, unit_rows,
}

-- One of the rows is for the item.
abbrev pub Covers : WantedItem → List ItemRow → Type 0
Covers w rows = (row : ItemRow) × IsIn row rows × (row.wanted ≡ w)

Covers-append_left : (w : WantedItem) (xs ys : List ItemRow) → Covers w xs → Covers w (xs ++ ys)
Covers-append_left w xs ys (row, m, e) = (row, append-IsIn_left row xs ys m, e)

Covers-append_right : (w : WantedItem) (xs ys : List ItemRow) → Covers w ys → Covers w (xs ++ ys)
Covers-append_right w xs ys (row, m, e) = (row, append-IsIn_right row xs ys m, e)

pub rows_with-Covers :
    (request_id : Option Text) (ws : List WantedItem) (w : WantedItem)
    → IsIn w ws
    → Covers w (rows_with request_id ws)
rows_with-Covers request_id [] w is_in = absurd is_in
rows_with-Covers request_id (x ∷ ws) w (inl e) = (_, inl refl, sym e)
rows_with-Covers request_id (x ∷ ws) w (inr h) =
    let (row, h', e) = rows_with-Covers request_id ws w h in (row, inr h', e)

topup_rows-Covers :
    (w : WantedItem) (n : ℕ) (queue : List Text) → 1 ≤ n → Covers w (topup_rows w n queue)
unfolding topup_rows
topup_rows-Covers w zero queue h = absurd (omega arith)
topup_rows-Covers w (suc n) queue h = (_, inl refl, refl)

pub gadget_korea_rows-Covers :
    (queues : Queues) (ws : List WantedItem) (w : WantedItem)
    → IsIn w ws
    → 1 ≤ w.quantity
    → Covers w (gadget_korea_rows queues ws)
unfolding gadget_korea_rows
gadget_korea_rows-Covers queues [] w is_in h = absurd is_in
gadget_korea_rows-Covers queues (x ∷ ws) w (inl e) h = Covers-append_left w _ _ (
    subst (λ v. Covers w (topup_rows v v.quantity (queues (option_key v)))) e
      (topup_rows-Covers w w.quantity (queues (option_key w)) h))
gadget_korea_rows-Covers queues (x ∷ ws) w (inr is_in) h =
    Covers-append_right w (topup_rows x x.quantity (queues (option_key x))) _
      (gadget_korea_rows-Covers (shifted_by x.quantity (option_key x) queues) ws w is_in h)

-- A unit of the item is among the units.
abbrev pub HasUnit : WantedItem → List JtsUnit → Type 0
HasUnit w us = (u : JtsUnit) × IsIn u us × (u.item ≡ w)

HasUnit-unit_copies : (w : WantedItem) (n from : ℕ) → 1 ≤ n → HasUnit w (unit_copies w from n)
unfolding unit_copies
HasUnit-unit_copies w zero from h = absurd (omega arith)
HasUnit-unit_copies w (suc n) from h = (_, inl refl, refl)

unit_count_positive : (w : WantedItem) → 1 ≤ unit_count w
unit_count_positive w = ground arith

pub HasUnit-jts_units :
    (counter : ℕ) (ws : List WantedItem) (w : WantedItem)
    → IsIn w ws
    → HasUnit w (jts_units counter ws)
unfolding jts_units
HasUnit-jts_units counter [] w is_in = absurd is_in
HasUnit-jts_units counter (x ∷ ws) w (inl e) =
    let (u, m, e') =
      subst (λ v. HasUnit w (unit_copies v counter (unit_count v))) e
        (HasUnit-unit_copies w (unit_count w) counter (unit_count_positive w)) in
    (u, append-IsIn_left u _ (jts_units (counter + unit_count x) ws) m, e')
HasUnit-jts_units counter (x ∷ ws) w (inr is_in) =
    let (u, m, e) = HasUnit-jts_units (counter + unit_count x) ws w is_in in
    (u, append-IsIn_right u (unit_copies x counter (unit_count x)) _ m, e)

pub unit_rows-Covers :
    (order_number : Text) (channels : List JtsData) (us : List JtsUnit) (w : WantedItem)
    → HasUnit w us
    → Covers w (unit_rows order_number channels us)
unfolding unit_rows
unit_rows-Covers order_number channels [] w (u, is_in, e) = absurd is_in
unit_rows-Covers order_number channels (x ∷ us) w (u, inl h, e) =
    (_, inl refl, ap (λ v. v.item) (sym h) ∙ e)
unit_rows-Covers order_number channels (x ∷ us) w (u, inr h, e) =
    let (row, h', e') = unit_rows-Covers order_number channels us w (u, h, e) in (row, inr h', e')
