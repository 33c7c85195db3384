-- ===== src/Supply/Units.antt =====
-- How many units the rows are for that `submitOrder` stores for the items of an order.
use esim_backend.Base.{
  ℕ, zero, suc, ◌+◌, ◌≤◌, ◌≡◌, refl, sym, ap, ◌∙◌, inl, inr, List, [], ◌∷◌, ◌++◌, Option, arith,
  Bool-cases, if◌then◌else◌, ◌==◌,
}
use esim_backend.Base.Lists.{IsIn, drop}
use esim_backend.Base.Text.{Text}
use esim_backend.Supply.Requests.{Queues, JtsData}
use esim_backend.Supply.Direct.{
  WantedItem, ItemRow, rows_with, topup_rows, option_key, shifted_by, gadget_korea_rows, JtsUnit,
  unit_copies, unit_count, jts_units, unit_rows,
}

-- `n` where the row is for the plan.
abbrev pub for_plan : ℕ → WantedItem → ℕ → ℕ
for_plan plan_id w n = if w.plan_id == plan_id then n else 0

-- The units of the plan that rows are for.
abbrev pub row_units : ℕ → List ItemRow → ℕ
row_units plan_id [] = 0
row_units plan_id (row ∷ rows) = for_plan plan_id row.wanted row.quantity + row_units plan_id rows

-- The units of the plan that are wanted.
abbrev pub wanted_units : ℕ → List WantedItem → ℕ
wanted_units plan_id [] = 0
wanted_units plan_id (w ∷ ws) = for_plan plan_id w w.quantity + wanted_units plan_id ws

for_plan-suc :
    (plan_id : ℕ) (w : WantedItem) (n : ℕ)
    → for_plan plan_id w 1 + for_plan plan_id w n ≡ for_plan plan_id w (suc n)
for_plan-suc plan_id w n = elim (Bool-cases (w.plan_id == plan_id)) [
  | inl this ↦ rw this (omega arith)
  | inr other ↦ rw other (omega arith)
]

for_plan-zero : (plan_id : ℕ) (w : WantedItem) → for_plan plan_id w 0 ≡ 0
for_plan-zero plan_id w = elim (Bool-cases (w.plan_id == plan_id)) [
  | inl this ↦ rw this refl
  | inr other ↦ rw other refl
]

row_units-append :
    (plan_id : ℕ) (xs ys : List ItemRow)
    → row_units plan_id (xs ++ ys) ≡ row_units plan_id xs + row_units plan_id ys
row_units-append plan_id [] ys = omega arith
row_units-append plan_id (x ∷ xs) ys = omega (arith, row_units-append plan_id xs ys)

row_units-topup_rows :
    (plan_id : ℕ) (w : WantedItem) (n : ℕ) (queue : List Text)
    → row_units plan_id (topup_rows w n queue) ≡ for_plan plan_id w n
unfolding topup_rows
row_units-topup_rows plan_id w zero queue = sym (for_plan-zero plan_id w)
row_units-topup_rows plan_id w (suc n) queue =
    ap (λ m. for_plan plan_id w 1 + m) (row_units-topup_rows plan_id w n (drop 1 queue))
    ∙ for_plan-suc plan_id w n

gadget_korea_units :
    (plan_id : ℕ) (queues : Queues) (ws : List WantedItem)
    → row_units plan_id (gadget_korea_rows queues ws) ≡ wanted_units plan_id ws
unfolding gadget_korea_rows
gadget_korea_units plan_id queues [] = refl
gadget_korea_units plan_id queues (w ∷ ws) =
    let rest = shifted_by w.quantity (option_key w) queues in
    let rows = topup_rows w w.quantity (queues (option_key w)) in
    omega (
      arith,
      row_units-append plan_id rows (gadget_korea_rows rest ws),
      row_units-topup_rows plan_id w w.quantity (queues (option_key w)),
      gadget_korea_units plan_id rest ws,
    )

rows_with_units :
    (plan_id : ℕ) (request_id : Option Text) (ws : List WantedItem)
    → row_units plan_id (rows_with request_id ws) ≡ wanted_units plan_id ws
rows_with_units plan_id request_id [] = refl
rows_with_units plan_id request_id (w ∷ ws) =
    ap (λ m. for_plan plan_id w w.quantity + m) (rows_with_units plan_id request_id ws)

copies_units :
    (plan_id : ℕ) (number : Text) (channels : List JtsData) (w : WantedItem) (from n : ℕ)
    (us : List JtsUnit)
    → row_units plan_id (unit_rows number channels (unit_copies w from n ++ us))
      ≡ for_plan plan_id w n + row_units plan_id (unit_rows number channels us)
unfolding unit_rows unit_copies
copies_units plan_id number channels w from zero us = omega (arith, for_plan-zero plan_id w)
copies_units plan_id number channels w from (suc n) us =
    omega (arith, copies_units plan_id number channels w (suc from) n us, for_plan-suc plan_id w n)

unit_count_lem : (w : WantedItem) → 1 ≤ w.quantity → unit_count w ≡ w.quantity
unit_count_lem w h = ground arith

jts_row_units :
    (plan_id : ℕ) (number : Text) (channels : List JtsData) (from : ℕ) (ws : List WantedItem)
    → ((w : WantedItem) → IsIn w ws → 1 ≤ w.quantity)
    → row_units plan_id (unit_rows number channels (jts_units from ws)) ≡ wanted_units plan_id ws
unfolding jts_units unit_rows
jts_row_units plan_id number channels from [] positive = refl
jts_row_units plan_id number channels from (w ∷ ws) positive =
    copies_units plan_id number channels w from (unit_count w) (jts_units (from + unit_count w) ws)
    ∙ (ap
          (λ n.
            for_plan plan_id w n
            + row_units plan_id (unit_rows number channels (jts_units (from + unit_count w) ws)))
          (unit_count_lem w (positive w (inl refl)))
        ∙ ap (λ m. for_plan plan_id w w.quantity + m)
            (jts_row_units plan_id number channels (from + unit_count w) ws
              (λ v is_in. positive v (inr is_in))))

-- The rows that `submitOrder` stores for the items of EsimAccess, of Gadget Korea and of JapanTravelSim are
-- for each plan for exactly the units that are wanted of it, several items of one plan included, whatever ids
-- the suppliers answer and however few; for JapanTravelSim, where each quantity is at least one.
pub rows_units :
    (plan_id : ℕ) (order_no : Option Text) (queues : Queues) (number : Text)
    (channels : List JtsData) (ws : List WantedItem)
    → ((w : WantedItem) → IsIn w ws → 1 ≤ w.quantity)
    → (row_units plan_id (rows_with order_no ws) ≡ wanted_units plan_id ws)
      × (row_units plan_id (gadget_korea_rows queues ws) ≡ wanted_units plan_id ws)
      × (row_units plan_id (unit_rows number channels (jts_units 0 ws)) ≡ wanted_units plan_id ws)
rows_units plan_id order_no queues number channels ws positive = (
  rows_with_units plan_id order_no ws,
  gadget_korea_units plan_id queues ws,
  jts_row_units plan_id number channels 0 ws positive,
)
