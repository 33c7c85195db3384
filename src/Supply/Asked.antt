-- ===== src/Supply/Asked.antt =====
-- What an order asks of Gadget Korea and of JapanTravelSim (src/orders/orders.service.ts,
-- `submitProviders`).
use esim_backend.Base.{
  ℕ, suc, ◌+◌, ◌≡◌, refl, sym, ap, ◌∙◌, inl, inr, List, [], ◌∷◌, ◌++◌, arith, Bool-cases,
  if◌then◌else◌,
}
use esim_backend.Base.Lists.{length}
use esim_backend.Base.Text.{Text, eqb, eqb_iff}
use esim_backend.Supply.Batches.{batches, joined, AreInPlace, batches_lem}
use esim_backend.Supply.Requests.{
  PlannedSupply, OptionQuantity, add_quantity, option_of, quantities_from, qty_by_option,
  JtsRequest, jts_request, jts_requests,
}

-- The units of an option that a request asks for, and those that the items are for.
unfoldable pub units_asked : Text → List OptionQuantity → ℕ
units_asked option [] = 0
units_asked option (q ∷ qs) = (if eqb option q.option_id then q.qty else 0) + units_asked option qs

unfoldable pub units_of : Text → List PlannedSupply → ℕ
units_of option [] = 0
units_of option (p ∷ ps) = (if eqb option (option_of p) then p.quantity else 0) + units_of option ps

units_asked-add_quantity :
    (option key : Text) (n : ℕ) (qs : List OptionQuantity)
    → units_asked option (add_quantity key n qs)
      ≡ (if eqb option key then n else 0) + units_asked option qs
unfolding units_asked add_quantity
units_asked-add_quantity option key n [] = refl
units_asked-add_quantity option key n (q ∷ qs) = elim (Bool-cases (eqb q.option_id key)) [
  | inl same ↦
      let e = (eqb_iff q.option_id key).0 same in
      let e' : eqb option q.option_id ≡ eqb option key = ap (eqb option) e in
      rw (same, e') (ground arith)
  | inr other ↦ rw other (omega (arith, units_asked-add_quantity option key n qs))
]

units_asked-quantities_from :
    (option : Text) (qs : List OptionQuantity) (items : List PlannedSupply)
    → units_asked option (quantities_from qs items) ≡ units_asked option qs + units_of option items
unfolding quantities_from units_of
units_asked-quantities_from option qs [] = omega arith
units_asked-quantities_from option qs (p ∷ ps) = omega (
  arith,
  units_asked-quantities_from option (add_quantity (option_of p) p.quantity qs) ps,
  units_asked-add_quantity option (option_of p) p.quantity qs,
)

-- The request to Gadget Korea asks for each option for as many units as the items of this option are for.
pub qty_by_option_lem :
    (option : Text) (items : List PlannedSupply)
    → units_asked option (qty_by_option items) ≡ units_of option items
unfolding qty_by_option
qty_by_option_lem option items =
    units_asked-quantities_from option [] items
    ∙ unfold units_asked in zero-add (units_of option items)
  where
    zero-add : (n : ℕ) → 0 + n ≡ n
    zero-add n = omega arith

-- The rows that the calls for the batches send, one call after the other.
unfoldable pub rows_sent : Text → List (ℕ × List PlannedSupply) → List JtsRequest
rows_sent order_number [] = []
rows_sent order_number ((i, batch) ∷ rest) =
    jts_requests order_number i batch ++ rows_sent order_number rest

jts_requests-append :
    (order_number : Text) (i : ℕ) (xs ys : List PlannedSupply)
    → jts_requests order_number i (xs ++ ys)
      ≡ jts_requests order_number i xs ++ jts_requests order_number (i + length xs) ys
unfolding jts_requests
jts_requests-append order_number i [] ys = let e : i + 0 ≡ i = omega arith in rw e refl
jts_requests-append order_number i (x ∷ xs) ys =
    let e : i + suc (length xs) ≡ suc i + length xs = omega arith in
    rw e (
      ap (λ rest. jts_request order_number i x ∷ rest)
        (jts_requests-append order_number (suc i) xs ys))

rows_sent-in_place :
    (order_number : Text) (n : ℕ) (bs : List (ℕ × List PlannedSupply))
    → AreInPlace n bs
    → rows_sent order_number bs ≡ jts_requests order_number n (joined bs)
unfolding rows_sent
rows_sent-in_place order_number n [] h = unfold jts_requests in refl
rows_sent-in_place order_number n ((i, batch) ∷ rest) (e, some_item, few, place) =
    ap (λ k. jts_requests order_number k batch ++ rows_sent order_number rest) e
    ∙ ap (λ xs. jts_requests order_number n batch ++ xs)
        (rows_sent-in_place order_number (n + length batch) rest place)
    ∙ sym (jts_requests-append order_number n batch (joined rest))

-- The calls for the batches together send one row for each item, under an order id with the item's index
-- in the whole list, by which its answer is looked up.
pub rows_sent-batches :
    (order_number : Text) (items : List PlannedSupply)
    → rows_sent order_number (batches items) ≡ jts_requests order_number 0 items
rows_sent-batches order_number items =
    let (enough, whole, place) = batches_lem items in
    rows_sent-in_place order_number 0 (batches items) place ∙ ap (jts_requests order_number 0) whole
