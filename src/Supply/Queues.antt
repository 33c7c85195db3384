-- ===== src/Supply/Queues.antt =====
-- Which ids the items of Gadget Korea get (src/orders/orders.service.ts, `submitProviders`).
use esim_backend.Base.{
  ℕ, zero, suc, ◌≡◌, refl, sym, ap, ◌∙◌, inl, inr, Option, none, some, List, [], ◌∷◌, ◌++◌,
  Bool-cases, if◌then◌else◌,
}
use mathlib.Core.List.{append_assoc, append-nil}
use esim_backend.Base.Lists.{take, drop}
use esim_backend.Base.Text.{Text, eqb, eqb_iff, to_lower}
use esim_backend.Supply.Requests.{
  PlannedSupply, option_of, Product, Queues, ids_in, queue_ids, queue_products, Assigned,
  given_from, shifted, topup_assignments,
}

abbrev id_for : Text → Option (Text × Text) → List Text
id_for option none = []
id_for option (some (id, o)) = if eqb option (to_lower o) then id ∷ [] else []

-- The ids that a supplier answers for an option, in their order.
unfoldable pub ids_of : Text → List Product → List Text
ids_of option [] = []
ids_of option (p ∷ ps) = id_for option (ids_in p) ++ ids_of option ps

-- The ids that the items of an option get, in their order, and the number of these items.
unfoldable pub ids_given : Text → List Assigned → List Text
ids_given option [] = []
ids_given option (a ∷ as') =
    let rest = ids_given option as' in
    if eqb option (option_of a.planned) then a.request_id ∷ rest else rest

unfoldable pub items_of : Text → List PlannedSupply → ℕ
items_of option [] = 0
items_of option (p ∷ ps) =
    let rest = items_of option ps in if eqb option (option_of p) then suc rest else rest

queue_ids_lem :
    (option : Text) (ids : Option (Text × Text)) (queues : Queues)
    → queue_ids ids queues option ≡ queues option ++ id_for option ids
queue_ids_lem option none queues = sym (append-nil (queues option))
queue_ids_lem option (some (id, o)) queues = elim (Bool-cases (eqb option (to_lower o))) [
  | inl same ↦ rw same refl
  | inr other ↦ rw other (sym (append-nil (queues option)))
]

queue_products_lem :
    (option : Text) (queues : Queues) (ps : List Product)
    → queue_products queues ps option ≡ queues option ++ ids_of option ps
unfolding queue_products ids_of
queue_products_lem option queues [] = sym (append-nil (queues option))
queue_products_lem option queues (p ∷ ps) =
    queue_products_lem option (queue_ids (ids_in p) queues) ps
    ∙ ap (λ xs. xs ++ ids_of option ps) (queue_ids_lem option (ids_in p) queues)
    ∙ append_assoc (queues option) (id_for option (ids_in p)) (ids_of option ps)

ids_given-given_from :
    (option : Text) (ids : List Text) (p : PlannedSupply) (rest : List Assigned)
    → ids_given option (given_from ids p ++ rest)
      ≡ (if eqb option (option_of p) then take 1 ids else []) ++ ids_given option rest
unfolding ids_given
ids_given-given_from option [] p rest = elim (Bool-cases (eqb option (option_of p))) [
  | inl same ↦ rw same refl
  | inr other ↦ rw other refl
]
ids_given-given_from option (id ∷ ids) p rest = elim (Bool-cases (eqb option (option_of p))) [
  | inl same ↦ rw same refl
  | inr other ↦ rw other refl
]

take-one : (n : ℕ) (ids : List Text) → take 1 ids ++ take n (drop 1 ids) ≡ take (suc n) ids
take-one zero [] = refl
take-one (suc n) [] = refl
take-one n (id ∷ ids) = refl

topup_assignments_from :
    (option : Text) (queues : Queues) (items : List PlannedSupply)
    → ids_given option (topup_assignments queues items)
      ≡ take (items_of option items) (queues option)
unfolding topup_assignments items_of
topup_assignments_from option queues [] = unfold ids_given in refl
topup_assignments_from option queues (p ∷ ps) =
    let rest = topup_assignments_from option (shifted (option_of p) queues) ps in
    ids_given-given_from option (queues (option_of p)) p
      (topup_assignments (shifted (option_of p) queues) ps)
    ∙ elim (Bool-cases (eqb option (option_of p))) [
      | inl same ↦
          let e = (eqb_iff option (option_of p)).0 same in
          let queue : queues (option_of p) ≡ queues option = ap queues (sym e) in
          rw (same, rest, same, queue) (take-one (items_of option ps) (queues option))
      | inr other ↦ rw (other, rest, other) refl
    ]

-- The items of an option get, in their order, the ids that the supplier answers for it, each once, as far
-- as these go: the first n ids for n items, whatever the products of other options between them.
pub topup_assignments_lem :
    (option : Text) (products : List Product) (items : List PlannedSupply)
    → ids_given option (topup_assignments (queue_products (λ o. []) products) items)
      ≡ take (items_of option items) (ids_of option products)
topup_assignments_lem option products items =
    topup_assignments_from option (queue_products (λ o. []) products) items
    ∙ ap (take (items_of option items)) (queue_products_lem option (λ o. []) products)
