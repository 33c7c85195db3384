-- ===== src/Supply/Batches.antt =====
-- The loop `for (let i = 0; i < items.length; i += 10)` over `items.slice(i, i + 10)`, by which
-- src/orders/orders.service.ts and src/esim-providers/japantravelsim submit and poll in batches.
use esim_backend.Base.{
  ℕ, zero, suc, ◌+◌, ◌-◌, ◌≤◌, ◌<◌, ◌≡◌, refl, sym, ap, ◌∙◌, inl, inr, List, [], ◌∷◌, ◌++◌, arith,
  ltb, leb, Bool-cases, if◌then◌else◌,
}
use esim_backend.Base.Lists.{
  length, take, drop, slice, take-drop, drop-drop, drop_all, length-take, length-drop, take_all,
}

module _ {A : Type 0} where
  -- A batch comes with the index of its first item. The fuel is the number of rounds at most.
  unfoldable pub batches_from : ℕ → ℕ → List A → List (ℕ × List A)
  batches_from zero i items = []
  batches_from (suc fuel) i items =
      let rest = batches_from fuel (i + 10) items in
      if ltb i (length items) then (i, slice i (i + 10) items) ∷ rest else []

  unfoldable pub batches : List A → List (ℕ × List A)
  unfolding batches_from
  batches items = batches_from (length items) 0 items

  -- The batches one after the other.
  abbrev pub joined : List (ℕ × List A) → List A
  joined [] = []
  joined ((i, batch) ∷ rest) = batch ++ joined rest

  -- Every batch has one to ten items, and its index is the number of the items before it.
  abbrev pub AreInPlace : ℕ → List (ℕ × List A) → Type 0
  AreInPlace before [] = Unit {0}
  AreInPlace before ((i, batch) ∷ rest) =
      (i ≡ before)
      × (1 ≤ length batch)
      × (length batch ≤ 10)
      × AreInPlace (before + length batch) rest

  module _ (items : List A) where
    next_slice : (i : ℕ) → slice i (i + 10) items ++ drop (i + 10) items ≡ drop i items
    next_slice i =
        let e : i + 10 - i ≡ 10 = omega arith in
        rw (e, ← drop-drop i 10 items) (take-drop 10 (drop i items))

    joined-batches_from :
        (fuel i : ℕ) → length items ≤ i + fuel → joined (batches_from fuel i items) ≡ drop i items
    unfolding batches_from
    joined-batches_from zero i h = sym (drop_all i items (omega arith))
    joined-batches_from (suc fuel) i h = elim (Bool-cases (ltb i (length items))) [
      | inl more ↦ rw more (
          ap (λ xs. slice i (i + 10) items ++ xs) (joined-batches_from fuel (i + 10) (omega arith))
          ∙ next_slice i)
      | inr done ↦ rw done (sym (drop_all i items (ground arith)))
    ]

    batches_from_done : (fuel i : ℕ) → length items ≤ i → batches_from fuel i items ≡ []
    unfolding batches_from
    batches_from_done zero i h = refl
    batches_from_done (suc fuel) i h = ground arith

    -- More fuel makes no difference.
    batches_from_enough :
        (fuel i : ℕ)
        → length items ≤ i + fuel
        → batches_from (suc fuel) i items ≡ batches_from fuel i items
    unfolding batches_from
    batches_from_enough zero i h = batches_from_done 1 i (omega arith)
    batches_from_enough (suc fuel) i h =
        ap (λ rest. if ltb i (length items) then (i, slice i (i + 10) items) ∷ rest else [])
          (batches_from_enough fuel (i + 10) (omega arith))

    slice-take : (i : ℕ) → slice i (i + 10) items ≡ take 10 (drop i items)
    slice-take i = let e : i + 10 - i ≡ 10 = omega arith in rw e

    length-slice_full : (i : ℕ) → i + 10 ≤ length items → length (slice i (i + 10) items) ≡ 10
    length-slice_full i h =
        rw (slice-take i) (length-take 10 (drop i items) (omega (arith, length-drop i items)))

    length-slice_last :
        (i : ℕ) → length items < i + 10 → length (slice i (i + 10) items) ≡ length items - i
    length-slice_last i h =
        rw (slice-take i, take_all 10 (drop i items) (omega (arith, length-drop i items)))
          (length-drop i items)

    batches_from-AreInPlace : (fuel i : ℕ) → AreInPlace i (batches_from fuel i items)
    unfolding batches_from
    batches_from-AreInPlace zero i = tt
    batches_from-AreInPlace (suc fuel) i = elim (Bool-cases (ltb i (length items))) [
      | inr done ↦ rw done tt
      | inl more ↦ elim (Bool-cases (leb (i + 10) (length items))) [
        | inl full ↦
            let e = length-slice_full i (ground arith) in
            rw (more, e) (refl, omega arith, omega arith, batches_from-AreInPlace fuel (i + 10))
        | inr last ↦
            let e = length-slice_last i (ground arith) in
            rw (more, e, batches_from_done fuel (i + 10) (ground arith))
              (refl, ground arith, ground arith, tt)
      ]
    ]

    -- The loop over batches ends after at most as many rounds as there are items: with more fuel it does
    -- the same. Its batches joined are the items, each has one to ten, and each comes with the index in the
    -- list of its first item.
    pub batches_lem :
        ((more : ℕ) → batches_from (more + length items) 0 items ≡ batches items)
        × (joined (batches items) ≡ items)
        × AreInPlace 0 (batches items)
    unfolding batches
    batches_lem = (
      enough,
      joined-batches_from (length items) 0 (omega arith),
      batches_from-AreInPlace (length items) 0,
    )
      where
        enough : (more : ℕ) → batches_from (more + length items) 0 items ≡ batches items
        enough zero = let e : 0 + length items ≡ length items = omega arith in rw e
        enough (suc more) =
            let e : suc more + length items ≡ suc (more + length items) = omega arith in
            rw e (batches_from_enough (more + length items) 0 (omega arith) ∙ enough more)
