-- ===== src/Carts/Refinement.antt =====
-- A request to the cart is a step of the map from plans to entries.
use esim_backend.Base.Lists.{IsIn}
use esim_backend.Base.{
  ℕ, ◌≡◌, refl, sym, ap, subst, ◌∙◌, true, false, ◌&&◌, Option, none, some, List, [], ◌∷◌, inl, inr,
  ◌==◌, ==_iff, ==_refl, if◌then◌else◌, Bool-cases, arith, given_or,
}
use esim_backend.Storage.Rows.{RowStore, find_latest_only}
use esim_backend.Carts.Service.{
  Cart, CreateCartItemDto, UpdateCartItemDto, CartPayload, patch_cart, is_of, find_item,
  find_by_user_id, find_by_user_and_plan, new_cart, save_found, update_cart, merged,
  merge_or_create, add_item, changed, update_found, update_item, remove_found, remove_item,
  clear_cart, CartCall, serve,
}
use esim_backend.Carts.Views.{Entry, entry, is_of_iff, IsCart, view, view-some, view-none}
use esim_backend.Carts.Writes.{
  patch, patch-IsCart, delete-IsCart, view-delete_gone, view-delete_kept, view-patch_this,
  view-patch_other, insert-IsCart, view-insert_other,
}
use esim_backend.Carts.Changes.{Change, merge_entry, set_entry, applied, meant, meaning}

is_of_same :
    (user_id plan_id u p : ℕ) (e : Cart)
    → is_of user_id plan_id e ≡ true
    → is_of u p e ≡ (user_id == u && plan_id == p)
is_of_same user_id plan_id u p e this = ground arith

find_item-IsIn :
    (id : ℕ) (cs : List Cart) (c : Cart) → find_item id cs ≡ some c → IsIn c cs × (c.id ≡ id)
unfolding find_item
find_item-IsIn id [] c found = cc found
find_item-IsIn id (x ∷ cs) c found = ground (arith, find_item-IsIn id cs c)

module _ ⦃cart : RowStore Cart λ c. c.id⦄ where
  update_cart-patch :
      (e : Cart) (payload : CartPayload) (t : cart.Table)
      → IsCart t
      → cart.Holds e t
      → update_cart e.id payload t ≡ patch e.id payload t
  unfolding update_cart
  update_cart-patch e payload t h row =
      let found =
        find_latest_only cart (λ c. c.id == e.id) (λ c. 0) t e row (==_refl e.id)
          (λ x k same. h.unique x e k row ((==_iff x.id e.id).0 same)) in
      ap (λ o. save_found payload o t) found

  owned :
      (user_id item_id : ℕ) (t : cart.Table) (c : Cart)
      → find_item item_id (find_by_user_id user_id t) ≡ some c
      → cart.Holds c t × (c.user_id ≡ user_id) × (c.id ≡ item_id)
  unfolding find_by_user_id
  owned user_id item_id t c found =
      let (is_in, id) = find_item-IsIn item_id _ c found in
      let (row, user) = (cart.Holds-find c _ t).0 is_in in
      (row, (==_iff c.user_id user_id).0 user, id)

  -- A patch of the row of a plan, as a change of the plan's entry.
  patch_lem :
      (e : Cart) (payload : CartPayload) (t : cart.Table) (u p : ℕ)
      (f : Option Entry → Option Entry)
      → IsCart t
      → cart.Holds e t
      → f (some (entry e)) ≡ some (entry (patch_cart payload e))
      → view (patch e.id payload t) u p
        ≡ (if e.user_id == u && e.plan_id == p then f (view t u p) else view t u p)
  patch_lem e payload t u p f h row eq = elim (Bool-cases (is_of u p e)) [
    | inl this ↦
        rw (view-patch_this e payload t u p h row this, view-some t u p e h row this, this, eq) refl
    | inr other ↦ rw (view-patch_other e payload t u p h row other, other) refl
  ]

  -- `addItem`, by the row that it finds.
  add_item-view :
      (user_id : ℕ) (dto : CreateCartItemDto) (t : cart.Table) (u p : ℕ) (o : Option Cart)
      → find_by_user_and_plan user_id dto.plan_id t ≡ o
      → IsCart t
      → IsCart (merge_or_create user_id dto o t)
        × (view (merge_or_create user_id dto o t) u p
            ≡ applied user_id
                (Change.merge dto.plan_id (given_or dto.quantity 1) dto.period_num)
                (view t)
                u
                p)
  unfolding find_by_user_and_plan applied
  add_item-view user_id dto t u p (some e) found h =
      let row = cart.find_latest-Holds _ _ t found in
      let this = (is_of_iff user_id dto.plan_id e).0 (cart.find_latest_passes _ _ t found) in
      rw (update_cart-patch e (merged e dto) t h row, ← this.0, ← this.1)
        (
          patch-IsCart e.id (merged e dto) t h,
          patch_lem e (merged e dto) t u p (merge_entry (given_or dto.quantity 1) dto.period_num) h
              row refl,
        )
  add_item-view user_id dto t u p none missing h =
      let e = new_cart user_id dto t in
      let absent : ((x : Cart) → cart.Holds x t → is_of user_id dto.plan_id x ≡ false) =
        λ x row. cart.find_latest-none _ _ t x missing row in
      let h' = insert-IsCart e t refl absent h in
      (
        h',
        elim (Bool-cases (is_of u p e)) [
          | inl this ↦
              let (a, b) = (is_of_iff u p e).0 this in
              let gone = view-none t u p λ x row.
                subst (λ n. is_of n p x ≡ false) a
                  (subst (λ n. is_of user_id n x ≡ false) b (absent x row)) in
              rw
                (
                  view-some (cart.insert e t) u p e h' ((cart.Holds-insert e e t).1 (inl refl))
                      this,
                  gone,
                  this,
                )
                refl
          | inr other ↦ rw (view-insert_other e t u p h other, other) refl
        ],
      )

  -- `updateItem`, by the item that it finds.
  update_found-view :
      (user_id item_id : ℕ) (dto : UpdateCartItemDto) (t : cart.Table) (u p : ℕ) (o : Option Cart)
      → find_item item_id (find_by_user_id user_id t) ≡ o
      → IsCart t
      → IsCart (update_found item_id dto o t).1
        × (view (update_found item_id dto o t).1 u p
            ≡ applied user_id
                (meant o λ c. Change.set c.plan_id dto.quantity dto.period_num)
                (view t)
                u
                p)
  unfolding applied
  update_found-view user_id item_id dto t u p none missing h = (h, refl)
  update_found-view user_id item_id dto t u p (some e) found h =
      let (row, user, id) = owned user_id item_id t e found in
      rw (← id, update_cart-patch e (changed e dto) t h row, ← user)
        (
          patch-IsCart e.id (changed e dto) t h,
          patch_lem e (changed e dto) t u p (set_entry dto.quantity dto.period_num) h row refl,
        )

  -- `removeItem`, by the item that it finds.
  remove_found-view :
      (user_id item_id : ℕ) (t : cart.Table) (u p : ℕ) (o : Option Cart)
      → find_item item_id (find_by_user_id user_id t) ≡ o
      → IsCart t
      → IsCart (remove_found item_id o t).1
        × (view (remove_found item_id o t).1 u p
            ≡ applied user_id (meant o λ c. Change.drop_plan c.plan_id) (view t) u p)
  unfolding applied
  remove_found-view user_id item_id t u p none missing h = (h, refl)
  remove_found-view user_id item_id t u p (some e) found h =
      let (row, user, id) = owned user_id item_id t e found in
      (
        delete-IsCart _ t h,
        rw (← id, ← user)
            (elim (Bool-cases (is_of u p e)) [
              | inl this ↦ rw this (
                  view-delete_gone (λ c. c.id == e.id) t u p
                    λ x row' this'.
                      let (a, b) = (is_of_iff u p e).0 this in
                      let (c, d) = (is_of_iff u p x).0 this' in
                      rw (h.one_for_plan x e row' row (c ∙ sym a) (d ∙ sym b)) (==_refl e.id))
              | inr other ↦ rw other (
                  view-delete_kept (λ c. c.id == e.id) t u p h
                    λ x row' this'. elim (Bool-cases (x.id == e.id)) [
                      | inl same ↦
                          let eq = h.unique x e row' row ((==_iff x.id e.id).0 same) in
                          cc (this', other, eq)
                      | inr differ ↦ differ
                    ])
            ]),
      )

  clear_cart-IsCart : (user_id : ℕ) (t : cart.Table) → IsCart t → IsCart (clear_cart user_id t)
  unfolding clear_cart
  clear_cart-IsCart user_id t h = delete-IsCart _ t h

  clear_cart-view :
      (user_id : ℕ) (t : cart.Table) (u p : ℕ)
      → IsCart t
      → view (clear_cart user_id t) u p ≡ applied user_id Change.empty (view t) u p
  unfolding clear_cart applied
  clear_cart-view user_id t u p h = elim (Bool-cases (user_id == u)) [
    | inl own ↦
        rw own (
          view-delete_gone (λ c. c.user_id == user_id) t u p
            λ x row this. ground (arith, own, this))
    | inr other ↦ rw other (
        view-delete_kept (λ c. c.user_id == user_id) t u p h
          λ x row this. ground (arith, other, this))
  ]

  -- Where every user has one row for a plan, a request keeps that, and is the change that it means on the map
  -- from a user and a plan to the quantity and the days: adding merges into the entry, a quantity is set and a
  -- plan dropped only in the cart of the user who asks, and an id that is not the user's changes nothing.
  pub serve_lem :
      (user_id : ℕ) (call : CartCall) (t : cart.Table)
      → IsCart t
      → IsCart (serve user_id call t)
        × ((u p : ℕ)
            → view (serve user_id call t) u p
              ≡ applied user_id (meaning user_id call t) (view t) u p)
  unfolding serve meaning add_item update_item remove_item
  serve_lem user_id (CartCall.add dto) t h = (
    (add_item-view user_id dto t 0 0 _ refl h).0,
    λ u p. (add_item-view user_id dto t u p _ refl h).1,
  )
  serve_lem user_id (CartCall.change item_id dto) t h = (
    (update_found-view user_id item_id dto t 0 0 _ refl h).0,
    λ u p. (update_found-view user_id item_id dto t u p _ refl h).1,
  )
  serve_lem user_id (CartCall.remove item_id) t h = (
    (remove_found-view user_id item_id t 0 0 _ refl h).0,
    λ u p. (remove_found-view user_id item_id t u p _ refl h).1,
  )
  serve_lem user_id CartCall.clear t h =
      (clear_cart-IsCart user_id t h, λ u p. clear_cart-view user_id t u p h)
