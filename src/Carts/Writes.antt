-- ===== src/Carts/Writes.antt =====
-- What the writes of a row do to the carts.
use esim_backend.Base.{
  ℕ, ◌≡◌, refl, sym, ap, subst, ◌∙◌, ◌⊎◌, inl, inr, Bool, true, false, none, some, ◌==◌, ==_iff,
  ==_refl, if◌then◌else◌, Bool-cases, arith,
}
use esim_backend.Storage.Rows.{RowStore}
use esim_backend.Carts.Service.{Cart, CartPayload, patch_cart, is_of}
use esim_backend.Carts.Views.{entry, is_of_iff, IsCart, view, view-some, view-none, view_same}

abbrev pub patched : ℕ → CartPayload → Cart → Cart
patched id payload c = if c.id == id then patch_cart payload c else c

-- A patch keeps the keys.
patched_keys :
    (id : ℕ) (payload : CartPayload) (c : Cart)
    → ((patched id payload c).id ≡ c.id)
      × ((patched id payload c).user_id ≡ c.user_id)
      × ((patched id payload c).plan_id ≡ c.plan_id)
patched_keys id payload c = elim (Bool-cases (c.id == id)) [
  | inl this ↦ rw this (refl, refl, refl)
  | inr other ↦ rw other (refl, refl, refl)
]

module _ ⦃cart : RowStore Cart λ c. c.id⦄ where
  abbrev pub patch : ℕ → CartPayload → cart.Table → cart.Table
  patch id payload t = cart.update (λ x. x.id == id) (patch_cart payload) t

  pub patch-IsCart :
      (id : ℕ) (payload : CartPayload) (t : cart.Table) → IsCart t → IsCart (patch id payload t)
  patch-IsCart id payload t h = record {
    unique = λ x y m n e.
        let (x', k, a) = (cart.Holds-update x _ _ t).0 m in
        let (y', l, b) = (cart.Holds-update y _ _ t).0 n in
        let (i, u, p) = patched_keys id payload x' in
        let (j, v, q) = patched_keys id payload y' in
        a
        ∙ ap (patched id payload)
            (h.unique x' y' k l (sym i ∙ sym (ap (λ c. c.id) a) ∙ e ∙ ap (λ c. c.id) b ∙ j))
        ∙ sym b;
    one_for_plan = λ x y m n eu ep.
        let (x', k, a) = (cart.Holds-update x _ _ t).0 m in
        let (y', l, b) = (cart.Holds-update y _ _ t).0 n in
        let (i, u, p) = patched_keys id payload x' in
        let (j, v, q) = patched_keys id payload y' in
        a
        ∙ ap (patched id payload) (
            h.one_for_plan x' y' k l
              (sym u ∙ sym (ap (λ c. c.user_id) a) ∙ eu ∙ ap (λ c. c.user_id) b ∙ v)
              (sym p ∙ sym (ap (λ c. c.plan_id) a) ∙ ep ∙ ap (λ c. c.plan_id) b ∙ q))
        ∙ sym b;
  }

  pub delete-IsCart : (p : Cart → Bool) (t : cart.Table) → IsCart t → IsCart (cart.delete p t)
  delete-IsCart p t h = record {
    unique =
        λ x y m n. h.unique x y ((cart.Holds-delete x p t).0 m).0 ((cart.Holds-delete y p t).0 n).0;
    one_for_plan = λ x y m n.
        h.one_for_plan x y ((cart.Holds-delete x p t).0 m).0 ((cart.Holds-delete y p t).0 n).0;
  }

  pub view-delete_gone :
      (p : Cart → Bool) (t : cart.Table) (user_id plan_id : ℕ)
      → ((x : Cart) → cart.Holds x t → is_of user_id plan_id x ≡ true → p x ≡ true)
      → view (cart.delete p t) user_id plan_id ≡ none
  view-delete_gone p t user_id plan_id goes = view-none _ user_id plan_id λ x m.
      let (row, stays) = (cart.Holds-delete x p t).0 m in
      elim (Bool-cases (is_of user_id plan_id x)) [
        | inl this ↦ let gone = goes x row this in cc (stays, gone)
        | inr other ↦ other
      ]

  pub view-delete_kept :
      (p : Cart → Bool) (t : cart.Table) (user_id plan_id : ℕ)
      → IsCart t
      → ((x : Cart) → cart.Holds x t → is_of user_id plan_id x ≡ true → p x ≡ false)
      → view (cart.delete p t) user_id plan_id ≡ view t user_id plan_id
  view-delete_kept p t user_id plan_id h stays =
      view_same t _ user_id plan_id h
        (λ x this row. (cart.Holds-delete x p t).1 (row, stays x row this))
        (λ x this m. ((cart.Holds-delete x p t).0 m).0)

  -- The row `e` is patched: its own entry changes, and no other.
  pub view-patch_this :
      (e : Cart) (payload : CartPayload) (t : cart.Table) (user_id plan_id : ℕ)
      → IsCart t
      → cart.Holds e t
      → is_of user_id plan_id e ≡ true
      → view (patch e.id payload t) user_id plan_id ≡ some (entry (patch_cart payload e))
  view-patch_this e payload t user_id plan_id h row this =
      view-some _ user_id plan_id (patch_cart payload e) (patch-IsCart e.id payload t h)
        ((cart.Holds-update _ _ _ t).1 (e, row, rw (==_refl e.id) refl)) this

  pub view-patch_other :
      (e : Cart) (payload : CartPayload) (t : cart.Table) (user_id plan_id : ℕ)
      → IsCart t
      → cart.Holds e t
      → is_of user_id plan_id e ≡ false
      → view (patch e.id payload t) user_id plan_id ≡ view t user_id plan_id
  view-patch_other e payload t user_id plan_id h row other = view_same t _ user_id plan_id h to from
    where
      to :
          (x : Cart)
          → is_of user_id plan_id x ≡ true
          → cart.Holds x t
          → cart.Holds x (patch e.id payload t)
      to x this m = (cart.Holds-update x _ _ t).1 (
        x,
        m,
        elim (Bool-cases (x.id == e.id)) [
          | inl same ↦
              let eq = h.unique x e m row ((==_iff x.id e.id).0 same) in
              cc (this, other, ap (is_of user_id plan_id) eq)
          | inr differ ↦ rw differ refl
        ],
      )

      from :
          (x : Cart)
          → is_of user_id plan_id x ≡ true
          → cart.Holds x (patch e.id payload t)
          → cart.Holds x t
      from x this m =
          let (y, k, a) = (cart.Holds-update x _ _ t).0 m in
          elim (Bool-cases (y.id == e.id)) [
            | inl same ↦
                let eq = h.unique y e k row ((==_iff y.id e.id).0 same) in
                let x_is : x ≡ patch_cart payload y = a ∙ (rw same refl) in
                cc (this, other, x_is, eq)
            | inr differ ↦
                let x_is : x ≡ y = a ∙ (rw differ refl) in subst (λ c. cart.Holds c t) (sym x_is) k
          ]

  -- A row is added for a plan that the user has no row for.
  module _ (e : Cart) (t : cart.Table) (new : e.id ≡ cart.next_id t)
      (absent : (x : Cart) → cart.Holds x t → is_of e.user_id e.plan_id x ≡ false) where
    inserted_unique :
        (x y : Cart)
        → IsCart t
        → (x ≡ e) ⊎ cart.Holds x t
        → (y ≡ e) ⊎ cart.Holds y t
        → x.id ≡ y.id
        → x ≡ y
    inserted_unique x y h (inl a) (inl b) eq = a ∙ sym b
    inserted_unique x y h (inl a) (inr k) eq =
        absurd (omega (arith, new, eq, ap (λ c. c.id) a, cart.next_id_fresh y t k))
    inserted_unique x y h (inr k) (inl b) eq =
        absurd (omega (arith, new, eq, ap (λ c. c.id) b, cart.next_id_fresh x t k))
    inserted_unique x y h (inr k) (inr l) eq = h.unique x y k l eq

    taken : (x : Cart) → cart.Holds x t → x.user_id ≡ e.user_id → x.plan_id ≡ e.plan_id → ⊥
    taken x k u p = cc (absent x k, (is_of_iff e.user_id e.plan_id x).1 (u, p))

    inserted_one_for_plan :
        (x y : Cart)
        → IsCart t
        → (x ≡ e) ⊎ cart.Holds x t
        → (y ≡ e) ⊎ cart.Holds y t
        → x.user_id ≡ y.user_id
        → x.plan_id ≡ y.plan_id
        → x ≡ y
    inserted_one_for_plan x y h (inl a) (inl b) u p = a ∙ sym b
    inserted_one_for_plan x y h (inl a) (inr k) u p =
        absurd (taken y k (sym u ∙ ap (λ c. c.user_id) a) (sym p ∙ ap (λ c. c.plan_id) a))
    inserted_one_for_plan x y h (inr k) (inl b) u p =
        absurd (taken x k (u ∙ ap (λ c. c.user_id) b) (p ∙ ap (λ c. c.plan_id) b))
    inserted_one_for_plan x y h (inr k) (inr l) u p = h.one_for_plan x y k l u p

    pub insert-IsCart : IsCart t → IsCart (cart.insert e t)
    insert-IsCart h = record {
      unique = λ x y m n.
          inserted_unique x y h ((cart.Holds-insert x e t).0 m) ((cart.Holds-insert y e t).0 n);
      one_for_plan = λ x y m n.
          inserted_one_for_plan x y h ((cart.Holds-insert x e t).0 m)
            ((cart.Holds-insert y e t).0 n);
    }

  pub view-insert_other :
      (e : Cart) (t : cart.Table) (user_id plan_id : ℕ)
      → IsCart t
      → is_of user_id plan_id e ≡ false
      → view (cart.insert e t) user_id plan_id ≡ view t user_id plan_id
  view-insert_other e t user_id plan_id h other =
      view_same t _ user_id plan_id h (λ x this row. (cart.Holds-insert x e t).1 (inr row))
        (λ x this m. elim ((cart.Holds-insert x e t).0 m) [
          | inl a ↦ cc (this, other, ap (is_of user_id plan_id) a)
          | inr row ↦ row
        ])
