-- ===== src/Carts/Views.antt =====
-- A table of carts as a function from a user and a plan to what the cart holds of the plan, and how the
-- function changes with the table.
use esim_backend.Base.{ℕ, ◌≡◌, sym, ap, ◌∙◌, true, false, Option, none, some, arith}
use esim_backend.Storage.Rows.{RowStore, find_latest_only, find_latest_absent, find_latest_same}
use mathlib.Core.Logic.{◌↔◌}
use esim_backend.Carts.Service.{Cart, is_of, find_by_user_and_plan}

-- The quantity and the days of a plan.
pub record Entry : Type 0 where
  pub quantity : ℕ
  pub period_num : Option ℕ

abbrev pub entry : Cart → Entry
entry c = record { quantity = c.quantity; period_num = c.period_num }

abbrev entry_of : Option Cart → Option Entry
entry_of none = none
entry_of (some c) = some (entry c)

pub is_of_iff :
    (user_id plan_id : ℕ) (c : Cart)
    → (is_of user_id plan_id c ≡ true) ↔ ((c.user_id ≡ user_id) × (c.plan_id ≡ plan_id))
is_of_iff user_id plan_id c = ground arith

module _ ⦃cart : RowStore Cart λ c. c.id⦄ where
  -- Ids are unique, and a user has one row for a plan.
  pub record IsCart (t : cart.Table) : Type 0 where
    pub unique : (x y : Cart) → cart.Holds x t → cart.Holds y t → x.id ≡ y.id → x ≡ y
    pub one_for_plan :
        (x y : Cart)
        → cart.Holds x t
        → cart.Holds y t
        → x.user_id ≡ y.user_id
        → x.plan_id ≡ y.plan_id
        → x ≡ y

  unfoldable pub view : cart.Table → ℕ → ℕ → Option Entry
  unfolding find_by_user_and_plan
  view t user_id plan_id = entry_of (find_by_user_and_plan user_id plan_id t)

  only_row :
      (t : cart.Table) (user_id plan_id : ℕ) (e : Cart)
      → IsCart t
      → cart.Holds e t
      → is_of user_id plan_id e ≡ true
      → (x : Cart) → cart.Holds x t
      → is_of user_id plan_id x ≡ true
      → x ≡ e
  only_row t user_id plan_id e h row this x row' this' =
      let (u, p) = (is_of_iff user_id plan_id e).0 this in
      let (u', p') = (is_of_iff user_id plan_id x).0 this' in
      h.one_for_plan x e row' row (u' ∙ sym u) (p' ∙ sym p)

  pub view-some :
      (t : cart.Table) (user_id plan_id : ℕ) (e : Cart)
      → IsCart t
      → cart.Holds e t
      → is_of user_id plan_id e ≡ true
      → view t user_id plan_id ≡ some (entry e)
  unfolding view
  view-some t user_id plan_id e h row this = ap entry_of (
      find_latest_only cart (is_of user_id plan_id) (λ c. 0) t e row this
        (only_row t user_id plan_id e h row this))

  pub view-none :
      (t : cart.Table) (user_id plan_id : ℕ)
      → ((x : Cart) → cart.Holds x t → is_of user_id plan_id x ≡ false)
      → view t user_id plan_id ≡ none
  unfolding view
  view-none t user_id plan_id fails =
      ap entry_of (find_latest_absent cart (is_of user_id plan_id) (λ c. 0) t fails)

  pub view_same :
      (t t' : cart.Table) (user_id plan_id : ℕ)
      → IsCart t
      → ((x : Cart) → is_of user_id plan_id x ≡ true → cart.Holds x t → cart.Holds x t')
      → ((x : Cart) → is_of user_id plan_id x ≡ true → cart.Holds x t' → cart.Holds x t)
      → view t' user_id plan_id ≡ view t user_id plan_id
  unfolding view
  view_same t t' user_id plan_id h to from = ap entry_of (
      find_latest_same cart (is_of user_id plan_id) (λ c. 0) t t' to from
        (λ x y row row' this this'. only_row t user_id plan_id y h row' this' x row this))
