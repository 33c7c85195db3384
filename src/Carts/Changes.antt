-- ===== src/Carts/Changes.antt =====
-- What a cart promises: a map for each user from plans to a quantity and the days, and the requests as changes of it.
use esim_backend.Base.{ℕ, ◌+◌, ◌&&◌, Option, none, some, ◌==◌, if◌then◌else◌, given_or, ◌orelse◌}
use esim_backend.Storage.Rows.{RowStore}
use esim_backend.Carts.Service.{Cart, find_item, find_by_user_id, CartCall}
use esim_backend.Carts.Views.{Entry}

-- What a request asks of the map of its user.
pub data Change : Type 0 where
  merge set : ℕ → ℕ → Option ℕ → Change
  drop_plan : ℕ → Change
  empty refused : Change

abbrev pub merge_entry : ℕ → Option ℕ → Option Entry → Option Entry
merge_entry quantity period_num none =
    some (record { quantity = quantity; period_num = period_num })
merge_entry quantity period_num (some e) =
    some (record { quantity = e.quantity + quantity; period_num = period_num orelse e.period_num })

abbrev pub set_entry : ℕ → Option ℕ → Option Entry → Option Entry
set_entry quantity period_num none = none
set_entry quantity period_num (some e) =
    some (record { quantity = quantity; period_num = period_num orelse e.period_num })

unfoldable pub applied : ℕ → Change → (ℕ → ℕ → Option Entry) → ℕ → ℕ → Option Entry
applied user_id (Change.merge plan_id quantity period_num) v u p =
    if user_id == u && plan_id == p then merge_entry quantity period_num (v u p) else v u p
applied user_id (Change.set plan_id quantity period_num) v u p =
    if user_id == u && plan_id == p then set_entry quantity period_num (v u p) else v u p
applied user_id (Change.drop_plan plan_id) v u p =
    if user_id == u && plan_id == p then none else v u p
applied user_id Change.empty v u p = if user_id == u then none else v u p
applied user_id Change.refused v u p = v u p

module _ ⦃cart : RowStore Cart λ c. c.id⦄ where
  abbrev pub meant : Option Cart → (Cart → Change) → Change
  meant none f = Change.refused
  meant (some c) f = f c

  -- The change that a request means: an item stands for its plan, if it is one of the user's.
  unfoldable pub meaning : ℕ → CartCall → cart.Table → Change
  unfolding find_item find_by_user_id
  meaning user_id (CartCall.add dto) t =
      Change.merge dto.plan_id (given_or dto.quantity 1) dto.period_num
  meaning user_id (CartCall.change item_id dto) t =
      meant (find_item item_id (find_by_user_id user_id t))
        λ c. Change.set c.plan_id dto.quantity dto.period_num
  meaning user_id (CartCall.remove item_id) t =
      meant (find_item item_id (find_by_user_id user_id t)) λ c. Change.drop_plan c.plan_id
  meaning user_id CartCall.clear t = Change.empty
