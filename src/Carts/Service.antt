-- ===== src/Carts/Service.antt =====
-- src/carts/carts.service.ts with its repository: a cart is the rows of a user, one for each plan. The order
-- of the rows, the times and the plan that is read along with a row are left out.
use esim_backend.Base.{
  ℕ, ◌+◌, Bool, ◌&&◌, Option, none, some, List, [], ◌∷◌, ◌==◌, if◌then◌else◌, given_or, ◌orelse◌,
  Result, ok, err, ⊤,
}
use esim_backend.Storage.Rows.{RowStore, find_one}

pub record Cart : Type 0 where
  pub id : ℕ
  pub user_id : ℕ
  pub plan_id : ℕ
  pub quantity : ℕ
  pub period_num : Option ℕ

pub record CreateCartItemDto : Type 0 where
  pub plan_id : ℕ
  pub quantity : Option ℕ
  pub period_num : Option ℕ

pub record UpdateCartItemDto : Type 0 where
  pub quantity : ℕ
  pub period_num : Option ℕ

-- The columns that an update sets.
pub record CartPayload : Type 0 where
  pub quantity : ℕ
  pub period_num : Option ℕ

pub data CartException : Type 0 where
  item_not_found : CartException

abbrev pub patch_cart : CartPayload → Cart → Cart
patch_cart payload c = record c { quantity = payload.quantity; period_num = payload.period_num }

-- `items.find((i) => i.id === itemId)`
unfoldable pub find_item : ℕ → List Cart → Option Cart
find_item item_id [] = none
find_item item_id (c ∷ cs) = if c.id == item_id then some c else find_item item_id cs

abbrev pub is_of : ℕ → ℕ → Cart → Bool
is_of user_id plan_id c = c.user_id == user_id && c.plan_id == plan_id

module _ ⦃cart : RowStore Cart λ c. c.id⦄ where
  unfoldable pub find_by_user_id : ℕ → cart.Table → List Cart
  find_by_user_id user_id t = cart.find (λ c. c.user_id == user_id) t

  unfoldable pub find_by_user_and_plan : ℕ → ℕ → cart.Table → Option Cart
  find_by_user_and_plan user_id plan_id t = find_one cart (is_of user_id plan_id) t

  abbrev pub new_cart : ℕ → CreateCartItemDto → cart.Table → Cart
  new_cart user_id dto t = record {
    id = cart.next_id t;
    user_id = user_id;
    plan_id = dto.plan_id;
    quantity = given_or dto.quantity 1;
    period_num = dto.period_num;
  }

  abbrev pub save_found : CartPayload → Option Cart → cart.Table → cart.Table
  save_found payload none t = t
  save_found payload (some c) t = cart.update (λ x. x.id == c.id) (patch_cart payload) t

  -- `findOne({ id })`, and `save` of the row that is there.
  unfoldable pub update_cart : ℕ → CartPayload → cart.Table → cart.Table
  update_cart id payload t = save_found payload (find_one cart (λ c. c.id == id) t) t

  abbrev pub merged : Cart → CreateCartItemDto → CartPayload
  merged existing dto = record {
    quantity = existing.quantity + given_or dto.quantity 1;
    period_num = dto.period_num orelse existing.period_num;
  }

  abbrev pub merge_or_create : ℕ → CreateCartItemDto → Option Cart → cart.Table → cart.Table
  merge_or_create user_id dto (some existing) t = update_cart existing.id (merged existing dto) t
  merge_or_create user_id dto none t = cart.insert (new_cart user_id dto t) t

  unfoldable pub add_item : ℕ → CreateCartItemDto → cart.Table → cart.Table
  unfolding find_by_user_and_plan
  add_item user_id dto t =
      merge_or_create user_id dto (find_by_user_and_plan user_id dto.plan_id t) t

  abbrev pub changed : Cart → UpdateCartItemDto → CartPayload
  changed item dto = record {
    quantity = dto.quantity;
    period_num = dto.period_num orelse item.period_num;
  }

  abbrev pub update_found :
      ℕ → UpdateCartItemDto → Option Cart → cart.Table → Result CartException ⊤ × cart.Table
  update_found item_id dto none t = (err item_not_found, t)
  update_found item_id dto (some item) t = (ok tt, update_cart item_id (changed item dto) t)

  unfoldable pub update_item :
      ℕ → ℕ → UpdateCartItemDto → cart.Table → Result CartException ⊤ × cart.Table
  unfolding find_item find_by_user_id
  update_item user_id item_id dto t =
      update_found item_id dto (find_item item_id (find_by_user_id user_id t)) t

  abbrev pub remove_found : ℕ → Option Cart → cart.Table → Result CartException ⊤ × cart.Table
  remove_found item_id none t = (err item_not_found, t)
  remove_found item_id (some item) t = (ok tt, cart.delete (λ c. c.id == item_id) t)

  unfoldable pub remove_item : ℕ → ℕ → cart.Table → Result CartException ⊤ × cart.Table
  unfolding find_item find_by_user_id
  remove_item user_id item_id t =
      remove_found item_id (find_item item_id (find_by_user_id user_id t)) t

  unfoldable pub clear_cart : ℕ → cart.Table → cart.Table
  clear_cart user_id t = cart.delete (λ c. c.user_id == user_id) t

-- A request of a user.
pub data CartCall : Type 0 where
  add : CreateCartItemDto → CartCall
  change : ℕ → UpdateCartItemDto → CartCall
  remove : ℕ → CartCall
  clear : CartCall

module _ ⦃cart : RowStore Cart λ c. c.id⦄ where
  unfoldable pub serve : ℕ → CartCall → cart.Table → cart.Table
  unfolding add_item update_item remove_item clear_cart
  serve user_id (CartCall.add dto) t = add_item user_id dto t
  serve user_id (CartCall.change item_id dto) t = (update_item user_id item_id dto t).1
  serve user_id (CartCall.remove item_id) t = (remove_item user_id item_id t).1
  serve user_id CartCall.clear t = clear_cart user_id t

  unfoldable pub serve_all : List (ℕ × CartCall) → cart.Table → cart.Table
  unfolding serve
  serve_all [] t = t
  serve_all ((user_id, call) ∷ calls) t = serve_all calls (serve user_id call t)
