-- ===== src/Carts/Tests.antt =====
-- Two users' carts.
use esim_backend.Base.{ℕ, ◌≡◌, refl, none, some, List, arith, [], ◌∷◌}
use esim_backend.Storage.Rows.{RowStore}
use esim_backend.Storage.RowLists.{row_store}
use esim_backend.Carts.Service.{
  Cart, CreateCartItemDto, CartCall, find_item, find_by_user_id, find_by_user_and_plan, update_cart,
  add_item, remove_item, serve, serve_all,
}
use esim_backend.Carts.Views.{IsCart, view}
use esim_backend.Carts.Changes.{applied, meaning}
use esim_backend.Carts.Refinement.{serve_lem}

instance abbrev carts : RowStore Cart λ c. c.id
carts = row_store λ c. c.id

abbrev wanted : CreateCartItemDto
wanted = record { plan_id = 4; quantity = some 2; period_num = none }

abbrev two : List Cart
two =
    record { id = 1; user_id = 7; plan_id = 4; quantity = 3; period_num = some 5 }
    ∷ record { id = 2; user_id = 8; plan_id = 4; quantity = 1; period_num = none }
    ∷ []

two-IsCart : IsCart two
two-IsCart = record {
  unique = λ x y m n e. ground arith;
  one_for_plan = λ x y m n u p. ground arith;
}

-- The plan is merged; the other user's item is not removed.
served :
    serve_all ((7, CartCall.add wanted) ∷ (7, CartCall.remove 2) ∷ []) two
    ≡ record { id = 1; user_id = 7; plan_id = 4; quantity = 5; period_num = some 5 }
      ∷ record { id = 2; user_id = 8; plan_id = 4; quantity = 1; period_num = none }
      ∷ []
unfolding serve_all serve add_item remove_item find_item find_by_user_id find_by_user_and_plan
    update_cart
served = refl

serve_lem_example :
    IsCart (serve 7 (CartCall.add wanted) two)
    × ((u p : ℕ)
        → view (serve 7 (CartCall.add wanted) two) u p
          ≡ applied 7 (meaning 7 (CartCall.add wanted) two) (view two) u p)
serve_lem_example = serve_lem 7 (CartCall.add wanted) two two-IsCart
