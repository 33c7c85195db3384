-- ===== src/Supply/Complete.antt =====
-- No item of an order is lost on the way to the suppliers, whatever they answer.
use esim_backend.Base.{
  ℕ, ◌≤◌, ◌≡◌, subst, inl, inr, Bool, true, ◌||◌, none, List, [], ◌∷◌, ◌++◌, attempt, ok,
  Bool-cases,
}
use esim_backend.Base.Lists.{IsIn}
use esim_backend.Base.Text.{Text, text}
use esim_backend.Base.Keeps.{
  Keeps, keeps_rules, Keeps-bind, Keeps-attempt, Keeps-pure, Keeps-recovered,
}
use esim_backend.Base.Returns.{
  Returns, Returns-bind, Returns-pure, Returns-recovered, Returns-attempt,
}
use esim_backend.Supply.Data.{SupplyEnv, SupplyDb}
use esim_backend.Supply.Esims.{update_esim}
use esim_backend.Supply.Requests.{JtsData, set_channels}
use esim_backend.Supply.Submission.{Providers, update_item}
use esim_backend.Supply.Direct.{
  WantedItem, is_supplied_by, is_local, filtered, ItemRow, rows_with, JtsUnit, order_airalo,
  order_esim_access, order_gadget_korea, order_jts_batches, order_jts, take_from_inventory,
  order_local, provision_order,
}
use esim_backend.Supply.Covered.{
  rows_with-Covers, gadget_korea_rows-Covers, HasUnit-jts_units, unit_rows-Covers,
}
use esim_backend.Base.Lists.{append-IsIn_left, append-IsIn_right}
use esim_backend.Supply.Giving.{
  HasItem, Gives, Keeps-with_suppliers, Keeps-write_esims, Keeps-complete, Gives-row, Gives-item,
  Gives-create,
}
use esim_backend.Supply.Composed.{Gives-ask, Gives-then, Gives-when, Gives-loop, Gives-both}

-- The plan is from one of the four suppliers or from the inventory.
abbrev pub is_served : WantedItem → Bool
is_served w =
    is_supplied_by (text "airalo") w
    || (is_supplied_by (text "esimaccess") w
        || (is_supplied_by (text "gadgetkorea") w
            || (is_supplied_by (text "japantravelsim") w || is_local w)))

filtered-IsIn :
    (p : WantedItem → Bool) (ws : List WantedItem) (w : WantedItem)
    → IsIn w ws
    → p w ≡ true
    → IsIn w (filtered p ws)
filtered-IsIn p [] w m passes = absurd m
filtered-IsIn p (x ∷ ws) w (inl e) passes =
    let x_passes : p x ≡ true = subst (λ v. p v ≡ true) e passes in rw x_passes (inl e)
filtered-IsIn p (x ∷ ws) w (inr m) passes = elim (Bool-cases (p x)) [
  | inl kept ↦ rw kept (inr (filtered-IsIn p ws w m passes))
  | inr dropped ↦ rw dropped (filtered-IsIn p ws w m passes)
]

-- An item that passes the first test, or is in the list for the others.
either-IsIn :
    (p : WantedItem → Bool) (q : Bool) (ws rest : List WantedItem) (w : WantedItem)
    → IsIn w ws
    → (q ≡ true → IsIn w rest)
    → (p w || q) ≡ true
    → IsIn w (filtered p ws ++ rest)
either-IsIn p q ws rest w m others passes = elim (Bool-cases (p w)) [
  | inl this ↦ append-IsIn_left w (filtered p ws) rest (filtered-IsIn p ws w m this)
  | inr other ↦
      append-IsIn_right w (filtered p ws) rest (others (subst (λ b. (b || q) ≡ true) other passes))
]

-- The items that some step serves.
abbrev served : List WantedItem → List WantedItem
served wanted =
    filtered (is_supplied_by (text "airalo")) wanted
    ++ (filtered (is_supplied_by (text "esimaccess")) wanted
        ++ (filtered (is_supplied_by (text "gadgetkorea")) wanted
            ++ (filtered (is_supplied_by (text "japantravelsim")) wanted
                ++ filtered is_local wanted)))

served-IsIn :
    (wanted : List WantedItem) (w : WantedItem)
    → IsIn w wanted
    → is_served w ≡ true
    → IsIn w (served wanted)
served-IsIn wanted w m = either-IsIn _ _ wanted _ w m (
    either-IsIn _ _ wanted _ w m (
      either-IsIn _ _ wanted _ w m
        (either-IsIn _ _ wanted _ w m (filtered-IsIn is_local wanted w m))))

module _ ⦃s : SupplyEnv⦄ (order_id : ℕ) (providers : Providers) where
  Gives-order_airalo :
      (w : WantedItem) → Gives order_id (w ∷ []) (order_airalo providers order_id w)
  unfolding order_airalo
  Gives-order_airalo w =
      Gives-ask order_id (w ∷ []) _ _ (Returns-recovered none _)
        (λ plan_id. Keeps-recovered none _ (Keeps-with_suppliers order_id plan_id _))
        (λ request_id.
          Gives-row order_id providers
            (record { wanted = w; order_request_id = request_id; quantity = w.quantity }))

  Gives-order_esim_access :
      (order_number : Text) (ws : List WantedItem)
      → Gives order_id ws (order_esim_access providers order_id order_number ws)
  unfolding order_esim_access
  Gives-order_esim_access order_number ws = Gives-when order_id ws _ (
      Gives-ask order_id ws _ _ (Returns-recovered none _)
        (λ plan_id. Keeps-recovered none _ (Keeps-with_suppliers order_id plan_id _))
        (λ order_no.
          Gives-create order_id providers ws (rows_with order_no ws)
            (λ w is_in positive. rows_with-Covers order_no ws w is_in)))

  Gives-order_gadget_korea :
      (order_number : Text) (ws : List WantedItem)
      → Gives order_id ws (order_gadget_korea providers order_id order_number ws)
  unfolding order_gadget_korea
  Gives-order_gadget_korea order_number ws = Gives-when order_id ws _ (
      Gives-ask order_id ws _ _ (Returns-recovered [] _)
        (λ plan_id. Keeps-recovered [] _ (Keeps-with_suppliers order_id plan_id _))
        (λ products.
          Gives-create order_id providers ws _
            (λ w is_in positive. gadget_korea_rows-Covers _ ws w is_in positive)))

  Returns-order_jts_batches :
      (order_number : Text) (channels : List JtsData) (bs : List (ℕ × List JtsUnit))
      → Returns (order_jts_batches providers order_id order_number channels bs)
  unfolding order_jts_batches
  Returns-order_jts_batches order_number channels [] = Returns-pure channels
  Returns-order_jts_batches order_number channels ((i, batch) ∷ bs) =
      Returns-bind _ _ (Returns-recovered [] _)
        (λ answer. Returns-order_jts_batches order_number (set_channels channels answer) bs)

  Keeps-order_jts_batches :
      (plan_id : ℕ) (order_number : Text) (channels : List JtsData) (bs : List (ℕ × List JtsUnit))
      → Keeps
          (HasItem order_id plan_id)
          (order_jts_batches providers order_id order_number channels bs)
  unfolding order_jts_batches
  Keeps-order_jts_batches plan_id order_number channels [] = Keeps-pure channels
  Keeps-order_jts_batches plan_id order_number channels ((i, batch) ∷ bs) =
      Keeps-bind _ _ (Keeps-recovered [] _ (Keeps-with_suppliers order_id plan_id _))
        (λ answer. Keeps-order_jts_batches plan_id order_number (set_channels channels answer) bs)

  Gives-order_jts :
      (order_number : Text) (ws : List WantedItem)
      → Gives order_id ws (order_jts providers order_id order_number ws)
  unfolding order_jts
  Gives-order_jts order_number ws = Gives-when order_id ws _ (
      Gives-ask order_id ws _ _ (Returns-order_jts_batches order_number [] _)
        (λ plan_id. Keeps-order_jts_batches plan_id order_number [] _)
        (λ channels.
          Gives-then order_id ws _ _
            (Gives-create order_id providers ws _ (λ w is_in positive.
              unit_rows-Covers order_number channels _ w (HasUnit-jts_units 0 ws w is_in)))
            (Returns-attempt _)
            (λ plan_id. Keeps-attempt _ (Keeps-with_suppliers order_id plan_id _))))

  Keeps-take_from_inventory :
      (plan_id user_id : ℕ) (w : WantedItem) (item_id : ℕ)
      → Keeps (HasItem order_id plan_id) (take_from_inventory providers order_id user_id w item_id)
  unfolding take_from_inventory update_esim update_item
  Keeps-take_from_inventory plan_id user_id w item_id =
      search (keeps_rules, Keeps-write_esims, Keeps-complete) depth 14

  Gives-order_local :
      (user_id : ℕ) (w : WantedItem)
      → Gives order_id (w ∷ []) (order_local providers order_id user_id w)
  unfolding order_local
  Gives-order_local user_id w =
      let row : ItemRow = record { wanted = w; order_request_id = none; quantity = w.quantity } in
      Gives-item order_id providers row
        (λ id. attempt (take_from_inventory providers order_id user_id w id))
        (λ id. Returns-attempt _)
        (λ id plan_id. Keeps-attempt _ (Keeps-take_from_inventory plan_id user_id w id))

  provision_order-Gives :
      (user_id : ℕ) (order_number : Text) (wanted : List WantedItem)
      → Gives order_id
          (served wanted)
          (provision_order providers order_id user_id order_number wanted)
  unfolding provision_order
  provision_order-Gives user_id order_number wanted =
      Gives-both order_id _ _ _ _ (Gives-loop order_id _ _ Gives-order_airalo) (
        Gives-both order_id _ _ _ _ (Gives-order_esim_access order_number _) (
          Gives-both order_id _ _ _ _ (Gives-order_gadget_korea order_number _) (
            Gives-both order_id _ _ _ _ (Gives-order_jts order_number _)
              (Gives-loop order_id _ _ (Gives-order_local user_id)))))

  -- However the suppliers answer or fail, the steps of `submitOrder` that supply an order end without an
  -- exception, and the order then has at least one item for each plan that is wanted from one of the four
  -- suppliers or from the inventory with a quantity of at least one.
  pub provision_order_complete :
      (user_id : ℕ) (order_number : Text) (wanted : List WantedItem) (db : SupplyDb)
      → let out = provision_order providers order_id user_id order_number wanted db in
        (out.0 ≡ ok tt)
        × ((w : WantedItem)
            → IsIn w wanted
            → is_served w ≡ true
            → 1 ≤ w.quantity
            → HasItem order_id w.plan_id out.1)
  provision_order_complete user_id order_number wanted db =
      let gives = provision_order-Gives user_id order_number wanted in
      let (u, done) = gives.returning.returns db in
      (done, λ w m on_list positive. gives.giving w db (served-IsIn wanted w m on_list) positive)
