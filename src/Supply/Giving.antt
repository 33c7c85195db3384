-- ===== src/Supply/Giving.antt =====
-- Steps of a submission that leave an item of the order for each item that is asked for.
use esim_backend.Base.{
  ℕ, ◌≤◌, ◌≡◌, refl, sym, subst, inl, inr, true, some, List, [], ◌∷◌, ⊤, Action, pure, gets, modify,
  for_each, ◌>>=◌, Bool-cases, ◌==◌,
}
use esim_backend.Base.Lists.{IsIn}
use esim_backend.Base.Keeps.{Keeps, keeps_rules, Keeps-bind, Keeps-for_each}
use esim_backend.Base.Returns.{Returns, returns_rules, Returns-bind, Returns-for_each}
use esim_backend.Base.Loops.{for_each_all}
use esim_backend.Base.Stepping.{bind_inv}
use esim_backend.Supply.Data.{
  SupplyEnv, SupplyDb, SupplyService, SupplyException, OrderItem, with_suppliers,
}
use esim_backend.Supply.Submission.{Providers}
use esim_backend.Supply.Direct.{WantedItem, ItemRow, create_item, create_row}
use esim_backend.Supply.Covered.{Covers}

module _ ⦃s : SupplyEnv⦄ (order_id : ℕ) where
  -- The order has an item for the plan.
  abbrev pub HasItem : ℕ → SupplyDb → Type 0
  HasItem plan_id db =
      (i : OrderItem) × s.order_item.Holds i db.order_items
      × (i.order_id ≡ order_id)
      × (i.plan_id ≡ some plan_id)

  -- The action does not throw, keeps the items that are there, and leaves an item for each of `ws`.
  pub record Gives (ws : List WantedItem) (action : SupplyService ⊤) : Type 0 where
    pub returning : Returns action
    pub keeping : (plan_id : ℕ) → Keeps (HasItem plan_id) action
    pub giving :
        (w : WantedItem) (db : SupplyDb)
        → IsIn w ws
        → 1 ≤ w.quantity
        → HasItem w.plan_id (action db).1

  pub Keeps-with_suppliers :
      {A : Type 0} (plan_id : ℕ) (m : Action SupplyException s.Suppliers A)
      → Keeps (HasItem plan_id) (with_suppliers m)
  Keeps-with_suppliers plan_id m = record { kept = λ before inv. inv }

  pub Keeps-write_esims :
      (plan_id : ℕ) (write : SupplyDb → s.esim.Table)
      → Keeps {X = SupplyException} (HasItem plan_id) (modify λ db. record db { esims = write db })
  unfolding modify
  Keeps-write_esims plan_id write = record { kept = λ before inv. inv }

  pub Keeps-complete :
      (plan_id id : ℕ)
      → Keeps {X = SupplyException} (HasItem plan_id) (
          modify λ db. record db {
            order_items =
                s.order_item.update
                  (λ i. i.id == id)
                  (λ i. record i { is_completed = true })
                  db.order_items;
          })
  unfolding modify
  Keeps-complete plan_id id = record {
    kept = λ before (i, row, e, e'). elim (Bool-cases (i.id == id)) [
      | inl this ↦ (
        record i { is_completed = true },
        (s.order_item.Holds-update _ _ _ before.order_items).1 (i, row, rw this refl),
        e,
        e',
      )
      | inr other ↦
          (i, (s.order_item.Holds-update _ _ _ before.order_items).1 (i, row, rw other refl), e, e')
    ];
  }

  Keeps-insert :
      (plan_id : ℕ) (item : SupplyDb → OrderItem)
      → Keeps {X = SupplyException}
          (HasItem plan_id)
          (modify λ db. record db { order_items = s.order_item.insert (item db) db.order_items })
  unfolding modify
  Keeps-insert plan_id item = record {
    kept = λ before (i, row, e, e').
        (i, (s.order_item.Holds-insert _ _ before.order_items).1 (inr row), e, e');
  }

  -- The items that a list of rows makes.
  pub create_item-HasItem :
      (providers : Providers) (row : ItemRow) (db : SupplyDb)
      → HasItem row.wanted.plan_id (create_item providers order_id row db).1
  unfolding create_item gets modify pure ◌>>=◌
  create_item-HasItem providers row db =
      (_, (s.order_item.Holds-insert _ _ db.order_items).1 (inl refl), refl, refl)

  module _ (providers : Providers) where
    pub Returns-create_row : (row : ItemRow) → Returns (create_row providers order_id row)
    unfolding create_row create_item
    Returns-create_row row = search returns_rules depth 8

    Returns-create_item : (row : ItemRow) → Returns (create_item providers order_id row)
    unfolding create_item
    Returns-create_item row = search returns_rules depth 8

    pub Keeps-create_item :
        (plan_id : ℕ) (row : ItemRow) → Keeps (HasItem plan_id) (create_item providers order_id row)
    unfolding create_item
    Keeps-create_item plan_id row = search (keeps_rules, Keeps-insert) depth 8

    pub Keeps-create_row :
        (plan_id : ℕ) (row : ItemRow) → Keeps (HasItem plan_id) (create_row providers order_id row)
    unfolding create_row
    Keeps-create_row plan_id row = search (keeps_rules, Keeps-create_item) depth 8

    pub create_row-HasItem :
        (row : ItemRow) (db : SupplyDb)
        → HasItem row.wanted.plan_id (create_row providers order_id row db).1
    unfolding create_row create_item gets modify pure ◌>>=◌
    create_row-HasItem row db = create_item-HasItem providers row db

    pub Gives-row : (row : ItemRow) → Gives (row.wanted ∷ []) (create_row providers order_id row)
    Gives-row row = record {
      returning = Returns-create_row row;
      keeping = λ plan_id. Keeps-create_row plan_id row;
      giving = λ v db is_in positive. elim is_in [
        | inl e ↦
            subst (λ x. HasItem x.plan_id (create_row providers order_id row db).1) (sym e)
              (create_row-HasItem row db)
        | inr none_left ↦ absurd none_left
      ];
    }

    pub Gives-create :
        (ws : List WantedItem) (rows : List ItemRow)
        → ((w : WantedItem) → IsIn w ws → 1 ≤ w.quantity → Covers w rows)
        → Gives ws (for_each rows (create_row providers order_id))
    Gives-create ws rows covers = record {
      returning = Returns-for_each rows _ Returns-create_row;
      keeping = λ plan_id. Keeps-for_each rows _ (Keeps-create_row plan_id);
      giving = λ w db is_in positive.
          let (row, is_in', e) = covers w is_in positive in
          let (u, done) = (Returns-for_each rows _ Returns-create_row).returns db in
          subst (λ v. HasItem v.plan_id (for_each rows (create_row providers order_id) db).1) e
            (for_each_all (λ r d. HasItem r.wanted.plan_id d) (create_row providers order_id)
              (λ r d h. create_row-HasItem r d) (λ r r'. Keeps-create_row r.wanted.plan_id r') rows
              db done row is_in');
    }

    -- The row, and what its id is used for.
    pub Gives-item :
        (row : ItemRow) (rest : ℕ → SupplyService ⊤)
        → ((id : ℕ) → Returns (rest id))
        → ((id plan_id : ℕ) → Keeps (HasItem plan_id) (rest id))
        → Gives (row.wanted ∷ []) (create_item providers order_id row >>= rest)
    Gives-item row rest returns keeps = record {
      returning = Returns-bind _ rest (Returns-create_item row) returns;
      keeping =
          λ plan_id. Keeps-bind _ rest (Keeps-create_item plan_id row) (λ id. keeps id plan_id);
      giving = λ v db is_in positive. elim is_in [
        | inl e ↦
            let (u, done) = (Returns-bind _ rest (Returns-create_item row) returns).returns db in
            let (id, db', step, done', whole) =
              bind_inv (create_item providers order_id row) rest db done in
            let there =
              subst (λ out. HasItem row.wanted.plan_id out.1) step
                (create_item-HasItem providers row db) in
            subst (λ x. HasItem x.plan_id ((create_item providers order_id row >>= rest) db).1)
              (sym e)
              (subst (λ out. HasItem row.wanted.plan_id out.1) (sym whole)
                ((keeps id row.wanted.plan_id).kept db' there))
        | inr none_left ↦ absurd none_left
      ];
    }
