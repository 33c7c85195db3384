-- ===== src/Supply/Execution.antt =====
-- `executeTopup`: a paid top-up comes to an end, once.
use esim_backend.Base.{
  ℕ, ◌≡◌, refl, sym, ap, subst, ◌∙◌, inl, inr, ◌⊎◌, true, not, ◌||◌, none, some, ⊤, Result, ok, err,
  pure, attempt, catching, unless_found, continue, arith, Bool-cases, Option-cases, ◌>>=◌, ◌==◌,
  ==_refl,
}
use esim_backend.Base.Stepping.{gets_step, unless_found-none, unless_found-some}
use esim_backend.Base.Text.{Text, eqb, eqb_iff}
use esim_backend.Storage.Rows.{find_one, find_latest-update}
use esim_backend.Supply.Data.{
  SupplyEnv, SupplyDb, SupplyService, SupplyException, TopupOrder, TopupProvider, TopupStatus,
  airalo, esim_access, gadget_korea, unsupported, completed, manual_intervention, truthy,
  find_topup,
}
use esim_backend.Supply.Topup.{
  update_status, mark_manual_intervention, submit_topup, execute_with, execute_order, execute_topup,
}
use esim_backend.Supply.Packages.{is_final, is_topup, given_provider}

-- At most one order for each order number.
pub record IsKeyed ⦃s : SupplyEnv⦄ (t : s.order.Table) : Type 0 where
  pub numbers :
      (x y : TopupOrder)
      → s.order.Holds x t
      → s.order.Holds y t
      → x.order_number ≡ y.order_number
      → x ≡ y

module _ ⦃s : SupplyEnv⦄ where
  abbrev pub with_status : ℕ → TopupStatus → s.order.Table → s.order.Table
  with_status id status t = s.order.update (λ o. o.id == id) (λ o. record o { status = status }) t

  find_by_id-Holds :
      (o : TopupOrder) (t : s.order.Table)
      → s.order.Holds o t
      → (x : TopupOrder) × (find_one s.order (λ z. z.id == o.id) t ≡ some x)
  find_by_id-Holds o t row = elim (Option-cases (find_one s.order (λ z. z.id == o.id) t)) [
    | inl missing ↦ cc (==_refl o.id, s.order.find_latest-none _ _ t o missing row)
    | inr found ↦ found
  ]

  update_status_found :
      (o : TopupOrder) (status : TopupStatus) (db : SupplyDb)
      → s.order.Holds o db.orders
      → update_status o.id status db
        ≡ (ok tt, record db { orders = with_status o.id status db.orders })
  unfolding update_status ◌>>=◌
  update_status_found o status db row =
      let (x, found) = find_by_id-Holds o db.orders row in rw found refl

  submit_topup_orders :
      (p : TopupProvider) (package_id iccid number : Text) (db : SupplyDb)
      → (submit_topup p package_id iccid number db).1.orders ≡ db.orders
  unfolding submit_topup ◌>>=◌
  submit_topup_orders airalo package_id iccid number db = refl
  submit_topup_orders esim_access package_id iccid number db = refl
  submit_topup_orders gadget_korea package_id iccid number db = ground arith
  submit_topup_orders (unsupported name) package_id iccid number db = refl

  mark_manual_intervention_found :
      (o : TopupOrder) (db : SupplyDb)
      → s.order.Holds o db.orders
      → mark_manual_intervention o db
        ≡ (ok tt, record db { orders = with_status o.id manual_intervention db.orders })
  unfolding mark_manual_intervention attempt
  mark_manual_intervention_found o db row =
      rw (update_status_found o manual_intervention db row) refl

  -- How an execution ends: with a final status, and nothing else of the orders changed.
  pub record Ends (o : TopupOrder) (db : SupplyDb) (out : Result SupplyException ⊤ × SupplyDb)
      : Type 0 where
    pub status : TopupStatus
    pub final : is_final status ≡ true
    pub answer : out.0 ≡ ok tt
    pub stored : out.1.orders ≡ with_status o.id status db.orders

  marked-Ends :
      (o : TopupOrder) (before db : SupplyDb)
      → db.orders ≡ before.orders
      → s.order.Holds o before.orders
      → Ends o before (mark_manual_intervention o db)
  marked-Ends o before db same row = record {
    status = manual_intervention;
    final = refl;
    answer = ap (λ out. out.0) step;
    stored = ap (λ out. out.1.orders) step ∙ ap (with_status o.id manual_intervention) same;
  }
    where
      step :
          mark_manual_intervention o db
          ≡ (ok tt, record db { orders = with_status o.id manual_intervention db.orders })
      step = mark_manual_intervention_found o db (subst (λ t. s.order.Holds o t) (sym same) row)

  execute_with-Ends :
      (o : TopupOrder) (p : TopupProvider) (package_id iccid : Text) (db : SupplyDb)
      → s.order.Holds o db.orders
      → Ends o db (execute_with o p package_id iccid db)
  unfolding execute_with catching ◌>>=◌
  execute_with-Ends o p package_id iccid db row =
      by_submission (submit_topup p package_id iccid o.order_number db)
        (submit_topup_orders p package_id iccid o.order_number db)
    where
      rest : ⊤ → SupplyService ⊤
      rest u = update_status o.id completed

      by_submission :
          (out : Result SupplyException ⊤ × SupplyDb)
          → out.1.orders ≡ db.orders
          → Ends o db (catching (λ d. continue out.0 rest out.1) (mark_manual_intervention o) db)
      by_submission (ok u, db') same = record {
        status = completed;
        final = refl;
        answer = rw done refl;
        stored = rw done (ap (with_status o.id completed) same);
      }
        where
          done :
              update_status o.id completed db'
              ≡ (ok tt, record db' { orders = with_status o.id completed db'.orders })
          done = update_status_found o completed db' (subst (λ t. s.order.Holds o t) (sym same) row)
      by_submission (err x, db') same = marked-Ends o db db' same row

  -- An order that is not a top-up, or is final, is left alone; any other comes to its end.
  execute_order-cases :
      (o : TopupOrder) (db : SupplyDb)
      → s.order.Holds o db.orders
      → (execute_order o db ≡ (ok tt, db)
          × ((not (is_topup o.order_type) || is_final o.status) ≡ true))
        ⊎ Ends o db (execute_order o db)
  unfolding execute_order pure unless_found
  execute_order-cases o db row =
      elim (Bool-cases (not (is_topup o.order_type) || is_final o.status)) [
        | inl idle ↦ inl (rw idle refl, idle)
        | inr busy ↦ inr (
            rw busy (elim (Option-cases (given_provider o.topup_provider)) [
              | inl missing ↦ rw missing (marked-Ends o db db refl row)
              | inr (p, provider) ↦ rw provider (elim (Option-cases (truthy o.topup_package_id)) [
                | inl missing ↦ rw missing (marked-Ends o db db refl row)
                | inr (package_id, package') ↦
                    rw package' (elim (Option-cases (truthy o.target_iccid)) [
                      | inl missing ↦ rw missing (marked-Ends o db db refl row)
                      | inr (iccid, target) ↦
                          rw target (execute_with-Ends o p package_id iccid db row)
                    ])
              ])
            ]))
      ]

  execute_order_idle :
      (o : TopupOrder) (db : SupplyDb) → is_final o.status ≡ true → execute_order o db ≡ (ok tt, db)
  unfolding execute_order pure
  execute_order_idle o db final = ground arith

  module _ (n : Text) (db : SupplyDb) where
    execute_topup-none : find_topup n db ≡ none → execute_topup n db ≡ (ok tt, db)
    unfolding execute_topup pure
    execute_topup-none missing = gets_step _ _ db ∙ ap (λ k. k db) (unless_found-none _ _ missing)

    execute_topup-some :
        {o : TopupOrder} → find_topup n db ≡ some o → execute_topup n db ≡ execute_order o db
    unfolding execute_topup
    execute_topup-some found = gets_step _ _ db ∙ ap (λ k. k db) (unless_found-some _ _ found)

    row_of : {o : TopupOrder} → find_topup n db ≡ some o → s.order.Holds o db.orders
    row_of found = s.order.find_latest-Holds _ _ db.orders found

    Ends-found :
        {o : TopupOrder} (out : Result SupplyException ⊤ × SupplyDb)
        → IsKeyed db.orders
        → find_topup n db ≡ some o
        → (ends : Ends o db out) → find_topup n out.1 ≡ some (record o { status = ends.status })
    Ends-found {o = o} out keyed found ends =
        ap (λ t. find_one s.order (λ z. eqb n z.order_number) t) ends.stored
        ∙ find_latest-update s.order (λ z. eqb n z.order_number) (λ z. z.id == o.id) _
            (λ z. record z { status = ends.status }) db.orders o (λ y. refl)
            (λ y row h.
              keyed.numbers y o row (row_of found)
                (sym ((eqb_iff n y.order_number).0 h) ∙ (eqb_iff n o.order_number).0 passes))
            (row_of found) passes (==_refl o.id)
      where
        passes : eqb n o.order_number ≡ true
        passes = s.order.find_latest_passes _ _ db.orders found

    -- A top-up order that is found and executed ends as completed or for manual intervention, whatever the
    -- supplier answers and whether or not its metadata are complete, where the orders have different
    -- numbers; no other column of it changes.
    pub execute_topup_final :
        {o : TopupOrder}
        → IsKeyed db.orders
        → find_topup n db ≡ some o
        → is_topup o.order_type ≡ true
        → (status : TopupStatus) × (is_final status ≡ true)
          × (find_topup n (execute_topup n db).1 ≡ some (record o { status = status }))
    execute_topup_final {o} keyed found is_one = elim (execute_order-cases o db (row_of found)) [
      | inl (same, idle) ↦ (
        o.status,
        ground arith,
        ap (λ out. find_topup n out.1) (execute_topup-some found ∙ same) ∙ found,
      )
      | inr ends ↦ (
        ends.status,
        ends.final,
        ap (λ out. find_topup n out.1) (execute_topup-some found) ∙ Ends-found _ keyed found ends,
      )
    ]

    again :
        execute_topup n db ≡ (ok tt, db)
        → execute_topup n (execute_topup n db).1 ≡ (ok tt, (execute_topup n db).1)
    again h = ap (λ out. execute_topup n out.1) h ∙ h ∙ ap (λ out. (ok tt, out.1)) (sym h)

  -- Executing a top-up again, after a notification that is repeated, changes nothing: the supplier is
  -- not called a second time. The orders have different numbers.
  pub execute_topup_once :
      (n : Text) (db : SupplyDb)
      → IsKeyed db.orders
      → execute_topup n (execute_topup n db).1 ≡ (ok tt, (execute_topup n db).1)
  execute_topup_once n db keyed = elim (Option-cases (find_topup n db)) [
    | inl missing ↦ again n db (execute_topup-none n db missing)
    | inr (o, found) ↦ elim (execute_order-cases o db (row_of n db found)) [
      | inl (same, idle) ↦ again n db (execute_topup-some n db found ∙ same)
      | inr ends ↦
          let found' =
            ap (λ out. find_topup n out.1) (execute_topup-some n db found)
            ∙ Ends-found n db _ keyed found ends in
          execute_topup-some n _ found'
          ∙ execute_order_idle (record o { status = ends.status }) _ ends.final
    ]
  ]
