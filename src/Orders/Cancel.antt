-- ===== src/Orders/Cancel.antt =====
-- What `cancelOrder` gives back, and when it refuses.
use esim_backend.Base.{
  ℕ, ◌≡◌, refl, sym, ap, subst, ◌∙◌, true, false, not, ◌||◌, Bool, Option, some, inl, inr, ok, err,
  arith, Bool-cases, ◌>>=◌, ◌==◌, ==_refl, if◌then◌else◌,
}
use esim_backend.Entities.{Order, OrderStatus, is_pending}
use esim_backend.Database.{
  Database, Db, not_order_owner, order_not_pending, find_order, find_hold, find_order_referral,
  update_order,
}
use esim_backend.Orders.Lifecycle.{is_not_owner, update, cancel_order}
use esim_backend.Orders.RollBack.{
  freed, undone, IsRolledBack, rolled, roll_back_lem, rolled-IsRolledBack,
}

abbrev pub failed : Order → Order
failed o = record o { status = OrderStatus.failed }

or_true : (b : Bool) → b || true ≡ true
or_true b = ground arith

module _ ⦃d : Database⦄ where
  module _ (o : ℕ) (u : Option ℕ) (db : Db) (x : Order) (found : find_order o db ≡ some x) where
    -- `cancelOrder` refuses an order of another user, or one that is not pending, and leaves every table
    -- as it was.
    pub cancel_order_refused :
        is_not_owner u x || not (is_pending x.status) ≡ true
        → cancel_order o u db
          ≡ (err (if is_not_owner u x then not_order_owner else order_not_pending), db)
    unfolding cancel_order ◌>>=◌
    cancel_order_refused refused = elim (Bool-cases (is_not_owner u x)) [
      | inl foreign ↦ rw (found, foreign) refl
      | inr own ↦ elim (Bool-cases (is_pending x.status)) [
        | inl waits ↦ cc (refused, own, waits)
        | inr done ↦ rw (found, own, done) refl
      ]
    ]

    key : x.id ≡ o
    key = d.repositories.order.find_one-key o x db.orders found

    found_by_id : find_order x.id db ≡ some x
    found_by_id = subst (λ i. find_order i db ≡ some x) (sym key) found

    find_order-update : find_order o (update_order x.id failed db) ≡ some (failed x)
    find_order-update =
        d.repositories.order.find_one-update o (λ y. y.id == x.id) failed db.orders (λ e. refl)
        ∙ rw (found, ==_refl x.id) refl

    cancel_order_runs :
        is_not_owner u x ≡ false
        → is_pending x.status ≡ true
        → cancel_order o u db ≡ (ok (failed x), rolled x (update_order x.id failed db))
    unfolding cancel_order update ◌>>=◌
    cancel_order_runs own waits =
        rw (found, own, waits, found_by_id, roll_back_lem x (update_order x.id failed db)) refl

    -- `cancelOrder` on a pending order by its owner or an admin: the order fails, its hold is released
    -- if it was held, its referral is reversed if it was pending, and neither a wallet nor the ledger
    -- changes.
    pub cancel_order_effect :
        is_not_owner u x ≡ false
        → is_pending x.status ≡ true
        → let out = cancel_order o u db in
          (out.0 ≡ ok (failed x))
          × (find_order o out.1 ≡ some (failed x))
          × (find_hold o out.1 ≡ freed (find_hold o db))
          × (find_order_referral o out.1 ≡ undone (find_order_referral o db))
          × (out.1.wallets ≡ db.wallets)
          × (out.1.transactions ≡ db.transactions)
    cancel_order_effect own waits =
        let failing = update_order x.id failed db in
        let back =
          subst (λ i. IsRolledBack i failing (rolled x failing)) key
            (rolled-IsRolledBack x failing) in
        rw (cancel_order_runs own waits) (
          refl,
          ap (d.repositories.order.find_one o) back.orders ∙ find_order-update,
          back.hold,
          back.referral,
          back.wallets,
          back.transactions,
        )

  -- An order is cancelled at most once: after `cancelOrder` has succeeded, a second call, whoever
  -- makes it, is refused and changes nothing, so that neither the hold, nor the coupon, nor the
  -- referral is given back twice.
  pub cancel_order_once :
      (o : ℕ) (u v : Option ℕ) (db : Db) (x : Order)
      → find_order o db ≡ some x
      → is_not_owner u x ≡ false
      → is_pending x.status ≡ true
      → let db' = (cancel_order o u db).1 in
        cancel_order o v db'
        ≡ (err (if is_not_owner v (failed x) then not_order_owner else order_not_pending), db')
  cancel_order_once o u v db x found own waits =
      let (_, gone, _, _, _, _) = cancel_order_effect o u db x found own waits in
      cancel_order_refused o v (cancel_order o u db).1 (failed x) gone
        (or_true (is_not_owner v (failed x)))
