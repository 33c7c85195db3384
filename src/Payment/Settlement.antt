-- ===== src/Payment/Settlement.antt =====
-- Which notifications change a table, and what a failed payment gives back.
use Prim.Native.String.{String}
use esim_backend.Base.{
  ℕ, ◌≡◌, refl, sym, ap, ◌∙◌, Bool, true, false, not, ◌&&◌, Option, none, some, inl, inr, ok,
  Option-cases, Bool-cases, ◌>>=◌, if◌then◌else◌,
}
use esim_backend.Base.Text.{Text, starts_with}
use esim_backend.Entities.{Order, is_pending, is_pending_link, CustomPaymentLink}
use esim_backend.Database.{
  Database, Db, find_by_order_number, find_custom_link, find_order, find_hold, find_order_referral,
}
use esim_backend.Orders.Pricing.{given}
use esim_backend.Orders.Cancel.{cancel_order_effect, failed}
use esim_backend.Orders.RollBack.{freed, undone}
use esim_backend.Links.Service.{virtual_order_prefix, finalize_from_ipn}
use esim_backend.Payment.Notifications.{
  Query, Gateway, is_payment_success, topup_prefix, verify_ipn, handle_ipn, handle_order_ipn,
  handle_topup_ipn, handle_link_ipn,
}

module _ ⦃d : Database⦄ where
  abbrev pub is_pending_order : Option Order → Bool
  is_pending_order none = false
  is_pending_order (some order) = is_pending order.status

  abbrev pub awaits_link : Option CustomPaymentLink → Bool
  awaits_link none = false
  awaits_link (some link) = is_pending_link link.status

  -- The reference names a link or an order that waits for its payment.
  abbrev pub awaits_payment : Text → Db → Bool
  awaits_payment n db =
      if not (starts_with topup_prefix n) && starts_with virtual_order_prefix n
      then awaits_link (find_custom_link n db)
      else is_pending_order (find_by_order_number n db)

  module _ (gateway : Gateway) (query : Query) (now : ℕ) (db : Db) where
    order_idle :
        (n : Text)
        → is_pending_order (find_by_order_number n db) ≡ false
        → (handle_order_ipn gateway query n now db).1 ≡ db
    unfolding handle_order_ipn ◌>>=◌
    order_idle n idle = elim (Option-cases (find_by_order_number n db)) [
      | inl e ↦ rw e refl
      | inr (o, e) ↦ rw (e, ap is_pending_order (sym e) ∙ idle) refl
    ]

    topup_idle :
        (n : Text)
        → is_pending_order (find_by_order_number n db) ≡ false
        → (handle_topup_ipn gateway query n db).1 ≡ db
    unfolding handle_topup_ipn ◌>>=◌
    topup_idle n idle = elim (Option-cases (find_by_order_number n db)) [
      | inl e ↦ rw e refl
      | inr (o, e) ↦ rw (e, ap is_pending_order (sym e) ∙ idle) refl
    ]

    finalize_idle :
        (n : Text) (l : CustomPaymentLink) (b : Bool) (p : Option String)
        → find_custom_link n db ≡ some l
        → is_pending_link l.status ≡ false
        → finalize_from_ipn n b p db ≡ (ok (some l), db)
    unfolding finalize_from_ipn ◌>>=◌
    finalize_idle n l b p e done = rw (e, done) refl

    link_idle :
        (n : Text)
        → awaits_link (find_custom_link n db) ≡ false
        → (handle_link_ipn gateway query n db).1 ≡ db
    unfolding handle_link_ipn ◌>>=◌
    link_idle n idle = elim (Option-cases (find_custom_link n db)) [
      | inl e ↦ rw e refl
      | inr (l, e) ↦
          rw (e, finalize_idle n l (is_payment_success query) query.transaction_no e (rw e at idle))
            refl
    ]

    -- A notification whose signature is wrong gets the answer 97 and changes no table.
    pub handle_ipn_forged :
        verify_ipn gateway query ≡ false → handle_ipn gateway query now db ≡ (ok "97", db)
    unfolding handle_ipn ◌>>=◌
    handle_ipn_forged forged = rw forged refl

    -- A notification changes no table unless the order, the top-up order or the custom link that it
    -- names waits for its payment: one that comes again after the payment has been settled is idle.
    pub handle_ipn_idle :
        (n : Text)
        → given query.merch_txn_ref ≡ some n
        → awaits_payment n db ≡ false
        → (handle_ipn gateway query now db).1 ≡ db
    unfolding handle_ipn ◌>>=◌
    handle_ipn_idle n named idle = elim (Bool-cases (verify_ipn gateway query)) [
      | inr forged ↦ rw forged refl
      | inl signed ↦ elim (Bool-cases (starts_with topup_prefix n)) [
        | inl topup ↦ rw (signed, named, topup) (topup_idle n (rw topup at idle))
        | inr standard ↦ elim (Bool-cases (starts_with virtual_order_prefix n)) [
          | inl link ↦
              rw (signed, named, standard, link) (link_idle n (rw (standard, link) at idle))
          | inr order ↦
              rw (signed, named, standard, order) (order_idle n (rw (standard, order) at idle))
        ]
      ]
    ]

    -- The notification of a failed payment for an order that is pending: the answer is 00, the order has
    -- failed, its hold is released if it was held, its referral is reversed if it was pending, and
    -- neither a wallet nor the ledger changes. (The second hypothesis on the order says that the look-up
    -- by its number and the look-up by its id give the same row.)
    pub handle_ipn_declined :
        (n : Text) (x : Order)
        → verify_ipn gateway query ≡ true
        → given query.merch_txn_ref ≡ some n
        → starts_with topup_prefix n ≡ false
        → starts_with virtual_order_prefix n ≡ false
        → is_payment_success query ≡ false
        → find_by_order_number n db ≡ some x
        → find_order x.id db ≡ some x
        → is_pending x.status ≡ true
        → let out = handle_ipn gateway query now db in
          (out.0 ≡ ok "00")
          × (find_order x.id out.1 ≡ some (failed x))
          × (find_hold x.id out.1 ≡ freed (find_hold x.id db))
          × (find_order_referral x.id out.1 ≡ undone (find_order_referral x.id db))
          × (out.1.wallets ≡ db.wallets)
          × (out.1.transactions ≡ db.transactions)
    unfolding handle_ipn handle_order_ipn ◌>>=◌
    handle_ipn_declined n x signed named standard order declined by_number by_id waits =
        let (_, o, h, r, w, t) = cancel_order_effect x.id none db x by_id refl waits in
        rw (signed, named, standard, order, by_number, waits, declined) (refl, o, h, r, w, t)
