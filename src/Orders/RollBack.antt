-- ===== src/Orders/RollBack.antt =====
-- What the roll-back of a failed order, in `cancelOrder` and `failExpiredPendingOrders` of
-- src/orders/orders.service.ts, leaves in each table.
use esim_backend.Base.{
  ℕ, ◌≡◌, refl, ap, ◌∙◌, Option, none, some, inl, inr, ok, arith, Option-cases, Bool-cases, ◌>>=◌,
  if◌then◌else◌,
}
use esim_backend.Entities.{
  Order, WalletHold, WalletHoldStatus, OrderReferral, OrderReferralStatus, is_held,
  is_pending_referral,
}
use esim_backend.Database.{Database, Db, find_hold, find_coupon, find_order_referral}
use esim_backend.Coupons.Service.{release_coupon}
use esim_backend.Base.Text.{to_upper}
use esim_backend.Wallets.Holds.{release_hold_for_order}
use esim_backend.Wallets.Referrals.{reverse_pending_referral_for_order}
use esim_backend.Orders.Pricing.{given}
use esim_backend.Orders.Lifecycle.{roll_back, release_coupon_of}

-- A hold that is held becomes released, and a referral that is pending becomes reversed.
abbrev pub freed : Option WalletHold → Option WalletHold
freed none = none
freed (some h) =
    some (if is_held h.status then record h { status = WalletHoldStatus.released } else h)

abbrev pub undone : Option OrderReferral → Option OrderReferral
undone none = none
undone (some r) =
    some (
      if is_pending_referral r.status
      then record r { status = OrderReferralStatus.reversed }
      else r)

module _ ⦃d : Database⦄ where
  find_hold-release :
      (o : ℕ) (db : Db) → find_hold o (release_hold_for_order o db).1 ≡ freed (find_hold o db)
  unfolding release_hold_for_order ◌>>=◌
  find_hold-release o db = elim (Option-cases (find_hold o db)) [
    | inl e ↦ rw (e, e) refl
    | inr (h, e) ↦
        grind (
          arith,
          d.repositories.hold.find_one-save,
          d.repositories.hold.find_one-key o h db.holds e,
        )
  ]

  find_referral-reverse :
      (o : ℕ) (db : Db)
      → find_order_referral o (reverse_pending_referral_for_order o db).1
        ≡ undone (find_order_referral o db)
  unfolding reverse_pending_referral_for_order ◌>>=◌
  find_referral-reverse o db = elim (Option-cases (find_order_referral o db)) [
    | inl e ↦ rw (e, e) refl
    | inr (r, e) ↦ grind (
      arith,
      d.repositories.order_referral.find_one-save,
      d.repositories.order_referral.find_one-key o r db.order_referrals e,
    )
  ]

  -- What a roll-back leaves.
  pub record IsRolledBack (o : ℕ) (before after : Db) : Type 0 where
    pub hold : find_hold o after ≡ freed (find_hold o before)
    pub referral : find_order_referral o after ≡ undone (find_order_referral o before)
    pub wallets : after.wallets ≡ before.wallets
    pub transactions : after.transactions ≡ before.transactions
    pub orders : after.orders ≡ before.orders

  releasing :
      (o : ℕ) (db : Db)
      → let s = (release_hold_for_order o db).1 in
        (s.order_referrals ≡ db.order_referrals)
        × (s.wallets ≡ db.wallets)
        × (s.transactions ≡ db.transactions)
        × (s.orders ≡ db.orders)
  unfolding release_hold_for_order ◌>>=◌
  releasing o db = elim (Option-cases (find_hold o db)) [
    | inl e ↦ rw e (refl, refl, refl, refl)
    | inr (h, e) ↦ elim (Bool-cases (is_held h.status)) [
      | inl held ↦ rw (e, held) (refl, refl, refl, refl)
      | inr other ↦ rw (e, other) (refl, refl, refl, refl)
    ]
  ]

  reversing :
      (o : ℕ) (db : Db)
      → let s = (reverse_pending_referral_for_order o db).1 in
        (s.holds ≡ db.holds)
        × (s.wallets ≡ db.wallets)
        × (s.transactions ≡ db.transactions)
        × (s.orders ≡ db.orders)
  unfolding reverse_pending_referral_for_order ◌>>=◌
  reversing o db = elim (Option-cases (find_order_referral o db)) [
    | inl e ↦ rw e (refl, refl, refl, refl)
    | inr (r, e) ↦ elim (Bool-cases (is_pending_referral r.status)) [
      | inl waits ↦ rw (e, waits) (refl, refl, refl, refl)
      | inr other ↦ rw (e, other) (refl, refl, refl, refl)
    ]
  ]

  releasing_coupon :
      (x : Order) (db : Db)
      → let s = (release_coupon_of x db).1 in
        (s.holds ≡ db.holds)
        × (s.order_referrals ≡ db.order_referrals)
        × (s.wallets ≡ db.wallets)
        × (s.transactions ≡ db.transactions)
        × (s.orders ≡ db.orders)
  unfolding release_coupon_of release_coupon ◌>>=◌
  releasing_coupon x db = elim (Option-cases (given x.coupon_code)) [
    | inl e ↦ rw e (refl, refl, refl, refl, refl)
    | inr (code, e) ↦ elim (Option-cases (find_coupon (to_upper code) db)) [
      | inl e' ↦ rw (e, e') (refl, refl, refl, refl, refl)
      | inr (c, e') ↦ rw (e, e') (refl, refl, refl, refl, refl)
    ]
  ]

  release_coupon_of_ok : (x : Order) (db : Db) → (release_coupon_of x db).0 ≡ ok tt
  unfolding release_coupon_of ◌>>=◌
  release_coupon_of_ok x db = elim (Option-cases (given x.coupon_code)) [
    | inl e ↦ rw e refl
    | inr (code, e) ↦ rw e refl
  ]

  abbrev pub rolled : Order → Db → Db
  rolled x db =
      (reverse_pending_referral_for_order x.id
        (release_coupon_of x (release_hold_for_order x.id db).1).1).1

  pub roll_back_lem : (x : Order) (db : Db) → roll_back x db ≡ (ok tt, rolled x db)
  unfolding roll_back ◌>>=◌
  roll_back_lem x db = rw (release_coupon_of_ok x (release_hold_for_order x.id db).1) refl

  pub rolled-IsRolledBack : (x : Order) (db : Db) → IsRolledBack x.id db (rolled x db)
  rolled-IsRolledBack x db =
      let s1 = (release_hold_for_order x.id db).1 in
      let s2 = (release_coupon_of x s1).1 in
      let (r1, w1, t1, o1) = releasing x.id db in
      let (h2, r2, w2, t2, o2) = releasing_coupon x s1 in
      let (h3, w3, t3, o3) = reversing x.id s2 in
      record {
        hold = ap (d.repositories.hold.find_one x.id) (h3 ∙ h2) ∙ find_hold-release x.id db;
        referral =
            find_referral-reverse x.id s2
            ∙ ap (λ t. undone (d.repositories.order_referral.find_one x.id t)) (r2 ∙ r1);
        wallets = w3 ∙ (w2 ∙ w1);
        transactions = t3 ∙ (t2 ∙ t1);
        orders = o3 ∙ (o2 ∙ o1);
      }
