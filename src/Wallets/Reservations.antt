-- ===== src/Wallets/Reservations.antt =====
-- What a hold reserves: every branch of `createHold`, and that the held amounts are covered.
use esim_backend.Base.{
  ℕ, ◌≡◌, true, false, not, none, some, inl, inr, ok, err, ◌>>=◌, Bool-cases, arith, if◌then◌else◌,
  refl, sym, ap, subst, ◌∙◌, modify, pure, ◌>>◌, gets,
}
use esim_backend.Base.Int.{ℤ, pos, ◌+ℤ◌, ◌-ℤ◌, ◌≤ℤ◌, ◌<ℤ◌, leb_ℤ, ltb_ℤ, max_ℤ, int_laws}
use esim_backend.Base.Stepping.{bind_ok, throw_if_passes, throw_if_throws}
use esim_backend.Entities.{UserWallet, WalletHold, is_active}
use esim_backend.Storage.Interface.{settle}
use esim_backend.Storage.Sums.{sum-save_new}
use esim_backend.Database.{
  Database, Db, Exception, wallet_locked, insufficient_balance, find_hold, save_hold,
}
use esim_backend.Wallets.Holds.{
  is_past, open_holds, new_hold, get_available_balance_with_manager, reserve, create_hold,
  add_minutes, is_open_hold,
}
use esim_backend.Wallets.Ledger.{balance}
use esim_backend.Wallets.Opened.{
  wallet_of, opened, get_or_create_wallet_lem, holds-opened, open_holds-opened, wallet_of-opened,
  opened_idem, balance-opened, balance-wallet_of,
}

module _ ⦃d : Database⦄ where
  -- What `getAvailableBalance` returns.
  abbrev pub available : ℕ → ℕ → Db → ℤ
  available u now db =
      let w = wallet_of u db in
      if not (is_active w.status)
      then pos 0
      else if is_past w.expires_at now
      then pos 0
      else max_ℤ (pos 0) (w.balance_vnd -ℤ open_holds u now db)

  get_available_balance_lem :
      (u now : ℕ) (db : Db)
      → get_available_balance_with_manager u now db ≡ (ok (available u now db), opened u db)
  unfolding get_available_balance_with_manager ◌>>=◌
  get_available_balance_lem u now db =
      let w : UserWallet = wallet_of u db in
      rw get_or_create_wallet_lem (elim (Bool-cases (is_active w.status)) [
        | inr locked ↦ rw locked refl
        | inl usable ↦ elim (Bool-cases (is_past w.expires_at now)) [
          | inl past ↦ rw (usable, past) refl
          | inr current ↦ rw (usable, current, open_holds-opened u now u db) refl
        ]
      ])

  available-opened : (u now : ℕ) (db : Db) → available u now (opened u db) ≡ available u now db
  available-opened u now db =
      rw (available, wallet_of-opened u db, open_holds-opened u now u db) refl

  -- The tables after a reservation.
  abbrev reserved : ℕ → ℕ → ℤ → ℕ → Db → WalletHold
  reserved o u a now db =
      new_hold (d.repositories.hold.next_id db.holds) (wallet_of u db).id u o a now

  module _ (o u : ℕ) (a : ℤ) (now : ℕ) (db : Db) where
    reserve_locked :
        is_active (wallet_of u db).status ≡ false
        → reserve o u a now db ≡ (err wallet_locked, opened u db)
    unfolding reserve
    reserve_locked locked =
        bind_ok _ _ db (get_or_create_wallet_lem u db)
        ∙ throw_if_throws _ _ _ (opened u db) (rw locked refl)

    reserve_short :
        is_active (wallet_of u db).status ≡ true
        → ltb_ℤ (available u now db) a ≡ true
        → reserve o u a now db ≡ (err insufficient_balance, opened u (opened u db))
    unfolding reserve
    reserve_short usable short =
        bind_ok _ _ db (get_or_create_wallet_lem u db)
        ∙ (throw_if_passes _ _ _ (opened u db) (rw usable refl)
            ∙ (bind_ok _ _ (opened u db) (get_available_balance_lem u now (opened u db))
                ∙ throw_if_throws _ _ _ (opened u (opened u db))
                    (rw (available-opened u now db) short)))

    save_reserved :
        (wallet_id : ℕ) (s : Db)
        → ◌>>=◌ {X = Exception}
            (gets (λ db'. d.repositories.hold.next_id db'.holds))
            (λ id.
              modify (save_hold (new_hold id wallet_id u o a now))
              >> pure (some (new_hold id wallet_id u o a now)))
            s
          ≡ (
            ok (some (new_hold (d.repositories.hold.next_id s.holds) wallet_id u o a now)),
            save_hold (new_hold (d.repositories.hold.next_id s.holds) wallet_id u o a now) s,
          )
    unfolding ◌>>=◌
    save_reserved wallet_id s = refl

    reserve_done :
        is_active (wallet_of u db).status ≡ true
        → ltb_ℤ (available u now db) a ≡ false
        → reserve o u a now db
          ≡ (ok (some (reserved o u a now db)), save_hold (reserved o u a now db) (opened u db))
    unfolding reserve
    reserve_done usable enough =
        bind_ok _ _ db (get_or_create_wallet_lem u db)
        ∙ (throw_if_passes _ _ _ (opened u db) (rw usable refl)
            ∙ (bind_ok _ _ (opened u db) (get_available_balance_lem u now (opened u db))
                ∙ (throw_if_passes _ _ _ (opened u (opened u db))
                      (rw (available-opened u now db) enough)
                    ∙ (save_reserved (wallet_of u db).id (opened u (opened u db))
                        ∙ rw (opened_idem u db, holds-opened u db) refl))))

    create_hold_settles :
        find_hold o db ≡ none
        → pos 0 <ℤ a
        → create_hold o u a now db ≡ settle db (reserve o u a now db)
    unfolding create_hold ◌>>=◌
    create_hold_settles fresh positive =
        let above : leb_ℤ a (pos 0) ≡ false = ground arith in
        rw (above, d.source.transaction_lem, fresh) refl

  -- `createHold` for an order that has no hold, and an amount above zero, on every branch: a locked
  -- wallet and an amount above the available balance throw, and leave every table as it was (a wallet
  -- that was created on the way included); else the hold is stored, for thirty minutes.
  pub create_hold_branches :
      (o u : ℕ) (a : ℤ) (now : ℕ) (db : Db)
      → find_hold o db ≡ none
      → pos 0 <ℤ a
      → create_hold o u a now db ≡ (
          if not (is_active (wallet_of u db).status)
          then (err wallet_locked, db)
          else if ltb_ℤ (available u now db) a
          then (err insufficient_balance, db)
          else (ok (some (reserved o u a now db)), save_hold (reserved o u a now db) (opened u db)))
  unfolding create_hold
  create_hold_branches o u a now db fresh positive =
      create_hold_settles o u a now db fresh positive
      ∙ elim (Bool-cases (is_active (wallet_of u db).status)) [
        | inr locked ↦ rw locked (ap (settle db) (reserve_locked o u a now db locked))
        | inl usable ↦ elim (Bool-cases (ltb_ℤ (available u now db) a)) [
          | inl short ↦
              rw (short, usable) (ap (settle db) (reserve_short o u a now db usable short))
          | inr enough ↦
              rw (enough, usable) (ap (settle db) (reserve_done o u a now db usable enough))
        ]
      ]

  is_open-new_hold :
      (id wid u o : ℕ) (a : ℤ) (now : ℕ) → is_open_hold u now (new_hold id wid u o a now) ≡ true
  unfolding add_minutes
  is_open-new_hold id wid u o a now = ground arith

  open_holds-reserved :
      (o u : ℕ) (a : ℤ) (now : ℕ) (db : Db)
      → find_hold o db ≡ none
      → open_holds u now (save_hold (reserved o u a now db) (opened u db))
        ≡ open_holds u now db +ℤ a
  open_holds-reserved o u a now db fresh =
      sum-save_new d.repositories.hold (is_open_hold u now) (λ h. h.amount_vnd)
        (reserved o u a now db) (opened u db).holds
        (ap (d.repositories.hold.find_one o) (holds-opened u db) ∙ fresh)
        (is_open-new_hold (d.repositories.hold.next_id db.holds) (wallet_of u db).id u o a now)
      ∙ ap (λ s. s +ℤ a) (open_holds-opened u now u db)

  reserved-le-balance :
      (u : ℕ) (a : ℤ) (now : ℕ) (db : Db)
      → pos 0 <ℤ a
      → ltb_ℤ (available u now db) a ≡ false
      → open_holds u now db +ℤ a ≤ℤ balance u db
  reserved-le-balance u a now db positive enough =
      rw (balance-wallet_of u db) (grind (int_laws, positive, enough))

  reserved-covered :
      (o u : ℕ) (a : ℤ) (now : ℕ) (db : Db)
      → find_hold o db ≡ none
      → pos 0 <ℤ a
      → ltb_ℤ (available u now db) a ≡ false
      → open_holds u now (save_hold (reserved o u a now db) (opened u db))
        ≤ℤ balance u (save_hold (reserved o u a now db) (opened u db))
  reserved-covered o u a now db fresh positive enough =
      subst (λ s. s ≤ℤ balance u (opened u db)) (sym (open_holds-reserved o u a now db fresh))
        (subst (λ s. open_holds u now db +ℤ a ≤ℤ s) (sym (balance-opened u u db))
          (reserved-le-balance u a now db positive enough))

  -- When `createHold` stores a hold for an order that had none, the buyer's open holds have grown by
  -- exactly the amount, what they reserve together is covered by the buyer's balance, and no balance has
  -- changed.
  pub create_hold_covered :
      (o u : ℕ) (a : ℤ) (now : ℕ) (db : Db) {h : WalletHold}
      → find_hold o db ≡ none
      → pos 0 <ℤ a
      → (create_hold o u a now db).0 ≡ ok (some h)
      → let db' = (create_hold o u a now db).1 in
        (open_holds u now db' ≡ open_holds u now db +ℤ a)
        × (open_holds u now db' ≤ℤ balance u db')
        × ((v : ℕ) → balance v db' ≡ balance v db)
  create_hold_covered o u a now db fresh positive stored =
      let law = create_hold_branches o u a now db fresh positive in
      elim (Bool-cases (is_active (wallet_of u db).status)) [
        | inr locked ↦ cc (stored, ap (λ out. out.0) (rw locked at law))
        | inl usable ↦ elim (Bool-cases (ltb_ℤ (available u now db) a)) [
          | inl short ↦ cc (stored, ap (λ out. out.0) (rw (short, usable) at law))
          | inr enough ↦ rw (rw (enough, usable) at law) (
            open_holds-reserved o u a now db fresh,
            reserved-covered o u a now db fresh positive enough,
            λ v. balance-opened v u db,
          )
        ]
      ]
