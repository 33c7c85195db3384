-- ===== src/Wallets/OneCapture.antt =====
-- The hold of an order is captured once.
use esim_backend.Base.{
  ℕ, Bool, ◌≡◌, refl, sym, ap, subst, ◌∙◌, true, false, Option, none, some, inl, inr, Result, ok,
  err, modify, pure, Option-cases, Bool-cases, ◌>>=◌, ==_refl,
}
use esim_backend.Base.Int.{neg}
use esim_backend.Base.Stepping.{bind_inv}
use esim_backend.Storage.Interface.{settle}
use esim_backend.Entities.{
  WalletHold, WalletHoldStatus, WalletTransaction, redemption_capture, is_held,
}
use esim_backend.Database.{Database, Db, find_hold}
use esim_backend.Wallets.Transactions.{create_transaction_with_manager}
use esim_backend.Wallets.Holds.{capture_input, capture, capture_hold_for_order}
use esim_backend.Wallets.Capture.{held-is_captured, capture_hold_for_order_idle}

settle_inv :
    {X S A : Type 0} (s : S) (out : Result X A × S) {a : A}
    → (settle s out).0 ≡ ok a
    → (out.0 ≡ ok a) × (settle s out ≡ out)
settle_inv s (ok b, t) e = (e, refl)
settle_inv s (err x, t) e = cc e

module _ ⦃d : Database⦄ where
  -- After a capture, the order's hold is captured.
  capture-find_hold :
      (h : WalletHold) (o now : ℕ) (db : Db) {r : Option WalletTransaction}
      → h.order_id ≡ o
      → (capture h o now db).0 ≡ ok r
      → find_hold o (capture h o now db).1 ≡ some (record h { status = WalletHoldStatus.captured })
  unfolding capture modify pure ◌>>=◌
  capture-find_hold h o now db key done =
      let (t, db', step, done', whole) =
        bind_inv
          (create_transaction_with_manager h.user_id redemption_capture (neg h.amount_vnd)
            (capture_input o) now)
          _ db done in
      subst (λ out. find_hold o out.1 ≡ some (record h { status = WalletHoldStatus.captured }))
        (sym whole)
        (d.repositories.hold.find_one-save o (record h { status = WalletHoldStatus.captured }) _
          ∙ rw (key, ==_refl o) refl)

  held_step :
      (o now : ℕ) (db : Db) (h : WalletHold)
      → find_hold o db ≡ some h
      → is_held h.status ≡ true
      → capture_hold_for_order o now db ≡ settle db (capture h o now db)
  unfolding capture_hold_for_order ◌>>=◌
  held_step o now db h found waits =
      rw (d.source.transaction_lem, found, held-is_captured h.status waits, waits) refl

  -- After a capture that did not throw, the order has no hold that is held.
  unheld_after :
      (o now : ℕ) (db : Db) {r : Option WalletTransaction}
      → (capture_hold_for_order o now db).0 ≡ ok r
      → (x : WalletHold) → find_hold o (capture_hold_for_order o now db).1 ≡ some x
      → is_held x.status ≡ false
  unheld_after o now db {r} done x there = elim (Option-cases (find_hold o db)) [
    | inl e ↦
        let same = capture_hold_for_order_idle o now db (λ h e'. cc (e, e')) in
        cc (e, ap (λ out. find_hold o out.1) same, there)
    | inr (h, e) ↦ elim (Bool-cases (is_held h.status)) [
      | inl waits ↦
          let step = held_step o now db h e waits in
          let (done', same) =
            settle_inv db (capture h o now db) (ap (λ out. out.0) (sym step) ∙ done) in
          let captured =
            capture-find_hold h o now db (d.repositories.hold.find_one-key o h db.holds e) done' in
          let is_x = sym captured ∙ ap (λ out. find_hold o out.1) (sym (step ∙ same)) ∙ there in
          now_captured x h is_x
      | inr other ↦
          let same =
            capture_hold_for_order_idle o now db (λ h' e'. ap is_held_of (sym e' ∙ e) ∙ other) in
          ap is_held_of (sym there ∙ ap (λ out. find_hold o out.1) same ∙ e) ∙ other
    ]
  ]
    where
      is_held_of : Option WalletHold → Bool
      is_held_of none = false
      is_held_of (some h) = is_held h.status

      now_captured :
          (x h : WalletHold)
          → some (record h { status = WalletHoldStatus.captured }) ≡ some x
          → is_held x.status ≡ false
      now_captured x h e = ap is_held_of (sym e)

  -- The hold of an order is captured at most once: after a call of `captureHoldForOrder` that did not throw,
  -- whatever it found, a second call, at any time, returns no transaction and changes nothing.
  pub capture_hold_for_order_once :
      (o now now' : ℕ) (db : Db) {r : Option WalletTransaction}
      → (capture_hold_for_order o now db).0 ≡ ok r
      → let db' = (capture_hold_for_order o now db).1 in
        capture_hold_for_order o now' db' ≡ (ok none, db')
  capture_hold_for_order_once o now now' db done =
      capture_hold_for_order_idle o now' _ (unheld_after o now db done)
