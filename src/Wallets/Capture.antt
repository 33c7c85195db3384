-- ===== src/Wallets/Capture.antt =====
-- What the payment of an order takes from the wallet: `captureHoldForOrder`, on every status of the hold.
use esim_backend.Base.{
  ℕ, ◌≡◌, ◌≢◌, refl, ◌∙◌, true, false, none, some, inl, inr, ok, Option-cases, Bool-cases, ◌>>=◌,
  ◌==◌, ==_refl, if◌then◌else◌, arith,
}
use esim_backend.Base.Int.{ℤ, pos, ◌+ℤ◌, ◌-ℤ◌, neg, int_laws}
use esim_backend.Entities.{
  WalletHold, WalletHoldStatus, WalletTransaction, redemption_capture, IdempotencyKey, is_held,
  is_captured,
}
use esim_backend.Database.{Database, Db, find_hold, find_transaction, save_hold}
use esim_backend.Wallets.Holds.{capture_input, capture, capture_hold_for_order}
use esim_backend.Wallets.Ledger.{balance, after, posted, balance-post_transaction}
use esim_backend.Wallets.Idempotency.{create_transaction_with_manager_new}

pub held-is_captured : (s : WalletHoldStatus) → is_held s ≡ true → is_captured s ≡ false
held-is_captured s h = ground arith

neg_ne : (a : ℤ) → a ≢ pos 0 → neg a ≢ pos 0
neg_ne a h e = h (grind (int_laws, e))

+ℤ_neg : (a b : ℤ) → a +ℤ neg b ≡ a -ℤ b
+ℤ_neg a b = omega int_laws

module _ ⦃d : Database⦄ where
  -- `captureHoldForOrder` debits nothing and changes nothing where the order has no hold that is held:
  -- a hold that has been captured is not captured again, and one that has been released or has expired
  -- is not captured at all.
  pub capture_hold_for_order_idle :
      (o now : ℕ) (db : Db)
      → ((h : WalletHold) → find_hold o db ≡ some h → is_held h.status ≡ false)
      → capture_hold_for_order o now db ≡ (ok none, db)
  unfolding capture_hold_for_order ◌>>=◌
  capture_hold_for_order_idle o now db unheld = elim (Option-cases (find_hold o db)) [
    | inl e ↦ rw (d.source.transaction_lem, e) refl
    | inr (h, e) ↦ elim (Bool-cases (is_captured h.status)) [
      | inl done ↦ rw (d.source.transaction_lem, e, done) refl
      | inr other ↦ rw (d.source.transaction_lem, e, other, unheld h e) refl
    ]
  ]

  module _ (o now : ℕ) (db : Db) (h : WalletHold) where
    capture_runs :
        find_transaction (IdempotencyKey.redemption_capture o) db ≡ none
        → neg h.amount_vnd ≢ pos 0
        → capture h o now db ≡ (
          ok (
              some
                (posted h.user_id redemption_capture (neg h.amount_vnd) (capture_input o) now db)),
          save_hold
              (record h { status = WalletHoldStatus.captured })
              (after h.user_id redemption_capture (neg h.amount_vnd) (capture_input o) now db),
        )
    unfolding capture ◌>>=◌
    capture_runs fresh nonzero =
        rw
          (create_transaction_with_manager_new h.user_id redemption_capture (neg h.amount_vnd)
            (capture_input o) now db nonzero fresh)
          refl

    capture_hold_for_order_runs :
        find_hold o db ≡ some h
        → is_held h.status ≡ true
        → find_transaction (IdempotencyKey.redemption_capture o) db ≡ none
        → h.amount_vnd ≢ pos 0
        → capture_hold_for_order o now db ≡ (
          ok (
              some
                (posted h.user_id redemption_capture (neg h.amount_vnd) (capture_input o) now db)),
          save_hold
              (record h { status = WalletHoldStatus.captured })
              (after h.user_id redemption_capture (neg h.amount_vnd) (capture_input o) now db),
        )
    unfolding capture_hold_for_order ◌>>=◌
    capture_hold_for_order_runs found waits fresh nonzero =
        rw
          (
            d.source.transaction_lem,
            found,
            held-is_captured h.status waits,
            waits,
            capture_runs fresh (neg_ne h.amount_vnd nonzero),
          )
          refl

    -- `captureHoldForOrder` on a hold that is held: a transaction over exactly the amount of the hold is
    -- posted, the buyer's balance falls by it and no other balance changes, and the hold is captured.
    pub capture_hold_for_order_held :
        find_hold o db ≡ some h
        → is_held h.status ≡ true
        → find_transaction (IdempotencyKey.redemption_capture o) db ≡ none
        → h.amount_vnd ≢ pos 0
        → let out = capture_hold_for_order o now db in
          (t : WalletTransaction) × (out.0 ≡ ok (some t))
          × (t.amount_vnd ≡ neg h.amount_vnd)
          × (find_hold o out.1 ≡ some (record h { status = WalletHoldStatus.captured }))
          × ((v : ℕ)
              → balance v out.1
                ≡ (if v == h.user_id then balance h.user_id db -ℤ h.amount_vnd else balance v db))
    capture_hold_for_order_held found waits fresh nonzero =
        rw (capture_hold_for_order_runs found waits fresh nonzero) (
          posted h.user_id redemption_capture (neg h.amount_vnd) (capture_input o) now db,
          refl,
          refl,
          d.repositories.hold.find_one-save o (record h { status = WalletHoldStatus.captured }) _
              ∙ rw (d.repositories.hold.find_one-key o h db.holds found, ==_refl o) refl,
          λ v.
              balance-post_transaction h.user_id redemption_capture (neg h.amount_vnd)
                (capture_input o) now db v
              ∙ rw (+ℤ_neg (balance h.user_id db) h.amount_vnd) refl,
        )
