-- ===== src/Wallets/Refunded.antt =====
-- What a refund leaves of its order.
use esim_backend.Base.{
  none, some, Option, Result, attempt, pure, ◌>>◌, ℕ, ◌≡◌, refl, sym, subst, ◌∙◌, true, inl, inr,
  ok, modify, Action, Bool-cases, ◌>>=◌, ◌==◌, ==_refl, if◌then◌else◌,
}
use esim_backend.Base.Int.{ℤ, pos, ◌+ℤ◌, ◌≤ℤ◌}
use esim_backend.Base.Keeps.{Keeps, keeps_rules, Keeps-throw_if}
use esim_backend.Base.Stepping.{bind_inv}
use esim_backend.Entities.{
  Order, OrderStatus, OrderRefundStatus, OrderReferral, OrderRefund, UserWallet, WalletTransaction,
  WalletTransactionType, is_refundable,
}
use esim_backend.Database.{
  Database, Db, Exception, find_order, find_wallet, update_order, save_order_referral,
  save_order_refund, save_wallet, insert_transaction, mark_refunded_by_order_id,
  Keeps-transactional,
}
use esim_backend.Wallets.Transactions.{
  WalletTransactionInput, new_wallet, get_or_create_wallet_with_manager, post_transaction,
  create_transaction_with_manager, create_transaction,
}
use esim_backend.Wallets.Refunds.{
  RefundOrderDto, total_order_value, create_refund, reverse_cashback, reverse_referral, return_exu,
  refund_cash_to_wallet, record_refund, refund_order,
}
use esim_backend.Wallets.Guards.{refund_order-le_total}

module _ {X S A B : Type 0} (I Q : S → Type 0) where
  -- What the rest of a block leaves, where its first step keeps an invariant.
  bind_post :
      (m : Action X S A) (f : A → Action X S B) (s : S) {b : B}
      → Keeps I m
      → I s
      → ((a : A) (s' : S) → I s' → (f a s').0 ≡ ok b → Q (f a s').1)
      → ((m >>= f) s).0 ≡ ok b
      → Q ((m >>= f) s).1
  bind_post m f s k inv rest done =
      let (a, s', step, done', whole) = bind_inv m f s done in
      subst (λ out. Q out.1) (sym whole)
        (rest a s' (subst (λ out. I out.1) step (k.kept s inv)) done')

module _ ⦃d : Database⦄ (o : ℕ) (value : ℤ) where
  -- The order is there, and it is worth the value.
  abbrev HasOrder : Db → Type 0
  HasOrder db = (x : Order) × (find_order o db ≡ some x) × (total_order_value x ≡ value)

  Keeps-save_wallet : (w : UserWallet) → Keeps {X = Exception} HasOrder (modify (save_wallet w))
  unfolding modify
  Keeps-save_wallet w = record { kept = λ db h. h }

  Keeps-insert_transaction :
      (t : WalletTransaction) → Keeps {X = Exception} HasOrder (modify (insert_transaction t))
  unfolding modify
  Keeps-insert_transaction t = record { kept = λ db h. h }

  Keeps-save_order_referral :
      (r : OrderReferral) → Keeps {X = Exception} HasOrder (modify (save_order_referral r))
  unfolding modify
  Keeps-save_order_referral r = record { kept = λ db h. h }

  Keeps-save_order_refund :
      (r : OrderRefund) → Keeps {X = Exception} HasOrder (modify (save_order_refund r))
  unfolding modify
  Keeps-save_order_refund r = record { kept = λ db h. h }

  Keeps-reversed_at :
      (id now : ℕ)
      → Keeps {X = Exception} HasOrder
          (modify (update_order id λ x. record x { cashback_reversed_at = some now }))
  unfolding modify total_order_value
  Keeps-reversed_at id now = record {
    kept = λ db (x, found, worth). (
      if x.id == id then record x { cashback_reversed_at = some now } else x,
      d.repositories.order.find_one-update o (λ y. y.id == id)
            (λ y. record y { cashback_reversed_at = some now }) db.orders (λ e. refl)
          ∙ rw found refl,
      elim (Bool-cases (x.id == id)) [ inl same ↦ rw same worth | inr other ↦ rw other worth ],
    );
  }

  Keeps-wallet : (u : ℕ) → Keeps HasOrder (get_or_create_wallet_with_manager u)
  unfolding get_or_create_wallet_with_manager
  Keeps-wallet u = record { kept = λ db h. by_wallet (find_wallet u db) db h }
    where
      by_wallet :
          (w : Option UserWallet) (db : Db)
          → HasOrder db
          → HasOrder
              (elim w as (λ _. Result Exception UserWallet × Db) [
                | none ↦ (ok (new_wallet u db), save_wallet (new_wallet u db) db)
                | some wallet ↦ (ok wallet, db)
              ]).1
      by_wallet none db h = h
      by_wallet (some w) db h = h

  Keeps-create_transaction :
      (u : ℕ) (type : WalletTransactionType) (a : ℤ) (i : WalletTransactionInput) (now : ℕ)
      → Keeps HasOrder (create_transaction u type a i now)
  unfolding create_transaction create_transaction_with_manager post_transaction
  Keeps-create_transaction u type a i now =
      search
        (
          keeps_rules, Keeps-transactional, Keeps-wallet, Keeps-save_wallet,
          Keeps-insert_transaction,
        )
        depth 16

  ruleset order_rules = (
    keeps_rules, Keeps-create_transaction, Keeps-save_order_referral, Keeps-save_order_refund,
    Keeps-reversed_at,
  )

  Keeps-create_refund :
      (x : Order) (dto : RefundOrderDto) (admin : ℕ) → Keeps HasOrder (create_refund x dto admin)
  unfolding create_refund
  Keeps-create_refund x dto admin = search order_rules depth 10

  Keeps-reverse_cashback :
      (x : Order) (admin now : ℕ) → Keeps HasOrder (reverse_cashback x admin now)
  unfolding reverse_cashback
  Keeps-reverse_cashback x admin now = search order_rules depth 10

  Keeps-reverse_referral :
      (x : Order) (admin now : ℕ) → Keeps HasOrder (reverse_referral x admin now)
  unfolding reverse_referral
  Keeps-reverse_referral x admin now = search order_rules depth 12

  Keeps-return_exu :
      (x : Order) (r : OrderRefund) (a : ℤ) (admin now : ℕ)
      → Keeps HasOrder (return_exu x r a admin now)
  unfolding return_exu
  Keeps-return_exu x r a admin now = search order_rules depth 10

  Keeps-refund_cash_to_wallet :
      (x : Order) (r : OrderRefund) (dto : RefundOrderDto) (a : ℤ) (admin now : ℕ)
      → Keeps HasOrder (refund_cash_to_wallet x r dto a admin now)
  unfolding refund_cash_to_wallet
  Keeps-refund_cash_to_wallet x r dto a admin now = search order_rules depth 12

-- The stored order after a refund: refunded, with the amount added to what has been refunded before, and
-- not more than the order was worth.
pub record IsRefunded ⦃d : Database⦄ (order : Order) (amount : ℤ) (db : Db) : Type 0 where
  pub stored : Order
  pub found : find_order order.id db ≡ some stored
  pub refunded : stored.status ≡ OrderStatus.refunded
  pub added : stored.refunded_amount_vnd ≡ order.refunded_amount_vnd +ℤ amount
  pub worth : total_order_value stored ≡ total_order_value order
  pub within : stored.refunded_amount_vnd ≤ℤ total_order_value stored

module _ ⦃d : Database⦄ (order : Order) (amount : ℤ) where
  -- The last steps, with the order there.
  record_refund-IsRefunded :
      (r : OrderRefund) (db : Db)
      → order.refunded_amount_vnd +ℤ amount ≤ℤ total_order_value order
      → HasOrder order.id (total_order_value order) db
      → IsRefunded order amount
          ((record_refund order amount >> (attempt (mark_refunded_by_order_id order.id) >> pure r))
            db).1
  unfolding record_refund modify attempt pure total_order_value ◌>>=◌
  record_refund-IsRefunded r db within (x, found, worth) = record {
    stored = record x {
      status = OrderStatus.refunded;
      refund_status = some OrderRefundStatus.completed;
      refunded_amount_vnd = order.refunded_amount_vnd +ℤ amount;
    };
    found =
        d.repositories.order.find_one-update order.id (λ y. y.id == order.id) _ db.orders
          (λ e. refl)
        ∙ rw (found, d.repositories.order.find_one-key order.id x db.orders found, ==_refl order.id)
            refl;
    refunded = refl;
    added = refl;
    worth = worth;
    within = subst (λ v. order.refunded_amount_vnd +ℤ amount ≤ℤ v) (sym worth) within;
  }

module _ ⦃d : Database⦄ where
  -- `refundOrder` of an order as it is stored, where it succeeds: the order was paid or refunded and the
  -- amount is not negative, and the stored order is then refunded, with the amount added to what has been
  -- refunded before it, and that is not more than the order's value in cash and eXu, which stays the same.
  pub refund_order-IsRefunded :
      (order : Order) (dto : RefundOrderDto) (admin now : ℕ) (db : Db) {r : OrderRefund}
      → find_order order.id db ≡ some order
      → (refund_order order dto admin now db).0 ≡ ok r
      → (is_refundable order.status ≡ true)
        × (pos 0 ≤ℤ dto.amount_vnd)
        × IsRefunded order dto.amount_vnd (refund_order order dto admin now db).1
  unfolding refund_order
  refund_order-IsRefunded order dto admin now db found done =
      let (refundable, signed, within) = refund_order-le_total order dto admin now db done in
      let I = HasOrder order.id (total_order_value order) in
      let Q = IsRefunded order dto.amount_vnd in
      (
        refundable,
        signed,
        bind_post I Q _ _ db (Keeps-throw_if _ _) (order, found, refl)
            (λ _ s1 h1. bind_post I Q _ _ s1 (Keeps-throw_if _ _) h1 (λ _ s2 h2.
              bind_post I Q _ _ s2 (Keeps-throw_if _ _) h2 (λ _ s3 h3.
                bind_post I Q _ _ s3 (Keeps-create_refund _ _ order dto admin) h3 (λ refund s4 h4.
                  bind_post I Q _ _ s4 (Keeps-reverse_cashback _ _ order admin now) h4 (λ _ s5 h5.
                    bind_post I Q _ _ s5 (Keeps-reverse_referral _ _ order admin now) h5 (λ _ s6 h6.
                      bind_post I Q _ _ s6 (Keeps-return_exu _ _ order refund _ admin now) h6
                        (λ _ s7 h7.
                          bind_post I Q _ _ s7
                            (Keeps-refund_cash_to_wallet _ _ order refund dto _ admin now) h7
                            (λ linked s8 h8 _.
                              record_refund-IsRefunded order dto.amount_vnd linked s8 within
                                h8))))))))
            done,
      )
