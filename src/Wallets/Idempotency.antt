-- ===== src/Wallets/Idempotency.antt =====
-- What one call of `createTransaction` does, and that an idempotency key is charged once.
use esim_backend.Base.{
  ℕ, ◌≡◌, ◌≢◌, ◌∷◌, none, some, inl, inr, ok, err, ◌>>=◌, Option-cases, arith, ◌==◌, if◌then◌else◌,
  refl, subst, sym, Result,
}
use esim_backend.Base.Int.{ℤ, pos, ◌+ℤ◌, eqb_ℤ_ne}
use esim_backend.Entities.{WalletTransaction, WalletTransactionType, IdempotencyKey}
use esim_backend.Storage.Interface.{settle}
use esim_backend.Database.{Database, Db, find_transaction, find_wallet}
use esim_backend.Wallets.Transactions.{
  WalletTransactionInput, find_existing, create_transaction, create_transaction_with_manager,
}
use esim_backend.Wallets.Ledger.{
  balance, after, posted, balance-post_transaction, post_transaction_ok,
  transactions-post_transaction,
}

settle_ok :
    {X S A : Type 0} (s : S) {a : A} (out : Result X A × S)
    → out.0 ≡ ok a
    → settle s out ≡ (ok a, out.1)
settle_ok s (ok a, s') h = ground (arith, h)
settle_ok s (err e, s') h = cc

ok_pair : {X S A : Type 0} {a : A} (out : Result X A × S) → out.0 ≡ ok a → out ≡ (ok a, out.1)
ok_pair (ok a, s) h = ground (arith, h)
ok_pair (err e, s) h = cc

module _ ⦃d : Database⦄ where
  open d.repositories.transaction use {find, find-insert, find_one-insert_self}

  module _ (u : ℕ) (type : WalletTransactionType) (a : ℤ) (i : WalletTransactionInput) (now : ℕ)
      (db : Db) where
    -- A key that is known: the transaction that was posted under it, and no change.
    create_transaction_known :
        (t : WalletTransaction)
        → a ≢ pos 0
        → find_existing i.idempotency_key db ≡ some t
        → create_transaction u type a i now db ≡ (ok t, db)
    unfolding create_transaction create_transaction_with_manager ◌>>=◌
    create_transaction_known t nonzero e =
        rw (d.source.transaction_lem, eqb_ℤ_ne a (pos 0) nonzero, e) refl

    -- A key that is new, or no key: the wallet is charged.
    pub create_transaction_with_manager_new :
        a ≢ pos 0
        → find_existing i.idempotency_key db ≡ none
        → create_transaction_with_manager u type a i now db
          ≡ (ok (posted u type a i now db), after u type a i now db)
    unfolding create_transaction_with_manager ◌>>=◌
    create_transaction_with_manager_new nonzero e =
        rw (eqb_ℤ_ne a (pos 0) nonzero, e) (ok_pair _ (post_transaction_ok u type a i now db))

    create_transaction_new :
        a ≢ pos 0
        → find_existing i.idempotency_key db ≡ none
        → create_transaction u type a i now db
          ≡ (ok (posted u type a i now db), after u type a i now db)
    unfolding create_transaction create_transaction_with_manager ◌>>=◌
    create_transaction_new nonzero e =
        rw (d.source.transaction_lem, eqb_ℤ_ne a (pos 0) nonzero, e)
          (settle_ok db _ (post_transaction_ok u type a i now db))

  find_transaction-after :
      (u : ℕ) (type : WalletTransactionType) (a : ℤ) (i : WalletTransactionInput) (now : ℕ)
      (db : Db) (k : IdempotencyKey)
      → i.idempotency_key ≡ some k
      → find_transaction k (after u type a i now db) ≡ some (posted u type a i now db)
  find_transaction-after u type a i now db k e =
      subst (λ t. d.repositories.transaction.find_one k t ≡ some (posted u type a i now db))
        (sym (transactions-post_transaction u type a i now db))
        (find_one-insert_self k (posted u type a i now db) db.transactions e)

  -- A transaction with an idempotency key is posted once: after any first call with a key, every later
  -- call with that key (for whatever user, type, time and non-zero amount) returns the transaction of
  -- the first call and changes nothing.
  pub create_transaction_once :
      (k : IdempotencyKey) (u : ℕ) (type : WalletTransactionType) (a : ℤ)
      (i : WalletTransactionInput) (now : ℕ) (v : ℕ) (type' : WalletTransactionType) (b : ℤ)
      (j : WalletTransactionInput) (later : ℕ) (db : Db)
      → i.idempotency_key ≡ some k
      → j.idempotency_key ≡ some k
      → a ≢ pos 0
      → b ≢ pos 0
      → create_transaction v type' b j later (create_transaction u type a i now db).1
        ≡ create_transaction u type a i now db
  create_transaction_once k u type a i now v type' b j later db hi hj ha hb =
      elim (Option-cases (find_transaction k db)) [
        | inl e ↦ rw (create_transaction_new u type a i now db ha (rw hi e)) (
            create_transaction_known v type' b j later _ _ hb
              (rw hj (find_transaction-after u type a i now db k hi)))
        | inr (t, e) ↦
            rw (create_transaction_known u type a i now db t ha (rw hi e))
              (create_transaction_known v type' b j later db t hb (rw hj e))
      ]

  posted-balance_after :
      (u : ℕ) (type : WalletTransactionType) (a : ℤ) (i : WalletTransactionInput) (now : ℕ)
      (db : Db)
      → (posted u type a i now db).balance_after_vnd ≡ balance u db +ℤ a
  posted-balance_after u type a i now db = elim (Option-cases (find_wallet u db)) [
    | inl e ↦ rw (e, balance, posted)
    | inr (w, e) ↦ rw (e, balance, posted)
  ]

  -- A call with a non-zero amount and a new key (or none) returns a transaction of the user over exactly
  -- that amount and with the user's new balance, puts it at the head of the ledger, adds the amount to
  -- the user's balance and leaves every other balance alone.
  pub create_transaction_effect :
      (u : ℕ) (type : WalletTransactionType) (a : ℤ) (i : WalletTransactionInput) (now : ℕ)
      (db : Db)
      → find_existing i.idempotency_key db ≡ none
      → a ≢ pos 0
      → (t : WalletTransaction) × ((create_transaction u type a i now db).0 ≡ ok t)
        × (t.user_id ≡ u)
        × (t.amount_vnd ≡ a)
        × (t.balance_after_vnd ≡ balance u db +ℤ a)
        × (find (create_transaction u type a i now db).1.transactions ≡ t ∷ find db.transactions)
        × ((v : ℕ)
            → balance v (create_transaction u type a i now db).1
              ≡ (if v == u then balance u db +ℤ a else balance v db))
  create_transaction_effect u type a i now db e nonzero =
      rw (create_transaction_new u type a i now db nonzero e) (
        posted u type a i now db,
        refl,
        refl,
        refl,
        posted-balance_after u type a i now db,
        rw (transactions-post_transaction u type a i now db)
            (find-insert (posted u type a i now db) db.transactions),
        balance-post_transaction u type a i now db,
      )
