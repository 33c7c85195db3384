-- ===== src/Wallets/Ledger.antt =====
-- The ledger behind every balance: what `createTransactionWithManager` changes, and the invariant that
-- a wallet's balance is the sum of its user's transactions.
use esim_backend.Base.{
  ℕ, ◌≡◌, List, [], ◌∷◌, none, some, inl, inr, ok, ◌==◌, ◌>>=◌, if◌then◌else◌, Option-cases, arith,
}
use esim_backend.Base.Int.{ℤ, pos, ◌+ℤ◌, int_laws}
use esim_backend.Base.Keeps.{Keeps, keeps_rules}
use esim_backend.Entities.{UserWallet, WalletTransaction, WalletTransactionType}
use esim_backend.Database.{Database, Db, find_wallet, Keeps-transactional}
use esim_backend.Wallets.Transactions.{
  WalletTransactionInput, new_wallet, new_transaction, get_or_create_wallet_with_manager,
  post_transaction, create_transaction, create_transaction_with_manager,
}

module _ ⦃d : Database⦄ where
  open d.repositories.wallet use {find_one-save, find_one-key}
  open d.repositories.transaction use {find, find-insert, next_id}

  -- What the wallet of a user holds; a user with no wallet has nothing.
  abbrev pub balance : ℕ → Db → ℤ
  balance user_id db = elim (find_wallet user_id db) [ none ↦ pos 0 | some w ↦ w.balance_vnd ]

  -- The sum of a user's transactions.
  abbrev pub total : ℕ → List WalletTransaction → ℤ
  total user_id [] = pos 0
  total user_id (t ∷ ts) =
      (if user_id == t.user_id then t.amount_vnd else pos 0) +ℤ total user_id ts

  -- Every balance is the sum of the user's transactions.
  pub record IsBalanced (db : Db) : Type 0 where
    pub at_user : (user_id : ℕ) → balance user_id db ≡ total user_id (find db.transactions)

  module _ (u : ℕ) (type : WalletTransactionType) (a : ℤ) (i : WalletTransactionInput) (now : ℕ)
      (db : Db) where
    abbrev pub after : Db
    after = (post_transaction u type a i now db).1

    -- The row that is inserted.
    abbrev pub posted : WalletTransaction
    posted =
        let wallet : UserWallet = elim (find_wallet u db) [ none ↦ new_wallet u db | some w ↦ w ] in
        new_transaction (next_id db.transactions) wallet u type a i

    pub balance-post_transaction :
        (v : ℕ) → balance v after ≡ (if v == u then balance u db +ℤ a else balance v db)
    unfolding ◌>>=◌ post_transaction get_or_create_wallet_with_manager
    balance-post_transaction v = elim (Option-cases (find_wallet u db)) [
      | inl e ↦ grind (int_laws, find_one-save)
      | inr (w, e) ↦ grind (int_laws, find_one-save, find_one-key u w db.wallets e)
    ]

    pub post_transaction_ok : (post_transaction u type a i now db).0 ≡ ok posted
    unfolding ◌>>=◌ post_transaction get_or_create_wallet_with_manager
    post_transaction_ok = elim (Option-cases (find_wallet u db)) [
      | inl e ↦ ground arith
      | inr (w, e) ↦ ground arith
    ]

    pub transactions-post_transaction :
        after.transactions ≡ d.repositories.transaction.insert posted db.transactions
    unfolding ◌>>=◌ post_transaction get_or_create_wallet_with_manager
    transactions-post_transaction = elim (Option-cases (find_wallet u db)) [
      | inl e ↦ ground arith
      | inr (w, e) ↦ ground arith
    ]

  pub Keeps-post_transaction :
      (u : ℕ) (type : WalletTransactionType) (a : ℤ) (i : WalletTransactionInput) (now : ℕ)
      → Keeps IsBalanced (post_transaction u type a i now)
  Keeps-post_transaction u type a i now = record {
    kept = λ db h. record {
      at_user = λ v.
          rw
            (
              transactions-post_transaction u type a i now db,
              find-insert,
              balance-post_transaction u type a i now db v,
            )
            (grind (int_laws, h.at_user v, h.at_user u));
    };
  }

  pub Keeps-get_or_create_wallet_with_manager :
      (u : ℕ) → Keeps IsBalanced (get_or_create_wallet_with_manager u)
  unfolding get_or_create_wallet_with_manager
  Keeps-get_or_create_wallet_with_manager u = record {
    kept = λ db h. record {
      at_user = λ v. elim (Option-cases (find_wallet u db)) [
        | inl e ↦ grind (arith, find_one-save, h.at_user v)
        | inr (w, e) ↦ grind (arith, h.at_user v)
      ];
    };
  }

  pub Keeps-create_transaction_with_manager :
      (u : ℕ) (type : WalletTransactionType) (a : ℤ) (i : WalletTransactionInput) (now : ℕ)
      → Keeps IsBalanced (create_transaction_with_manager u type a i now)
  unfolding create_transaction_with_manager
  Keeps-create_transaction_with_manager u type a i now =
      search (keeps_rules, Keeps-post_transaction)

  pub Keeps-create_transaction :
      (u : ℕ) (type : WalletTransactionType) (a : ℤ) (i : WalletTransactionInput) (now : ℕ)
      → Keeps IsBalanced (create_transaction u type a i now)
  unfolding create_transaction
  Keeps-create_transaction u type a i now =
      Keeps-transactional _ (Keeps-create_transaction_with_manager u type a i now)

  pub ruleset balanced_rules = (
    keeps_rules, Keeps-transactional, Keeps-post_transaction, Keeps-create_transaction,
    Keeps-create_transaction_with_manager, Keeps-get_or_create_wallet_with_manager,
  )
