-- ===== src/Wallets/Opened.antt =====
-- The wallet that a method opens on the way, and what opening it leaves as it was.
use esim_backend.Base.{ℕ, ◌≡◌, none, some, inl, inr, ok, Option-cases, arith, refl, ap}
use esim_backend.Entities.{UserWallet}
use esim_backend.Database.{Database, Db, find_wallet, save_wallet}
use esim_backend.Wallets.Transactions.{new_wallet, get_or_create_wallet_with_manager}
use esim_backend.Wallets.Holds.{open_holds, is_open_hold}
use esim_backend.Wallets.Ledger.{balance}

module _ ⦃d : Database⦄ where
  -- The wallet that `getOrCreateWallet` returns, and the tables that it leaves.
  abbrev pub wallet_of : ℕ → Db → UserWallet
  wallet_of u db = elim (find_wallet u db) [ none ↦ new_wallet u db | some w ↦ w ]

  abbrev pub opened : ℕ → Db → Db
  opened u db = elim (find_wallet u db) [ none ↦ save_wallet (new_wallet u db) db | some w ↦ db ]

  pub get_or_create_wallet_lem :
      (u : ℕ) (db : Db)
      → get_or_create_wallet_with_manager u db ≡ (ok (wallet_of u db), opened u db)
  unfolding get_or_create_wallet_with_manager
  get_or_create_wallet_lem u db = elim (Option-cases (find_wallet u db)) [
    | inl e ↦ ground arith
    | inr (w, e) ↦ ground arith
  ]

  find_wallet-opened : (u : ℕ) (db : Db) → find_wallet u (opened u db) ≡ some (wallet_of u db)
  find_wallet-opened u db = elim (Option-cases (find_wallet u db)) [
    | inl e ↦ grind (arith, d.repositories.wallet.find_one-save)
    | inr (w, e) ↦ grind arith
  ]

  pub holds-opened : (u : ℕ) (db : Db) → (opened u db).holds ≡ db.holds
  holds-opened u db = elim (Option-cases (find_wallet u db)) [
    | inl e ↦ grind arith
    | inr (w, e) ↦ grind arith
  ]

  pub open_holds-opened :
      (v now u : ℕ) (db : Db) → open_holds v now (opened u db) ≡ open_holds v now db
  open_holds-opened v now u db =
      ap (λ t. d.repositories.hold.sum (is_open_hold v now) (λ h. h.amount_vnd) t)
        (holds-opened u db)

  pub wallet_of-opened : (u : ℕ) (db : Db) → wallet_of u (opened u db) ≡ wallet_of u db
  wallet_of-opened u db = rw (find_wallet-opened u db, wallet_of) refl

  pub opened_idem : (u : ℕ) (db : Db) → opened u (opened u db) ≡ opened u db
  opened_idem u db = rw (find_wallet-opened u db, opened) refl

  pub balance-opened : (v u : ℕ) (db : Db) → balance v (opened u db) ≡ balance v db
  balance-opened v u db = elim (Option-cases (find_wallet u db)) [
    | inl e ↦ grind (arith, d.repositories.wallet.find_one-save)
    | inr (w, e) ↦ grind arith
  ]

  pub balance-wallet_of : (u : ℕ) (db : Db) → balance u db ≡ (wallet_of u db).balance_vnd
  balance-wallet_of u db = elim (Option-cases (find_wallet u db)) [
    | inl e ↦ rw (e, balance, wallet_of)
    | inr (w, e) ↦ rw (e, balance, wallet_of)
  ]
