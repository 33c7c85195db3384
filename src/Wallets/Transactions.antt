-- ===== src/Wallets/Transactions.antt =====
-- The wallet's ledger: `getOrCreateWalletWithManager`, `createTransactionWithManager` and what they
-- call. Every amount that reaches them is integral (`@IsInt()` or a column of scale 0), and
-- `Math.round` leaves it as it is. `now` is what `Date.now()` returns.
use Prim.Native.String.{String}
use esim_backend.Base.{
  ℕ, ◌+◌, ◌*◌, Bool, true, false, Option, none, some, ok, pure, gets, modify, throw_if,
  unless_found, ◌>>=◌, ◌>>◌, if◌then◌else◌,
}
use esim_backend.Base.Int.{ℤ, pos, ◌+ℤ◌, eqb_ℤ, leb_ℤ}
use esim_backend.Entities.{
  UserWallet, WalletTransaction, WalletTransactionType, active, Source, IdempotencyKey,
  order_cashback, referral_reward, refund_to_wallet, manual_credit,
}
use esim_backend.Database.{
  Database, Db, Service, zero_transaction_amount, find_wallet, find_transaction, save_wallet,
  insert_transaction, transactional,
}

abbrev pub exu_expiry_days : ℕ
exu_expiry_days = 365

abbrev pub milliseconds_per_day : ℕ
milliseconds_per_day = 86_400_000

unfoldable pub add_days : ℕ → ℕ → ℕ
add_days date days = date + days * milliseconds_per_day

-- `[ORDER_CASHBACK, REFERRAL_REWARD, REFUND_TO_WALLET, MANUAL_CREDIT].includes(type)`
abbrev pub renews : WalletTransactionType → Bool
renews order_cashback = true
renews referral_reward = true
renews refund_to_wallet = true
renews manual_credit = true
renews _ = false

unfoldable pub should_reset_expiry : WalletTransactionType → ℤ → Bool
should_reset_expiry type amount = if leb_ℤ amount (pos 0) then false else renews type

pub record WalletTransactionInput : Type 0 where
  pub source : Option Source
  pub order_id : Option ℕ
  pub ref_user_id : Option ℕ
  pub idempotency_key : Option IdempotencyKey
  pub reason : Option String
  pub created_by_admin_id : Option ℕ

-- The literals that `walletRepo.create` and `transactionRepo.create` are called with.
abbrev pub new_transaction :
    ℕ → UserWallet → ℕ → WalletTransactionType → ℤ → WalletTransactionInput → WalletTransaction
new_transaction id wallet user_id type amount input = record {
  id = id;
  wallet_id = wallet.id;
  user_id = user_id;
  type = type;
  amount_vnd = amount;
  balance_after_vnd = wallet.balance_vnd +ℤ amount;
  source = input.source;
  order_id = input.order_id;
  ref_user_id = input.ref_user_id;
  idempotency_key = input.idempotency_key;
  reason = input.reason;
  created_by_admin_id = input.created_by_admin_id;
}

module _ ⦃d : Database⦄ where
  abbrev pub new_wallet : ℕ → Db → UserWallet
  new_wallet user_id db = record {
    id = d.repositories.wallet.next_id db.wallets;
    user_id = user_id;
    balance_vnd = pos 0;
    status = active;
    expires_at = none;
  }

  unfoldable pub get_or_create_wallet_with_manager : ℕ → Service UserWallet
  get_or_create_wallet_with_manager user_id db = elim (find_wallet user_id db) [
    | none ↦ let wallet = new_wallet user_id db in (ok wallet, save_wallet wallet db)
    | some wallet ↦ (ok wallet, db)
  ]

  unfoldable pub get_or_create_wallet : ℕ → Service UserWallet
  get_or_create_wallet user_id = transactional (get_or_create_wallet_with_manager user_id)

  -- What follows the look-up of the idempotency key.
  unfoldable pub post_transaction :
      ℕ → WalletTransactionType → ℤ → WalletTransactionInput → ℕ → Service WalletTransaction
  post_transaction user_id type amount input now = do
    wallet ← get_or_create_wallet_with_manager user_id
    let balance_after = wallet.balance_vnd +ℤ amount
    let expires_at =
        if should_reset_expiry type amount
        then some (add_days now exu_expiry_days)
        else wallet.expires_at
    modify (save_wallet (record wallet { balance_vnd = balance_after; expires_at = expires_at }))
    id ← gets (λ db. d.repositories.transaction.next_id db.transactions)
    let transaction = new_transaction id wallet user_id type amount input
    modify (insert_transaction transaction)
    pure transaction

  -- `if (input.idempotencyKey) { … findOne … }`
  abbrev pub find_existing : Option IdempotencyKey → Db → Option WalletTransaction
  find_existing none db = none
  find_existing (some key) db = find_transaction key db

  unfoldable pub create_transaction_with_manager :
      ℕ → WalletTransactionType → ℤ → WalletTransactionInput → ℕ → Service WalletTransaction
  create_transaction_with_manager user_id type amount input now = do
    throw_if (eqb_ℤ amount (pos 0)) zero_transaction_amount
    existing ← gets (find_existing input.idempotency_key)
    unless_found existing (post_transaction user_id type amount input now) pure

  unfoldable pub create_transaction :
      ℕ → WalletTransactionType → ℤ → WalletTransactionInput → ℕ → Service WalletTransaction
  create_transaction user_id type amount input now =
      transactional (create_transaction_with_manager user_id type amount input now)
