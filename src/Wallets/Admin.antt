-- ===== src/Wallets/Admin.antt =====
-- The administrator's operations on a wallet, its expiry job and its read side.
use Prim.Native.String.{String}
use esim_backend.Base.{
  ℕ, zero, suc, ◌-◌, ◌+◌, ◌/◌, ◌&&◌, Option, none, some, List, [], ◌∷◌, ⊤, pure, gets, modify,
  throw_if, for_each, ◌>>=◌, ◌>>◌, ◌==◌, if◌then◌else◌,
}
use esim_backend.Base.Int.{ℤ, pos, neg, ltb_ℤ, leb_ℤ, eqb_ℤ, pos_part, max_ℤ, min_ℤ}
use esim_backend.Entities.{
  UserWallet, WalletTransaction, WalletStatus, manual_credit, manual_debit, manual_cancel,
  expiry_debit, is_active, Source, IdempotencyKey,
}
use esim_backend.Database.{Database, Service, zero_adjustment, save_wallet}
use esim_backend.Wallets.Transactions.{
  WalletTransactionInput, milliseconds_per_day, get_or_create_wallet, create_transaction,
}
use esim_backend.Wallets.Holds.{is_past, get_available_balance}

abbrev pub admin_input : Option String → ℕ → WalletTransactionInput
admin_input reason admin_id = record {
  source = some (Source.admin admin_id);
  order_id = none;
  ref_user_id = none;
  idempotency_key = none;
  reason = reason;
  created_by_admin_id = some admin_id;
}

-- `wallet.expiresAt?.toISOString() ?? String(wallet.id)`
abbrev pub expiry_source : UserWallet → Option ℕ → Source
expiry_source wallet none = Source.expiry_of_wallet wallet.id
expiry_source wallet (some date) = Source.expiry date

abbrev pub expiry_input : UserWallet → WalletTransactionInput
expiry_input wallet = record {
  source = some (expiry_source wallet wallet.expires_at);
  order_id = none;
  ref_user_id = none;
  idempotency_key = some (IdempotencyKey.wallet_expiry wallet.id wallet.expires_at);
  reason = some "eXu expired after 365 days";
  created_by_admin_id = none;
}

-- `expiresAt ? Math.max(0, Math.ceil((expiresAt - now) / day)) : null`
unfoldable pub days_left : Option ℕ → ℕ → Option ℕ
days_left none now = none
days_left (some date) now = some ((date - now + (milliseconds_per_day - 1)) / milliseconds_per_day)

-- `Math.min(Math.max(Number(limit) || fallback, 1), cap)`; `none` is NaN.
unfoldable pub page_size : ℤ → ℤ → Option ℤ → ℕ
page_size fallback cap none = pos_part (min_ℤ (max_ℤ fallback (pos 1)) cap)
page_size fallback cap (some limit) =
    pos_part (min_ℤ (max_ℤ (if eqb_ℤ limit (pos 0) then fallback else limit) (pos 1)) cap)

-- `find({ where: { userId }, take })` over the rows, newest first
unfoldable pub take_of_user : ℕ → ℕ → List WalletTransaction → List WalletTransaction
take_of_user user_id zero rows = []
take_of_user user_id (suc n) [] = []
take_of_user user_id (suc n) (t ∷ rows) =
    let found = t ∷ take_of_user user_id n rows in
    let rest = take_of_user user_id (suc n) rows in if t.user_id == user_id then found else rest

pub record WalletSummary : Type 0 where
  pub balance_vnd : ℤ
  pub available_balance_vnd : ℤ
  pub status : WalletStatus
  pub expires_at : Option ℕ
  pub days_left : Option ℕ

module _ ⦃d : Database⦄ where
  unfoldable pub get_wallet_summary : ℕ → ℕ → Service WalletSummary
  get_wallet_summary user_id now = do
    wallet ← get_or_create_wallet user_id
    available ← get_available_balance user_id now
    let summary : WalletSummary = record {
      balance_vnd = wallet.balance_vnd;
      available_balance_vnd = available;
      status = wallet.status;
      expires_at = wallet.expires_at;
      days_left = days_left wallet.expires_at now;
    }
    pure summary

  unfoldable pub get_transactions : ℕ → Option ℤ → Service (List WalletTransaction)
  unfolding page_size take_of_user
  get_transactions user_id limit = gets λ db.
      take_of_user user_id (page_size (pos 50) (pos 100) limit)
        (d.repositories.transaction.find db.transactions)

  unfoldable pub get_transactions_for_admin : ℕ → Option ℤ → Service (List WalletTransaction)
  unfolding page_size take_of_user
  get_transactions_for_admin user_id limit = gets λ db.
      take_of_user user_id (page_size (pos 100) (pos 500) limit)
        (d.repositories.transaction.find db.transactions)

  unfoldable pub admin_adjust_wallet : ℕ → ℤ → Option String → ℕ → ℕ → Service WalletTransaction
  admin_adjust_wallet user_id amount reason admin_id now = do
    throw_if (eqb_ℤ amount (pos 0)) zero_adjustment
    create_transaction user_id (if ltb_ℤ (pos 0) amount then manual_credit else manual_debit) amount
        (admin_input reason admin_id) now

  unfoldable pub cancel_wallet_balance :
      ℕ → Option String → ℕ → ℕ → Service (Option WalletTransaction)
  cancel_wallet_balance user_id reason admin_id now = do
    wallet ← get_or_create_wallet user_id
    if eqb_ℤ wallet.balance_vnd (pos 0) then pure none else (do
      transaction ←
          create_transaction user_id manual_cancel (neg wallet.balance_vnd)
            (admin_input reason admin_id) now
      pure (some transaction))

  unfoldable pub update_wallet_status : ℕ → WalletStatus → Service UserWallet
  update_wallet_status user_id status = do
    wallet ← get_or_create_wallet user_id
    let changed : UserWallet = record wallet { status = status }
    modify (save_wallet changed)
    pure changed

  -- One round of `expireWallets`.
  unfoldable pub expire_wallet : ℕ → UserWallet → Service ⊤
  expire_wallet now wallet = if leb_ℤ wallet.balance_vnd (pos 0) then pure tt else (do
    create_transaction wallet.user_id expiry_debit (neg wallet.balance_vnd) (expiry_input wallet)
        now
    pure tt)

  -- The job that runs at midnight.
  unfoldable pub expire_wallets : ℕ → Service ⊤
  unfolding expire_wallet
  expire_wallets now = do
    wallets ← gets λ db.
        d.repositories.wallet.find (λ w. is_active w.status && is_past w.expires_at now) db.wallets
    for_each wallets (expire_wallet now)
