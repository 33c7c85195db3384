-- ===== src/Wallets/Holds.antt =====
-- Holds: an open order reserves an amount of its buyer's wallet, which is captured when the order is
-- paid and released when it is not. Column `orderId` is unique.
use esim_backend.Base.{
  ℕ, ◌+◌, ◌*◌, Bool, false, not, ◌&&◌, Option, none, some, ⊤, pure, gets, modify, throw_if,
  unless_found, ◌>>=◌, ◌>>◌, ltb, ◌==◌, if◌then◌else◌,
}
use esim_backend.Base.Int.{ℤ, pos, ◌-ℤ◌, neg, ltb_ℤ, leb_ℤ, max_ℤ}
use esim_backend.Entities.{
  WalletTransaction, WalletHold, held, captured, released, expired, is_active, is_held, is_captured,
  Source, IdempotencyKey, redemption_capture,
}
use esim_backend.Database.{
  Database, Db, Service, wallet_locked, insufficient_balance, find_hold, save_hold, transactional,
}
use esim_backend.Wallets.Transactions.{
  WalletTransactionInput, get_or_create_wallet_with_manager, create_transaction_with_manager,
}

abbrev pub hold_minutes : ℕ
hold_minutes = 30

unfoldable pub add_minutes : ℕ → ℕ → ℕ
add_minutes date minutes = date + minutes * 60 * 1000

-- `date && date.getTime() < Date.now()`
abbrev pub is_past : Option ℕ → ℕ → Bool
is_past none now = false
is_past (some date) now = ltb date now

-- The `where` of the active holds' sum.
abbrev pub is_open_hold : ℕ → ℕ → WalletHold → Bool
is_open_hold user_id now h = h.user_id == user_id && is_held h.status && ltb now h.expires_at

-- The literal that `holdRepo.create` is called with.
abbrev pub new_hold : ℕ → ℕ → ℕ → ℕ → ℤ → ℕ → WalletHold
new_hold id wallet_id user_id order_id amount now = record {
  id = id;
  wallet_id = wallet_id;
  user_id = user_id;
  order_id = order_id;
  amount_vnd = amount;
  status = held;
  expires_at = add_minutes now hold_minutes;
}

abbrev pub capture_input : ℕ → WalletTransactionInput
capture_input order_id = record {
  source = some (Source.order order_id);
  order_id = some order_id;
  ref_user_id = none;
  idempotency_key = some (IdempotencyKey.redemption_capture order_id);
  reason = some "Use eXu for order payment";
  created_by_admin_id = none;
}

module _ ⦃d : Database⦄ where
  abbrev pub open_holds : ℕ → ℕ → Db → ℤ
  open_holds user_id now db =
      d.repositories.hold.sum (is_open_hold user_id now) (λ h. h.amount_vnd) db.holds

  unfoldable pub get_available_balance_with_manager : ℕ → ℕ → Service ℤ
  get_available_balance_with_manager user_id now = do
    wallet ← get_or_create_wallet_with_manager user_id
    if not (is_active wallet.status)
        then pure (pos 0)
        else if is_past wallet.expires_at now
        then pure (pos 0)
        else do
          active_holds ← gets (open_holds user_id now)
          pure (max_ℤ (pos 0) (wallet.balance_vnd -ℤ active_holds))

  unfoldable pub get_available_balance : ℕ → ℕ → Service ℤ
  get_available_balance user_id now = transactional (get_available_balance_with_manager user_id now)

  -- The transaction of `createHold`, for an order that has no hold yet.
  unfoldable pub reserve : ℕ → ℕ → ℤ → ℕ → Service (Option WalletHold)
  reserve order_id user_id amount now = do
    wallet ← get_or_create_wallet_with_manager user_id
    throw_if (not (is_active wallet.status)) wallet_locked
    available_balance ← get_available_balance_with_manager user_id now
    throw_if (ltb_ℤ available_balance amount) insufficient_balance
    id ← gets (λ db. d.repositories.hold.next_id db.holds)
    let hold = new_hold id wallet.id user_id order_id amount now
    modify (save_hold hold)
    pure (some hold)

  unfoldable pub create_hold : ℕ → ℕ → ℤ → ℕ → Service (Option WalletHold)
  create_hold order_id user_id amount now =
      if leb_ℤ amount (pos 0)
      then pure none
      else transactional do
        existing ← gets (find_hold order_id)
        unless_found existing (reserve order_id user_id amount now) λ hold. pure (some hold)

  -- The transaction of `captureHoldForOrder`, for a hold that is held.
  unfoldable pub capture : WalletHold → ℕ → ℕ → Service (Option WalletTransaction)
  capture hold order_id now = do
    transaction ←
        create_transaction_with_manager hold.user_id redemption_capture (neg hold.amount_vnd)
          (capture_input order_id) now
    modify (save_hold (record hold { status = captured }))
    pure (some transaction)

  unfoldable pub capture_hold_for_order : ℕ → ℕ → Service (Option WalletTransaction)
  capture_hold_for_order order_id now = transactional do
    found ← gets (find_hold order_id)
    unless_found found (pure none) λ hold.
        if is_captured hold.status
        then pure none
        else if not (is_held hold.status)
        then pure none
        else capture hold order_id now

  unfoldable pub release_hold_for_order : ℕ → Service ⊤
  release_hold_for_order order_id = do
    found ← gets (find_hold order_id)
    unless_found found (pure tt) λ hold.
        if not (is_held hold.status)
        then pure tt
        else modify (save_hold (record hold { status = released }))

  -- The job that runs every five minutes.
  unfoldable pub expire_holds : ℕ → Service ⊤
  expire_holds now = modify λ db. record db {
    holds =
        d.repositories.hold.update (λ h. is_held h.status && ltb h.expires_at now)
          (λ h. record h { status = expired }) db.holds;
  }
