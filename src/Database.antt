-- ===== src/Database.antt =====
-- The tables that the wallet, order and coupon services share, the exceptions that they throw, and
-- the effect of their methods.
use esim_backend.Base.{
  ℕ, ◌==◌, Option, none, some, List, [], ◌∷◌, Result, ok, err, ⊤, Action, modify,
}
use esim_backend.Base.Text.{Text, eqb}
use esim_backend.Base.Keeps.{Keeps}
use esim_backend.Storage.Interface.{Repository, Journal, DataSource, settle}
use esim_backend.Entities.{
  UserWallet, WalletTransaction, WalletHold, OrderReferral, OrderRefund, UserReferralProfile, Order,
  Coupon, CustomPaymentLink, IdempotencyKey, OrderItemRow,
}

-- One for each `throw`, named after its message.
pub data Exception : Type 0 where
  zero_transaction_amount : Exception
  wallet_locked : Exception
  insufficient_balance : Exception
  zero_adjustment : Exception
  order_not_refundable : Exception
  negative_refund : Exception
  refund_exceeds_remaining : Exception
  referral_with_coupon : Exception
  referral_below_minimum : Exception
  referral_code_not_found : Exception
  referrer_wallet_locked : Exception
  own_referral_code : Exception
  not_first_order : Exception
  referral_already_used : Exception
  order_not_found : ℕ → Exception
  not_order_owner : Exception
  order_not_pending : Exception
  coupon_not_found : Exception
  coupon_inactive : Exception
  coupon_expired : Exception
  coupon_usage_limit : Exception
  coupon_user_limit : Exception
  coupon_minimum_order : Exception
  coupon_code_exists : Exception
  plan_not_found : ℕ → Exception
  unsupported_currency amount_not_positive : Exception
  -- what a call outside the services rejects with
  foreign : Exception

-- The repositories that NestJS injects.
pub record Repositories : Type 1 where
  pub wallet : Repository ℕ UserWallet ◌==◌ λ w. w.user_id
  pub transaction : Journal IdempotencyKey WalletTransaction λ t. t.idempotency_key
  pub hold : Repository ℕ WalletHold ◌==◌ λ h. h.order_id
  pub order_referral : Repository ℕ OrderReferral ◌==◌ λ r. r.order_id
  pub order_refund : Repository ℕ OrderRefund ◌==◌ λ r. r.id
  pub referral_profile : Repository Text UserReferralProfile eqb λ p. p.code
  pub order : Repository ℕ Order ◌==◌ λ o. o.id
  pub coupon : Repository Text Coupon eqb λ c. c.code
  pub custom_link : Repository Text CustomPaymentLink eqb λ l. l.virtual_order_id
  -- the eSIMs and order items, of which only this update is used: `esimsService.markRefundedByOrderId`
  pub Esims : Type 0
  -- the rows of the order items, of which only the insert is used: `orderItemsService.create`
  pub OrderItems : Type 0
  pub create_order_item : OrderItemRow → OrderItems → OrderItems
  pub mark_refunded_by_order_id : ℕ → Esims → Result Exception ℕ × Esims

-- The state: what each table holds.
pub record Tables (r : Repositories) : Type 0 where
  pub wallets : r.wallet.Table
  pub transactions : r.transaction.Table
  pub holds : r.hold.Table
  pub order_referrals : r.order_referral.Table
  pub order_refunds : r.order_refund.Table
  pub referral_profiles : r.referral_profile.Table
  pub orders : r.order.Table
  pub coupons : r.coupon.Table
  pub custom_links : r.custom_link.Table
  pub esims : r.Esims
  pub order_items : r.OrderItems

-- The repositories and the data source, which each service takes.
pub record Database : Type 1 where
  pub repositories : Repositories
  pub source : DataSource Exception (Tables repositories)

abbrev pub Db : ⦃d : Database⦄ → Type 0
Db ⦃d⦄ = Tables d.repositories

abbrev pub Service : ⦃d : Database⦄ → Type 0 → Type 0
Service ⦃d⦄ A = Action Exception Db A

-- The row that `findOne` takes of those that it selects.
abbrev pub first : {A : Type 0} → List A → Option A
first [] = none
first (a ∷ as') = some a

module _ ⦃d : Database⦄ where
  abbrev pub find_wallet : ℕ → Db → Option UserWallet
  find_wallet u db = d.repositories.wallet.find_one u db.wallets

  abbrev pub find_transaction : IdempotencyKey → Db → Option WalletTransaction
  find_transaction k db = d.repositories.transaction.find_one k db.transactions

  abbrev pub find_hold : ℕ → Db → Option WalletHold
  find_hold o db = d.repositories.hold.find_one o db.holds

  abbrev pub find_order_referral : ℕ → Db → Option OrderReferral
  find_order_referral o db = d.repositories.order_referral.find_one o db.order_referrals

  abbrev pub find_order : ℕ → Db → Option Order
  find_order o db = d.repositories.order.find_one o db.orders

  abbrev pub find_coupon : Text → Db → Option Coupon
  find_coupon c db = d.repositories.coupon.find_one c db.coupons

  abbrev pub find_custom_link : Text → Db → Option CustomPaymentLink
  find_custom_link v db = d.repositories.custom_link.find_one v db.custom_links

  -- `orderRepository.findByOrderNumber`
  abbrev pub find_by_order_number : Text → Db → Option Order
  find_by_order_number n db =
      first (d.repositories.order.find (λ o. eqb o.order_number n) db.orders)

  abbrev pub find_referral_profile : Text → Db → Option UserReferralProfile
  find_referral_profile c db = d.repositories.referral_profile.find_one c db.referral_profiles

  abbrev pub save_wallet : UserWallet → Db → Db
  save_wallet w db = record db { wallets = d.repositories.wallet.save w db.wallets }

  abbrev pub insert_transaction : WalletTransaction → Db → Db
  insert_transaction t db = record db {
    transactions = d.repositories.transaction.insert t db.transactions;
  }

  abbrev pub save_hold : WalletHold → Db → Db
  save_hold h db = record db { holds = d.repositories.hold.save h db.holds }

  abbrev pub save_order_referral : OrderReferral → Db → Db
  save_order_referral r db = record db {
    order_referrals = d.repositories.order_referral.save r db.order_referrals;
  }

  abbrev pub save_order_refund : OrderRefund → Db → Db
  save_order_refund r db = record db {
    order_refunds = d.repositories.order_refund.save r db.order_refunds;
  }

  abbrev pub save_order : Order → Db → Db
  save_order o db = record db { orders = d.repositories.order.save o db.orders }

  abbrev pub save_coupon : Coupon → Db → Db
  save_coupon c db = record db { coupons = d.repositories.coupon.save c db.coupons }

  -- `orderRepository.update(id, …)`
  abbrev pub update_order : ℕ → (Order → Order) → Db → Db
  update_order id f db = record db {
    orders = d.repositories.order.update (λ o. o.id == id) f db.orders;
  }

  abbrev pub mark_refunded_by_order_id : ℕ → Service ℕ
  mark_refunded_by_order_id order_id db =
      let (r, esims) = d.repositories.mark_refunded_by_order_id order_id db.esims in
      (r, record db { esims = esims })

  abbrev pub create_order_item : OrderItemRow → Service ⊤
  create_order_item row =
      modify λ db. record db { order_items = d.repositories.create_order_item row db.order_items }

  -- `dataSource.transaction`
  abbrev pub transactional : {A : Type 0} → Service A → Service A
  transactional {A} m = d.source.transaction A m

  pub Keeps-transactional :
      {A : Type 0} {P : Db → Type 0} (m : Service A) → Keeps P m → Keeps P (transactional m)
  Keeps-transactional {A} {P = P} m k = record {
    kept = λ db h. rw (d.source.transaction_lem A m db) (settled (m db) db h (k.kept db h));
  }
    where
      settled : (out : Result Exception A × Db) (db : Db) → P db → P out.1 → P (settle db out).1
      settled (ok a, db') db h h' = h'
      settled (err e, db') db h h' = h
