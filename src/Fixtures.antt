-- ===== src/Fixtures.antt =====
-- A database that lives in lists, for the tests: every law that the services assume holds of it.
use esim_backend.Base.{
  ℕ, ◌≡◌, Bool, true, false, ◌&&◌, Option, none, some, List, [], ◌∷◌, ok, arith, ◌==◌, ==_iff,
}
use esim_backend.Base.Int.{pos}
use esim_backend.Base.Text.{text, eqb, eqb_iff}
use esim_backend.Entities.{
  Order, OrderStatus, IdempotencyKey, redemption_capture, order_cashback_reversal,
  referral_reward_reversal, refund_exu_return, wallet_expiry, OrderItemRow,
}
use esim_backend.Storage.Memory.{repository, journal, data_source}
use esim_backend.Database.{Repositories, Database, Db}
use mathlib.Core.Logic.{◌↔◌}

abbrev pub same_date : Option ℕ → Option ℕ → Bool
same_date none none = true
same_date (some a) (some b) = a == b
same_date _ _ = false

abbrev pub same_key : IdempotencyKey → IdempotencyKey → Bool
same_key (redemption_capture a) (redemption_capture b) = a == b
same_key (IdempotencyKey.order_cashback a) (IdempotencyKey.order_cashback b) = a == b
same_key (IdempotencyKey.referral_reward a) (IdempotencyKey.referral_reward b) = a == b
same_key (order_cashback_reversal a) (order_cashback_reversal b) = a == b
same_key (referral_reward_reversal a) (referral_reward_reversal b) = a == b
same_key (refund_exu_return a) (refund_exu_return b) = a == b
same_key (IdempotencyKey.refund_to_wallet a) (IdempotencyKey.refund_to_wallet b) = a == b
same_key (wallet_expiry a e) (wallet_expiry b f) = a == b && same_date e f
same_key _ _ = false

pub same_key_iff : (a b : IdempotencyKey) → (same_key a b ≡ true) ↔ (a ≡ b)
same_key_iff (redemption_capture a) b = ground arith
same_key_iff _ b = ground arith

abbrev pub in_memory : Repositories
in_memory = record {
  wallet = repository ◌==◌ (λ w. w.user_id) ==_iff;
  transaction = journal same_key (λ t. t.idempotency_key) same_key_iff;
  hold = repository ◌==◌ (λ h. h.order_id) ==_iff;
  order_referral = repository ◌==◌ (λ r. r.order_id) ==_iff;
  order_refund = repository ◌==◌ (λ r. r.id) ==_iff;
  referral_profile = repository eqb (λ p. p.code) eqb_iff;
  order = repository ◌==◌ (λ o. o.id) ==_iff;
  coupon = repository eqb (λ c. c.code) eqb_iff;
  custom_link = repository eqb (λ l. l.virtual_order_id) eqb_iff;
  Esims = ℕ;
  OrderItems = List OrderItemRow;
  create_order_item = λ row rows. row ∷ rows;
  mark_refunded_by_order_id = λ order_id esims. (ok 1, esims);
}

instance abbrev pub memory : Database
memory = record { repositories = in_memory; source = data_source }

-- Tables with no row.
abbrev pub empty : Db
empty = record {
  wallets = [];
  transactions = [];
  holds = [];
  order_referrals = [];
  order_refunds = [];
  referral_profiles = [];
  orders = [];
  coupons = [];
  custom_links = [];
  esims = 0;
  order_items = [];
}

-- Order 3 of user 7: 300 in cash and 200 from the wallet, paid.
abbrev pub order_3 : Order
order_3 = record {
  id = 3;
  user_id = 7;
  order_number = text "ORD-3";
  status = OrderStatus.paid;
  total_amount = pos 200;
  currency = "USD";
  payment_method = none;
  payment_id = none;
  coupon_code = none;
  discount_amount = pos 0;
  vnd_price = pos 300;
  vnd_cost_price = pos 100;
  subtotal_vnd_price = pos 500;
  coupon_discount_vnd_amount = pos 0;
  referral_code = none;
  referrer_user_id = none;
  referral_discount_vnd_amount = pos 0;
  wallet_spent_vnd_amount = pos 200;
  payable_vnd_price = pos 300;
  cashback_amount_vnd = pos 10;
  cashback_transaction_id = none;
  cashback_reversed_at = none;
  refund_status = none;
  refunded_amount_vnd = pos 0;
  created_at = 1000;
}
