-- ===== src/Entities.antt =====
-- The rows of the tables and the enumerations: src/wallets/wallets.enum.ts, the entities of
-- src/wallets/infrastructure, src/orders/domain/order.ts and src/coupons/domain/coupon.ts.
-- Amounts in VND have scale 0 in the database and are integers here; ids are numbers; a date is the
-- number of its milliseconds. Relations, columns that no modelled method reads (`metadata`, those of
-- the top-ups) and columns that only record when a row was written are left out, but for
-- the order's `createdAt`, which the expiry job reads. Amounts in US dollars are in cents.
use Prim.Native.String.{String}
use esim_backend.Base.{ℕ, Bool, true, false, Option, none, some, ◌==◌}
use esim_backend.Base.Int.{ℤ}
use esim_backend.Base.Text.{Text}

pub data WalletStatus : Type 0 where
  active locked : WalletStatus

pub data WalletTransactionType : Type 0 where
  order_cashback order_cashback_reversal referral_reward : WalletTransactionType
  referral_reward_reversal refund_to_wallet manual_credit : WalletTransactionType
  manual_debit manual_cancel redemption_capture : WalletTransactionType
  redemption_release expiry_debit : WalletTransactionType

pub data WalletHoldStatus : Type 0 where
  held captured released expired : WalletHoldStatus

pub data OrderReferralStatus : Type 0 where
  pending credited reversed : OrderReferralStatus

pub data OrderRefundMode : Type 0 where
  wallet direct_bank : OrderRefundMode

pub data OrderRefundStatus : Type 0 where
  completed cancelled : OrderRefundStatus

-- The column is a string; these are the values that the services test or write.
pub data OrderStatus : Type 0 where
  pending paid failed refunded completed manual_intervention : OrderStatus
  other : Text → OrderStatus

-- The idempotency keys are strings of a literal prefix and ids; a constructor stands for each prefix,
-- so that two keys are equal exactly when the strings are.
pub data IdempotencyKey : Type 0 where
  redemption_capture order_cashback referral_reward : ℕ → IdempotencyKey
  order_cashback_reversal referral_reward_reversal : ℕ → IdempotencyKey
  refund_exu_return refund_to_wallet : ℕ → IdempotencyKey
  wallet_expiry : ℕ → Option ℕ → IdempotencyKey

-- `sourceType` and `sourceId` together.
pub data Source : Type 0 where
  order order_referral order_refund admin : ℕ → Source
  -- the date, or the wallet's id where there is none
  expiry expiry_of_wallet : ℕ → Source

pub record UserWallet : Type 0 where
  pub id : ℕ
  pub user_id : ℕ
  pub balance_vnd : ℤ
  pub status : WalletStatus
  pub expires_at : Option ℕ

pub record WalletTransaction : Type 0 where
  pub id : ℕ
  pub wallet_id : ℕ
  pub user_id : ℕ
  pub type : WalletTransactionType
  pub amount_vnd : ℤ
  pub balance_after_vnd : ℤ
  pub source : Option Source
  pub order_id : Option ℕ
  pub ref_user_id : Option ℕ
  pub idempotency_key : Option IdempotencyKey
  pub reason : Option String
  pub created_by_admin_id : Option ℕ

pub record WalletHold : Type 0 where
  pub id : ℕ
  pub wallet_id : ℕ
  pub user_id : ℕ
  pub order_id : ℕ
  pub amount_vnd : ℤ
  pub status : WalletHoldStatus
  pub expires_at : ℕ

pub record OrderReferral : Type 0 where
  pub id : ℕ
  pub order_id : ℕ
  pub referrer_user_id : ℕ
  pub referee_user_id : ℕ
  pub referral_code : Text
  pub buyer_discount_vnd : ℤ
  pub reward_vnd : ℤ
  pub status : OrderReferralStatus
  pub reward_transaction_id : Option ℕ
  pub reversed_transaction_id : Option ℕ

pub record OrderRefund : Type 0 where
  pub id : ℕ
  pub order_id : ℕ
  pub user_id : ℕ
  pub mode : OrderRefundMode
  pub amount_vnd : ℤ
  pub status : OrderRefundStatus
  pub reason : Option String
  pub admin_note : Option String
  pub wallet_transaction_id : Option ℕ
  pub created_by_admin_id : Option ℕ

pub record UserReferralProfile : Type 0 where
  pub id : ℕ
  pub user_id : ℕ
  pub code : Text
  pub is_active : Bool

pub record Order : Type 0 where
  pub id : ℕ
  pub user_id : ℕ
  pub order_number : Text
  pub status : OrderStatus
  pub total_amount : ℤ
  pub currency : String
  pub payment_method : Option String
  pub payment_id : Option String
  pub coupon_code : Option Text
  pub discount_amount : ℤ
  pub vnd_price : ℤ
  pub vnd_cost_price : ℤ
  pub subtotal_vnd_price : ℤ
  pub coupon_discount_vnd_amount : ℤ
  pub referral_code : Option Text
  pub referrer_user_id : Option ℕ
  pub referral_discount_vnd_amount : ℤ
  pub wallet_spent_vnd_amount : ℤ
  pub payable_vnd_price : ℤ
  pub cashback_amount_vnd : ℤ
  pub cashback_transaction_id : Option ℕ
  pub cashback_reversed_at : Option ℕ
  pub refund_status : Option OrderRefundStatus
  pub refunded_amount_vnd : ℤ
  pub created_at : ℕ

-- `discountPercent` in hundredths of a percent, `minOrderAmount` in hundredths of a VND (the columns
-- have scale 2).
pub record Coupon : Type 0 where
  pub id : ℕ
  pub code : Text
  pub discount_percent : ℕ
  pub max_usage : Option ℕ
  pub max_usage_per_user : Option ℕ
  pub usage_count : ℕ
  pub min_order_amount : Option ℕ
  pub expires_at : Option ℕ
  pub is_active : Bool
  pub is_popular : Bool

pub data CustomPaymentLinkStatus : Type 0 where
  pending paid failed : CustomPaymentLinkStatus

-- `amount` is in VND. The e-mail, description, currency (always VND), URL and creator are left out.
pub record CustomPaymentLink : Type 0 where
  pub id : ℕ
  pub virtual_order_id : Text
  pub amount : ℤ
  pub status : CustomPaymentLinkStatus
  pub payment_id : Option String

-- What the pricing reads of a plan: the price in cents, the discount in hundredths of a percent.
pub record Plan : Type 0 where
  pub id : ℕ
  pub price : ℤ
  pub vnd_price : Option ℤ
  pub discount : Option ℤ
  pub is_local_inventory : Bool
  -- in 1/10000 (the column has scale 4) of a dollar, or of a VND for the local inventory
  pub cost_price : ℤ
  pub provider : Text

-- A row of `order_item`, as an order is created; `price` in cents.
pub record OrderItemRow : Type 0 where
  pub order_id : ℕ
  pub plan_id : ℕ
  pub price : ℤ
  pub currency : String
  pub quantity : ℕ
  pub vnd_price : ℤ
  pub vnd_cost_price : ℤ
  pub period_num : Option ℕ

-- The tests `status === …` and the truth value of a nullable number.
abbrev pub is_active : WalletStatus → Bool
is_active active = true
is_active locked = false

abbrev pub is_held : WalletHoldStatus → Bool
is_held held = true
is_held _ = false

abbrev pub is_captured : WalletHoldStatus → Bool
is_captured captured = true
is_captured _ = false

abbrev pub is_pending_referral : OrderReferralStatus → Bool
is_pending_referral pending = true
is_pending_referral _ = false

abbrev pub is_credited : OrderReferralStatus → Bool
is_credited credited = true
is_credited _ = false

abbrev pub is_pending : OrderStatus → Bool
is_pending pending = true
is_pending _ = false

abbrev pub is_pending_link : CustomPaymentLinkStatus → Bool
is_pending_link pending = true
is_pending_link _ = false

abbrev pub is_paid : OrderStatus → Bool
is_paid paid = true
is_paid _ = false

abbrev pub is_refundable : OrderStatus → Bool
is_refundable paid = true
is_refundable refunded = true
is_refundable _ = false

abbrev pub is_wallet : OrderRefundMode → Bool
is_wallet wallet = true
is_wallet direct_bank = false

abbrev pub is_null : Option ℕ → Bool
is_null none = true
is_null (some n) = false

abbrev pub is_falsy : Option ℕ → Bool
is_falsy none = true
is_falsy (some n) = n == 0
