-- ===== src/Wallets/Tests.antt =====
-- Runs of the wallets service on small tables, and the theorems at them.
use esim_backend.Base.{
  ℕ, true, false, ◌==◌, ◌>>=◌, if◌then◌else◌, ◌≡◌, refl, ap, ok, arith, [], ◌∷◌, none, some,
}
use mathlib.Core.Logic.{◌↔◌}
use esim_backend.Base.Int.{pos, negsuc, ◌+ℤ◌, ◌-ℤ◌, ◌≤ℤ◌, ◌*ℤ◌, neg, round_div, round_div_ℤ}
use esim_backend.Entities.{
  UserWallet, WalletHold, WalletHoldStatus, WalletTransaction, OrderRefund, UserReferralProfile,
  is_refundable, direct_bank, active, manual_credit, manual_debit, IdempotencyKey,
}
use esim_backend.Fixtures.{memory, empty, order_3}
use esim_backend.Wallets.Transactions.{
  WalletTransactionInput, create_transaction, create_transaction_with_manager, post_transaction,
  get_or_create_wallet_with_manager, should_reset_expiry, add_days,
}
use esim_backend.Database.{Db, find_hold}
use esim_backend.Wallets.Holds.{new_hold, open_holds, create_hold, capture_hold_for_order}
use esim_backend.Wallets.Capture.{capture_hold_for_order_held}
use esim_backend.Wallets.OneCapture.{capture_hold_for_order_once}
use esim_backend.Wallets.Refunded.{IsRefunded, refund_order-IsRefunded}
use esim_backend.Wallets.Refunds.{
  RefundOrderDto, exu_refund_amount, total_order_value, refund_order,
}
use esim_backend.Wallets.Referrals.{
  ReferralValidationResult, check_referrer, validate_referral_for_order,
}
use esim_backend.Wallets.Guards.{IsAllowed, validate_referral_for_order-IsAllowed}
use esim_backend.Base.Text.{text, trim, to_upper}
use esim_backend.Wallets.Reservations.{create_hold_branches, create_hold_covered}
use esim_backend.Wallets.Ledger.{balance}
use esim_backend.Wallets.Idempotency.{create_transaction_once, create_transaction_effect}

abbrev input : WalletTransactionInput
input = record {
  source = none;
  order_id = none;
  ref_user_id = none;
  idempotency_key = some (IdempotencyKey.order_cashback 4);
  reason = none;
  created_by_admin_id = none;
}

create_transaction_once_example :
    create_transaction 7 manual_debit
      (negsuc 4)
      input
      9
      (create_transaction 7 manual_credit (pos 5) input 3 empty).1
    ≡ create_transaction 7 manual_credit (pos 5) input 3 empty
create_transaction_once_example =
    create_transaction_once (IdempotencyKey.order_cashback 4) 7 manual_credit (pos 5) input 3 7
      manual_debit (negsuc 4) input 9 empty refl refl (λ h. cc h) (λ h. cc h)

abbrev wallet_7 : UserWallet
wallet_7 = record { id = 1; user_id = 7; balance_vnd = pos 500; status = active; expires_at = none }

-- The wallet of user 7 holds 500.
abbrev funded : Db
funded = record empty { wallets = wallet_7 ∷ [] }

abbrev hold_3 : WalletHold
hold_3 = new_hold 1 1 7 3 (pos 200) 2000

create_hold_branches_example :
    create_hold 3 7 (pos 200) 2000 funded
    ≡ (ok (some hold_3), record funded { holds = hold_3 ∷ [] })
unfolding ◌-ℤ◌
create_hold_branches_example = create_hold_branches 3 7 (pos 200) 2000 funded refl (omega arith)

held_3 : (create_hold 3 7 (pos 200) 2000 funded).0 ≡ ok (some hold_3)
unfolding ◌-ℤ◌
held_3 = ap (λ out. out.0) (create_hold_branches 3 7 (pos 200) 2000 funded refl (omega arith))

create_hold_covered_example :
    let db' = (create_hold 3 7 (pos 200) 2000 funded).1 in
    (open_holds 7 2000 db' ≡ open_holds 7 2000 funded +ℤ pos 200)
    × (open_holds 7 2000 db' ≤ℤ balance 7 db')
    × ((v : ℕ) → balance v db' ≡ balance v funded)
create_hold_covered_example =
    create_hold_covered 3 7 (pos 200) 2000 funded refl (omega arith) held_3

create_transaction_effect_example :
    (t : WalletTransaction) × ((create_transaction 7 manual_credit (pos 5) input 3 funded).0 ≡ ok t)
    × (t.user_id ≡ 7)
    × (t.amount_vnd ≡ pos 5)
    × (t.balance_after_vnd ≡ balance 7 funded +ℤ pos 5)
    × ((create_transaction 7 manual_credit (pos 5) input 3 funded).1.transactions ≡ t ∷ [])
    × ((v : ℕ)
        → balance v (create_transaction 7 manual_credit (pos 5) input 3 funded).1
          ≡ (if v == 7 then balance 7 funded +ℤ pos 5 else balance v funded))
create_transaction_effect_example =
    create_transaction_effect 7 manual_credit (pos 5) input 3 funded refl (λ h. cc h)

-- User 7 holds 500, of which 200 are held for order 3.
abbrev reserved : Db
reserved = record funded { holds = hold_3 ∷ [] }

capture_hold_for_order_held_example :
    let out = capture_hold_for_order 3 3000 reserved in
    (t : WalletTransaction) × (out.0 ≡ ok (some t))
    × (t.amount_vnd ≡ neg (pos 200))
    × (find_hold 3 out.1 ≡ some (record hold_3 { status = WalletHoldStatus.captured }))
    × ((v : ℕ)
        → balance v out.1 ≡ (if v == 7 then balance 7 reserved -ℤ pos 200 else balance v reserved))
capture_hold_for_order_held_example =
    capture_hold_for_order_held 3 3000 reserved hold_3 refl refl refl (λ h. cc h)

captured_3 : (t : WalletTransaction) × ((capture_hold_for_order 3 3000 reserved).0 ≡ ok (some t))
captured_3 =
    let held = capture_hold_for_order_held 3 3000 reserved hold_3 refl refl refl (λ h. cc h) in
    (held.0, held.1)

capture_hold_for_order_once_example :
    let db' = (capture_hold_for_order 3 3000 reserved).1 in
    capture_hold_for_order 3 4000 db' ≡ (ok none, db')
capture_hold_for_order_once_example = capture_hold_for_order_once 3 3000 4000 reserved captured_3.1

abbrev full_refund : RefundOrderDto
full_refund = record { mode = direct_bank; amount_vnd = pos 500; reason = none; admin_note = none }

abbrev paid_3 : Db
paid_3 = record funded { orders = order_3 ∷ [] }

refunded_3 : (r : OrderRefund) × ((refund_order order_3 full_refund 1 9 paid_3).0 ≡ ok r)
unfolding ◌>>=◌ refund_order create_transaction create_transaction_with_manager post_transaction
    get_or_create_wallet_with_manager exu_refund_amount total_order_value round_div_ℤ round_div ◌+ℤ◌
    ◌-ℤ◌ ◌*ℤ◌ neg should_reset_expiry add_days
refunded_3 = (_, refl)

refund_order-IsRefunded_example :
    (is_refundable order_3.status ≡ true)
    × (pos 0 ≤ℤ full_refund.amount_vnd)
    × IsRefunded order_3 (pos 500) (refund_order order_3 full_refund 1 9 paid_3).1
refund_order-IsRefunded_example =
    refund_order-IsRefunded order_3 full_refund 1 9 paid_3 refl refunded_3.1

abbrev referrer_profile : UserReferralProfile
referrer_profile = record { id = 1; user_id = 8; code = text "EXU8"; is_active = true }

abbrev referring : Db
referring = record empty { referral_profiles = referrer_profile ∷ [] }

abbrev referral_8 : ReferralValidationResult
referral_8 = record {
  referral_code = text "EXU8";
  referrer_user_id = 8;
  buyer_discount_vnd = pos 10_000;
  reward_vnd = pos 10_000;
}

validated_8 :
    (validate_referral_for_order 7 (text " exu8 ") (pos 150_000) false referring).0 ≡ ok referral_8
unfolding ◌>>=◌ validate_referral_for_order check_referrer trim to_upper
validated_8 = refl

validate_referral_for_order-IsAllowed_example :
    ((validate_referral_for_order 7 (text " exu8 ") (pos 150_000) false referring).0
      ≡ ok referral_8)
    ↔ IsAllowed 7 (text " exu8 ") (pos 150_000) false referring referral_8
validate_referral_for_order-IsAllowed_example =
    validate_referral_for_order-IsAllowed 7 (text " exu8 ") (pos 150_000) false referring referral_8

-- The code is allowed in these tables.
referral_8-IsAllowed : IsAllowed 7 (text " exu8 ") (pos 150_000) false referring referral_8
referral_8-IsAllowed =
    (validate_referral_for_order-IsAllowed 7 (text " exu8 ") (pos 150_000) false referring
        referral_8).0
      validated_8
