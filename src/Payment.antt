-- ===== src/Payment.antt =====
-- The payment gateway's notifications: src/payment/payment.service.ts and onepay.service.ts.
pub mod Notifications
pub mod Settlement
pub mod Checkout
mod Tests
