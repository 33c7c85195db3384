-- ===== src/Wallets.antt =====
-- The eXu wallet: src/wallets/wallets.service.ts. `Transactions` holds the ledger, `Holds` the amounts
-- that open orders reserve, `Referrals`, `Benefits`, `Refunds` and `Admin` the operations on them.
pub mod Transactions
pub mod Holds
pub mod Referrals
pub mod Benefits
pub mod Refunds
pub mod Admin
pub mod Operations
pub mod Ledger
pub mod Idempotency
pub mod Opened
pub mod Reservations
pub mod Capture
pub mod OneCapture
pub mod RefundParts
pub mod Guards
pub mod Refunded
pub mod Balanced
mod Tests
