-- ===== src/Coupons.antt =====
-- The coupons: src/coupons/coupons.service.ts and the updates of its repository.
pub mod Service
pub mod Limits
pub mod Usage
mod Tests
