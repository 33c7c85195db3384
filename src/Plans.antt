-- ===== src/Plans.antt =====
-- The prices of the plans: src/plans/plans.service.ts and its repository.
pub mod Prices
pub mod Tiered
mod Tests
