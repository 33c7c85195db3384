-- ===== src/Margins.antt =====
-- The profit margins: src/profit-margins/profit-margins.service.ts and its repository.
pub mod Tiers
pub mod Rows
pub mod Separate
pub mod Updates
mod Tests
