-- ===== src/Sync.antt =====
-- The import of the plans of a supplier.
pub mod Data
pub mod Labels
pub mod Plans
pub mod Places
pub mod Airalo
pub mod Kept
pub mod Imported
pub mod Completed
pub mod Outcome
pub mod Pages
mod Tests
