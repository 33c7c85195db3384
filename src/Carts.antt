-- ===== src/Carts.antt =====
-- The carts: src/carts.
pub mod Service
pub mod Views
pub mod Writes
pub mod Changes
pub mod Refinement
mod Tests
