-- ===== src/Chat.antt =====
-- The chat of a buyer with the shop: src/chat.
pub mod Data
pub mod Gateway
pub mod Readers
pub mod Private
pub mod Events
mod Tests
