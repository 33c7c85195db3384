-- ===== src/Storage.antt =====
-- TypeORM as the services use it (a third-party package), and an implementation by lists for tests.
pub mod Interface
pub mod Sums
pub mod Memory
pub mod Rows
pub mod RowLists
