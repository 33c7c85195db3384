-- ===== src/Supply.antt =====
-- The supplies: the eSIMs that the suppliers deliver, the submission of orders to them, their callbacks,
-- and the top-ups (src/topup, src/webhooks, src/esims, src/esim-providers).
pub mod Data
pub mod Packages
pub mod Topup
pub mod Execution
pub mod Batches
pub mod Esims
pub mod Matching
pub mod Webhooks
pub mod Assignment
pub mod Requests
pub mod Submission
pub mod Direct
pub mod Units
pub mod Covered
pub mod Giving
pub mod Composed
pub mod Complete
pub mod Queues
pub mod Asked
pub mod Polling
pub mod Links
pub mod Upserts
mod Fixtures
mod Tests
mod OrderTests
mod DirectTests
