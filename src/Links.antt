-- ===== src/Links.antt =====
-- The custom payment links: src/custom-payment-links/custom-payment-links.service.ts, as far as the
-- payment gateway's notifications drive them.
pub mod Service
pub mod Terminal
mod Tests
